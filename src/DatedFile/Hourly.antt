-- ===== src/DatedFile/Hourly.antt =====
-- include/spdlog/sinks/hourly_file_sink.h.
use structlog.Common.{ℕ, Bool, Option, List, ◌∷◌, ◌++◌, if◌then◌else◌}
use structlog.Common.Int.{ℤ, pos, ◌+ℤ◌, ltb_ℤ}
use structlog.FmtHelper.{Fmt}
use structlog.FileName.{split_by_extension}
use structlog.FileHelper.{Os}
use structlog.Pattern.Time.{Tm}
use structlog.DatedFile
use structlog.DatedFile.{DatedFileSink}
use structlog.DatedFile.Daily.{Calendar, hours, now_tm, from_time_t}

module _ (fmt : Fmt) (format_04 : ℤ → List ℕ) where
  -- "{}_{:04d}-{:02d}-{:02d}_{:02d}{}"
  unfoldable pub calc_filename : List ℕ → Tm → List ℕ
  calc_filename filename now_tm =
      let (basename, ext) = split_by_extension filename in
      basename
      ++ b'_'
        ∷ (format_04 (now_tm.tm_year +ℤ pos 1900)
            ++ b'-'
              ∷ (fmt.format_02 (now_tm.tm_mon +ℤ pos 1)
                  ++ b'-'
                    ∷ (fmt.format_02 now_tm.tm_mday
                        ++ b'_' ∷ (fmt.format_02 now_tm.tm_hour ++ ext))))

-- The class, over the calculator that is its parameter.
module _ (calendar : Calendar) (calc : List ℕ → Tm → List ℕ) where
  unfoldable pub next_rotation_tp : ℤ → ℤ
  unfolding now_tm from_time_t
  next_rotation_tp now =
      let date = record (now_tm calendar now) { tm_min = pos 0; tm_sec = pos 0 } in
      let rotation_time = from_time_t (calendar.mktime date) in
      if ltb_ℤ now rotation_time then rotation_time else rotation_time +ℤ pos (hours 1)

  abbrev pub name_of : List ℕ → ℤ → List ℕ
  unfolding now_tm
  name_of base_filename tp = calc base_filename (now_tm calendar tp)

  module _ {F : Type 0} (os : Os F) where
    unfoldable pub sink_it : DatedFileSink → ℤ → List ℕ → ℤ → F → Bool × DatedFileSink × F
    unfolding DatedFile.sink_it next_rotation_tp
    sink_it = DatedFile.sink_it os name_of next_rotation_tp

    unfoldable pub create_sink : List ℕ → Bool → ℕ → ℤ → ℤ → ℤ → F → Option (DatedFileSink × F)
    unfolding DatedFile.create_sink next_rotation_tp
    create_sink = DatedFile.create_sink os name_of next_rotation_tp (hours 1)
