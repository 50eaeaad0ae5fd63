-- ===== src/DatedFile/Daily.antt =====
-- include/spdlog/sinks/daily_file_sink.h. The calls of the C library on the local time, and
-- what fmt prints, are parameters.
use structlog.Common.{◌*◌, ℕ, Bool, Option, none, List, ◌∷◌, ◌++◌, ◌||◌, codes, if◌then◌else◌}
use structlog.Common.Int.{ℤ, pos, ◌+ℤ◌, ltb_ℤ, scale_ℤ}
use structlog.FmtHelper.{Fmt, seconds}
use structlog.FileName.{split_by_extension}
use structlog.FileHelper.{Os}
use structlog.Pattern.Time.{Tm}
use structlog.DatedFile
use structlog.DatedFile.{DatedFileSink}

-- `os::localtime` and `std::mktime`, on numbers of seconds.
pub record Calendar : Type 0 where
  pub localtime : ℤ → Tm
  pub mktime : Tm → ℤ

abbrev pub hours : ℕ → ℕ
hours n = n * 3600000000000

-- `now_tm`, with `to_time_t` of the clock.
unfoldable pub now_tm : Calendar → ℤ → Tm
now_tm calendar tp = calendar.localtime (seconds tp)

-- `log_clock::from_time_t`
unfoldable pub from_time_t : ℤ → ℤ
from_time_t t = scale_ℤ t 1000000000

module _ (fmt : Fmt) (format_04 : ℤ → List ℕ) where
  -- "{}_{:04d}-{:02d}-{:02d}{}"
  unfoldable pub calc_filename : List ℕ → Tm → List ℕ
  calc_filename filename now_tm =
      let (basename, ext) = split_by_extension filename in
      basename
      ++ b'_'
        ∷ (format_04 (now_tm.tm_year +ℤ pos 1900)
            ++ b'-'
              ∷ (fmt.format_02 (now_tm.tm_mon +ℤ pos 1)
                  ++ b'-' ∷ (fmt.format_02 now_tm.tm_mday ++ ext)))

-- `daily_filename_format_calculator`, over fmt's format of a time by a text.
pub format_calc_filename : (List ℕ → Tm → List ℕ) → List ℕ → Tm → List ℕ
format_calc_filename fmt_format filename now_tm =
    fmt_format (codes "{:" ++ (filename ++ codes "}")) now_tm

-- The class, over the one of the calculators that is its parameter.
module _ (calendar : Calendar) (calc : List ℕ → Tm → List ℕ) (rotation_h rotation_m : ℤ) where
  unfoldable pub next_rotation_tp : ℤ → ℤ
  unfolding now_tm from_time_t
  next_rotation_tp now =
      let date = record (now_tm calendar now) {
        tm_hour = rotation_h;
        tm_min = rotation_m;
        tm_sec = pos 0;
      } in
      let rotation_time = from_time_t (calendar.mktime date) in
      if ltb_ℤ now rotation_time then rotation_time else rotation_time +ℤ pos (hours 24)

  abbrev pub name_of : List ℕ → ℤ → List ℕ
  unfolding now_tm
  name_of base_filename tp = calc base_filename (now_tm calendar tp)

  module _ {F : Type 0} (os : Os F) where
    unfoldable pub sink_it : DatedFileSink → ℤ → List ℕ → ℤ → F → Bool × DatedFileSink × F
    unfolding DatedFile.sink_it next_rotation_tp
    sink_it = DatedFile.sink_it os name_of next_rotation_tp

    unfoldable pub create_sink : List ℕ → Bool → ℕ → ℤ → ℤ → ℤ → F → Option (DatedFileSink × F)
    unfolding DatedFile.create_sink next_rotation_tp
    create_sink base_filename truncate max_files now1 now2 now3 f =
        if ltb_ℤ rotation_h (pos 0)
          || (ltb_ℤ (pos 23) rotation_h || (ltb_ℤ rotation_m (pos 0) || ltb_ℤ (pos 59) rotation_m))
        then none
        else DatedFile.create_sink os name_of next_rotation_tp (hours 24) base_filename truncate
            max_files now1 now2 now3 f
