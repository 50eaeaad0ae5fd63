-- ===== src/DatedFile/Tests.antt =====
-- Daily sinks on a file system in memory.
use structlog.DatedFile.Existing.{init_filenames_q-Found, Found}
use structlog.DatedFile.Runs.{run-keep_last, started, run}
use structlog.DatedFile.Daily.{from_time_t, hours}
use structlog.CircularQ.Refine.{contents}
use structlog.DatedFile.{delete_old, init_filenames_q, DatedFileSink}
use structlog.CircularQ.{overrun, create, push_back, front, pop_front, full}
use structlog.FileHelper.{remove_if_exists}
use structlog.FileName.{split_by_extension, split_at, rfind}
use structlog.FileHelper.Memory.{memory-Writes, memory-Healthy, memory, Files}
use structlog.FmtHelper.Printer.{printer}
use structlog.DatedFile.Queue.{create-Holds, push_back-Holds, Holds}
use structlog.Common.Int.{◌+ℤ◌, quot_ℤ, pos, scale_ℤ, ℤ}
use structlog.Common.{
  keep_last, refl, ◌≡◌, arith, [], false, ◌||◌, ◌∷◌, text_eq, true, ◌++◌, if◌then◌else◌, List, ℕ,
  codes,
}
use structlog.DatedFile.Daily
use structlog.FileHelper.{Node}
use structlog.Pattern.Time.{zero_tm}
use structlog.DatedFile.Hourly

abbrev four : ℤ → List ℕ
four n = printer.format_int n

-- "app_" and the number of the day.
abbrev calc : List ℕ → ℤ → List ℕ
calc base t = base ++ b'_' ∷ printer.format_int (quot_ℤ t 10)

abbrev next : ℤ → ℤ
next now = scale_ℤ (quot_ℤ now 10) 10 +ℤ pos 10

abbrev name : ℕ → List ℕ
name n = codes "app_" ++ printer.format_int (pos n)

-- A sink that keeps two files.
abbrev sink : DatedFileSink
sink = record {
  base_filename = codes "app";
  rotation_tp = pos 50;
  file_helper = record { fd = true; filename = name 4 };
  truncate = false;
  max_files = 2;
  filenames_q = push_back (push_back (create [] 2) (name 3)) (name 4);
}

abbrev files : Files
files =
    λ p. if text_eq p (name 3) || text_eq p (name 4) then Node.file (codes "old") else Node.nothing

sink-Holds : Holds 2 sink.filenames_q
sink-Holds =
    (push_back-Holds 2 (push_back (create [] 2) (name 3)) (name 4)
      (push_back-Holds 2 (create [] 2) (name 3) (create-Holds 2 (omega arith) (omega arith)).0).0).0

names :
    (Daily.calc_filename printer four
        (codes "d/app.log")
        (record zero_tm { tm_year = pos 126; tm_mon = pos 10; tm_mday = pos 26 })
      ≡ codes "d/app_2026-11-26.log")
    × (Hourly.calc_filename printer four (codes "app.log") (record zero_tm {
      tm_year = pos 126;
      tm_mon = pos 10;
      tm_mday = pos 26;
      tm_hour = pos 18;
    })
        ≡ codes "app_2026-11-26_18.log")
unfolding Daily.calc_filename Hourly.calc_filename printer split_by_extension split_at rfind
names = (refl, refl)

-- After a rotation on the day that the only file is for, the file itself is taken away.
deletes_itself :
    (delete_old memory
        (record sink { max_files = 1; filenames_q = push_back (create [] 1) (name 4) })
        files).2
      (name 4)
    ≡ Node.nothing
unfolding delete_old memory printer remove_if_exists create push_back overrun front pop_front full
deletes_itself = refl

run-keep_last_example :
    contents []
      (run calc next memory sink
        (record { time = pos 52; formatted = codes "m"; now = pos 52 } ∷ [])
        files).0.filenames_q
    ≡ keep_last 2 (
        contents [] sink.filenames_q
        ++ started calc next
            (codes "app")
            (pos 50)
            (record { time = pos 52; formatted = codes "m"; now = pos 52 } ∷ []))
run-keep_last_example =
    run-keep_last memory memory-Healthy.openings memory-Writes calc next
      (record { time = pos 52; formatted = codes "m"; now = pos 52 } ∷ []) sink files (omega arith)
      sink-Holds

init_filenames_q-Found_example :
    Holds 2 (init_filenames_q memory calc 10 (codes "app") 2 (pos 48) files)
    × ((k : ℕ) × Found memory calc 10
          (codes "app")
          2
          k
          (pos 48)
          files
          (contents [] (init_filenames_q memory calc 10 (codes "app") 2 (pos 48) files)))
init_filenames_q-Found_example =
    init_filenames_q-Found memory calc 10 (codes "app") 2 (pos 48) files (omega arith)
