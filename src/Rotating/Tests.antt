-- ===== src/Rotating/Tests.antt =====
-- A rotating sink on a file system in memory.
use structlog.Common.{
  suc, text_eq, ◌<◌, List, ◌≤◌, if◌then◌else◌, ◌≡◌, [], ℕ, refl, true, false, codes, arith,
}
use structlog.FmtHelper.Printer.{printer, printer-Decimal}
use structlog.FileName.{split_by_extension, split_at, rfind, calc_filename}
use structlog.FileHelper.{Node}
use structlog.FileHelper.Memory.{
  Files, memory, read_only_names, memory-Posix, memory-Healthy, memory-Writes,
  read_only_names-Posix, read_only_names-Opens,
}
use structlog.Rotating.{RotatingFileSink, rotate, rotate_loop, rename_twice, rename_file, sink_it}
use structlog.Rotating.Rotate.{Sized, rotate-moves, rotate-gives_up, sink_it-Sized}

abbrev sink : RotatingFileSink
sink = record {
  base_filename = codes "a.log";
  max_size = 4;
  max_files = 2;
  current_size = 3;
  file_helper = record { fd = true; filename = codes "a.log" };
}

-- "a.log" has three bytes.
abbrev files : Files
files = λ p. if text_eq p (codes "a.log") then Node.file (codes "one") else Node.nothing

sink-Sized : Sized memory sink files
unfolding memory
sink-Sized = record {
  named = refl;
  at_base = refl;
  bytes = codes "one";
  there = refl;
  sized = refl;
}

rotate-moves_example :
    (f' : Files) × (rotate memory printer sink files ≡ (true, sink, f'))
    × (f' (codes "a.log") ≡ Node.file [])
    × ((i : ℕ) (b : List ℕ)
        → i < 2
        → files (calc_filename printer (codes "a.log") i) ≡ Node.file b
        → f' (calc_filename printer (codes "a.log") (suc i)) ≡ Node.file b)
    × ((i : ℕ) (b : List ℕ)
        → 2 < i
        → files (calc_filename printer (codes "a.log") i) ≡ Node.file b
        → f' (calc_filename printer (codes "a.log") i) ≡ Node.file b)
unfolding memory
rotate-moves_example =
    rotate-moves memory memory-Posix memory-Healthy printer printer-Decimal sink files refl refl

sink_it-Sized_example :
    (s' : RotatingFileSink) × (f' : Files) × (sink_it memory printer sink (codes "two") files
      ≡ (true, s', f'))
    × Sized memory s' f'
    × (s'.current_size ≤ 4)
sink_it-Sized_example =
    sink_it-Sized memory memory-Posix memory-Healthy printer printer-Decimal memory-Writes sink
      (codes "two") files sink-Sized (omega arith)

rotate-gives_up_example :
    (s' : RotatingFileSink) × (f' : Files) × (rotate read_only_names printer sink files
      ≡ (false, s', f'))
    × Sized read_only_names s' f'
    × (s'.current_size ≡ 0)
unfolding rotate_loop rename_twice rename_file read_only_names memory calc_filename
    split_by_extension split_at rfind printer
rotate-gives_up_example =
    rotate-gives_up read_only_names read_only_names-Posix read_only_names-Opens printer sink files
      refl refl refused
  where
    refused : (rotate_loop read_only_names printer (codes "a.log") 2 files).0 ≡ false
    refused = refl
