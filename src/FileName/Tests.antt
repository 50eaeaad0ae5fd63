-- ===== src/FileName/Tests.antt =====
-- Names of log files.
use structlog.Common.{◌≡◌, [], refl, codes}
use structlog.FmtHelper.Printer.{printer}
use structlog.FileName.{dir_name, split_by_extension, split_at, rfind, calc_filename}

-- The examples in the comments of the source.
splits :
    (split_by_extension (codes "mylog.txt") ≡ (codes "mylog", codes ".txt"))
    × (split_by_extension (codes "mylog.") ≡ (codes "mylog.", []))
    × (split_by_extension (codes ".mylog") ≡ (codes ".mylog", []))
    × (split_by_extension (codes "my_folder/.mylog") ≡ (codes "my_folder/.mylog", []))
    × (split_by_extension (codes "my_folder/.mylog.txt") ≡ (codes "my_folder/.mylog", codes ".txt"))
    × (dir_name (codes "abc/file") ≡ codes "abc")
    × (calc_filename printer (codes "logs/mylog.txt") 3 ≡ codes "logs/mylog.3.txt")
unfolding split_by_extension split_at rfind dir_name calc_filename printer
splits = (refl, refl, refl, refl, refl, refl, refl)
