-- ===== src/FileName.antt =====
-- The names of log files: `dir_name` of include/spdlog/details/os-inl.h, `split_by_extension` of
-- details/file_helper-inl.h and `calc_filename` of sinks/rotating_file_sink-inl.h, on targets whose
-- only folder separator is '/'.
pub mod Split
pub mod Calc
use structlog.Common.Int.{pos}
mod Tests
use mathlib.Core.Option.{some}
use structlog.Common.{
  leb, drop, ◌-◌, suc, length, take, ◌++◌, ◌||◌, [], ◌∷◌, ◌==◌, if◌then◌else◌, Option, none, List,
  ℕ,
}
use structlog.FmtHelper.{Fmt}
use mathlib.Core.Option

-- The place of the last `c` in a text: `rfind`, and `find_last_of` of a single separator.
unfoldable pub rfind : ℕ → List ℕ → Option ℕ
rfind c [] = none
rfind c (x ∷ xs) = elim (rfind c xs) [
  | some i ↦ some (suc i)
  | none ↦ if x == c then some 0 else none
]

pub dir_name : List ℕ → List ℕ
unfolding rfind
dir_name path = elim (rfind b'/' path) [ none ↦ [] | some place ↦ take place path ]

-- The split at the last dot, at `ext_index`, unless it is the first or last character of the name.
unfoldable pub split_at : List ℕ → ℕ → List ℕ × List ℕ
unfolding rfind
split_at fname ext_index =
    if (ext_index == 0) || (ext_index == length fname - 1)
    then (fname, [])
    else elim (rfind b'/' fname) [
      | none ↦ (take ext_index fname, drop ext_index fname)
      | some folder_index ↦
          if leb (ext_index - 1) folder_index
          then (fname, [])
          else (take ext_index fname, drop ext_index fname)
    ]

unfoldable pub split_by_extension : List ℕ → List ℕ × List ℕ
unfolding split_at rfind
split_by_extension fname = elim (rfind b'.' fname) [
  | none ↦ (fname, [])
  | some i ↦ split_at fname i
]

-- "{}.{}{}" of the base name, the index and the extension.
unfoldable pub calc_filename : Fmt → List ℕ → ℕ → List ℕ
unfolding split_by_extension
calc_filename fmt filename index =
    if index == 0
    then filename
    else (let (basename, ext) = split_by_extension filename in
        basename ++ b'.' ∷ (fmt.format_int (pos index) ++ ext))
