-- ===== src/Level.antt =====
-- The levels of include/spdlog/common.h and common-inl.h.
use structlog.Common.{
  ℕ, Bool, true, false, Option, some, none, List, [], ◌∷◌, ◌≡◌, codes, text_eq, if◌then◌else◌, leb,
  get_or, suc, ◌+◌, ◌==◌, not,
}
use mathlib.Core.Option
pub mod Names
mod Tests

-- `level::level_enum`; the message's and the thresholds' order is that of the numbers behind it.
pub data Level : Type 0 where
  trace debug info warn err critical off n_levels : Level

abbrev pub rank : Level → ℕ
rank Level.trace = 0
rank Level.debug = 1
rank Level.info = 2
rank Level.warn = 3
rank Level.err = 4
rank Level.critical = 5
rank Level.off = 6
rank Level.n_levels = 7

-- The cast of an index back to the enumeration.
abbrev of_index : ℕ → Level
of_index i =
    get_or
      (Level.trace ∷ Level.debug ∷ Level.info ∷ Level.warn ∷ Level.err ∷ Level.critical ∷ Level.off
        ∷ [])
      i Level.n_levels

-- SPDLOG_LEVEL_NAMES
abbrev pub level_string_views : List (List ℕ)
level_string_views =
    codes "trace"
    ∷ codes "debug"
    ∷ codes "info"
    ∷ codes "warning"
    ∷ codes "error"
    ∷ codes "critical"
    ∷ codes "off"
    ∷ []

-- SPDLOG_SHORT_LEVEL_NAMES
abbrev pub short_level_names : List (List ℕ)
short_level_names =
    codes "T" ∷ codes "D" ∷ codes "I" ∷ codes "W" ∷ codes "E" ∷ codes "C" ∷ codes "O" ∷ []

-- The arrays have no entry for `n_levels`: a read there is out of range, and gives nothing here.
unfoldable pub to_string_view : Level → List ℕ
to_string_view l = get_or level_string_views (rank l) []

unfoldable pub to_short_c_str : Level → List ℕ
to_short_c_str l = get_or short_level_names (rank l) []

-- `std::find` over an array, as the index of the first match.
unfoldable pub find_index : List (List ℕ) → List ℕ → Option ℕ
find_index [] name = none
find_index (x ∷ xs) name =
    let rest = find_index xs name in if text_eq x name then some 0 else Option.map suc rest

unfoldable pub from_str : List ℕ → Level
unfolding find_index
from_str name = elim (find_index level_string_views name) [
  | some i ↦ of_index i
  | none ↦
      if text_eq name (codes "warn")
      then Level.warn
      else if text_eq name (codes "err")
      then Level.err
      else Level.off
]

-- `a >= b` of two levels.
abbrev pub ge : Level → Level → Bool
ge a b = leb (rank b) (rank a)

-- `l == level::off`
abbrev pub is_off : Level → Bool
is_off Level.off = true
is_off _ = false
