-- ===== src/Config.antt =====
-- include/spdlog/cfg/helpers-inl.h: the levels of loggers read from a text such as
-- "info,net=debug". The order in which an unordered map is walked does not matter to the levels
-- that result.
pub mod Pairs
mod Tests
use structlog.Common.{
  codes, text_eq, ◌-◌, ◌+◌, not, ◌>>=◌, ltb, ◌&&◌, ◌||◌, length, leb, false, ◌++◌, some, [], ◌==◌,
  if◌then◌else◌, Option, true, ◌∷◌, none, List, ℕ, Bool,
}
use structlog.Level.{is_off, Level, from_str}
use structlog.Registry.{Map, Registry, Store, assign, set_levels}

abbrev lower : ℕ → ℕ
lower ch = if leb b'A' ch && leb ch b'Z' then ch + (b'a' - b'A') else ch

abbrev pub to_lower : List ℕ → List ℕ
to_lower [] = []
to_lower (ch ∷ str) = lower ch ∷ to_lower str

abbrev pub is_space : ℕ → Bool
is_space c = (c == b' ') || (c == b'\n') || (c == b'\r') || (c == b'\t')

-- The text from its first character on that is no space, as after `find_first_not_of`.
abbrev pub trim_front : List ℕ → List ℕ
trim_front [] = []
trim_front (c ∷ str) = if is_space c then trim_front str else c ∷ str

-- A character in front of what is kept behind it.
abbrev pub keep_text : ℕ → List ℕ → List ℕ
keep_text c [] = if is_space c then [] else c ∷ []
keep_text c (x ∷ xs) = c ∷ x ∷ xs

-- The text up to its last character that is no space, as after `find_last_not_of`.
abbrev pub trim_back : List ℕ → List ℕ
trim_back [] = []
trim_back (c ∷ str) = keep_text c (trim_back str)

abbrev pub trim : List ℕ → List ℕ
trim str = trim_front (trim_back str)

-- The texts before and behind the first separator, if there is one.
abbrev pub cut : ℕ → List ℕ → Option (List ℕ × List ℕ)
cut sep [] = none
cut sep (c ∷ str) =
    let rest = cut sep str in if c == sep then some ([], str) else rest >>= λ p. some (c ∷ p.0, p.1)

unfoldable pub extract_kv : ℕ → List ℕ → List ℕ × List ℕ
extract_kv sep str = elim (cut sep str) [
  | none ↦ (trim [], trim str)
  | some p ↦ (trim p.0, trim p.1)
]

-- The tokens that `getline` reads of a text; `token` is what has been read of the next one.
abbrev pub tokens : List ℕ → List ℕ → List (List ℕ)
tokens [] [] = []
tokens [] (x ∷ xs) = (x ∷ xs) ∷ []
tokens (c ∷ str) token =
    let next = tokens str [] in
    let more = tokens str (token ++ c ∷ []) in if c == b',' then token ∷ next else more

abbrev pub add_pairs : List (List ℕ) → Map (List ℕ) → Map (List ℕ)
add_pairs [] rv = rv
add_pairs ([] ∷ ts) rv = add_pairs ts rv
add_pairs ((c ∷ t) ∷ ts) rv =
    add_pairs ts (assign (extract_kv b'=' (c ∷ t)).0 (extract_kv b'=' (c ∷ t)).1 rv)

unfoldable pub extract_key_vals : List ℕ → Map (List ℕ)
unfolding extract_kv
extract_key_vals str = add_pairs (tokens str []) []

-- The loop over the pairs: the levels by name, and the global level if one was found.
collect : Map (List ℕ) → Map Level → Option Level → Map Level × Option Level
collect [] levels global_level = (levels, global_level)
collect ((logger_name, value) ∷ key_vals) levels global_level =
    let level_name = to_lower value in
    let level = from_str level_name in
    let skipped = collect key_vals levels global_level in
    let global = collect key_vals levels (some level) in
    let named = collect key_vals (assign logger_name level levels) global_level in
    if is_off level && not (text_eq level_name (codes "off"))
    then skipped
    else if text_eq logger_name []
    then global
    else named

pub load_levels : {F H : Type 0} → List ℕ → Registry F H → Store F H → Registry F H × Store F H
unfolding extract_key_vals collect
load_levels input reg st =
    if (length input == 0) || ltb 512 (length input)
    then (reg, st)
    else (let (levels, global_level) = collect (extract_key_vals input) [] none in
        set_levels levels global_level reg st)
