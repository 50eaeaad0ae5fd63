-- ===== src/Level/Names.antt =====
-- Level names and levels: the round trip, and what `from_str` does on any text.
use structlog.Common.{
  zero, suc, ◌∙◌, ◌<◌, sym, inl, inr, inr, suc, text_eq→eq, arith, inl, ◌∷◌, Option-cases, length,
  ◌<◌, [], get_or, some, ◌⊎◌, codes, ℕ, List, ◌≡◌, ◌≢◌, refl,
}
use structlog.Level.{of_index, level_string_views, find_index, Level, to_string_view, from_str}

-- Every level that has a name is read back from that name.
pub from_str-to_string_view : (l : Level) → l ≢ Level.n_levels → from_str (to_string_view l) ≡ l
unfolding from_str to_string_view
from_str-to_string_view Level.trace h = refl
from_str-to_string_view Level.debug h = refl
from_str-to_string_view Level.info h = refl
from_str-to_string_view Level.warn h = refl
from_str-to_string_view Level.err h = refl
from_str-to_string_view Level.critical h = refl
from_str-to_string_view Level.off h = refl
from_str-to_string_view Level.n_levels h = absurd (h refl)

find_index-get_or :
    (xs : List (List ℕ)) (s : List ℕ) (i : ℕ)
    → find_index xs s ≡ some i
    → (s ≡ get_or xs i []) × (i < length xs)
unfolding find_index
find_index-get_or [] s i h = cc
find_index-get_or (x ∷ xs) s zero h = ground (arith, text_eq→eq x s)
find_index-get_or (x ∷ xs) s (suc i) h = ground (arith, text_eq→eq x s, find_index-get_or xs s i)

name-index : (i : ℕ) → i < 7 → to_string_view (of_index i) ≡ get_or level_string_views i []
unfolding to_string_view
name-index zero h = refl
name-index (suc zero) h = refl
name-index (suc (suc zero)) h = refl
name-index (suc (suc (suc zero))) h = refl
name-index (suc (suc (suc (suc zero)))) h = refl
name-index (suc (suc (suc (suc (suc zero))))) h = refl
name-index (suc (suc (suc (suc (suc (suc zero)))))) h = refl
name-index (suc (suc (suc (suc (suc (suc (suc i))))))) h = absurd (omega arith)

-- `from_str` answers the level that a text names, an alias's level, or `off`.
pub from_str_sound :
    (s : List ℕ)
    → (s ≡ to_string_view (from_str s))
      ⊎ ((s ≡ codes "warn") × (from_str s ≡ Level.warn))
      ⊎ ((s ≡ codes "err") × (from_str s ≡ Level.err))
      ⊎ (from_str s ≡ Level.off)
unfolding from_str
from_str_sound s = elim (Option-cases (find_index level_string_views s)) [
  | inl e ↦ ground (arith, text_eq→eq s (codes "warn"), text_eq→eq s (codes "err"))
  | inr (i, e) ↦
      rw (e, from_str)
        (inl
          (let (n, lt) = find_index-get_or level_string_views s i e in n ∙ sym (name-index i lt)))
]
