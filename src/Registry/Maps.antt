-- ===== src/Registry/Maps.antt =====
-- The maps of the registry: looking up, erasing and assigning a key.
use structlog.Common.{
  sym, none_ne_some, inr, text_eq→eq, inl, false, Bool-cases, ◌∙◌, ℕ, List, ◌∷◌, [], ◌≡◌, ◌≢◌, refl,
  none, text_eq,
}
use structlog.Registry.{Map, find, erase, assign}
use structlog.Registry.Apply.{find-first, find-later, find-skip}

pub text_ne : (j k : List ℕ) → j ≢ k → text_eq j k ≡ false
text_ne j k ne = elim (Bool-cases (text_eq j k)) [
  | inl e ↦ absurd (ne (text_eq→eq j k e))
  | inr e ↦ e
]

module _ {A : Type 0} where
  pub find-erase_self : (k : List ℕ) (m : Map A) → find k (erase k m) ≡ none
  find-erase_self k [] = refl
  find-erase_self k ((j, a) ∷ m) = elim (Bool-cases (text_eq k j)) [
    | inl e ↦ rw e (find-erase_self k m)
    | inr e ↦ rw (e, e) (find-erase_self k m)
  ]

  pub find-erase-none : (k j : List ℕ) (m : Map A) → find j m ≡ none → find j (erase k m) ≡ none
  find-erase-none k j [] e = refl
  find-erase-none k j ((i, a) ∷ m) e = elim (Bool-cases (text_eq k i)) [
    | inl t ↦ rw t (find-erase-none k j m (find-skip j i a m e).1)
    | inr t ↦ elim (Bool-cases (text_eq j i)) [
      | inl u ↦ absurd (none_ne_some (sym e ∙ find-first j i a m u))
      | inr u ↦ rw (t, u) (find-erase-none k j m (find-skip j i a m e).1)
    ]
  ]

  pub find-erase_ne : (k j : List ℕ) (m : Map A) → j ≢ k → find j (erase k m) ≡ find j m
  find-erase_ne k j [] ne = refl
  find-erase_ne k j ((i, a) ∷ m) ne = elim (Bool-cases (text_eq k i)) [
    | inl t ↦ elim (Bool-cases (text_eq j i)) [
      | inl u ↦ absurd (ne (text_eq→eq j i u ∙ sym (text_eq→eq k i t)))
      | inr u ↦ rw (t, u) (find-erase_ne k j m ne)
    ]
    | inr t ↦ elim (Bool-cases (text_eq j i)) [
      | inl u ↦ rw (t, u)
      | inr u ↦ rw (t, u) (find-erase_ne k j m ne)
    ]
  ]

  pub find-assign_ne : (k j : List ℕ) (a : A) (m : Map A) → j ≢ k → find j (assign k a m) ≡ find j m
  find-assign_ne k j a m ne = find-later j k a (erase k m) (text_ne j k ne) ∙ find-erase_ne k j m ne
