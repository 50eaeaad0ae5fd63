-- ===== src/CircularQ/Window.antt =====
-- The items that stand in a vector from a head on, going round at its end.
use structlog.Common.{
  none, some, ◌≤◌, mod-eq_of_lt, get_elem?, ℕ, zero, suc, ◌+◌, ◌%◌, ◌<◌, ◌≡◌, refl, ap, ap₂, ◌∙◌,
  sym, List, [], ◌∷◌, ◌++◌, arith, length, get_or, set, slot-ne, rotate-slot, get_or-set_ne,
  get_or-set_self,
}
use native.Mathlib.Nat.{mod-lt}

module _ {ℓ} {A : Type ℓ} (d : A) where
  -- The items at places `i` to `i + k - 1`, counted from the head `h` and going round at `n`.
  abbrev pub window : List A → ℕ → ℕ → ℕ → ℕ → List A
  window v n h i zero = []
  window v n h i (suc k) = get_or v ((h + i) % n) d ∷ window v n h (i + 1) k

  pub length-window : (v : List A) (n h i k : ℕ) → length (window v n h i k) ≡ k
  length-window v n h i zero = refl
  length-window v n h i (suc k) = ap suc (length-window v n h (i + 1) k)

  pub window-snoc :
      (v : List A) (n h i k : ℕ)
      → window v n h i (suc k) ≡ window v n h i k ++ get_or v ((h + (i + k)) % n) d ∷ []
  window-snoc v n h i zero = ap (λ a. get_or v ((h + a) % n) d ∷ []) (omega arith)
  window-snoc v n h i (suc k) =
      ap (λ t. get_or v ((h + i) % n) d ∷ t)
        (window-snoc v n h (i + 1) k
          ∙ ap (λ a. window v n h (i + 1) k ++ get_or v ((h + a) % n) d ∷ []) (omega arith))

  pub window-shift :
      (v : List A) (n h i k : ℕ) → window v n ((h + 1) % n) i k ≡ window v n h (i + 1) k
  window-shift v n h i zero = refl
  window-shift v n h i (suc k) =
      ap₂ (λ a t. get_or v a d ∷ t) (rotate-slot n h i) (window-shift v n h (i + 1) k)

  pub window-set :
      (v : List A) (n h i k t : ℕ) (x : A)
      → h < n
      → i + k < n
      → t ≡ (h + (i + k)) % n
      → window (set v t x) n h i k ≡ window v n h i k
  window-set v n h i zero t x hh hk e = refl
  window-set v n h i (suc k) t x hh hk e =
      ap₂ ◌∷◌
        (get_or-set_ne v t ((h + i) % n) x d
          (λ p. slot-ne n h i (i + suc k) hh (omega arith) hk (sym p ∙ e)))
        (window-set v n h (i + 1) k t x hh (omega arith) (e ∙ ap (λ a. (h + a) % n) (omega arith)))

  -- Writing just past the window makes it one item longer.
  pub window-write :
      (v : List A) (n h k t : ℕ) (x : A)
      → length v ≡ n
      → h < n
      → k < n
      → t ≡ (h + k) % n
      → window (set v t x) n h 0 (suc k) ≡ window v n h 0 k ++ x ∷ []
  window-write v n h k t x hv hh hk e =
      window-snoc (set v t x) n h 0 k
      ∙ ap₂ (λ w a. w ++ a ∷ [])
          (window-set v n h 0 k t x hh (omega arith) (e ∙ ap (λ a. (h + a) % n) (omega arith)))
          (ap (λ a. get_or (set v t x) a d) (ap (λ a. (h + a) % n) (omega arith) ∙ sym e)
            ∙ get_or-set_self v t x d (omega (arith, mod-lt (h + k) {m = n} (omega arith))))

  pub get_elem?-window :
      (v : List A) (n h i k j : ℕ)
      → j < k
      → get_elem? (window v n h i k) j ≡ some (get_or v ((h + (i + j)) % n) d)
  get_elem?-window v n h i zero j hj = absurd (omega arith)
  get_elem?-window v n h i (suc k) zero hj = ap (λ a. some (get_or v ((h + a) % n) d)) (omega arith)
  get_elem?-window v n h i (suc k) (suc j) hj =
      get_elem?-window v n h (i + 1) k j (omega arith)
      ∙ ap (λ a. some (get_or v ((h + a) % n) d)) (omega arith)

  pub get_elem?-window_past :
      (v : List A) (n h i k j : ℕ) → k ≤ j → get_elem? (window v n h i k) j ≡ none
  get_elem?-window_past v n h i zero j hj = refl
  get_elem?-window_past v n h i (suc k) zero hj = absurd (omega arith)
  get_elem?-window_past v n h i (suc k) (suc j) hj =
      get_elem?-window_past v n h (i + 1) k j (omega arith)

  -- The first item, and the window from the next slot on.
  pub window-cons :
      (v : List A) (n h k : ℕ)
      → h < n
      → window v n h 0 (suc k) ≡ get_or v h d ∷ window v n ((h + 1) % n) 0 k
  window-cons v n h k hh =
      ap₂ (λ a t. get_or v a d ∷ t) (ap (λ a. a % n) (omega arith) ∙ mod-eq_of_lt hh)
        (sym (window-shift v n h 0 k))
