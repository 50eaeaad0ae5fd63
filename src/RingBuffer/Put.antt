-- ===== src/RingBuffer/Put.antt =====
-- A message of the queue that is written in its place.
use structlog.Common.{
  add_size, ℕ, zero, suc, List, [], ◌∷◌, map, ◌≡◌, ◌<◌, ◌≤◌, ◌+◌, ◌%◌, refl, ap, ap₂, sym, ◌∙◌,
  length, drop, set, get_or, get_or-set_ne, get_or-set_self, slot-ne, mod-lt, length-set, arith,
}
use structlog.CircularQ.{CircularQ, size}
use structlog.CircularQ.Window.{window}
use structlog.CircularQ.Valid.{IsValid, size-lt, add_size-sum}
use structlog.CircularQ.Refine.{contents}
use structlog.RingBuffer.{put}

module _ {A : Type 0} (d : A) where
  -- A write before the window.
  window-set_before :
      (v : List A) (n h p i k : ℕ) (x : A)
      → h < n
      → p < i
      → i + k ≤ n
      → window d (set v ((h + p) % n) x) n h i k ≡ window d v n h i k
  window-set_before v n h p i zero x hh hp hk = refl
  window-set_before v n h p i (suc k) x hh hp hk =
      ap₂ ◌∷◌ (get_or-set_ne v _ _ x d (slot-ne n h p i hh hp (omega arith)))
        (window-set_before v n h p (i + 1) k x hh (omega arith) (omega arith))

  -- A write in the window, at its place `j`.
  window-set_at :
      (v : List A) (n h i k j : ℕ) (x : A)
      → length v ≡ n
      → h < n
      → j < k
      → i + k ≤ n
      → window d (set v ((h + (i + j)) % n) x) n h i k ≡ set (window d v n h i k) j x
  window-set_at v n h i zero j x hv hh hj hk = absurd (omega arith)
  window-set_at v n h i (suc k) zero x hv hh hj hk =
      ap (λ a. window d (set v ((h + a) % n) x) n h i (suc k)) {x = i + 0} {y = i} (omega arith)
      ∙ ap₂ ◌∷◌ (get_or-set_self v _ x d (omega (arith, mod-lt (h + i) {m = n} (omega arith))))
          (window-set_before v n h i (i + 1) k x hh (omega arith) (omega arith))
  window-set_at v n h i (suc k) (suc j) x hv hh hj hk =
      ap₂ ◌∷◌
        (get_or-set_ne v _ _ x d
          (λ e. slot-ne n h i (i + suc j) hh (omega arith) (omega arith) (sym e)))
        (ap (λ a. window d (set v ((h + a) % n) x) n h (i + 1) k) {x = i + suc j} {y = i + 1 + j}
            (omega arith)
          ∙ window-set_at v n h (i + 1) k j x hv hh (omega arith) (omega arith))

  pub put-IsValid : (q : CircularQ A) (i : ℕ) (x : A) → IsValid q → IsValid (put q i x)
  unfolding put
  put-IsValid q i x h = record {
    storage = length-set q.v _ x ∙ h.storage;
    fits = h.fits;
    head_in = h.head_in;
    tail_in = h.tail_in;
  }

  pub size-put : (q : CircularQ A) (i : ℕ) (x : A) → size (put q i x) ≡ size q
  unfolding put size
  size-put q i x = refl

  pub contents-put :
      (q : CircularQ A) (i : ℕ) (x : A)
      → IsValid q
      → i < size q
      → contents d (put q i x) ≡ set (contents d q) i x
  unfolding put
  contents-put q i x h p =
      ap (window d _ q.max_items q.head 0) (size-put q i x)
      ∙ ap (λ a. window d (set q.v (a % q.max_items) x) q.max_items q.head 0 (size q))
          {x = add_size q.head i} {y = q.head + (0 + i)} (omega (arith, add_size-sum q i h p))
      ∙ window-set_at q.v q.max_items q.head 0 (size q) i x h.storage
          (omega (arith, h.head_in, size-lt q h)) p (omega (arith, size-lt q h))

module _ {A : Type 0} where
  pub drop-set : (xs : List A) (i : ℕ) (x : A) → drop (suc i) (set xs i x) ≡ drop (suc i) xs
  drop-set [] i x = refl
  drop-set (y ∷ xs) zero x = refl
  drop-set (y ∷ xs) (suc i) x = drop-set xs i x

  pub map-set :
      {B : Type 0} (f : A → B) (d : A) (xs : List A) (i : ℕ) (x : A)
      → f x ≡ f (get_or xs i d)
      → map f (set xs i x) ≡ map f xs
  map-set f d [] i x e = refl
  map-set f d (y ∷ xs) zero x e = ap (λ z. z ∷ map f xs) e
  map-set f d (y ∷ xs) (suc i) x e = ap (λ t. f y ∷ t) (map-set f d xs i x e)
