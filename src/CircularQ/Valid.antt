-- ===== src/CircularQ/Valid.antt =====
-- The representation invariant of `circular_q`, kept by every operation.
use structlog.Common.{
  refl, ℕ, ◌-◌, ◌+◌, leb, if◌then◌else◌, ◌≤◌, ◌<◌, ◌≡◌, some, arith, vector_max, length, length-set,
  length-replicate, add_size,
}
use structlog.CircularQ.{copy_moveable, CircularQ, disabled, create, push_back, pop_front, size}

-- `- 1` is 0 for a disabled queue, whose indices are 0.
pub record IsValid {ℓ} {A : Type ℓ} (q : CircularQ A) : Type ℓ where
  pub storage : length q.v ≡ q.max_items
  pub fits : q.max_items < vector_max
  pub head_in : q.head ≤ q.max_items - 1
  pub tail_in : q.tail ≤ q.max_items - 1

module _ {ℓ} {A : Type ℓ} where
  pub disabled-IsValid : IsValid (disabled {A = A})
  unfolding disabled
  disabled-IsValid = ground arith

  pub create-IsValid : (d : A) (n : ℕ) → add_size n 1 < vector_max → IsValid (create d n)
  unfolding create
  create-IsValid d n h = ground (arith, length-replicate (add_size n 1) d)

  pub push_back-IsValid : (q : CircularQ A) (x : A) → IsValid q → IsValid (push_back q x)
  unfolding push_back
  push_back-IsValid q x h = ground (arith, length-set q.v q.tail x)

  pub pop_front-IsValid :
      (q : CircularQ A) {q' : CircularQ A} → IsValid q → pop_front q ≡ some q' → IsValid q'
  unfolding pop_front
  pop_front-IsValid q h e = ground arith

  pub size-lt : (q : CircularQ A) → IsValid q → size q ≤ q.max_items - 1
  unfolding size
  size-lt q h = ground arith

  -- No `size_t` subtraction of `size` wraps.
  pub size_lem :
      (q : CircularQ A)
      → IsValid q
      → size q ≡ (if leb q.head q.tail then q.tail - q.head else q.max_items - (q.head - q.tail))
  unfolding size
  size_lem q h = ground arith

  -- No `size_t` addition to an index wraps.
  pub add_size-index :
      (q : CircularQ A) (i : ℕ) → IsValid q → i ≤ q.max_items - 1 → add_size i 1 ≡ i + 1
  add_size-index q i h p = omega (arith, h.fits)

  -- Nor does the one of `at`.
  pub add_size-sum :
      (q : CircularQ A) (i : ℕ) → IsValid q → i < size q → add_size q.head i ≡ q.head + i
  add_size-sum q i h p = omega (arith, size-lt q h)

  -- A move hands over the whole queue and leaves a valid one behind that is disabled.
  pub copy_moveable-IsValid :
      (q : CircularQ A)
      → IsValid q
      → ((copy_moveable q).0 ≡ q) × ((copy_moveable q).1 ≡ disabled) × IsValid (copy_moveable q).1
  unfolding copy_moveable disabled
  copy_moveable-IsValid q h = (refl, refl, ground arith)
