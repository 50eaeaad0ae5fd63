-- ===== src/CircularQ/Counts.antt =====
-- What `push_back` and `pop_front` do to the slots and to the counter of overruns.
use structlog.Common.{
  ℕ, refl, ◌∙◌, ap, add_size, lt→ltb, [], ◌∷◌, ◌==◌, ◌≢◌, ◌++◌, drop, ◌%◌, true, ◌+◌, some, arith,
  false, ◌<◌, ◌≡◌,
}
use structlog.CircularQ.{create, CircularQ, push_back, pop_front, full}
use structlog.CircularQ.Valid.{add_size-index, IsValid}
use structlog.CircularQ.Moves.{push_back-room, push_back-full}
use structlog.CircularQ.Refine.{contents, contents-written, contents-overwritten}

module _ {ℓ} {A : Type ℓ} where
  pub create-max_items : (d : A) (n : ℕ) → (create d n).max_items ≡ add_size n 1
  unfolding create
  create-max_items d n = refl

  pub push_back-max_items : (q : CircularQ A) (x : A) → (push_back q x).max_items ≡ q.max_items
  unfolding push_back
  push_back-max_items q x = ground arith

  pub pop_front-max_items :
      (q : CircularQ A) {q' : CircularQ A} → pop_front q ≡ some q' → q'.max_items ≡ q.max_items
  unfolding pop_front
  pop_front-max_items q e = ground arith

  pub pop_front-overrun_counter :
      (q : CircularQ A) {q' : CircularQ A}
      → pop_front q ≡ some q'
      → q'.overrun_counter ≡ q.overrun_counter
  unfolding pop_front
  pop_front-overrun_counter q e = ground arith

  full-round :
      (q : CircularQ A)
      → IsValid q
      → 0 < q.max_items
      → full q ≡ ((q.tail + 1) % q.max_items == q.head)
  unfolding full
  full-round q h p = rw (lt→ltb 0 q.max_items p, add_size-index q q.tail h h.tail_in) refl

  full-ne :
      (q : CircularQ A)
      → IsValid q
      → 0 < q.max_items
      → full q ≡ false
      → (q.tail + 1) % q.max_items ≢ q.head
  full-ne q h p e = λ k. ground (arith, full-round q h p)

  full-eq :
      (q : CircularQ A)
      → IsValid q
      → 0 < q.max_items
      → full q ≡ true
      → (q.tail + 1) % q.max_items ≡ q.head
  full-eq q h p e = ground (arith, full-round q h p)

module _ {ℓ} {A : Type ℓ} (d : A) where
  pub push_back-not_full :
      (q : CircularQ A) (x : A)
      → IsValid q
      → 0 < q.max_items
      → full q ≡ false
      → (contents d (push_back q x) ≡ contents d q ++ x ∷ [])
        × ((push_back q x).overrun_counter ≡ q.overrun_counter)
  push_back-not_full q x h p e =
      let ne = full-ne q h p e in
      (
        ap (contents d) (push_back-room q x h p ne) ∙ contents-written d q x h p ne,
        ap (λ q'. q'.overrun_counter) (push_back-room q x h p ne),
      )

  pub push_back-is_full :
      (q : CircularQ A) (x : A)
      → IsValid q
      → 0 < q.max_items
      → full q ≡ true
      → (contents d (push_back q x) ≡ drop 1 (contents d q ++ x ∷ []))
        × ((push_back q x).overrun_counter ≡ add_size q.overrun_counter 1)
  push_back-is_full q x h p e =
      let k = full-eq q h p e in
      (
        ap (contents d) (push_back-full q x h p k) ∙ contents-overwritten d q x h p k,
        ap (λ q'. q'.overrun_counter) (push_back-full q x h p k),
      )
