-- ===== src/BlockingQ/Fifo.antt =====
-- The operations of the blocking queue on the list of its items.
use structlog.CircularQ.{create}
use structlog.CircularQ.Counts.{
  create-max_items, pop_front-overrun_counter, pop_front-max_items, push_back-max_items,
  push_back-is_full, push_back-not_full,
}
use structlog.Common.{
  ap₂, subst, none_ne_some, some_inj, List-cases, ℕ_discrete, get_or, sym, inr, inl, Bool-cases,
  ◌∙◌, ap, arith, true, false, ◌≤◌, vector_max, add_size, some, ◌++◌, ◌+◌, [], none, ◌∷◌, ◌<◌, drop,
  length, List, ◌≡◌, ℕ,
}
use structlog.BlockingQ.{full, empty, push_back, CircularQ, enqueue, enqueue_nowait, dequeue_for}
use structlog.CircularQ.Valid.{
  IsValid, pop_front-IsValid, push_back-IsValid, create-IsValid, size-lt,
}
use structlog.CircularQ.Refine.{contents, contents-pop_front, length-contents, empty-full}
use structlog.CircularQ.Moves.{empty-size}

-- A queue that was made for some number of items below SIZE_MAX; room is what it can hold.
pub record Ready {ℓ} {A : Type ℓ} (room : ℕ) (q : CircularQ A) : Type ℓ where
  pub valid : IsValid q
  pub slots : q.max_items ≡ room + 1

module _ {ℓ} {A : Type ℓ} (d : A) where
  full-at :
      (room : ℕ) (q : CircularQ A) → Ready room q → length (contents d q) ≡ room → full q ≡ true
  full-at room q h p = (empty-full d q h.valid).1.1 (omega (arith, h.slots), omega (arith, h.slots))

  full-below :
      (room : ℕ) (q : CircularQ A) → Ready room q → length (contents d q) < room → full q ≡ false
  full-below room q h p = elim (Bool-cases (full q)) [
    | inl e ↦ absurd (omega (arith, h.slots, ((empty-full d q h.valid).1.0 e).1))
    | inr e ↦ e
  ]

  push_back-Ready : (room : ℕ) (q : CircularQ A) (x : A) → Ready room q → Ready room (push_back q x)
  push_back-Ready room q x h = record {
    valid = push_back-IsValid q x h.valid;
    slots = push_back-max_items q x ∙ h.slots;
  }

  pub create-Ready : (n : ℕ) → n + 1 < vector_max → Ready n (create d n)
  create-Ready n h = record {
    valid = create-IsValid d n (omega arith);
    slots = create-max_items d n ∙ omega arith;
  }

  pub length-room : (room : ℕ) (q : CircularQ A) → Ready room q → length (contents d q) ≤ room
  length-room room q h = omega (arith, h.slots, length-contents d q, size-lt q h.valid)

  pub enqueue-room :
      (room : ℕ) (q : CircularQ A) (x : A)
      → Ready room q
      → length (contents d q) < room
      → (q' : CircularQ A) × (enqueue q x ≡ some q')
        × Ready room q'
        × (contents d q' ≡ contents d q ++ x ∷ [])
        × (q'.overrun_counter ≡ q.overrun_counter)
  unfolding enqueue
  enqueue-room room q x h p =
      let e = full-below room q h p in
      let (es, ec) = push_back-not_full d q x h.valid (omega (arith, h.slots)) e in
      (push_back q x, rw e, push_back-Ready room q x h, es, ec)

  pub enqueue-full :
      (room : ℕ) (q : CircularQ A) (x : A)
      → Ready room q
      → length (contents d q) ≡ room
      → enqueue q x ≡ none
  unfolding enqueue
  enqueue-full room q x h p = rw (full-at room q h p)

  pub enqueue_nowait-full :
      (room : ℕ) (q : CircularQ A) (x : A)
      → Ready room q
      → length (contents d q) ≡ room
      → Ready room (enqueue_nowait q x)
        × (contents d (enqueue_nowait q x) ≡ drop 1 (contents d q ++ x ∷ []))
        × ((enqueue_nowait q x).overrun_counter ≡ add_size q.overrun_counter 1)
  unfolding enqueue_nowait
  enqueue_nowait-full room q x h p = (
    push_back-Ready room q x h,
    (push_back-is_full d q x h.valid (omega (arith, h.slots)) (full-at room q h p)).0,
    (push_back-is_full d q x h.valid (omega (arith, h.slots)) (full-at room q h p)).1,
  )

  pub enqueue_nowait-room :
      (room : ℕ) (q : CircularQ A) (x : A)
      → Ready room q
      → length (contents d q) < room
      → Ready room (enqueue_nowait q x)
        × (contents d (enqueue_nowait q x) ≡ contents d q ++ x ∷ [])
        × ((enqueue_nowait q x).overrun_counter ≡ q.overrun_counter)
  unfolding enqueue_nowait
  enqueue_nowait-room room q x h p = (
    push_back-Ready room q x h,
    (push_back-not_full d q x h.valid (omega (arith, h.slots)) (full-below room q h p)).0,
    (push_back-not_full d q x h.valid (omega (arith, h.slots)) (full-below room q h p)).1,
  )

  pub dequeue_for-nil :
      (q : CircularQ A) → IsValid q → contents d q ≡ [] → dequeue_for q ≡ some (none, q)
  unfolding dequeue_for
  dequeue_for-nil q h e = rw ((empty-full d q h).0.1 e)

  not_empty :
      (q : CircularQ A) (x : A) (xs : List A) → IsValid q → contents d q ≡ x ∷ xs → empty q ≡ false
  not_empty q x xs h e = ground (arith, ap length e, length-contents d q, empty-size q h)

  pub dequeue_for-cons :
      (room : ℕ) (q : CircularQ A) (x : A) (xs : List A)
      → Ready room q
      → contents d q ≡ x ∷ xs
      → (q' : CircularQ A) × (dequeue_for q ≡ some (some x, q'))
        × Ready room q'
        × (contents d q' ≡ xs)
        × (q'.overrun_counter ≡ q.overrun_counter)
  unfolding dequeue_for
  dequeue_for-cons room q x xs h e =
      let ne = not_empty q x xs h.valid e in
      let (y, q', ef, ep, ec) = contents-pop_front d q h.valid ne in
      let same = sym ec ∙ e in
      (
        q',
        rw (ne, ef, ep, ap (λ l. get_or l 0 d) same),
        record {
          valid = pop_front-IsValid q h.valid ep;
          slots = pop_front-max_items q ep ∙ h.slots;
        },
        ap (drop 1) same,
        pop_front-overrun_counter q ep,
      )

  -- What a call that came to its end has done.
  pub enqueue_lem :
      (room : ℕ) {q q' : CircularQ A} (x : A)
      → Ready room q
      → enqueue q x ≡ some q'
      → Ready room q'
        × (contents d q' ≡ contents d q ++ x ∷ [])
        × (q'.overrun_counter ≡ q.overrun_counter)
  enqueue_lem room {q} {q'} x h e = elim (ℕ_discrete (length (contents d q)) room) [
    | yes f ↦ absurd (none_ne_some (sym (enqueue-full room q x h f) ∙ e))
    | no ne ↦
        let (q1, e1, hr, es, ec) = enqueue-room room q x h (omega (arith, length-room room q h)) in
        subst
          (λ r.
            Ready room r
            × (contents d r ≡ contents d q ++ x ∷ [])
            × (r.overrun_counter ≡ q.overrun_counter))
          (some_inj (sym e1 ∙ e)) (hr, es, ec)
  ]

  pub dequeue_for_lem :
      (room : ℕ) {q q' : CircularQ A} {x : A}
      → Ready room q
      → dequeue_for q ≡ some (some x, q')
      → Ready room q'
        × (contents d q ≡ x ∷ contents d q')
        × (q'.overrun_counter ≡ q.overrun_counter)
  dequeue_for_lem room {q} {q'} {x} h e = elim (List-cases (contents d q)) [
    | inl f ↦
        absurd (none_ne_some (ap (λ r. r.0) (some_inj (sym (dequeue_for-nil q h.valid f) ∙ e))))
    | inr (y, ys, f) ↦
        let (q1, e1, hr, es, ec) = dequeue_for-cons room q y ys h f in
        let same = some_inj (sym e1 ∙ e) in
        subst
          (λ r.
            Ready room r
            × (contents d q ≡ x ∷ contents d r)
            × (r.overrun_counter ≡ q.overrun_counter))
          (ap (λ r. r.1) same) (hr, f ∙ ap₂ ◌∷◌ (some_inj (ap (λ r. r.0) same)) (sym es), ec)
  ]

  -- The wait times out only on an empty queue, and changes nothing.
  pub dequeue_for-timeout :
      (room : ℕ) {q q' : CircularQ A}
      → Ready room q
      → dequeue_for q ≡ some (none, q')
      → (q ≡ q') × (contents d q ≡ [])
  dequeue_for-timeout room {q} {q'} h e = elim (List-cases (contents d q)) [
    | inl f ↦ (ap (λ r. r.1) (some_inj (sym (dequeue_for-nil q h.valid f) ∙ e)), f)
    | inr (y, ys, f) ↦
        let (q1, e1, hr, es, ec) = dequeue_for-cons room q y ys h f in
        absurd (none_ne_some (ap (λ r. r.0) (sym (some_inj (sym e1 ∙ e)))))
  ]
