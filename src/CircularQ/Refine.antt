-- ===== src/CircularQ/Refine.antt =====
-- A valid `circular_q` behaves as the list of its items, oldest first, bounded by its capacity.
use structlog.Common.{
  mod-lt, get_elem?-get_or, get_or, ltb-false, lt→ltb, ◌↔◌, ℕ, suc, ◌+◌, ◌-◌, ◌%◌, ◌<◌, ◌≡◌, ◌≢◌,
  ap, ◌∙◌, sym, keep_last, drop_all, drop-keep_last, nil_of_length, List, [], ◌∷◌, ◌++◌, arith,
  length, set, drop, length-append,
}
use native.Mathlib.Decide.{dec_lt, ℕ_discrete}
use native.Mathlib.Numerals.{add-one}
use structlog.CircularQ.{
  pop_front, full, some, front, false, true, get_elem?, empty, at, CircularQ, push_back, size,
}
use structlog.CircularQ.Window.{
  window-cons, get_elem?-window, get_elem?-window_past, window, length-window, window-write,
  window-shift,
}
use structlog.CircularQ.Moves.{
  size-popped, pop_front-some, full-size, popped, empty-size, size-written, push_back-disabled,
  tail-eq, size-full, written, overwritten, push_back-room, push_back-full, size-room, size-room,
  size-overwritten,
}
use structlog.CircularQ.Valid.{add_size-sum, IsValid, size-lt}

-- The number of items that the queue can hold.
abbrev pub capacity {ℓ} : {A : Type ℓ} → CircularQ A → ℕ
capacity q = q.max_items - 1

module _ {ℓ} {A : Type ℓ} (d : A) where
  -- The default `d` stands for what no valid queue reads.
  abbrev pub contents : CircularQ A → List A
  contents q = window d q.v q.max_items q.head 0 (size q)

  pub length-contents : (q : CircularQ A) → length (contents q) ≡ size q
  length-contents q = length-window d q.v q.max_items q.head 0 (size q)

  -- The items of the queue before, in the slots as `push_back` leaves them.
  window-pushed :
      (q : CircularQ A) (x : A)
      → IsValid q
      → 0 < q.max_items
      → window d (set q.v q.tail x) q.max_items q.head 0 (size q + 1) ≡ contents q ++ x ∷ []
  window-pushed q x h p = rw add-one (
      window-write d q.v q.max_items q.head (size q) q.tail x h.storage (omega (arith, h.head_in))
        (omega (arith, size-lt q h)) (tail-eq q h p))

  pub contents-written :
      (q : CircularQ A) (x : A)
      → IsValid q
      → 0 < q.max_items
      → (q.tail + 1) % q.max_items ≢ q.head
      → contents (written q x) ≡ contents q ++ x ∷ []
  contents-written q x h p ne =
      ap (window d (set q.v q.tail x) q.max_items q.head 0) (size-written q x h p ne)
      ∙ window-pushed q x h p

  pub contents-overwritten :
      (q : CircularQ A) (x : A)
      → IsValid q
      → 0 < q.max_items
      → (q.tail + 1) % q.max_items ≡ q.head
      → contents (overwritten q x) ≡ drop 1 (contents q ++ x ∷ [])
  contents-overwritten q x h p e =
      ap (window d (set q.v q.tail x) q.max_items ((q.head + 1) % q.max_items) 0)
        (size-overwritten q x h p e)
      ∙ window-shift d (set q.v q.tail x) q.max_items q.head 0 (q.max_items - 1)
      ∙ ap (λ k. drop 1 (window d (set q.v q.tail x) q.max_items q.head 0 k))
          (ap suc (sym (size-full q h p e)) ∙ sym (add-one (size q)))
      ∙ ap (drop 1) (window-pushed q x h p)

  contents-disabled : (q : CircularQ A) → IsValid q → q.max_items ≡ 0 → contents q ≡ []
  contents-disabled q h e =
      nil_of_length (contents q) (omega (arith, length-contents q, size-lt q h))

  -- `push_back` appends an item and keeps the newest that fit; a disabled queue stays empty.
  pub contents-push_back :
      (q : CircularQ A) (x : A)
      → IsValid q
      → contents (push_back q x) ≡ keep_last (capacity q) (contents q ++ x ∷ [])
  contents-push_back q x h = elim (dec_lt 0 q.max_items) [
    | no p ↦
        ap contents (push_back-disabled q x (omega arith))
        ∙ contents-disabled q h (omega arith)
        ∙ sym (drop_all _ (contents q ++ x ∷ []) (omega arith))
    | yes p ↦ elim (ℕ_discrete ((q.tail + 1) % q.max_items) q.head) [
      | yes e ↦
          ap contents (push_back-full q x h p e)
          ∙ contents-overwritten q x h p e
          ∙ drop-keep_last (capacity q) 1 (contents q ++ x ∷ [])
              (omega (arith, len, size-full q h p e))
      | no ne ↦
          ap contents (push_back-room q x h p ne)
          ∙ contents-written q x h p ne
          ∙ drop-keep_last (capacity q) 0 (contents q ++ x ∷ [])
              (omega (arith, len, size-room q x h p ne))
    ]
  ]
    where
      len : length (contents q ++ x ∷ []) ≡ size q + 1
      len = omega (arith, length-append (contents q) (x ∷ []), length-contents q)

  -- On a valid queue with an item, `front` reads the oldest one and `pop_front` removes it.
  pub contents-pop_front :
      (q : CircularQ A)
      → IsValid q
      → empty q ≡ false
      → (x : A) × (q' : CircularQ A) × (front q ≡ some x)
        × (pop_front q ≡ some q')
        × (contents q ≡ x ∷ contents q')
  unfolding front
  contents-pop_front q h e = (
    get_or q.v q.head d,
    popped q,
    get_elem?-get_or q.v q.head d (omega (arith, h.storage, h.head_in, size-lt q h, some_size)),
    pop_front-some q h (omega (arith, size-lt q h, some_size)),
    ap (window d q.v q.max_items q.head 0) {y = suc (size (popped q))}
          (omega (arith, size-popped q h some_size))
        ∙ window-cons d q.v q.max_items q.head (size (popped q))
            (omega (arith, h.head_in, size-lt q h, some_size)),
  )
    where
      some_size : 0 < size q
      some_size = ground (arith, empty-size q h)

  -- `at` reads the items in order, and nothing past the last one.
  pub at-get_elem? : (q : CircularQ A) (i : ℕ) → IsValid q → at q i ≡ get_elem? (contents q) i
  unfolding at
  at-get_elem? q i h = elim (dec_lt i (size q)) [
    | yes p ↦
        simp (lt→ltb _ _ p, lt→ltb 0 q.max_items (omega (arith, size-lt q h)), add_size-sum q i h p)
          (get_elem?-get_or q.v ((q.head + i) % q.max_items) d (
              omega (
                arith,
                h.storage,
                mod-lt (q.head + i) {m = q.max_items} (omega (arith, size-lt q h)),
              ))
            ∙ sym (
                get_elem?-window d q.v q.max_items q.head 0 (size q) i p
                ∙ ap (λ a. some (get_or q.v ((q.head + a) % q.max_items) d)) {y = i} (omega arith)))
    | no p ↦
        simp (ltb-false _ _ p)
          (sym (get_elem?-window_past d q.v q.max_items q.head 0 (size q) i (omega arith)))
  ]

  -- The tests say whether there are no items, and whether there are as many as fit.
  pub empty-full :
      (q : CircularQ A)
      → IsValid q
      → ((empty q ≡ true) ↔ (contents q ≡ []))
        × ((full q ≡ true) ↔ ((0 < q.max_items) × (length (contents q) ≡ capacity q)))
  empty-full q h = (
    (
      λ e. nil_of_length (contents q) (ground (arith, empty-size q h, length-contents q)),
      λ e. ground (arith, empty-size q h, length-contents q, ap length e),
    ),
    (
      λ e. ground (arith, full-size q h, length-contents q),
      λ e. ground (arith, full-size q h, length-contents q),
    ),
  )
