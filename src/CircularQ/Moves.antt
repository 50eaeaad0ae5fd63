-- ===== src/CircularQ/Moves.antt =====
-- How `push_back` moves the indices, and what `size` counts.
use structlog.Common.{
  ◌==◌, ◌&&◌, ◌+◌, ◌-◌, ◌%◌, ◌<◌, ◌≤◌, ◌≡◌, ◌≢◌, arith, set, add_size, round-cases, lt→ltb,
  ltb-zero, ne→==false, eq→==true,
}
use structlog.CircularQ.{ltb, some, empty, full, pop_front, CircularQ, push_back, size}
use structlog.CircularQ.Valid.{
  pop_front-IsValid, IsValid, size-lt, size_lem, add_size-index, push_back-IsValid,
}

module _ {ℓ} {A : Type ℓ} where
  pub tail-eq :
      (q : CircularQ A) → IsValid q → 0 < q.max_items → q.tail ≡ (q.head + size q) % q.max_items
  tail-eq q h p = ground (
    arith,
    size_lem q h,
    round-cases q.head (size q) q.max_items (omega (arith, h.head_in)) (omega (arith, size-lt q h)),
  )

  pub size-full :
      (q : CircularQ A)
      → IsValid q
      → 0 < q.max_items
      → (q.tail + 1) % q.max_items ≡ q.head
      → size q ≡ q.max_items - 1
  size-full q h p e = ground (arith, size_lem q h, round-cases q.tail 1 q.max_items)

  -- `push_back` into a queue with room.
  abbrev pub written : CircularQ A → A → CircularQ A
  written q x = record q { v = set q.v q.tail x; tail = (q.tail + 1) % q.max_items }

  pub push_back-room :
      (q : CircularQ A) (x : A)
      → IsValid q
      → 0 < q.max_items
      → (q.tail + 1) % q.max_items ≢ q.head
      → push_back q x ≡ written q x
  unfolding push_back
  push_back-room q x h p ne =
      rw (lt→ltb 0 q.max_items p, add_size-index q q.tail h h.tail_in, ne→==false _ _ ne)

  pub size-written :
      (q : CircularQ A) (x : A)
      → IsValid q
      → 0 < q.max_items
      → (q.tail + 1) % q.max_items ≢ q.head
      → size (written q x) ≡ size q + 1
  size-written q x h p ne = ground (
    arith,
    size_lem q h,
    size_lem (written q x) (rw (← push_back-room q x h p ne) (push_back-IsValid q x h)),
    round-cases q.tail 1 q.max_items,
  )

  -- `push_back` into a full queue.
  abbrev pub overwritten : CircularQ A → A → CircularQ A
  overwritten q x = record q {
    v = set q.v q.tail x;
    tail = (q.tail + 1) % q.max_items;
    head = (q.head + 1) % q.max_items;
    overrun_counter = add_size q.overrun_counter 1;
  }

  pub push_back-full :
      (q : CircularQ A) (x : A)
      → IsValid q
      → 0 < q.max_items
      → (q.tail + 1) % q.max_items ≡ q.head
      → push_back q x ≡ overwritten q x
  unfolding push_back
  push_back-full q x h p e = rw (
    lt→ltb 0 q.max_items p,
    add_size-index q q.tail h h.tail_in,
    eq→==true _ _ e,
    add_size-index q q.head h h.head_in,
  )

  pub size-overwritten :
      (q : CircularQ A) (x : A)
      → IsValid q
      → 0 < q.max_items
      → (q.tail + 1) % q.max_items ≡ q.head
      → size (overwritten q x) ≡ q.max_items - 1
  size-overwritten q x h p e = ground (
    arith,
    size_lem (overwritten q x) (rw (← push_back-full q x h p e) (push_back-IsValid q x h)),
    round-cases q.tail 1 q.max_items,
    round-cases q.head 1 q.max_items,
  )

  -- Where `push_back` overruns nothing there was room for one more item.
  pub size-room :
      (q : CircularQ A) (x : A)
      → IsValid q
      → 0 < q.max_items
      → (q.tail + 1) % q.max_items ≢ q.head
      → size q + 1 ≤ q.max_items - 1
  size-room q x h p ne = omega (
    arith,
    size-written q x h p ne,
    size-lt (written q x) (rw (← push_back-room q x h p ne) (push_back-IsValid q x h)),
  )

  pub push_back-disabled : (q : CircularQ A) (x : A) → q.max_items ≡ 0 → push_back q x ≡ q
  unfolding push_back
  push_back-disabled q x e = simp (ltb-zero q.max_items e)

  -- What `pop_front` leaves.
  abbrev pub popped : CircularQ A → CircularQ A
  popped q = record q { head = (q.head + 1) % q.max_items }

  pub pop_front-some :
      (q : CircularQ A) → IsValid q → 0 < q.max_items → pop_front q ≡ some (popped q)
  unfolding pop_front
  pop_front-some q h p =
      simp (ne→==false q.max_items 0 (omega arith), add_size-index q q.head h h.head_in)

  pub empty-size : (q : CircularQ A) → IsValid q → empty q ≡ (size q == 0)
  unfolding empty
  empty-size q h = ground (arith, size_lem q h)

  pub full-size :
      (q : CircularQ A) → IsValid q → full q ≡ (ltb 0 q.max_items && (size q == q.max_items - 1))
  unfolding full
  full-size q h = ground (arith, size_lem q h, round-cases q.tail 1 q.max_items)

  pub size-popped : (q : CircularQ A) → IsValid q → 0 < size q → size (popped q) + 1 ≡ size q
  size-popped q h p = ground (
    arith,
    size-lt q h,
    size_lem q h,
    size_lem (popped q) (pop_front-IsValid q h (pop_front-some q h (omega (arith, size-lt q h)))),
    round-cases q.head 1 q.max_items,
  )
