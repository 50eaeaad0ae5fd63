-- ===== src/BlockingQ/Order.antt =====
-- Runs of producers and consumers of a blocking queue, as sequences of its operations.
use structlog.Common.{
  inr, ◌∙◌, length-append, append_assoc, sym, inl, size_mod, append-nil, ◌≢◌, refl, get_or, drop,
  subst, length, ℕ_discrete, ap, ◌⊎◌, add_size, zero, ◌<◌, arith, none, suc, ◌∷◌, some, ◌++◌, ℕ, [],
  ◌≡◌, List,
}
use mathlib.Core.Path.{subst₂}
use structlog.BlockingQ.{enqueue, enqueue_nowait, dequeue_for}
use structlog.BlockingQ.Fifo.{
  dequeue_for-timeout, dequeue_for_lem, enqueue_lem, Ready, enqueue_nowait-room,
  enqueue_nowait-full, length-room,
}
use structlog.CircularQ.{CircularQ}
use structlog.CircularQ.Refine.{contents}

-- What the producers do when the queue is full: `async_overflow_policy`.
pub data OverflowPolicy : Type 0 where
  block overrun_oldest : OverflowPolicy

-- `Kept xs ys n`: `ys` is `xs` without `n` of its items, in the same order.
pub data Kept {ℓ} {A : Type ℓ} : List A → List A → ℕ → Type ℓ where
  nothing : Kept [] [] zero
  keep : {x : A} {xs ys : List A} {n : ℕ} → Kept xs ys n → Kept (x ∷ xs) (x ∷ ys) n
  lose : {x : A} {xs ys : List A} {n : ℕ} → Kept xs ys n → Kept (x ∷ xs) ys (suc n)

module _ {ℓ} {A : Type ℓ} where
  -- An operation, with the items that it takes in and hands out.
  pub data Step : OverflowPolicy → CircularQ A → List A → List A → CircularQ A → Type ℓ where
    enqueued :
        {p : OverflowPolicy} {q q' : CircularQ A} {x : A}
        → enqueue q x ≡ some q'
        → Step p q (x ∷ []) [] q'
    enqueued_nowait :
        {q : CircularQ A} {x : A}
        → Step OverflowPolicy.overrun_oldest q (x ∷ []) [] (enqueue_nowait q x)
    dequeued :
        {p : OverflowPolicy} {q q' : CircularQ A} {x : A}
        → dequeue_for q ≡ some (some x, q')
        → Step p q [] (x ∷ []) q'
    timed_out :
        {p : OverflowPolicy} {q q' : CircularQ A}
        → dequeue_for q ≡ some (none, q')
        → Step p q [] [] q'

  pub data Run (p : OverflowPolicy) (q : CircularQ A) : List A → List A → CircularQ A → Type ℓ where
    start : Run p q [] [] q
    next :
        {ins outs i o : List A} {q1 q2 : CircularQ A}
        → Run p q ins outs q1
        → Step p q1 i o q2
        → Run p q (ins ++ i) (outs ++ o) q2

  Kept-refl : (zs : List A) → Kept zs zs zero
  Kept-refl [] = Kept.nothing
  Kept-refl (z ∷ zs) = Kept.keep (Kept-refl zs)

  Kept-append : {xs ys : List A} {n : ℕ} (zs : List A) → Kept xs ys n → Kept (xs ++ zs) (ys ++ zs) n
  Kept-append zs Kept.nothing = Kept-refl zs
  Kept-append zs (Kept.keep k) = Kept.keep (Kept-append zs k)
  Kept-append zs (Kept.lose k) = Kept.lose (Kept-append zs k)

  Kept-drop :
      {xs zs : List A} {n : ℕ}
      → Kept xs zs n
      → (os : List A) (y : A) (ys : List A) → zs ≡ os ++ y ∷ ys
      → Kept xs (os ++ ys) (suc n)
  Kept-drop Kept.nothing [] y ys e = absurd (omega (arith, ap length e))
  Kept-drop Kept.nothing (o ∷ os) y ys e = absurd (omega (arith, ap length e))
  Kept-drop (Kept.keep {xs = xs} {n = n} k) [] y ys e =
      Kept.lose (subst (λ l. Kept xs l n) (ap (drop 1) e) k)
  Kept-drop (Kept.keep {x = x} {xs = xs} {n = n} k) (o ∷ os) y ys e =
      subst (λ a. Kept (x ∷ xs) (a ∷ (os ++ ys)) (suc n)) (ap (λ l. get_or l 0 x) e)
        (Kept.keep (Kept-drop k os y ys (ap (drop 1) e)))
  Kept-drop (Kept.lose k) os y ys e = Kept.lose (Kept-drop k os y ys e)

  Kept-exact :
      {n : ℕ} (a ins outs c c' i o : List A)
      → Kept (a ++ ins) (outs ++ c) n
      → c ++ i ≡ o ++ c'
      → Kept (a ++ (ins ++ i)) ((outs ++ o) ++ c') n
  Kept-exact {n} a ins outs c c' i o k e =
      subst₂ (λ l r. Kept l r n) (append_assoc a ins i)
        (append_assoc outs c i ∙ ap (λ l. outs ++ l) e ∙ sym (append_assoc outs o c'))
        (Kept-append i k)

  Kept-overrun :
      {y : A} {n : ℕ} (a ins outs c c' i o : List A)
      → Kept (a ++ ins) (outs ++ c) n
      → c ++ i ≡ y ∷ c'
      → o ≡ []
      → Kept (a ++ (ins ++ i)) ((outs ++ o) ++ c') (suc n)
  Kept-overrun {y} {n} a ins outs c c' i o k e eo =
      subst₂ (λ l r. Kept l (r ++ c') (suc n)) (append_assoc a ins i)
        (sym (append-nil outs) ∙ ap (λ l. outs ++ l) (sym eo))
        (Kept-drop (Kept-append i k) outs y c' (append_assoc outs c i ∙ ap (λ l. outs ++ l) e))

  cons_of_length : (xs : List A) → 0 < length xs → (y : A) × (ys : List A) × (xs ≡ y ∷ ys)
  cons_of_length [] h = absurd (omega arith)
  cons_of_length (x ∷ xs) h = (x, xs, refl)

pub block_ne : OverflowPolicy.block ≢ OverflowPolicy.overrun_oldest
block_ne e = ground arith

module _ {ℓ} {A : Type ℓ} (d : A) (room : ℕ) where
  -- What one operation does to the items and to the counter.
  abbrev Exact : CircularQ A → List A → List A → CircularQ A → Type ℓ
  Exact q i o q' =
      (contents d q ++ i ≡ o ++ contents d q') × (q'.overrun_counter ≡ q.overrun_counter)

  abbrev Overrun : CircularQ A → List A → List A → CircularQ A → Type ℓ
  Overrun q i o q' =
      (y : A) × (contents d q ++ i ≡ y ∷ contents d q')
      × (o ≡ [])
      × (q'.overrun_counter ≡ add_size q.overrun_counter 1)

  Step_lem :
      {p : OverflowPolicy} {q q' : CircularQ A} {i o : List A}
      → Ready room q
      → 0 < room
      → Step p q i o q'
      → Ready room q' × (Exact q i o q' ⊎ ((p ≡ OverflowPolicy.overrun_oldest) × Overrun q i o q'))
  Step_lem {q = q} {q' = q'} h r (Step.enqueued {x = x} e) =
      let (hr, es, ec) = enqueue_lem d room x h e in (hr, inl (sym es, ec))
  Step_lem {q = q} h r (Step.enqueued_nowait {x = x}) =
      elim (ℕ_discrete (length (contents d q)) room) [
        | yes f ↦
            let (hr, es, ec) = enqueue_nowait-full d room q x h f in
            let (y, ys, ey) =
              cons_of_length (contents d q ++ x ∷ [])
                (omega (arith, length-append (contents d q) (x ∷ []))) in
            (hr, inr (refl, (y, ey ∙ ap (◌∷◌ y) (sym (es ∙ ap (drop 1) ey)), refl, ec)))
        | no ne ↦
            let (hr, es, ec) =
              enqueue_nowait-room d room q x h (omega (arith, length-room d room q h)) in
            (hr, inl (sym es, ec))
      ]
  Step_lem {q = q} {q' = q'} h r (Step.dequeued {x = x} e) =
      let (hr, es, ec) = dequeue_for_lem d room h e in
      (hr, inl (append-nil (contents d q) ∙ es, ec))
  Step_lem {q = q} {q' = q'} h r (Step.timed_out e) =
      let same = (dequeue_for-timeout d room h e).0 in
      (
        subst (Ready room) same h,
        inl (
          append-nil (contents d q) ∙ ap (contents d) same,
          sym (ap (λ r. r.overrun_counter) same),
        ),
      )

  Run-Ready :
      {p : OverflowPolicy} {q q' : CircularQ A} {ins outs : List A}
      → Ready room q
      → 0 < room
      → Run p q ins outs q'
      → Ready room q'
  Run-Ready h r Run.start = h
  Run-Ready h r (Run.next run step) = (Step_lem (Run-Ready h r run) r step).0

  -- On a valid queue with room for at least one item, where all producers wait for room, the
  -- items come out in the order in which they went in, none lost.
  pub Run-block :
      {q q' : CircularQ A} {ins outs : List A}
      → Ready room q
      → 0 < room
      → Run OverflowPolicy.block q ins outs q'
      → contents d q ++ ins ≡ outs ++ contents d q'
  Run-block {q = q} h r Run.start = append-nil (contents d q)
  Run-block {q = q} h r
        (Run.next {ins = ins} {outs = outs} {i = i} {o = o} {q1 = q1} {q2 = q2} run step) =
      elim (Step_lem (Run-Ready h r run) r step).1 [
        | inl (e, ec) ↦
            sym (append_assoc (contents d q) ins i)
            ∙ ap (λ l. l ++ i) (Run-block h r run)
            ∙ append_assoc outs (contents d q1) i
            ∙ ap (λ l. outs ++ l) e
            ∙ sym (append_assoc outs o (contents d q2))
        | inr (e, over) ↦ absurd (block_ne e)
      ]

  -- On a valid queue with room for at least one item, in every run, the items come out in the
  -- order in which they went in; the counter of overruns grows, modulo the 2^64 of its type, by
  -- the number of items that are lost.
  pub Run-Kept :
      {p : OverflowPolicy} {q q' : CircularQ A} {ins outs : List A}
      → Ready room q
      → 0 < room
      → q.overrun_counter < size_mod
      → Run p q ins outs q'
      → (n : ℕ) × Kept (contents d q ++ ins) (outs ++ contents d q') n
        × (q'.overrun_counter ≡ add_size q.overrun_counter n)
  Run-Kept {q = q} h r hc Run.start = (
    0,
    subst (λ l. Kept l (contents d q) 0) (sym (append-nil (contents d q)))
        (Kept-refl (contents d q)),
    omega arith,
  )
  Run-Kept {q = q} h r hc
        (Run.next {ins = ins} {outs = outs} {i = i} {o = o} {q1 = q1} {q2 = q2} run step) =
      let (n, k, c) = Run-Kept h r hc run in
      elim (Step_lem (Run-Ready h r run) r step).1 [
        | inl (e, ec) ↦
            (n, Kept-exact (contents d q) ins outs (contents d q1) (contents d q2) i o k e, ec ∙ c)
        | inr (_, (y, e, eo, ec)) ↦ (
          suc n,
          Kept-overrun (contents d q) ins outs (contents d q1) (contents d q2) i o k e eo,
          ec ∙ ap (λ a. add_size a 1) c ∙ omega arith,
        )
      ]
