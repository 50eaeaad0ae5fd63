-- ===== src/ThreadPool/Drains.antt =====
-- What holds in every run of a thread pool, step by step.
use mathlib.Core.List.{Perm, perm_middle}
use mathlib.Core.List.Perm
use structlog.Common.{
  length-append, append_assoc, subst, ap₂, inr, List-cases, ◌-◌, inl, some, length, if◌then◌else◌,
  ◌⊎◌, Bool, false, true, zero, sym, ◌≤◌, suc, refl, append-nil, ap, [], ◌+◌, arith, ◌∙◌, replicate,
  ◌∷◌, ◌≡◌, ◌++◌, map, ◌<◌, List,
}
use structlog.ThreadPool.{ℕ, AsyncMsg, Backend, Request, new_terminate, process_next_msg}
use structlog.ThreadPool.Run.{
  Pool, request_msg, process_timeout, process_request, process_terminate,
}
use structlog.BlockingQ.Fifo.{Ready}
use structlog.BlockingQ.Order.{OverflowPolicy}
use structlog.CircularQ.{CircularQ}
use structlog.CircularQ.Refine.{contents}

module _ {W M B : Type 0} (backend : Backend W M B) (room threads_n : ℕ) (p : OverflowPolicy) where
  -- The items of the queue are requests with the terminate messages behind them; no thread has
  -- left its loop while a request waits; where the producers wait for room, the requests that were
  -- accepted are those that were served, those that are being served and those that wait, in the
  -- order of acceptance if the pool has one thread.
  pub record Drains (accepted : List (Request W M)) (s : Pool W M) : Type 0 where
    pub ready : Ready room s.q
    pub waiting : List (Request W M)
    pub ends : ℕ
    pub items :
        contents (new_terminate backend) s.q
        ≡ map (request_msg backend) waiting ++ replicate ends (new_terminate backend)
    pub count : ends + threads_n ≡ s.terminates + s.running
    pub at_most : s.terminates ≤ threads_n
    pub alive : s.running ≤ threads_n
    pub first : s.running < threads_n → waiting ≡ []
    pub busy : length s.held ≤ s.running
    pub kept : p ≡ OverflowPolicy.block → Perm (s.served ++ (s.held ++ waiting)) accepted
    pub ordered :
        p ≡ OverflowPolicy.block → threads_n ≡ 1 → s.served ++ (s.held ++ waiting) ≡ accepted

  append-snoc :
      (xs ys zs : List (Request W M)) (r : Request W M)
      → xs ++ (ys ++ (zs ++ r ∷ [])) ≡ (xs ++ (ys ++ zs)) ++ r ∷ []
  append-snoc xs ys zs r = simp append_assoc

  -- A call that returns moves from those in progress to those that are served.
  returned-perm :
      (served before after waiting : List (Request W M)) (r : Request W M)
      → Perm
          ((served ++ r ∷ []) ++ ((before ++ after) ++ waiting))
          (served ++ ((before ++ r ∷ after) ++ waiting))
  returned-perm served before after waiting r =
      subst (λ l. Perm l (served ++ ((before ++ r ∷ after) ++ waiting)))
        (sym (append_assoc served (r ∷ []) ((before ++ after) ++ waiting)))
        (Perm.append_left served (Perm.append_right waiting (Perm.symm (perm_middle before after))))

  returned-order :
      (served before after waiting : List (Request W M)) (r : Request W M)
      → length (before ++ r ∷ after) ≤ 1
      → (served ++ r ∷ []) ++ ((before ++ after) ++ waiting)
        ≡ served ++ ((before ++ r ∷ after) ++ waiting)
  returned-order served [] [] waiting r l = append_assoc served (r ∷ []) waiting
  returned-order served [] (x ∷ after) waiting r l = absurd (omega arith)
  returned-order served (x ∷ before) after waiting r l =
      absurd (omega (arith, length-append before (r ∷ after)))

  map-snoc :
      (ws : List (Request W M)) (r : Request W M)
      → map (request_msg backend) ws ++ request_msg backend r ∷ []
        ≡ map (request_msg backend) (ws ++ r ∷ []) ++ []
  map-snoc [] r = refl
  map-snoc (w ∷ ws) r = ap (◌∷◌ (request_msg backend w)) (map-snoc ws r)

  replicate-snoc :
      (xs : List (AsyncMsg W M)) (n : ℕ) (t : AsyncMsg W M)
      → (xs ++ replicate n t) ++ t ∷ [] ≡ xs ++ replicate (suc n) t
  replicate-snoc [] zero t = refl
  replicate-snoc [] (suc n) t = ap (◌∷◌ t) (replicate-snoc [] n t)
  replicate-snoc (x ∷ xs) n t = ap (◌∷◌ x) (replicate-snoc xs n t)

  -- While the destructor has not begun.
  no_ends :
      {accepted : List (Request W M)} (s : Pool W M) (h : Drains accepted s)
      → s.terminates ≡ 0
      → h.ends ≡ 0
  no_ends s h e = omega (arith, h.count, h.alive)

  pub all_requests :
      {accepted : List (Request W M)} (s : Pool W M) (h : Drains accepted s)
      → s.terminates ≡ 0
      → contents (new_terminate backend) s.q ≡ map (request_msg backend) h.waiting
  all_requests s h e =
      h.items
      ∙ ap (λ k. map (request_msg backend) h.waiting ++ replicate k (new_terminate backend))
          (no_ends s h e)
      ∙ append-nil _

  -- A request joins those that wait, when some of them are overrun, or none.
  pub joined :
      {accepted : List (Request W M)} (s : Pool W M) (h : Drains accepted s) (r : Request W M)
      (q' : CircularQ (AsyncMsg W M)) (ws : List (Request W M))
      → s.terminates ≡ 0
      → Ready room q'
      → contents (new_terminate backend) q'
        ≡ map (request_msg backend) ws ++ request_msg backend r ∷ []
      → (p ≡ OverflowPolicy.block → ws ≡ h.waiting)
      → Drains (accepted ++ r ∷ []) (record s { q = q' })
  joined {accepted} s h r q' ws e hr es same = record {
    ready = hr;
    waiting = ws ++ r ∷ [];
    ends = 0;
    items = es ∙ map-snoc ws r;
    count = omega (arith, h.count, h.alive);
    at_most = h.at_most;
    alive = h.alive;
    first = λ l. absurd (omega (arith, h.count, h.alive));
    busy = h.busy;
    kept = λ eb.
        subst (λ l. Perm l (accepted ++ r ∷ [])) (sym (waits eb))
          (Perm.append_right (r ∷ []) (h.kept eb));
    ordered = λ eb e1. waits eb ∙ ap (λ l. l ++ r ∷ []) (h.ordered eb e1);
  }
    where
      waits :
          p ≡ OverflowPolicy.block
          → s.served ++ (s.held ++ (ws ++ r ∷ [])) ≡ (s.served ++ (s.held ++ h.waiting)) ++ r ∷ []
      waits eb =
          ap (λ l. s.served ++ (s.held ++ (l ++ r ∷ []))) (same eb)
          ∙ append-snoc s.served s.held h.waiting r

  pub told-Drains :
      {accepted : List (Request W M)} (s : Pool W M) (h : Drains accepted s)
      (q' : CircularQ (AsyncMsg W M))
      → s.terminates < threads_n
      → Ready room q'
      → contents (new_terminate backend) q'
        ≡ contents (new_terminate backend) s.q ++ new_terminate backend ∷ []
      → Drains accepted (record s { q = q'; terminates = s.terminates + 1 })
  told-Drains s h q' l hr es = record {
    ready = hr;
    waiting = h.waiting;
    ends = suc h.ends;
    items =
        es
        ∙ ap (λ k. k ++ new_terminate backend ∷ []) h.items
        ∙ replicate-snoc _ h.ends (new_terminate backend);
    count = omega (arith, h.count);
    at_most = omega arith;
    alive = h.alive;
    first = h.first;
    busy = h.busy;
    kept = h.kept;
    ordered = h.ordered;
  }

  pub returned-Drains :
      {accepted : List (Request W M)} (s : Pool W M) (h : Drains accepted s)
      (before after : List (Request W M)) (r : Request W M)
      → s.held ≡ before ++ r ∷ after
      → Drains accepted (record s { held = before ++ after; served = s.served ++ r ∷ [] })
  returned-Drains {accepted} s h before after r e = record {
    ready = h.ready;
    waiting = h.waiting;
    ends = h.ends;
    items = h.items;
    count = h.count;
    at_most = h.at_most;
    alive = h.alive;
    first = h.first;
    busy =
        omega (
          arith,
          h.busy,
          ap length e,
          length-append before after,
          length-append before (r ∷ after),
        );
    kept = λ eb.
        Perm.trans (returned-perm s.served before after h.waiting r)
          (subst (λ l. Perm (s.served ++ (l ++ h.waiting)) accepted) e (h.kept eb));
    ordered = λ eb e1.
        returned-order s.served before after h.waiting r
          (omega (arith, h.busy, h.alive, e1, ap length e))
        ∙ ap (λ l. s.served ++ (l ++ h.waiting)) (sym e)
        ∙ h.ordered eb e1;
  }

  -- The pool after a worker has taken a message, or none in time.
  abbrev pub after : Pool W M → Bool × List (Request W M) × CircularQ (AsyncMsg W M) → Pool W M
  after s r = record s {
    q = r.2;
    held = s.held ++ r.1;
    running = if r.0 then s.running else s.running - 1;
  }

  round_request :
      {accepted : List (Request W M)} (s : Pool W M) (h : Drains accepted s) (w : Request W M)
      (ws : List (Request W M)) (q' : CircularQ (AsyncMsg W M))
      → length s.held < s.running
      → h.waiting ≡ w ∷ ws
      → Ready room q'
      → contents (new_terminate backend) q'
        ≡ map (request_msg backend) ws ++ replicate h.ends (new_terminate backend)
      → Drains accepted (after s (true, w ∷ [], q'))
  round_request {accepted} s h w ws q' free e hr es = record {
    ready = hr;
    waiting = ws;
    ends = h.ends;
    items = es;
    count = h.count;
    at_most = h.at_most;
    alive = h.alive;
    first = λ l. absurd (omega (arith, ap length (sym e ∙ h.first l)));
    busy = omega (arith, free, length-append s.held (w ∷ []));
    kept = λ eb. subst (λ l. Perm l accepted) (sym taken) (h.kept eb);
    ordered = λ eb e1. taken ∙ h.ordered eb e1;
  }
    where
      taken : s.served ++ ((s.held ++ w ∷ []) ++ ws) ≡ s.served ++ (s.held ++ h.waiting)
      taken =
          ap (λ l. s.served ++ l) (append_assoc s.held (w ∷ []) ws)
          ∙ ap (λ l. s.served ++ (s.held ++ l)) (sym e)

  round_terminate :
      {accepted : List (Request W M)} (s : Pool W M) (h : Drains accepted s) (n : ℕ)
      (q' : CircularQ (AsyncMsg W M))
      → length s.held < s.running
      → h.waiting ≡ []
      → h.ends ≡ suc n
      → Ready room q'
      → contents (new_terminate backend) q' ≡ replicate n (new_terminate backend)
      → Drains accepted (after s (false, [], q'))
  round_terminate {accepted} s h n q' free ew en hr es = record {
    ready = hr;
    waiting = [];
    ends = n;
    items = es;
    count = omega (arith, h.count);
    at_most = h.at_most;
    alive = omega (arith, h.alive);
    first = λ k. refl;
    busy = omega (arith, free, length-append s.held []);
    kept = λ eb. subst (λ l. Perm l accepted) (sym same) (h.kept eb);
    ordered = λ eb e1. same ∙ h.ordered eb e1;
  }
    where
      same : s.served ++ ((s.held ++ []) ++ []) ≡ s.served ++ (s.held ++ h.waiting)
      same =
          ap (λ l. s.served ++ (l ++ [])) (append-nil s.held)
          ∙ ap (λ l. s.served ++ (s.held ++ l)) (sym ew)

  ℕ-cases : (n : ℕ) → (n ≡ 0) ⊎ ((k : ℕ) × (n ≡ suc k))
  ℕ-cases zero = inl refl
  ℕ-cases (suc n) = inr (n, refl)

  -- A worker that is in no call: what it takes, which is one call or none, and where that leads.
  pub round :
      {accepted : List (Request W M)} (s : Pool W M) (h : Drains accepted s)
      → length s.held < s.running
      → (r : Bool × List (Request W M) × CircularQ (AsyncMsg W M)) × (process_next_msg s.q ≡ some r)
        × Drains accepted (after s r)
        × (length r.1 ≤ 1)
        × (0 < length (contents (new_terminate backend) s.q)
            → length (contents (new_terminate backend) r.2)
              < length (contents (new_terminate backend) s.q))
  round {accepted} s h l = elim (List-cases h.waiting) [
    | inr (w, ws, e) ↦
        let front =
          h.items
          ∙ ap (λ k. map (request_msg backend) k ++ replicate h.ends (new_terminate backend)) e in
        let (q', eq, hr, es) = process_request backend room s.q h.ready w _ front in
        (
          (true, w ∷ [], q'),
          eq,
          round_request s h w ws q' l e hr es,
          omega arith,
          λ z. omega (arith, ap length es, ap length front),
        )
    | inl e ↦ elim (ℕ-cases h.ends) [
      | inr (n, en) ↦
          let front =
            h.items
            ∙ ap₂ (λ k j. map (request_msg backend) k ++ replicate j (new_terminate backend)) e
                en in
          let (q', eq, hr, es) = process_terminate backend room s.q h.ready _ front in
          (
            (false, [], q'),
            eq,
            round_terminate s h n q' l e en hr es,
            omega arith,
            λ z. omega (arith, ap length es, ap length front),
          )
      | inl en ↦
          let none_left =
            h.items
            ∙ ap₂ (λ k j. map (request_msg backend) k ++ replicate j (new_terminate backend)) e
                en in
          (
            (true, [], s.q),
            process_timeout backend room s.q h.ready none_left,
            subst (λ l. Drains accepted (record s { held = l })) (sym (append-nil s.held)) h,
            omega arith,
            λ z. absurd (omega (arith, ap length none_left)),
          )
    ]
  ]
