-- ===== src/ThreadPool/Shutdown.antt =====
-- What the destructor of a thread pool leaves behind, and that it ends.
use structlog.Common.{
  ◌≤◌, append-nil, ◌+◌, ℕ_discrete, some_inj, subst, replicate, ap₂, ap, drop, ◌∷◌, map, refl, sym,
  ◌∙◌, ◌++◌, length, arith, [], ◌<◌, some, List, ◌≡◌,
}
use mathlib.Core.List.{Perm}
use mathlib.Core.List.Perm
use mathlib.Core.Path.{subst₂}
use structlog.ThreadPool.{ℕ, AsyncMsg, Backend, Request, new_terminate, post_async_msg}
use structlog.ThreadPool.Run.{Pool, request_msg, Step, Reach, post-message}
use structlog.ThreadPool.Drains.{
  Drains, returned-Drains, joined, told-Drains, round, after, all_requests,
}
use structlog.BlockingQ.{enqueue}
use structlog.BlockingQ.Fifo.{
  Ready, enqueue_lem, enqueue_nowait-room, enqueue_nowait-full, length-room,
}
use structlog.BlockingQ.Order.{OverflowPolicy, block_ne}
use structlog.CircularQ.{CircularQ}
use structlog.CircularQ.Refine.{contents}

module _ {W M B : Type 0} (backend : Backend W M B) (room threads_n : ℕ) where
  -- A pool whose threads have started.
  abbrev pub started : CircularQ (AsyncMsg W M) → Pool W M
  started q = record { q = q; running = threads_n; held = []; served = []; terminates = 0 }

  -- A full queue of requests loses the oldest of them.
  drop-joined :
      (ws : List (Request W M)) (r : Request W M)
      → 0 < length (map (request_msg backend) ws)
      → drop 1 (map (request_msg backend) ws ++ request_msg backend r ∷ [])
        ≡ map (request_msg backend) (drop 1 ws) ++ request_msg backend r ∷ []
  drop-joined [] r h = absurd (omega arith)
  drop-joined (w ∷ ws) r h = refl

  post_block :
      (q : CircularQ (AsyncMsg W M)) (m : AsyncMsg W M) {q' : CircularQ (AsyncMsg W M)}
      → post_async_msg backend q m OverflowPolicy.block ≡ some q'
      → enqueue q m ≡ some q'
  unfolding post_async_msg
  post_block q m e = e

  posted-Drains :
      {p : OverflowPolicy} {accepted : List (Request W M)} (s : Pool W M)
      (h : Drains backend room threads_n p accepted s) (r : Request W M)
      (q' : CircularQ (AsyncMsg W M))
      → 0 < room
      → s.terminates ≡ 0
      → post_async_msg backend s.q (request_msg backend r) p ≡ some q'
      → Drains backend room threads_n p (accepted ++ r ∷ []) (record s { q = q' })
  unfolding post_async_msg
  posted-Drains {p = OverflowPolicy.block} s h r q' l e ep =
      let (hr, es, ec) =
        enqueue_lem (new_terminate backend) room (request_msg backend r) h.ready ep in
      joined backend room threads_n OverflowPolicy.block s h r q' h.waiting e hr
        (es
          ∙ ap (λ k. k ++ request_msg backend r ∷ [])
              (all_requests backend room threads_n OverflowPolicy.block s h e))
        (λ eb. refl)
  posted-Drains {p = OverflowPolicy.overrun_oldest} {accepted = accepted} s h r q' l e ep =
      subst
        (λ k.
          Drains backend room threads_n OverflowPolicy.overrun_oldest (accepted ++ r ∷ [])
            (record s { q = k }))
        (some_inj ep)
        (elim (ℕ_discrete (length (contents (new_terminate backend) s.q)) room) [
          | no ne ↦
              let (hr, es, ec) =
                enqueue_nowait-room (new_terminate backend) room s.q (request_msg backend r) h.ready
                  (omega (arith, length-room (new_terminate backend) room s.q h.ready)) in
              joined backend room threads_n OverflowPolicy.overrun_oldest s h r _ h.waiting e hr
                (es
                  ∙ ap (λ k. k ++ request_msg backend r ∷ [])
                      (all_requests backend room threads_n OverflowPolicy.overrun_oldest s h e))
                (λ eb. absurd (block_ne (sym eb)))
          | yes f ↦
              let (hr, es, ec) =
                enqueue_nowait-full (new_terminate backend) room s.q (request_msg backend r) h.ready
                  f in
              joined backend room threads_n OverflowPolicy.overrun_oldest s h r _ (drop 1 h.waiting)
                e hr
                (es
                  ∙ ap (λ k. drop 1 (k ++ request_msg backend r ∷ []))
                      (all_requests backend room threads_n OverflowPolicy.overrun_oldest s h e)
                  ∙ drop-joined h.waiting r (
                      omega (
                        arith,
                        f,
                        ap length (
                            all_requests backend room threads_n OverflowPolicy.overrun_oldest s h
                              e),
                      )))
                (λ eb. absurd (block_ne (sym eb)))
        ])

  start-Drains :
      (p : OverflowPolicy) (q : CircularQ (AsyncMsg W M))
      → Ready room q
      → contents (new_terminate backend) q ≡ []
      → Drains backend room threads_n p [] (started q)
  start-Drains p q hr e = record {
    ready = hr;
    waiting = [];
    ends = 0;
    items = e;
    count = omega arith;
    at_most = omega arith;
    alive = omega arith;
    first = λ l. refl;
    busy = omega arith;
    kept = λ eb. Perm.refl [];
    ordered = λ eb e1. refl;
  }

  empty_list : (xs : List (Request W M)) → length xs ≤ 0 → xs ≡ []
  empty_list [] l = refl
  empty_list (x ∷ xs) l = absurd (omega arith)

  -- Where no call is in progress and nothing waits.
  all_served :
      (s : Pool W M) (waiting : List (Request W M))
      → s.held ≡ []
      → waiting ≡ []
      → s.served ++ (s.held ++ waiting) ≡ s.served
  all_served s waiting e1 e2 = ap₂ (λ a b. s.served ++ (a ++ b)) e1 e2 ∙ append-nil s.served

  pub Step-Drains :
      {p : OverflowPolicy} {accepted more : List (Request W M)} {s s' : Pool W M}
      → 0 < room
      → Drains backend room threads_n p accepted s
      → Step backend threads_n p s more s'
      → Drains backend room threads_n p (accepted ++ more) s'
  Step-Drains {p = p} {s = s} l h (Step.posted {q' = q'} {r = r} e ep) =
      posted-Drains s h r q' l e (sym (post-message backend s.q r p) ∙ ep)
  Step-Drains {p = p} {accepted = accepted} {s = s} l h (Step.taken free e) =
      let (r, er, hd, few, less) = round backend room threads_n p s h free in
      subst₂ (λ a k. Drains backend room threads_n p a (after backend room threads_n p s k))
        (sym (append-nil accepted)) (some_inj (sym er ∙ e)) hd
  Step-Drains {p = p} {accepted = accepted} {s = s} l h (Step.returned before after r e) =
      subst
        (λ a.
          Drains backend room threads_n p a
            (record s { held = before ++ after; served = s.served ++ r ∷ [] }))
        (sym (append-nil accepted)) (returned-Drains backend room threads_n p s h before after r e)
  Step-Drains {p = p} {accepted = accepted} {s = s} l h (Step.told {q' = q'} lt e) =
      let (hr, es, ec) =
        enqueue_lem (new_terminate backend) room (new_terminate backend) h.ready
          (post_block s.q _ e) in
      subst
        (λ a.
          Drains backend room threads_n p a (record s { q = q'; terminates = s.terminates + 1 }))
        (sym (append-nil accepted)) (told-Drains backend room threads_n p s h q' lt hr es)

  pub Reach-Drains :
      {p : OverflowPolicy} (q : CircularQ (AsyncMsg W M)) {accepted : List (Request W M)}
      {s : Pool W M}
      → 0 < room
      → Ready room q
      → contents (new_terminate backend) q ≡ []
      → Reach backend threads_n p (started q) accepted s
      → Drains backend room threads_n p accepted s
  Reach-Drains {p = p} q l hr e Reach.start = start-Drains p q hr e
  Reach-Drains q l hr e (Reach.next reach step) = Step-Drains l (Reach-Drains q l hr e reach) step

  -- For a pool with at least one thread and room for a message, started with an empty queue:
  -- when all threads have left their loops and can be joined, the queue is empty and no call of
  -- a backend is in progress; and where the loggers wait for room, the calls that have returned
  -- are those of all the requests that were ever accepted, each once, in some order.
  pub shutdown_drains :
      {p : OverflowPolicy} (q : CircularQ (AsyncMsg W M)) {accepted : List (Request W M)}
      {s : Pool W M}
      → 0 < room
      → 0 < threads_n
      → Ready room q
      → contents (new_terminate backend) q ≡ []
      → Reach backend threads_n p (started q) accepted s
      → s.running ≡ 0
      → (contents (new_terminate backend) s.q ≡ [])
        × (s.held ≡ [])
        × (p ≡ OverflowPolicy.block → Perm s.served accepted)
  shutdown_drains {p = p} q {accepted = accepted} {s = s} l lt hr e reach er =
      let h = Reach-Drains q l hr e reach in
      let none_left = h.first (omega arith) in
      let no_end : h.ends ≡ 0 = omega (arith, h.count, h.at_most) in
      let no_call : s.held ≡ [] = empty_list s.held (omega (arith, h.busy)) in
      (
        h.items
            ∙ ap₂ (λ ws n. map (request_msg backend) ws ++ replicate n (new_terminate backend))
                none_left no_end,
        no_call,
        λ eb. subst (λ l. Perm l accepted) (all_served s h.waiting no_call none_left) (h.kept eb),
      )

  -- The same pool with one thread serves the requests in the order in which it accepted them,
  -- where the loggers wait for room.
  pub shutdown_in_order :
      (q : CircularQ (AsyncMsg W M)) (accepted : List (Request W M)) (s : Pool W M)
      → 0 < room
      → threads_n ≡ 1
      → Ready room q
      → contents (new_terminate backend) q ≡ []
      → Reach backend threads_n OverflowPolicy.block (started q) accepted s
      → s.running ≡ 0
      → s.served ≡ accepted
  shutdown_in_order q accepted s l e1 hr e reach er =
      let h = Reach-Drains q l hr e reach in
      sym (
        all_served s h.waiting (empty_list s.held (omega (arith, h.busy)))
          (h.first (omega (arith, e1))))
      ∙ h.ordered refl e1
