-- ===== src/ThreadPool/Ends.antt =====
-- The destructor of a thread pool can always end.
use structlog.Common.{
  inl, inr, ◌++◌, List-cases, length-replicate, ◌-◌, zero, length-append, suc, ◌*◌, append-nil, ◌+◌,
  dec_lt, subst, replicate, ap, ◌∷◌, map, length, arith, [], ◌<◌, List, ◌≡◌,
}
use structlog.ThreadPool.{ℕ, AsyncMsg, Backend, Request, new_terminate, post_async_msg}
use structlog.ThreadPool.Run.{Pool, request_msg, Step, Reach}
use structlog.ThreadPool.Drains.{Drains, round, after}
use structlog.BlockingQ.Fifo.{Ready, enqueue-room}
use structlog.BlockingQ.Order.{OverflowPolicy}
use structlog.CircularQ.{CircularQ}
use structlog.CircularQ.Refine.{contents}
use structlog.ThreadPool.Shutdown.{started, Reach-Drains}

module _ {W M B : Type 0} (backend : Backend W M B) (room threads_n : ℕ) where
  -- What the destructor and the workers still have to do.
  abbrev measure : Pool W M → ℕ
  measure s =
      3 * (threads_n - s.terminates)
      + (2 * length (contents (new_terminate backend) s.q) + length s.held)

  progress :
      {p : OverflowPolicy} {accepted : List (Request W M)} (s : Pool W M)
      → 0 < room
      → Drains backend room threads_n p accepted s
      → 0 < s.running
      → (s' : Pool W M) × Step backend threads_n p s [] s' × (measure s' < measure s)
  unfolding post_async_msg
  progress {p = p} s l h lr = elim (List-cases s.held) [
    | inr (r, held, e) ↦ (
      record s { held = held; served = s.served ++ r ∷ [] },
      Step.returned [] held r e,
      omega (arith, ap length e),
    )
    | inl none_held ↦ elim (dec_lt 0 (length (contents (new_terminate backend) s.q))) [
      | yes some_item ↦
          let (r, er, hd, few, less) =
            round backend room threads_n p s h (omega (arith, ap length none_held, lr)) in
          (
            after backend room threads_n p s r,
            Step.taken (omega (arith, ap length none_held, lr)) er,
            omega (arith, less some_item, few, length-append s.held r.1, ap length none_held),
          )
      | no no_item ↦
          let (q', eq, hr, es, ec) =
            enqueue-room (new_terminate backend) room s.q (new_terminate backend) h.ready
              (omega arith) in
          let lt : s.terminates < threads_n = omega (
            arith,
            h.count,
            ap length h.items,
            length-append (map (request_msg backend) h.waiting)
                (replicate h.ends (new_terminate backend)),
            length-replicate h.ends (new_terminate backend),
          ) in
          (
            record s { q = q'; terminates = s.terminates + 1 },
            Step.told lt eq,
            omega (
              arith,
              ap length es,
              length-append (contents (new_terminate backend) s.q) (new_terminate backend ∷ []),
              lt,
            ),
          )
    ]
  ]

  finish :
      {p : OverflowPolicy} (n : ℕ) (q : CircularQ (AsyncMsg W M)) {accepted : List (Request W M)}
      (s : Pool W M)
      → 0 < room
      → Ready room q
      → contents (new_terminate backend) q ≡ []
      → Reach backend threads_n p (started backend room threads_n q) accepted s
      → measure s < n
      → (s' : Pool W M) × Reach backend threads_n p (started backend room threads_n q) accepted s'
        × (s'.running ≡ 0)
  finish zero q s l hr e reach lm = absurd (omega arith)
  finish {p = p} (suc n) q {accepted} s l hr e reach lm = elim (dec_lt 0 s.running) [
    | no stopped ↦ (s, reach, omega arith)
    | yes lr ↦
        let (s1, step, less) =
          progress s l (Reach-Drains backend room threads_n q l hr e reach) lr in
        finish n q s1 l hr e
          (subst (λ a. Reach backend threads_n p (started backend room threads_n q) a s1)
            (append-nil accepted) (Reach.next reach step))
          (omega arith)
  ]

  -- For a pool with room for a message, started with an empty queue: from every state of a run, the
  -- destructor and the workers alone can bring all threads to the end of their loops.
  pub shutdown_ends :
      {p : OverflowPolicy} (q : CircularQ (AsyncMsg W M)) {accepted : List (Request W M)}
      {s : Pool W M}
      → 0 < room
      → Ready room q
      → contents (new_terminate backend) q ≡ []
      → Reach backend threads_n p (started backend room threads_n q) accepted s
      → (s' : Pool W M) × Reach backend threads_n p (started backend room threads_n q) accepted s'
        × (s'.running ≡ 0)
  shutdown_ends q {s = s} l hr e reach = finish (measure s + 1) q s l hr e reach (omega arith)
