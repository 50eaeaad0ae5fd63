-- ===== src/ThreadPool/Run.antt =====
-- Runs of a thread pool: loggers that post, workers in `worker_loop_`, and the destructor,
-- which posts one terminate message for each thread and joins them. A worker is in a call of a
-- backend after it has let go of the queue's mutex.
use structlog.Common.{
  length, ◌+◌, ◌-◌, if◌then◌else◌, ◌<◌, true, false, ◌++◌, Bool, some, ◌∷◌, refl, [], List, ◌≡◌,
}
use structlog.ThreadPool.{
  Option, ℕ, AsyncMsg, Backend, Request, new_terminate, post_async_msg, post_log, post_flush,
  process_next_msg, new_log, new_flush, handle,
}
use structlog.BlockingQ.Fifo.{Ready, dequeue_for-nil, dequeue_for-cons}
use structlog.BlockingQ.Order.{OverflowPolicy}
use structlog.CircularQ.{CircularQ}
use structlog.CircularQ.Refine.{contents}

-- `running` threads are in their loop; `held` are the calls of the backend that some of them are
-- in, and `served` those that have returned, in the order in which they returned; `terminates`
-- messages have been posted by the destructor.
pub record Pool (W M : Type 0) : Type 0 where
  pub q : CircularQ (AsyncMsg W M)
  pub running : ℕ
  pub held : List (Request W M)
  pub served : List (Request W M)
  pub terminates : ℕ

module _ {W M B : Type 0} (backend : Backend W M B) where
  abbrev pub request_msg : Request W M → AsyncMsg W M
  request_msg (Request.log w m) = new_log backend w m
  request_msg (Request.flush w) = new_flush backend w

  abbrev pub post :
      CircularQ (AsyncMsg W M) → Request W M → OverflowPolicy → Option (CircularQ (AsyncMsg W M))
  post q (Request.log w m) p = post_log backend q w m p
  post q (Request.flush w) p = post_flush backend q w p

  abbrev pub serve : Request W M → B → B
  serve (Request.log w m) b = backend.backend_sink_it w m b
  serve (Request.flush w) b = backend.backend_flush w b

  abbrev pub serve_all : List (Request W M) → B → B
  serve_all [] b = b
  serve_all (r ∷ rs) b = serve_all rs (serve r b)

  -- A step of a pool of `threads_n` threads, with the requests that it accepts. Loggers hold
  -- the pool alive, so none posts once the destructor has begun. A worker that is in no call
  -- takes the next message; the calls of several workers overlap, and return in any order.
  pub data Step (threads_n : ℕ) (p : OverflowPolicy)
      : Pool W M → List (Request W M) → Pool W M → Type 0 where
    posted :
        {s : Pool W M} {q' : CircularQ (AsyncMsg W M)} {r : Request W M}
        → s.terminates ≡ 0
        → post s.q r p ≡ some q'
        → Step threads_n p s (r ∷ []) (record s { q = q' })
    taken :
        {s : Pool W M} {go : Bool} {calls : List (Request W M)} {q' : CircularQ (AsyncMsg W M)}
        → length s.held < s.running
        → process_next_msg s.q ≡ some (go, calls, q')
        → Step threads_n p s [] (record s {
          q = q';
          held = s.held ++ calls;
          running = if go then s.running else s.running - 1;
        })
    returned :
        {s : Pool W M} (before after : List (Request W M)) (r : Request W M)
        → s.held ≡ before ++ r ∷ after
        → Step threads_n p s [] (record s { held = before ++ after; served = s.served ++ r ∷ [] })
    told :
        {s : Pool W M} {q' : CircularQ (AsyncMsg W M)}
        → s.terminates < threads_n
        → post_async_msg backend s.q (new_terminate backend) OverflowPolicy.block ≡ some q'
        → Step threads_n p s [] (record s { q = q'; terminates = s.terminates + 1 })

  pub data Reach (threads_n : ℕ) (p : OverflowPolicy) (s : Pool W M)
      : List (Request W M) → Pool W M → Type 0 where
    start : Reach threads_n p s [] s
    next :
        {accepted more : List (Request W M)} {s1 s2 : Pool W M}
        → Reach threads_n p s accepted s1
        → Step threads_n p s1 more s2
        → Reach threads_n p s (accepted ++ more) s2

  pub post-message :
      (q : CircularQ (AsyncMsg W M)) (r : Request W M) (p : OverflowPolicy)
      → post q r p ≡ post_async_msg backend q (request_msg r) p
  unfolding post_log post_flush
  post-message q (Request.log w m) p = refl
  post-message q (Request.flush w) p = refl

  module _ (room : ℕ) (q : CircularQ (AsyncMsg W M)) (h : Ready room q) where
    abbrev items : List (AsyncMsg W M)
    items = contents (new_terminate backend) q

    pub process_timeout : items ≡ [] → process_next_msg q ≡ some (true, [], q)
    unfolding process_next_msg
    process_timeout e = rw (dequeue_for-nil (new_terminate backend) q h.valid e)

    pub process_request :
        (r : Request W M) (rest : List (AsyncMsg W M))
        → items ≡ request_msg r ∷ rest
        → (q' : CircularQ (AsyncMsg W M)) × (process_next_msg q ≡ some (true, r ∷ [], q'))
          × Ready room q'
          × (contents (new_terminate backend) q' ≡ rest)
    unfolding process_next_msg handle new_log new_flush
    process_request (Request.log w m) rest e =
        let (q', eq, hr, es, ec) = dequeue_for-cons (new_terminate backend) room q _ rest h e in
        (q', rw eq, hr, es)
    process_request (Request.flush w) rest e =
        let (q', eq, hr, es, ec) = dequeue_for-cons (new_terminate backend) room q _ rest h e in
        (q', rw eq, hr, es)

    pub process_terminate :
        (rest : List (AsyncMsg W M))
        → items ≡ new_terminate backend ∷ rest
        → (q' : CircularQ (AsyncMsg W M)) × (process_next_msg q ≡ some (false, [], q'))
          × Ready room q'
          × (contents (new_terminate backend) q' ≡ rest)
    unfolding process_next_msg handle new_terminate
    process_terminate rest e =
        let (q', eq, hr, es, ec) = dequeue_for-cons (new_terminate backend) room q _ rest h e in
        (q', rw eq, hr, es)
