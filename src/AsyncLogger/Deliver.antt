-- ===== src/AsyncLogger/Deliver.antt =====
-- What the sinks get of the messages of asynchronous loggers.
use structlog.Common.{
  ap₂, ℕ, List, [], ◌∷◌, ◌++◌, ◌≡◌, ◌<◌, refl, ap, sym, ◌∙◌, inl, inr, Bool-cases, append-nil,
  append_assoc,
}
use mathlib.Core.Path.{fun_ext}
use structlog.Level.{Level, ge}
use structlog.LogMsg.{LogMsg}
use structlog.Logger
use structlog.Logger.{Sinks, Logger, log_loop, flush_loop, should_flush, guarded}
use structlog.Logger.Deliver.{
  Observed, admitted, levels, sink_it-attempts, sink_it-level, flush-attempts, flush-level,
}
use structlog.CircularQ.{CircularQ}
use structlog.CircularQ.Refine.{contents}
use structlog.BlockingQ.Fifo.{Ready}
use structlog.BlockingQ.Order.{OverflowPolicy}
use structlog.ThreadPool.{AsyncMsg, Request, new_terminate}
use structlog.ThreadPool.Run.{Pool, Reach, serve_all}
use structlog.ThreadPool.Shutdown.{started, shutdown_in_order}
use structlog.AsyncLogger.{
  default_msg, AsyncLogger, backend, backend_sink_it, backend_flush, backend_log_loop,
  backend_flush_loop,
}

module _ {W : Type 0} (api : Sinks W) where
  backend_log_loop-log_loop :
      (ss : List ℕ) (m : LogMsg) (w : W) → backend_log_loop api ss m w ≡ log_loop api ss m w
  unfolding backend_log_loop log_loop
  backend_log_loop-log_loop [] m w = refl
  backend_log_loop-log_loop (s ∷ ss) m w = elim (Bool-cases (ge m.level (api.level_of s w))) [
    | inl e ↦ rw e (backend_log_loop-log_loop ss m (guarded api (api.log s m w)))
    | inr e ↦ rw e (backend_log_loop-log_loop ss m w)
  ]

  backend_flush_loop-flush_loop :
      (ss : List ℕ) (w : W) → backend_flush_loop api ss w ≡ flush_loop api ss w
  unfolding backend_flush_loop flush_loop
  backend_flush_loop-flush_loop [] w = refl
  backend_flush_loop-flush_loop (s ∷ ss) w =
      backend_flush_loop-flush_loop ss (guarded api (api.flush s w))

  -- backend_sink_it_ and backend_flush_, which the pool calls, do to the sinks what sink_it_
  -- and flush_ of the plain logger do.
  pub backend_sink_it-sink_it :
      (l : AsyncLogger) (m : LogMsg) (w : W)
      → (backend_sink_it api l m w ≡ Logger.sink_it api l.logger m w)
        × (backend_flush api l w ≡ Logger.flush api l.logger w)
  unfolding backend_sink_it backend_flush Logger.sink_it Logger.flush
  backend_sink_it-sink_it l m w = (
    elim (Bool-cases (should_flush l.logger m)) [
      | inl e ↦ rw e (
          ap (backend_flush_loop api l.logger.sinks) (backend_log_loop-log_loop l.logger.sinks m w)
          ∙ backend_flush_loop-flush_loop l.logger.sinks _)
      | inr e ↦ rw e (backend_log_loop-log_loop l.logger.sinks m w)
    ],
    backend_flush_loop-flush_loop l.logger.sinks w,
  )

  module _ (obs : Observed api) where
    -- What the sinks get of the requests that the pool accepted.
    abbrev pub delivered : (ℕ → Level) → List (Request AsyncLogger LogMsg) → List (ℕ × LogMsg)
    delivered lv [] = []
    delivered lv (Request.log l m ∷ rs) = admitted lv l.logger.sinks m ++ delivered lv rs
    delivered lv (Request.flush l ∷ rs) = delivered lv rs

    -- Neither a message nor a flush changes the levels of the sinks.
    levels-after_log :
        (l : AsyncLogger) (m : LogMsg) (w : W)
        → levels api obs (backend_sink_it api l m w) ≡ levels api obs w
    levels-after_log l m w =
        ap (levels api obs) (backend_sink_it-sink_it l m w).0
        ∙ fun_ext (λ t. sink_it-level api obs l.logger m w t)

    levels-after_flush :
        (l : AsyncLogger) (w : W) → levels api obs (backend_flush api l w) ≡ levels api obs w
    levels-after_flush l w =
        ap (levels api obs) (backend_sink_it-sink_it l default_msg w).1
        ∙ fun_ext (λ t. flush-level api obs l.logger w t)

    serve_all-attempts :
        (rs : List (Request AsyncLogger LogMsg)) (w : W)
        → obs.attempts (serve_all (backend api) rs w)
          ≡ obs.attempts w ++ delivered (levels api obs w) rs
    serve_all-attempts [] w = sym (append-nil (obs.attempts w))
    serve_all-attempts (Request.log l m ∷ rs) w =
        serve_all-attempts rs (backend_sink_it api l m w)
        ∙ ap₂ (λ a lv. a ++ delivered lv rs)
            (ap obs.attempts (backend_sink_it-sink_it l m w).0
              ∙ sink_it-attempts api obs l.logger m w)
            (levels-after_log l m w)
        ∙ append_assoc (obs.attempts w) _ (delivered (levels api obs w) rs)
    serve_all-attempts (Request.flush l ∷ rs) w =
        serve_all-attempts rs (backend_flush api l w)
        ∙ ap₂ (λ a lv. a ++ delivered lv rs)
            (ap obs.attempts (backend_sink_it-sink_it l default_msg w).1
              ∙ flush-attempts api obs l.logger w)
            (levels-after_flush l w)

    -- When the thread of a pool of one thread has ended, all the messages that asynchronous
    -- loggers posted to it, waiting for room, have been handed to the sinks of their loggers
    -- whose level admits them, in the order in which the pool accepted them: that is what the
    -- calls that the thread has made, one after the other, have done to the sinks. The pool has
    -- room for a message and starts with an empty queue; the sinks are as `Observed` describes
    -- them, and throw nothing but a `std::exception`.
    pub shutdown-delivered :
        (room : ℕ) (b0 : W) (q : CircularQ (AsyncMsg AsyncLogger LogMsg))
        (accepted : List (Request AsyncLogger LogMsg)) (s : Pool AsyncLogger LogMsg)
        → 0 < room
        → Ready room q
        → contents (new_terminate (backend api)) q ≡ []
        → Reach (backend api) 1 OverflowPolicy.block (started (backend api) room 1 q) accepted s
        → s.running ≡ 0
        → obs.attempts (serve_all (backend api) s.served b0)
          ≡ obs.attempts b0 ++ delivered (levels api obs b0) accepted
    shutdown-delivered room b0 q accepted s l hr e reach er =
        ap (λ rs. obs.attempts (serve_all (backend api) rs b0))
          (shutdown_in_order (backend api) room 1 q accepted s l refl hr e reach er)
        ∙ serve_all-attempts accepted b0
