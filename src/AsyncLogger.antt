-- ===== src/AsyncLogger.antt =====
-- include/spdlog/async_logger.h and async_logger-inl.h: a logger whose messages go to a thread
-- pool, with the functions that the pool's threads call.
pub mod Deliver
mod Tests
use structlog.Common.{ℕ, Bool, Option, some, none, List, [], ◌∷◌, if◌then◌else◌}
use structlog.Common.Int.{pos}
use structlog.LogMsg.{LogMsg}
use structlog.Level.{Level}
use structlog.Logger.{Sinks, Logger, guarded, should_flush, sink_should_log}
use structlog.CircularQ.{CircularQ}
use structlog.BlockingQ.Order.{OverflowPolicy}
use structlog.ThreadPool.{AsyncMsg, Backend, post_log, post_flush}

pub record AsyncLogger : Type 0 where
  pub logger : Logger
  pub overflow_policy : OverflowPolicy

-- A call that asks the pool: it throws if there is no pool any more, waits for room in the
-- queue, or leaves a message there.
pub data Posted (Q : Type 0) : Type 0 where
  throws : Posted Q
  waits : Posted Q
  queued : Q → Posted Q

abbrev of_post : {Q : Type 0} → Option Q → Posted Q
of_post none = Posted.waits
of_post (some q) = Posted.queued q

-- `log_msg{}`
abbrev pub default_msg : LogMsg
default_msg = record {
  logger_name = [];
  level = Level.off;
  time = pos 0;
  thread_id = 0;
  source = record { filename = []; line = pos 0; funcname = [] };
  payload = [];
  color_range_start = 0;
  color_range_end = 0;
}

module _ {W : Type 0} (api : Sinks W) where
  -- The loop of `backend_sink_it_`.
  unfoldable pub backend_log_loop : List ℕ → LogMsg → W → W
  unfolding guarded
  backend_log_loop [] msg w = w
  backend_log_loop (sink ∷ sinks) msg w =
      backend_log_loop sinks msg
        (if sink_should_log api sink msg.level w then guarded api (api.log sink msg w) else w)

  unfoldable pub backend_flush_loop : List ℕ → W → W
  unfolding guarded
  backend_flush_loop [] w = w
  backend_flush_loop (sink ∷ sinks) w = backend_flush_loop sinks (guarded api (api.flush sink w))

  unfoldable pub backend_flush : AsyncLogger → W → W
  unfolding backend_flush_loop
  backend_flush l w = backend_flush_loop l.logger.sinks w

  unfoldable pub backend_sink_it : AsyncLogger → LogMsg → W → W
  unfolding backend_log_loop backend_flush should_flush
  backend_sink_it l msg w =
      let w' = backend_log_loop l.logger.sinks msg w in
      if should_flush l.logger msg then backend_flush l w' else w'

  -- What the pool's threads call.
  abbrev pub backend : Backend AsyncLogger LogMsg W
  backend = record {
    backend_sink_it = λ l m w. backend_sink_it l m w;
    backend_flush = λ l w. backend_flush l w;
    no_msg = default_msg;
  }

  -- `thread_pool_.lock()` gives the pool's queue, if the pool is still there.
  unfoldable pub sink_it :
      AsyncLogger
      → LogMsg
      → Option (CircularQ (AsyncMsg AsyncLogger LogMsg))
      → Posted (CircularQ (AsyncMsg AsyncLogger LogMsg))
  sink_it l msg thread_pool = elim thread_pool [
    | none ↦ Posted.throws
    | some q ↦ of_post (post_log backend q l msg l.overflow_policy)
  ]

  unfoldable pub flush :
      AsyncLogger
      → Option (CircularQ (AsyncMsg AsyncLogger LogMsg))
      → Posted (CircularQ (AsyncMsg AsyncLogger LogMsg))
  flush l thread_pool = elim thread_pool [
    | none ↦ Posted.throws
    | some q ↦ of_post (post_flush backend q l l.overflow_policy)
  ]

pub clone : AsyncLogger → List ℕ → AsyncLogger
clone l new_name = record l { logger = record (l.logger) { name = new_name } }
