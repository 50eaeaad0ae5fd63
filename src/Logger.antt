-- ===== src/Logger.antt =====
-- include/spdlog/logger.h and logger-inl.h, without SPDLOG_JSON_LOGGER. The sinks are shared
-- objects behind an interface with a state of their own, and a sink is the number of such an
-- object.
pub mod Deliver
pub mod Backtrace
mod Tests
use structlog.Common.{
  some, false, none, [], not, ◌&&◌, ◌∷◌, true, ◌>>=◌, List, ℕ, if◌then◌else◌, Option, Bool,
}
use structlog.Level.{is_off, Level, ge}
use structlog.LogMsg.{LogMsg}
use structlog.Backtracer.{Backtracer, enable, disable, push, foreach_pop}

-- The virtual functions of a sink, false where the call throws a `std::exception`; `level_of`
-- is the sink's `level_`. `err_handler` is the logger's handler of errors. Left out are what a
-- sink throws that is no `std::exception`, which the logger throws on, and a handler that
-- throws: both end the loop over the sinks and the call of the logger.
pub record Sinks (W : Type 0) : Type 0 where
  pub level_of : ℕ → W → Level
  pub log : ℕ → LogMsg → W → Bool × W
  pub flush : ℕ → W → Bool × W
  pub err_handler : W → W

pub record Logger : Type 0 where
  pub name : List ℕ
  pub sinks : List ℕ
  pub level : Level
  pub flush_level : Level
  pub tracer : Backtracer LogMsg

pub should_log : Logger → Level → Bool
should_log l msg_level = ge msg_level l.level

unfoldable pub should_flush : Logger → LogMsg → Bool
should_flush l msg = ge msg.level l.flush_level && not (is_off msg.level)

pub set_level : Logger → Level → Logger
set_level l log_level = record l { level = log_level }

pub flush_on : Logger → Level → Logger
flush_on l log_level = record l { flush_level = log_level }

-- `default_msg` is what the slots of the backtracer's queue are made with.
pub enable_backtrace : LogMsg → Logger → ℕ → Logger
enable_backtrace default_msg l n_messages = record l {
  tracer = enable default_msg l.tracer n_messages;
}

pub disable_backtrace : Logger → Logger
disable_backtrace l = record l { tracer = disable l.tracer }

module _ {W : Type 0} (api : Sinks W) where
  -- A call in a `try` block, with the handler of a `std::exception` that it throws.
  unfoldable pub guarded : Bool × W → W
  guarded (true, w) = w
  guarded (false, w) = api.err_handler w

  -- `sink::should_log`
  abbrev pub sink_should_log : ℕ → Level → W → Bool
  sink_should_log sink msg_level w = ge msg_level (api.level_of sink w)

  unfoldable pub log_loop : List ℕ → LogMsg → W → W
  unfolding guarded
  log_loop [] msg w = w
  log_loop (sink ∷ sinks) msg w =
      let logged = log_loop sinks msg (guarded (api.log sink msg w)) in
      let passed = log_loop sinks msg w in
      if sink_should_log sink msg.level w then logged else passed

  unfoldable pub flush_loop : List ℕ → W → W
  unfolding guarded
  flush_loop [] w = w
  flush_loop (sink ∷ sinks) w = flush_loop sinks (guarded (api.flush sink w))

  unfoldable pub flush : Logger → W → W
  unfolding flush_loop
  flush l w = flush_loop l.sinks w

  unfoldable pub sink_it : Logger → LogMsg → W → W
  unfolding log_loop should_flush flush
  sink_it l msg w = let w' = log_loop l.sinks msg w in if should_flush l msg then flush l w' else w'

  pub executor_callback : Logger → LogMsg → Bool → Bool → W → Logger × W
  unfolding sink_it
  executor_callback l msg log_enabled traceback_enabled w = (
    if traceback_enabled then record l { tracer = push l.tracer msg } else l,
    if log_enabled then sink_it l msg w else w,
  )

  -- `log_`, for a level and a message that formatting makes of it, or fails to make.
  pub log : Logger → Level → Option LogMsg → W → Logger × W
  unfolding executor_callback should_log
  log l lvl message w =
      let log_enabled = should_log l lvl in
      let traceback_enabled = l.tracer.enabled in
      if not log_enabled && not traceback_enabled then (l, w) else elim message [
        | none ↦ (l, api.err_handler w)
        | some msg ↦ executor_callback l msg log_enabled traceback_enabled w
      ]

  -- `dump_backtrace_`, with the two messages that frame the backtrace.
  pub dump_backtrace : Logger → LogMsg → LogMsg → W → Option (Logger × W)
  unfolding sink_it
  dump_backtrace l begin_msg end_msg w =
      if l.tracer.enabled
      then (foreach_pop (λ v m. sink_it l m v) l.tracer (sink_it l begin_msg w) >>= λ r.
          some (record l { tracer = r.1 }, sink_it l end_msg r.0))
      else some (l, w)
