-- ===== src/Executor.antt =====
-- include/spdlog/details/executor.h and executor-inl.h: the object that a call of a logger
-- returns, with which params are added to the message, and whose destructor logs it. `Lgr` are
-- the loggers.
pub mod Once
mod Tests
use structlog.Common.{
  ℕ, zero, suc, Bool, Option, some, none, List, [], ◌∷◌, ◌++◌, ◌>>=◌, get_or, set,
}
use structlog.LogMsg.{LogMsg}
use structlog.JsonFormatter.{Object, assign_items, empty_object}

-- `executor::context`, whose message has its own buffer of params.
pub record Context (Lgr V : Type 0) : Type 0 where
  pub lgr : Lgr
  pub msg : LogMsg
  pub params_buffer : Object V
  pub log_enabled : Bool
  pub traceback_enabled : Bool

-- `ctx_`
pub record Executor (Lgr V : Type 0) : Type 0 where
  pub ctx : Option (Context Lgr V)

module _ {Lgr V : Type 0} where
  pub empty_executor : Executor Lgr V
  empty_executor = record { ctx = none }

  unfoldable pub create : Lgr → LogMsg → Bool → Bool → Executor Lgr V
  create lgr msg log_enabled traceback_enabled = record {
    ctx = some (record {
      lgr = lgr;
      msg = msg;
      params_buffer = empty_object;
      log_enabled = log_enabled;
      traceback_enabled = traceback_enabled;
    });
  }

  -- The new executor, and what the move leaves of the other.
  unfoldable pub move : Executor Lgr V → Executor Lgr V × Executor Lgr V
  move other = (record { ctx = other.ctx }, record { ctx = none })

  -- `operator()`, with the items of the params.
  unfoldable pub apply : List (List ℕ × V) → Executor Lgr V → Executor Lgr V
  apply params e = elim e.ctx [
    | none ↦ e
    | some c ↦ record {
      ctx = some (record c { params_buffer = assign_items params c.params_buffer });
    }
  ]

  -- The destructor, where `executor_callback` is that of the logger. A throw of it passes on,
  -- after the context is destroyed.
  unfoldable pub destroy : {W : Type 0} → (Context Lgr V → W → W) → Executor Lgr V → W → W
  destroy executor_callback e w = elim e.ctx [ none ↦ w | some c ↦ executor_callback c w ]
