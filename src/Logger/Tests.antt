-- ===== src/Logger/Tests.antt =====
-- A logger with two sinks, one of which throws on every message.
use structlog.Common.{
  List, Bool, not, ◌≡◌, ◌++◌, ◌∷◌, [], ℕ, zero, suc, refl, some, true, false, codes, arith,
}
use structlog.Common.Int.{pos}
use structlog.Level.{Level}
use structlog.LogMsg.{LogMsg}
use structlog.CircularQ.{size}
use structlog.CircularQ.Valid.{IsValid}
use structlog.CircularQ.Refine.{contents}
use structlog.Logger.{Sinks, Logger, sink_it, log, dump_backtrace}
use structlog.Logger.Deliver.{Observed, sink_it-attempts}
use structlog.Logger.Backtrace.{dump_backtrace_lem}

-- What the sinks were handed, and how many errors were handled.
record World : Type 0 where
  got : List (ℕ × LogMsg)
  errors : ℕ

abbrev throws : ℕ → Bool
throws zero = true
throws (suc n) = false

-- The second sink takes errors only.
abbrev threshold : ℕ → Level
threshold zero = Level.trace
threshold (suc n) = Level.err

abbrev api : Sinks World
api = record {
  level_of = λ s w. threshold s;
  log = λ s m w. (not (throws s), record w { got = w.got ++ (s, m) ∷ [] });
  flush = λ s w. (true, w);
  err_handler = λ w. record w { errors = suc w.errors };
}

abbrev api-Observed : Observed api
api-Observed = record {
  attempts = λ w. w.got;
  log_attempts = λ s m w. refl;
  flush_attempts = λ s w. refl;
  handler_attempts = λ w. refl;
  log_level = λ s t m w. refl;
  flush_level = λ s t w. refl;
  handler_level = λ t w. refl;
}

abbrev message : Level → List ℕ → LogMsg
message lvl text = record {
  logger_name = codes "app";
  level = lvl;
  time = pos 0;
  thread_id = 1;
  source = record { filename = []; line = pos 0; funcname = [] };
  payload = text;
  color_range_start = 0;
  color_range_end = 0;
}

abbrev failure : LogMsg
failure = message Level.err (codes "failed")

abbrev detail : LogMsg
detail = message Level.debug (codes "detail")

-- The backtracer has room for two messages, and holds one.
abbrev logger : Logger
logger = record {
  name = codes "app";
  sinks = 0 ∷ 1 ∷ [];
  level = Level.info;
  flush_level = Level.off;
  tracer = record {
    enabled = true;
    messages = record {
      max_items = 3;
      head = 0;
      tail = 1;
      overrun_counter = 0;
      v = detail ∷ detail ∷ detail ∷ [];
    };
  };
}

logger-IsValid : IsValid logger.tracer.messages
logger-IsValid = omega arith

abbrev quiet : World
quiet = record { got = []; errors = 0 }

sink_it-attempts_example : (sink_it api logger failure quiet).got ≡ (0, failure) ∷ (1, failure) ∷ []
sink_it-attempts_example = sink_it-attempts api api-Observed logger failure quiet

dump_backtrace_lem_example :
    (l' : Logger) × (w' : World) × (dump_backtrace api logger failure failure quiet ≡ some (l', w'))
    × (w'.got ≡ (0, failure) ∷ (1, failure) ∷ (0, detail) ∷ (0, failure) ∷ (1, failure) ∷ [])
    × (contents detail l'.tracer.messages ≡ [])
unfolding size
dump_backtrace_lem_example =
    dump_backtrace_lem api api-Observed detail logger failure failure quiet logger-IsValid refl
