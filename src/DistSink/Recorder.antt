-- ===== src/DistSink/Recorder.antt =====
-- Sinks that record what they are handed, some of which throw; they meet what is asked of sinks.
use structlog.Logger.{Sinks}
use structlog.Logger.Deliver.{Observed}
use structlog.LogMsg.{LogMsg}
use structlog.Common.{true, ◌∷◌, ◌++◌, [], not, codes, refl, Bool, List, ℕ}
use structlog.Common.Int.{pos}
use structlog.Level.{Level}

pub record World : Type 0 where
  pub got : List (ℕ × LogMsg)

abbrev pub recorder : (ℕ → Bool) → Sinks World
recorder throws = record {
  level_of = λ s w. Level.trace;
  log = λ s m w. (not (throws s), record w { got = w.got ++ (s, m) ∷ [] });
  flush = λ s w. (true, w);
  err_handler = λ w. w;
}

abbrev pub recorder-Observed : (throws : ℕ → Bool) → Observed (recorder throws)
recorder-Observed throws = record {
  attempts = λ w. w.got;
  log_attempts = λ s m w. refl;
  flush_attempts = λ s w. refl;
  handler_attempts = λ w. refl;
  log_level = λ s t m w. refl;
  flush_level = λ s t w. refl;
  handler_level = λ t w. refl;
}

-- A message with a text.
abbrev pub text_message : List ℕ → LogMsg
text_message text = record {
  logger_name = codes "logger";
  level = Level.info;
  time = pos 7000000000;
  thread_id = 1;
  source = record { filename = []; line = pos 0; funcname = [] };
  payload = text;
  color_range_start = 0;
  color_range_end = 0;
}
