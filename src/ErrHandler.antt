-- ===== src/ErrHandler.antt =====
-- The error handler of include/spdlog/logger-inl.h, and the operations of a logger that copy it
-- or hand on a formatter. Readings of the clock are arguments, in nanoseconds since the epoch.
pub mod Spaced
mod Tests
use structlog.Common.{
  ℕ, Bool, true, false, Option, some, none, List, [], ◌∷◌, ◌++◌, add_size, if◌then◌else◌,
}
use structlog.Common.Int.{ℤ, pos, ◌-ℤ◌, ltb_ℤ}
use structlog.Backtracer
use structlog.Logger.{Logger}
use structlog.Pattern.Format.{PatternTimeType}

-- A report on the standard error: the number of the error, the time, the logger and the text.
pub record Report : Type 0 where
  pub number : ℕ
  pub time : ℤ
  pub logger_name : List ℕ
  pub text : List ℕ

-- The static variables of `err_handler_`, which all loggers share, and what has been reported,
-- the last first.
pub record ErrorState : Type 0 where
  pub last_report_time : ℤ
  pub err_counter : ℕ
  pub reports : List Report

abbrev pub initial : ErrorState
initial = record { last_report_time = pos 0; err_counter = 0; reports = [] }

-- The handler where the logger has none of its own.
unfoldable pub default_err_handler : List ℕ → List ℕ → ℤ → ErrorState → ErrorState
default_err_handler name msg now s =
    let err_counter = add_size s.err_counter 1 in
    if ltb_ℤ (now -ℤ s.last_report_time) (pos 1000000000)
    then record s { err_counter = err_counter }
    else record {
      last_report_time = now;
      err_counter = err_counter;
      reports =
          record { number = err_counter; time = now; logger_name = name; text = msg } ∷ s.reports;
    }

-- `err_handler_`; a custom handler acts on a state `H` of its own.
pub err_handler :
    {H : Type 0} → Option (List ℕ → H → H) → List ℕ → List ℕ → ℤ → H × ErrorState → H × ErrorState
unfolding default_err_handler
err_handler custom_err_handler name msg now (h, s) = elim custom_err_handler [
  | none ↦ (h, default_err_handler name msg now s)
  | some custom ↦ (custom msg h, s)
]

-- A logger and its error handler, if it has one.
module _ {H : Type 0} where
  -- `logger::clone`, by the copy constructor.
  pub clone : Logger × Option H → List ℕ → Logger × Option H
  clone (l, custom_err_handler) logger_name = (record l { name = logger_name }, custom_err_handler)

  -- `logger::swap`
  pub swap : Logger × Option H → Logger × Option H → (Logger × Option H) × (Logger × Option H)
  swap (a, custom_err_handler) (b, other_err_handler) = (
    (
      record {
        name = b.name;
        sinks = b.sinks;
        level = b.level;
        flush_level = b.flush_level;
        tracer = b.tracer;
      },
      other_err_handler,
    ),
    (
      record {
        name = a.name;
        sinks = a.sinks;
        level = a.level;
        flush_level = a.flush_level;
        tracer = a.tracer;
      },
      custom_err_handler,
    ),
  )

  pub set_error_handler : Logger × Option H → Option H → Logger × Option H
  set_error_handler (l, custom_err_handler) handler = (l, handler)

  -- The move constructor: the new logger. What it leaves of the other one is unspecified.
  pub move : Logger × Option H → Logger × Option H
  move (other, custom_err_handler) = (
    record {
      name = other.name;
      sinks = other.sinks;
      level = other.level;
      flush_level = other.flush_level;
      tracer = (Backtracer.move other.tracer).0;
    },
    custom_err_handler,
  )

  -- The assignment, whose parameter is by value: a copy, or what a move made of the argument.
  pub assign : Logger × Option H → Logger × Option H → Logger × Option H
  unfolding swap
  assign l other = (swap l other).0

-- `logger::set_formatter`: the last sink gets the formatter itself, and the others a clone each.
module _ {W Fm : Type 0} (clone_formatter : Fm → Fm) (set_sink_formatter : ℕ → Fm → W → W) where
  set_loop : List ℕ → Fm → W → W
  set_loop [] f w = w
  set_loop (sink ∷ []) f w = set_sink_formatter sink f w
  set_loop (sink ∷ next ∷ sinks) f w =
      set_loop (next ∷ sinks) f (set_sink_formatter sink (clone_formatter f) w)

  pub set_formatter : Logger → Fm → W → W
  unfolding set_loop
  set_formatter l f w = set_loop l.sinks f w

  -- `make_formatter` is the construction of a pattern formatter.
  pub set_pattern : (List ℕ → PatternTimeType → Fm) → Logger → List ℕ → PatternTimeType → W → W
  unfolding set_formatter
  set_pattern make_formatter l pattern time_type w =
      set_formatter l (make_formatter pattern time_type) w
