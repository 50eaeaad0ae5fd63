-- ===== src/AnsiColor/Patterns.antt =====
-- A color sink with a pattern formatter: no range that it prints is outside of the text.
use structlog.Common.{ℕ, some, List, [], ◌++◌, ◌≡◌, ◌<◌, length, arith}
use structlog.Level.{rank}
use structlog.LogMsg.{LogMsg}
use structlog.Pattern.Formatter.{Custom, Env}
use structlog.Pattern.Format.{Calendar, PatternFormatter, format}
use structlog.Pattern.ColorRange.{InText, Tame, AllAppending, format-InText}
use structlog.AnsiColor.{AnsiColorSink, log}
use structlog.AnsiColor.Parts.{Written, log-Written}

module _ (custom : Custom) (env : Env) (cal : Calendar) (tame : Tame custom) where
  -- A color sink logs a message with a pattern formatter, which does not throw, whose flags do
  -- not cut the text and whose user's flags keep the color range in the text. The sink has a
  -- color for the level of the message. Then the log is defined, so that every range it prints
  -- is one of the text, and the text is written whole: where colors are on and the range of the
  -- message is not empty, with the color of its level before the range and the reset after it,
  -- and else as it is.
  pub log_pattern-Written :
      (msg msg' : LogMsg) (s : AnsiColorSink (PatternFormatter cal custom env)) (text : List ℕ)
      (pf : PatternFormatter cal custom env)
      → AllAppending custom s.formatter.formatters
      → format cal custom env s.formatter
          (record msg { color_range_start = 0; color_range_end = 0 })
          []
        ≡ some (text, msg', pf)
      → rank msg'.level < length s.colors
      → (out : List ℕ) × (log (λ f m. format cal custom env f m []) msg s
          ≡ some (msg', record s { formatter = pf; target_file = s.target_file ++ out }))
        × Written s text msg' out
  log_pattern-Written msg msg' s text pf appending e colors =
      log-Written (λ f m. format cal custom env f m []) msg msg' s text pf e colors
        (InText.end_in (
          format-InText custom env tame cal s.formatter pf _ msg' [] text appending
            (record { start_in = omega arith; end_in = omega arith }) e))
