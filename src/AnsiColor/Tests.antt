-- ===== src/AnsiColor/Tests.antt =====
-- A warning whose level is colored.
use mathlib.Core.Option
use structlog.FmtHelper.Printer.{printer}
use structlog.Padding.{with_padder, Padder, PadSide, no_padding, padding_info}
use structlog.Level.{to_string_view}
use structlog.FmtHelper.{append_string_view, seconds, push_back, pad2}
use structlog.Pattern.Fields.{format_l, format_v}
use structlog.Pattern.Time.{zero_tm, format_cap_d}
use structlog.Pattern.Formatter.{Custom, Env, Field, FlagFormatter, format_field, format_flag}
use structlog.Pattern.Format.{Calendar, PatternTimeType, PatternFormatter, format}
use structlog.AnsiColor.Patterns.{log_pattern-Written}
use structlog.AnsiColor.Parts.{Written}
use structlog.AnsiColor.{print_ccode, print_range, print_message, log, AnsiColorSink}
use structlog.LogMsg.{LogMsg}
use structlog.Common.{Option, arith, refl, some, ◌∷◌, ◌≡◌, ◌++◌, true, ℕ, [], List, codes}
use structlog.Common.Int.{pos}
use structlog.Level.{Level}

abbrev warning : LogMsg
warning = record {
  logger_name = codes "app";
  level = Level.warn;
  time = pos 0;
  thread_id = 1;
  source = record { filename = []; line = pos 0; funcname = [] };
  payload = codes "hot";
  color_range_start = 3;
  color_range_end = 9;
}

-- "[warning] " before the payload, with the level between the brackets as its range.
abbrev bracketed : ℕ → LogMsg → Option (List ℕ × LogMsg × ℕ)
bracketed f m =
    some
      (codes "[warning] " ++ m.payload, record m { color_range_start = 1; color_range_end = 8 }, f)

abbrev sink : AnsiColorSink ℕ
sink = record {
  target_file = codes "..";
  should_do_colors = true;
  formatter = 0;
  colors = [] ∷ [] ∷ [] ∷ (27 ∷ codes "[33m") ∷ [] ∷ [] ∷ [] ∷ [];
}

logs :
    log bracketed warning sink
    ≡ some (
      record warning { color_range_start = 1; color_range_end = 8 },
      record sink { target_file = codes "..[" ++ 27 ∷ codes "[33mwarning" ++ 27 ∷ codes "[m] hot" },
    )
unfolding log print_message print_range print_ccode
logs = refl

-- No flags of the user's own.
abbrev no_custom : Custom
no_custom = record {
  Handler = Unit {0};
  clone = λ h. h;
  set_padding_info = λ info h. h;
  format = λ h msg tm dest. some (dest, msg, h);
}

abbrev env : Env
env = record { fmt = printer; pid = 4321 }

abbrev calendar : Calendar
calendar = record { localtime = λ s. zero_tm; gmtime = λ s. zero_tm }

abbrev pattern_formatter : List (FlagFormatter no_custom) → PatternFormatter calendar no_custom env
pattern_formatter fs = record {
  pattern = [];
  eol = codes "$";
  cache = record { time_type = PatternTimeType.local; cached_tm = zero_tm; last_log_secs = pos 0 };
  formatters = fs;
}

-- The sink with the pattern "%^%l%$ %v".
abbrev colored : AnsiColorSink (PatternFormatter calendar no_custom env)
colored = record {
  target_file = sink.target_file;
  should_do_colors = sink.should_do_colors;
  colors = sink.colors;
  formatter = pattern_formatter (
      FlagFormatter.color_start_formatter no_padding
      ∷ FlagFormatter.field Field.level_formatter Padder.null_scoped_padder no_padding
      ∷ FlagFormatter.color_stop_formatter no_padding
      ∷ FlagFormatter.ch_formatter b' '
      ∷ FlagFormatter.field Field.v_formatter Padder.null_scoped_padder no_padding
      ∷ []);
}

formatted :
    format calendar no_custom env colored.formatter
      (record warning { color_range_start = 0; color_range_end = 0 })
      []
    ≡ some (
      codes "warning hot$",
      record warning { color_range_start = 0; color_range_end = 7 },
      colored.formatter,
    )
unfolding format format_flag format_field format_l with_padder format_v append_string_view seconds
    push_back to_string_view
formatted = refl

log_pattern-Written_example :
    (out : List ℕ) × (log (λ f m. format calendar no_custom env f m []) warning colored
      ≡ some (
        record warning { color_range_start = 0; color_range_end = 7 },
        record colored { target_file = codes ".." ++ out },
      ))
    × Written colored
        (codes "warning hot$")
        (record warning { color_range_start = 0; color_range_end = 7 })
        out
log_pattern-Written_example =
    log_pattern-Written no_custom env calendar (λ h m tm dest i. i) warning
      (record warning { color_range_start = 0; color_range_end = 7 }) colored (codes "warning hot$")
      colored.formatter (tt, (refl, (tt, (tt, (refl, tt))))) formatted (omega arith)

-- The pattern "%^abc%$%0!D": the date tells its padder a size of ten, writes eight characters, and
-- the padder cuts ten off, two of them in the color range, whose end is now after the text.
cut_color_range :
    (Option.map {B = List ℕ × ℕ}
        (λ r. (r.0, r.1.color_range_end))
        (format calendar no_custom env
          (pattern_formatter (
            FlagFormatter.color_start_formatter no_padding
            ∷ FlagFormatter.aggregate_formatter (codes "abc")
            ∷ FlagFormatter.color_stop_formatter no_padding
            ∷ FlagFormatter.field Field.cap_d_formatter Padder.scoped_padder
                (padding_info 0 PadSide.left true)
            ∷ []))
          warning
          [])
      ≡ some (codes "a$", 3))
unfolding format format_flag format_field format_cap_d with_padder pad2 seconds push_back
    append_string_view
cut_color_range = refl
