-- ===== src/Pattern/Tests.antt =====
-- Patterns compiled and formatted, and the theorems at them.
use structlog.Pattern.Source.{format_linenum, format_s}
use structlog.Pattern.Fields.{format_e, format_v, format_l, format_n}
use structlog.Common.{refl, inr, ◌∷◌, true, ◌≡◌, arith, ◌≢◌, [], none, List, Option, codes, some, ℕ}
use structlog.Common.Int.{pos}
use structlog.Level.{to_string_view, Level}
use structlog.LogMsg.{LogMsg}
use structlog.FmtHelper.{
  time_fraction, pad9, pad6, pad3, pad2, append_int, push_back, append_string_view, seconds,
}
use structlog.FmtHelper.Printer.{printer}
use structlog.Padding.{with_padder, PadSide}
use structlog.Pattern.Time.{
  format_p, format_cap_i, format_cap_s, format_cap_m, format_cap_h, Tm, zero_tm, format_cap_d,
}
use structlog.Pattern.Full.{format_full, DateCache}
use structlog.Pattern.Formatter.{format_field, format_flag, Custom, Env, FlagFormatter}
use structlog.Pattern.Compile.{handle_flag, compile_loop, compile_pattern, handle_padspec}
use structlog.Pattern.Rounds.{compile_pattern_total}
use structlog.Pattern.Language.{Directive, show_all}
use structlog.Pattern.Readback.{compile_pattern-show_all, meaning_all}
use structlog.Pattern.Format.{Calendar, PatternTimeType, new_cache, refresh, create, format}
use structlog.Pattern.Caches.{IsCurrent, refresh-IsCurrent}
use structlog.Pattern.Fixed.{IsDate}

-- No flags of the user's own.
abbrev no_custom : Custom
no_custom = record {
  Handler = Unit {0};
  clone = λ h. h;
  set_padding_info = λ info h. h;
  format = λ h msg tm dest. some (dest, msg, h);
}

abbrev no_handlers : ℕ → Option (Unit {0})
no_handlers c = none

abbrev env : Env
env = record { fmt = printer; pid = 4321 }

-- 2 March 2021, seven seconds past 15:04.
abbrev afternoon : Tm
afternoon = record zero_tm {
  tm_sec = pos 7;
  tm_min = pos 4;
  tm_hour = pos 15;
  tm_mday = pos 2;
  tm_mon = pos 2;
  tm_year = pos 121;
}

abbrev calendar : Calendar
calendar = record { localtime = λ s. afternoon; gmtime = λ s. afternoon }

abbrev msg : LogMsg
msg = record {
  logger_name = codes "net";
  level = Level.warn;
  time = pos 1614697447089000000;
  thread_id = 17;
  source = record { filename = codes "a/b.c"; line = pos 12; funcname = codes "f" };
  payload = codes "lost";
  color_range_start = 0;
  color_range_end = 0;
}

shown : List ℕ → Option (List ℕ)
shown pattern =
    elim (create calendar no_custom env no_handlers (pos 0) pattern PatternTimeType.local
      (codes "$")) [
        | none ↦ none
        | some pf ↦ elim (format calendar no_custom env pf msg []) [
          | none ↦ none
          | some (out, m, p) ↦ some out
        ]
      ]

shows :
    (shown (codes "[%H:%M:%S.%e] %-6l|%n: %v%%")
      ≡ some (codes "[15:04:07.089] warning|net: lost%$"))
    × (shown (codes "%D %I%p %8!l %=9n (%s:%#)")
        ≡ some (codes "03/02/21 03PM  warning    net    (b.c:12)$"))
    × (shown (codes "%+") ≡ some (codes "[2021-03-02 15:04:07.089] [net] [warning] [b.c:12] lost$"))
unfolding shown create format format_flag format_field printer seconds compile_pattern compile_loop
    handle_padspec handle_flag with_padder append_string_view push_back append_int pad2 pad3 pad6
    pad9 time_fraction to_string_view format_n format_l format_v format_e format_cap_h format_cap_m
    format_cap_s format_cap_d format_cap_i format_p format_s format_linenum format_full
shows = (refl, refl, refl)

abbrev directives : List Directive
directives =
    Directive.text (codes "at ")
    ∷ Directive.padded PadSide.right (codes "70") true b'l'
    ∷ Directive.flag b'v'
    ∷ []

directives_text : show_all directives ≡ codes "at %-70!l%v"
directives_text = refl

compile_pattern_total_example :
    (fs : List (FlagFormatter no_custom)) × (compile_pattern no_custom no_handlers
        (pos 0)
        (codes "%5")
      ≡ some fs)
compile_pattern_total_example = compile_pattern_total no_custom no_handlers (pos 0) (codes "%5")

compile_pattern-show_all_example :
    compile_pattern no_custom no_handlers (pos 0) (show_all directives)
    ≡ some (meaning_all no_custom no_handlers (pos 0) directives)
compile_pattern-show_all_example =
    compile_pattern-show_all no_custom no_handlers (pos 0) directives (ground arith)

refresh-IsCurrent_example :
    IsCurrent calendar.localtime (refresh calendar (new_cache PatternTimeType.local) msg)
    × (seconds msg.time ≢ pos 0
        → (refresh calendar (new_cache PatternTimeType.local) msg).cached_tm ≡ afternoon)
unfolding new_cache
refresh-IsCurrent_example =
    refresh-IsCurrent calendar (new_cache PatternTimeType.local) msg (inr refl)

abbrev no_date : DateCache
no_date = record { timestamp = pos 0; datetime = [] }

afternoon-IsDate : IsDate afternoon 2 2 121
afternoon-IsDate = record {
  mon_eq = refl;
  mday_eq = refl;
  year_eq = refl;
  mon_lt = omega arith;
  mday_lt = omega arith;
}
