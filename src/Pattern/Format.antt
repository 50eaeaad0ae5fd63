-- ===== src/Pattern/Format.antt =====
-- `pattern_formatter` of pattern_formatter-inl.h: its state, `format` and the cached broken-down
-- time. `localtime` and `gmtime` of the C library are parameters.
use mathlib.Core.Option
use structlog.Padding.{no_padding}
use structlog.Common.{codes, [], none, ◌∷◌, some, List, Option, if◌then◌else◌, ℕ}
use structlog.Common.Int.{eq_ℤ, ℤ, pos}
use structlog.LogMsg.{LogMsg}
use structlog.FmtHelper.{Buf, seconds, append_string_view}
use structlog.Pattern.Time.{Tm, zero_tm}
use structlog.Pattern.Formatter.{Custom, Env, FlagFormatter, format_flag}
use structlog.Pattern.Compile.{compile_pattern}

pub data PatternTimeType : Type 0 where
  local utc : PatternTimeType

-- The C library's conversions of a number of seconds.
pub record Calendar : Type 0 where
  pub localtime : ℤ → Tm
  pub gmtime : ℤ → Tm

-- The part of `pattern_formatter` that decides the time a message is shown with.
pub record TimeCache : Type 0 where
  pub time_type : PatternTimeType
  pub cached_tm : Tm
  pub last_log_secs : ℤ

-- As the constructors leave it.
unfoldable pub new_cache : PatternTimeType → TimeCache
new_cache t = record { time_type = t; cached_tm = zero_tm; last_log_secs = pos 0 }

module _ (cal : Calendar) where
  -- `get_time_`; `to_time_t` rounds to whole seconds.
  unfoldable pub get_time : PatternTimeType → ℤ → Tm
  get_time PatternTimeType.local time = cal.localtime (seconds time)
  get_time PatternTimeType.utc time = cal.gmtime (seconds time)

  -- The first statements of `format`.
  unfoldable pub refresh : TimeCache → LogMsg → TimeCache
  unfolding get_time
  refresh c msg =
      if eq_ℤ (seconds msg.time) c.last_log_secs
      then c
      else record c { cached_tm = get_time c.time_type msg.time; last_log_secs = seconds msg.time }

  module _ (custom : Custom) (env : Env) where
    abbrev pub Flags : Type 0
    Flags = List (FlagFormatter custom)

    pub record PatternFormatter : Type 0 where
      pub pattern : List ℕ
      pub eol : List ℕ
      pub cache : TimeCache
      pub formatters : Flags

    -- The loop over the formatters, each of which may change its own state and the message.
    unfoldable pub run_flags : Flags → LogMsg → Tm → Buf → Option (Buf × LogMsg × Flags)
    run_flags [] msg tm dest = some (dest, msg, [])
    run_flags (f ∷ fs) msg tm dest = elim (format_flag custom env f msg tm dest) [
      | none ↦ none
      | some (out, msg', f') ↦
          Option.map (λ (r : Buf × LogMsg × Flags). (r.0, r.1, f' ∷ r.2)) (run_flags fs msg' tm out)
    ]

    -- `pattern_formatter::format`
    unfoldable pub format :
        PatternFormatter → LogMsg → Buf → Option (Buf × LogMsg × PatternFormatter)
    unfolding run_flags refresh
    format pf msg dest =
        let cache = refresh pf.cache msg in
        Option.map
          (λ (r : Buf × LogMsg × Flags).
            (append_string_view pf.eol r.0, r.1, record pf { cache = cache; formatters = r.2 }))
          (run_flags pf.formatters msg cache.cached_tm dest)

    module _ (handlers : ℕ → Option custom.Handler) (now : ℤ) where
      -- `set_pattern`, and the work of the first constructor.
      unfoldable pub set_pattern : PatternFormatter → List ℕ → Option PatternFormatter
      set_pattern pf pattern =
          Option.map (λ fs. record pf { pattern = pattern; formatters = fs })
            (compile_pattern custom handlers now pattern)

      unfoldable pub create : List ℕ → PatternTimeType → List ℕ → Option PatternFormatter
      unfolding set_pattern new_cache
      create pattern time_type eol =
          set_pattern
            (record { pattern = pattern; eol = eol; cache = new_cache time_type; formatters = [] })
            pattern

    -- The constructor without a pattern.
    unfoldable pub create_default : PatternTimeType → List ℕ → PatternFormatter
    unfolding new_cache
    create_default time_type eol = record {
      pattern = codes "%+";
      eol = eol;
      cache = new_cache time_type;
      formatters =
          FlagFormatter.full_formatter no_padding (record { timestamp = pos 0; datetime = [] })
          ∷ [];
    }

    -- `clone`, where `handlers` are the formatter's own and `now` is the time.
    unfoldable pub clone :
        (ℕ → Option custom.Handler) → ℤ → PatternFormatter → Option PatternFormatter
    unfolding create
    clone handlers now pf =
        create (λ flag. Option.map custom.clone (handlers flag)) now pf.pattern pf.cache.time_type
          pf.eol
