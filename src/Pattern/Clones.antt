-- ===== src/Pattern/Clones.antt =====
-- Copies of a pattern formatter, and the one for the default pattern.
use mathlib.Core.Option
use structlog.FmtHelper.{append_string_view, seconds, Buf}
use structlog.LogMsg.{LogMsg}
use structlog.Padding.{no_padding}
use structlog.Common.{
  ◌∙◌, some_inj, sym, none_ne_some, inr, inl, Bool-cases, ◌∷◌, [], ◌++◌, ap, ℕ, Option, none, some,
  List, codes, ◌≡◌, refl,
}
use structlog.Common.Int.{eq_ℤ, pos, ℤ}
use structlog.Pattern.Formatter.{FlagFormatter, Custom, Env}
use structlog.Pattern.Compile.{
  compile_pattern, compile_loop, handle_padspec, handle_flag, builtin_flag, special_flag, find_flag,
}
use structlog.Pattern.Format.{
  run_flags, Flags, PatternFormatter, clone, TimeCache, refresh, format, new_cache, Calendar,
  PatternTimeType, create, create_default, set_pattern,
}

module _ (cal : Calendar) (custom : Custom) (env : Env) where
  full_flag :
      (handlers : ℕ → Option custom.Handler) (now : ℤ)
      → handlers b'+' ≡ none
      → handle_flag custom handlers now b'+' no_padding
        ≡ FlagFormatter.full_formatter no_padding (record { timestamp = pos 0; datetime = [] }) ∷ []
  unfolding handle_flag builtin_flag special_flag find_flag
  full_flag handlers now e = rw (e, handle_flag) refl

  -- The constructor without a pattern makes what the other makes of the full format, where the
  -- user has no flag of that name.
  pub create_default-create :
      (handlers : ℕ → Option custom.Handler) (now : ℤ) (time_type : PatternTimeType) (eol : List ℕ)
      → handlers b'+' ≡ none
      → create cal custom env handlers now (codes "%+") time_type eol
        ≡ some (create_default cal custom env time_type eol)
  unfolding create create_default new_cache set_pattern compile_pattern compile_loop handle_padspec
  create_default-create handlers now time_type eol e =
      ap
        (λ fs.
          some (record (create_default cal custom env time_type eol) { formatters = fs ++ [] }))
        (full_flag handlers now e)

  time_type-refresh : (c : TimeCache) (msg : LogMsg) → (refresh cal c msg).time_type ≡ c.time_type
  unfolding refresh
  time_type-refresh c msg = elim (Bool-cases (eq_ℤ (seconds msg.time) c.last_log_secs)) [
    | inl e ↦ rw e refl
    | inr e ↦ rw e refl
  ]

  -- What a formatter has printed does not show in its clones: they are those that it had before.
  pub clone-format :
      (handlers : ℕ → Option custom.Handler) (now : ℤ) (pf pf' : PatternFormatter cal custom env)
      (msg msg' : LogMsg) (dest out : Buf)
      → format cal custom env pf msg dest ≡ some (out, msg', pf')
      → clone cal custom env handlers now pf' ≡ clone cal custom env handlers now pf
  unfolding format clone
  clone-format handlers now pf pf' msg msg' dest out =
      go (run_flags cal custom env pf.formatters msg (refresh cal pf.cache msg).cached_tm dest)
    where
      go :
          (o : Option (Buf × LogMsg × Flags cal custom env))
          → Option.map {B = Buf × LogMsg × PatternFormatter cal custom env}
              (λ (r : Buf × LogMsg × Flags cal custom env). (
                append_string_view pf.eol r.0,
                r.1,
                record pf { cache = refresh cal pf.cache msg; formatters = r.2 },
              ))
              o
            ≡ some (out, msg', pf')
          → clone cal custom env handlers now pf' ≡ clone cal custom env handlers now pf
      go none e = absurd (none_ne_some e)
      go (some r) e =
          ap (λ t. clone cal custom env handlers now t.2) (sym (some_inj e))
          ∙ ap
              (λ t.
                create cal custom env (λ flag. Option.map custom.clone (handlers flag)) now
                  pf.pattern t pf.eol)
              (time_type-refresh pf.cache msg)
