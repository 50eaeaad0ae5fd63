-- ===== src/Pattern/ColorRange.antt =====
-- Where the colors of a message begin and end in its formatted text.
use mathlib.Core.Option
use structlog.Common.{
  ℕ, false, Option, none, some, List, [], ◌∷◌, ◌≡◌, ◌≤◌, subst, length, Option-cases, inl, inr,
  arith, none_ne_some, some_inj,
}
use structlog.LogMsg.{LogMsg}
use structlog.FmtHelper.{Fmt, Buf, append_string_view}
use structlog.Padding.{Padder, PaddingInfo}
use structlog.Pattern.Time.{
  Tm, format_a, format_cap_a, format_b, format_cap_b, format_p, format_c, format_cap_c,
  format_cap_d, format_cap_y, format_m, format_d, format_cap_h, format_cap_i, format_cap_m,
  format_cap_s, format_r, format_cap_r, format_cap_t, format_offset,
}
use structlog.Pattern.Fields.{
  format_n, format_l, format_cap_l, format_v, format_e, format_f, format_cap_f, format_cap_e,
  format_t, format_pid, format_elapsed,
}
use structlog.Pattern.Source.{format_g, format_s, format_funcname, format_linenum, format_location}
use structlog.Pattern.Full.{DateCache, format_full}
use structlog.Pattern.Formatter.{
  Formatted, Custom, Env, Field, FlagFormatter, format_field, format_flag, keeping,
}
use structlog.Pattern.Format.{Calendar, PatternFormatter, Flags, run_flags, format, refresh}
use structlog.Pattern.Growth.{Grew, GrewIf, growth, with_padder-Grew, GrewIf-if, Grew-self}

-- The rules for the text of a field.
ruleset fields = (growth, with_padder-Grew, GrewIf-if)

module _ (env : Env) where
  open env use {fmt}

  format_field-Grew :
      {n : ℕ} (k : Field) (pad : Padder) (info : PaddingInfo) (msg : LogMsg) (tm : Tm) (dest : Buf)
      → info.truncate ≡ false
      → Grew n dest
      → GrewIf n (format_field env k pad info msg tm dest)
  unfolding format_field format_n format_l format_cap_l format_t format_v format_a format_cap_a
      format_b format_cap_b format_c format_cap_c format_cap_y format_cap_d format_m format_d
      format_cap_h format_cap_i format_cap_m format_cap_s format_e format_f format_cap_f
      format_cap_e format_p format_r format_cap_r format_cap_t format_pid format_location format_s
      format_g format_linenum format_funcname
  format_field-Grew Field.name_formatter pad info msg tm dest e h = search fields depth 40
  format_field-Grew Field.level_formatter pad info msg tm dest e h = search fields depth 40
  format_field-Grew Field.short_level_formatter pad info msg tm dest e h = search fields depth 40
  format_field-Grew Field.t_formatter pad info msg tm dest e h = search fields depth 40
  format_field-Grew Field.v_formatter pad info msg tm dest e h = search fields depth 40
  format_field-Grew Field.a_formatter pad info msg tm dest e h = search fields depth 40
  format_field-Grew Field.cap_a_formatter pad info msg tm dest e h = search fields depth 40
  format_field-Grew Field.b_formatter pad info msg tm dest e h = search fields depth 40
  format_field-Grew Field.cap_b_formatter pad info msg tm dest e h = search fields depth 40
  format_field-Grew Field.c_formatter pad info msg tm dest e h = search fields depth 40
  format_field-Grew Field.cap_c_formatter pad info msg tm dest e h = search fields depth 40
  format_field-Grew Field.cap_y_formatter pad info msg tm dest e h = search fields depth 40
  format_field-Grew Field.cap_d_formatter pad info msg tm dest e h = search fields depth 40
  format_field-Grew Field.m_formatter pad info msg tm dest e h = search fields depth 40
  format_field-Grew Field.d_formatter pad info msg tm dest e h = search fields depth 40
  format_field-Grew Field.cap_h_formatter pad info msg tm dest e h = search fields depth 40
  format_field-Grew Field.cap_i_formatter pad info msg tm dest e h = search fields depth 40
  format_field-Grew Field.cap_m_formatter pad info msg tm dest e h = search fields depth 40
  format_field-Grew Field.cap_s_formatter pad info msg tm dest e h = search fields depth 40
  format_field-Grew Field.e_formatter pad info msg tm dest e h = search fields depth 40
  format_field-Grew Field.f_formatter pad info msg tm dest e h = search fields depth 40
  format_field-Grew Field.cap_f_formatter pad info msg tm dest e h = search fields depth 40
  format_field-Grew Field.cap_e_formatter pad info msg tm dest e h = search fields depth 40
  format_field-Grew Field.p_formatter pad info msg tm dest e h = search fields depth 40
  format_field-Grew Field.r_formatter pad info msg tm dest e h = search fields depth 40
  format_field-Grew Field.cap_r_formatter pad info msg tm dest e h = search fields depth 40
  format_field-Grew Field.cap_t_formatter pad info msg tm dest e h = search fields depth 40
  format_field-Grew Field.pid_formatter pad info msg tm dest e h = search fields depth 40
  format_field-Grew Field.source_location_formatter pad info msg tm dest e h =
      search fields depth 40
  format_field-Grew Field.short_filename_formatter pad info msg tm dest e h = search fields depth 40
  format_field-Grew Field.source_filename_formatter pad info msg tm dest e h =
      search fields depth 40
  format_field-Grew Field.source_linenum_formatter pad info msg tm dest e h = search fields depth 40
  format_field-Grew Field.source_funcname_formatter pad info msg tm dest e h =
      search fields depth 40

-- The colors of a message lie in a text.
pub record InText (msg : LogMsg) (b : Buf) : Type 0 where
  pub start_in : msg.color_range_start ≤ length b
  pub end_in : msg.color_range_end ≤ length b

InText-Grew : (msg : LogMsg) (b out : Buf) → Grew (length b) out → InText msg b → InText msg out
InText-Grew msg b out g h = record {
  start_in = omega (arith, g.at_least, h.start_in);
  end_in = omega (arith, g.at_least, h.end_in);
}

format_full-InText :
    (f : Fmt) (cache : DateCache) (msg : LogMsg) (tm : Tm) (dest : Buf)
    → InText (format_full f cache msg tm dest).1 (format_full f cache msg tm dest).0
unfolding format_full
format_full-InText f cache msg tm dest = record {
  start_in = Grew.at_least (search (growth, Grew-self) depth 30);
  end_in = Grew.at_least (search (growth, Grew-self) depth 30);
}

module _ (custom : Custom) where
  -- What a formatter returns, unless it throws.
  abbrev InTextIf : Formatted custom → Type 0
  InTextIf none = Unit
  InTextIf (some (out, msg, next)) = InText msg out

  keeping-InText :
      (next : FlagFormatter custom) (msg : LogMsg) (dest : Buf) (o : Option Buf)
      → InText msg dest
      → GrewIf (length dest) o
      → InTextIf (keeping custom next msg o)
  keeping-InText next msg dest none h g = tt
  keeping-InText next msg dest (some out) h g = InText-Grew msg dest out g h

  abbrev pub HandledInText : Option (Buf × LogMsg × custom.Handler) → Type 0
  HandledInText none = Unit
  HandledInText (some (out, msg, handler)) = InText msg out

  -- The user's flags keep the colors in the text.
  abbrev pub Tame : Type 0
  Tame =
      (handler : custom.Handler) (msg : LogMsg) (tm : Tm) (dest : Buf)
      → InText msg dest
      → HandledInText (custom.format handler msg tm dest)

  -- A formatter that does not cut the text.
  abbrev pub Appending : FlagFormatter custom → Type 0
  Appending (FlagFormatter.field k pad info) = info.truncate ≡ false
  Appending (FlagFormatter.z_formatter pad info cache) = info.truncate ≡ false
  Appending (FlagFormatter.elapsed_formatter unit pad info last) = info.truncate ≡ false
  Appending f = Unit

  abbrev pub AllAppending : List (FlagFormatter custom) → Type 0
  AllAppending [] = Unit
  AllAppending (f ∷ fs) = Appending f × AllAppending fs

  module _ (env : Env) (tame : Tame) where
    open env use {fmt}

    format_flag-InText :
        (f : FlagFormatter custom) (msg : LogMsg) (tm : Tm) (dest : Buf)
        → Appending f
        → InText msg dest
        → InTextIf (format_flag custom env f msg tm dest)
    unfolding format_flag format_offset format_elapsed
    format_flag-InText (FlagFormatter.field k pad info) msg tm dest e h =
        keeping-InText _ msg dest _ h
          (format_field-Grew env k pad info msg tm dest e (Grew-self dest))
    format_flag-InText (FlagFormatter.ch_formatter ch) msg tm dest e h =
        InText-Grew msg dest _ (search (growth, Grew-self)) h
    format_flag-InText (FlagFormatter.aggregate_formatter str) msg tm dest e h =
        InText-Grew msg dest _ (search (growth, Grew-self)) h
    format_flag-InText (FlagFormatter.color_start_formatter info) msg tm dest e h = record {
      start_in = omega arith;
      end_in = h.end_in;
    }
    format_flag-InText (FlagFormatter.color_stop_formatter info) msg tm dest e h = record {
      start_in = h.start_in;
      end_in = omega arith;
    }
    format_flag-InText (FlagFormatter.z_formatter pad info cache) msg tm dest e h =
        keeping-InText _ msg dest _ h (search (fields, Grew-self) depth 40)
    format_flag-InText (FlagFormatter.elapsed_formatter unit pad info last) msg tm dest e h =
        keeping-InText _ msg dest _ h (search (fields, Grew-self) depth 40)
    format_flag-InText (FlagFormatter.full_formatter info cache) msg tm dest e h =
        format_full-InText fmt cache msg tm dest
    format_flag-InText (FlagFormatter.custom_formatter handler) msg tm dest e h =
        elim (Option-cases (custom.format handler msg tm dest)) [
          | inl f ↦ rw (f, format_flag) tt
          | inr (r, f) ↦ rw (f, format_flag) (subst HandledInText f (tame handler msg tm dest h))
        ]

    module _ (cal : Calendar) where
      abbrev RunInText : Option (Buf × LogMsg × Flags cal custom env) → Type 0
      RunInText none = Unit
      RunInText (some (out, msg, fs)) = InText msg out

      RunInText-map :
          (f : FlagFormatter custom) (o : Option (Buf × LogMsg × Flags cal custom env))
          → RunInText o
          → RunInText
              (Option.map {B = Buf × LogMsg × Flags cal custom env} (λ r. (r.0, r.1, f ∷ r.2)) o)
      RunInText-map f none h = tt
      RunInText-map f (some r) h = h

      run_flags-InText :
          (fs : List (FlagFormatter custom)) (msg : LogMsg) (tm : Tm) (dest : Buf)
          → AllAppending fs
          → InText msg dest
          → RunInText (run_flags cal custom env fs msg tm dest)
      unfolding run_flags
      run_flags-InText [] msg tm dest a h = h
      run_flags-InText (f ∷ fs) msg tm dest (a, all) h =
          elim (Option-cases (format_flag custom env f msg tm dest)) [
            | inl e ↦ rw (e, run_flags) tt
            | inr ((out, msg1, f1), e) ↦
                rw (e, run_flags)
                  (RunInText-map f1 _ (
                    run_flags-InText fs msg1 tm out all
                      (subst InTextIf e (format_flag-InText f msg tm dest a h))))
          ]

      -- A pattern formatter whose flags do not cut the text, and whose user's flags are tame,
      -- prints a message: then the colors of the message begin and end in the text that is
      -- printed, if they did in the buffer before.
      pub format-InText :
          (pf pf' : PatternFormatter cal custom env) (msg msg' : LogMsg) (dest out : Buf)
          → AllAppending pf.formatters
          → InText msg dest
          → format cal custom env pf msg dest ≡ some (out, msg', pf')
          → InText msg' out
      unfolding format
      format-InText pf pf' msg msg' dest out a h =
          go (run_flags cal custom env pf.formatters msg tm dest)
            (run_flags-InText pf.formatters msg tm dest a h)
        where
          tm : Tm
          tm = (refresh cal pf.cache msg).cached_tm

          finish :
              Buf × LogMsg × Flags cal custom env → Buf × LogMsg × PatternFormatter cal custom env
          finish r = (
            append_string_view pf.eol r.0,
            r.1,
            record pf { cache = refresh cal pf.cache msg; formatters = r.2 },
          )

          go :
              (o : Option (Buf × LogMsg × Flags cal custom env))
              → RunInText o
              → Option.map finish o ≡ some (out, msg', pf')
              → InText msg' out
          go none g e = absurd (none_ne_some e)
          go (some r) g e =
              subst (λ (t : Buf × LogMsg × PatternFormatter cal custom env). InText t.1 t.0)
                (some_inj e) (InText-Grew r.1 r.0 _ (search (growth, Grew-self)) g)
