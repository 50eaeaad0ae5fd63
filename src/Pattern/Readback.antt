-- ===== src/Pattern/Readback.antt =====
-- A pattern written from directives compiles to what the directives stand for.
use structlog.Pattern.Spec.{length-handle_padspec}
use structlog.Pattern.Rounds.{compile_loop-fuel, round-flag, round-char}
use mathlib.Core.Option
use structlog.Common.{
  sym, some, append_assoc, ◌∙◌, length, suc, true, append-nil, Option, ap, refl, ne→==false, min,
  ◌++◌, false, size_mod, ◌<◌, arith, [], ◌≡◌, ◌∷◌, ◌≢◌, Bool, List, ℕ, ◌+◌, ◌-◌,
}
use structlog.Common.Int.{ℤ}
use structlog.FmtHelper.{decimal}
use structlog.Padding.{PaddingInfo, PadSide, no_padding, padding_info}
use structlog.Pattern.Formatter.{Custom}
use structlog.Pattern.Compile.{
  at_flag, compile_pattern, handle_flag, user_chars, compile_loop, Formatters, read_width,
  read_spec, handle_padspec,
}
use structlog.Pattern.Language.{
  read_truncate-mark, read_width-decimal, truncate_mark, side_mark, IsDigit, All, IsPlain,
  Directive, text, flag, padded, show_all, WellFormed,
}

-- A flag without a specification is left alone.
padspec-plain :
    (c : ℕ) (rest : List ℕ) → IsPlain c → handle_padspec (c ∷ rest) ≡ (no_padding, c ∷ rest)
unfolding handle_padspec
padspec-plain c rest h = ground arith

-- The digits end at the mark of truncation or at the flag.
digits-show :
    (k : ℕ) (s : List ℕ) (t : Bool) (c : ℕ) (rest : List ℕ)
    → All IsDigit s
    → ¬ IsDigit c
    → decimal (k - 48) s < size_mod
    → read_width (k - 48) (s ++ (truncate_mark t ++ c ∷ rest))
      ≡ (decimal (k - 48) s, truncate_mark t ++ c ∷ rest)
digits-show k s true c rest ds nd lt =
    read_width-decimal (k - 48) s b'!' (c ∷ rest) ds (omega arith) lt
digits-show k s false c rest ds nd lt = read_width-decimal (k - 48) s c rest ds nd lt

-- A specification is read as its side, the width cut at 64, and whether it truncates.
read_spec-show :
    (side : PadSide) (digits : List ℕ) (t : Bool) (c : ℕ) (rest : List ℕ)
    → digits ≢ []
    → All IsDigit digits
    → decimal 0 digits < size_mod
    → ¬ IsDigit c
    → (t ≡ false → c ≢ b'!')
    → read_spec side (digits ++ (truncate_mark t ++ c ∷ rest))
      ≡ (padding_info (min (decimal 0 digits) 64) side t, c ∷ rest)
unfolding read_spec
read_spec-show side [] t c rest ne ds lt nd nb = absurd (ne refl)
read_spec-show side (k ∷ s) t c rest ne ds lt nd nb =
    ground (arith, first, digits-show k s t c rest ds.1 nd lt', read_truncate-mark t c rest nb)
  where
    first : decimal (0 + (k - 48)) s ≡ decimal (k - 48) s
    first = ap (λ w. decimal w s) (omega arith)

    lt' : decimal (k - 48) s < size_mod
    lt' = omega (arith, first)

padspec-show :
    (side : PadSide) (digits : List ℕ) (t : Bool) (c : ℕ) (rest : List ℕ)
    → digits ≢ []
    → All IsDigit digits
    → decimal 0 digits < size_mod
    → ¬ IsDigit c
    → (t ≡ false → c ≢ b'!')
    → handle_padspec (side_mark side ++ (digits ++ (truncate_mark t ++ c ∷ rest)))
      ≡ (padding_info (min (decimal 0 digits) 64) side t, c ∷ rest)
unfolding handle_padspec
padspec-show PadSide.right digits t c rest ne ds lt nd nb =
    read_spec-show PadSide.right digits t c rest ne ds lt nd nb
padspec-show PadSide.center digits t c rest ne ds lt nd nb =
    read_spec-show PadSide.center digits t c rest ne ds lt nd nb
padspec-show PadSide.left [] t c rest ne ds lt nd nb = absurd (ne refl)
padspec-show PadSide.left (k ∷ s) t c rest ne ds lt nd nb =
    rw (ne→==false k b'-' (omega arith), ne→==false k b'=' (omega arith))
      (read_spec-show PadSide.left (k ∷ s) t c rest ne ds lt nd nb)

module _ (custom : Custom) (handlers : ℕ → Option custom.Handler) (now : ℤ) where
  -- What a directive stands for.
  abbrev pub meaning : Directive → Formatters custom handlers now
  meaning (text s) = user_chars custom handlers now s
  meaning (flag c) = handle_flag custom handlers now c no_padding
  meaning (padded side digits t c) =
      handle_flag custom handlers now c (padding_info (min (decimal 0 digits) 64) side t)

  abbrev pub meaning_all : List Directive → Formatters custom handlers now
  meaning_all [] = []
  meaning_all (d ∷ ds) = meaning d ++ meaning_all ds

  -- The loop with as many rounds as `compile_pattern_` makes.
  loop : List ℕ → List ℕ → Option (Formatters custom handlers now)
  loop chars rest = compile_loop custom handlers now (suc (length rest)) chars rest

  loop-text :
      (chars s rest : List ℕ)
      → All (λ c. c ≢ b'%') s
      → loop chars (s ++ rest) ≡ loop (chars ++ s) rest
  unfolding loop
  loop-text chars [] rest h = rw append-nil
  loop-text chars (c ∷ s) rest h =
      round-char custom handlers now (suc (length (s ++ rest))) chars c (s ++ rest) h.0
      ∙ loop-text (chars ++ c ∷ []) s rest h.1
      ∙ ap (λ t. loop t rest) (append_assoc chars (c ∷ []) s)

  loop-flag :
      (chars spec : List ℕ) (info : PaddingInfo) (c : ℕ) (rest : List ℕ)
      → handle_padspec spec ≡ (info, c ∷ rest)
      → loop chars (b'%' ∷ spec)
        ≡ Option.map
            (λ fs.
              user_chars custom handlers now chars
              ++ (handle_flag custom handlers now c info ++ fs))
            (loop [] rest)
  unfolding loop
  loop-flag chars spec info c rest e =
      round-flag custom handlers now (suc (length spec)) chars spec
      ∙ ap
          (λ (p : PaddingInfo × List ℕ).
            at_flag custom handlers now chars p.0 p.1
              (compile_loop custom handlers now (suc (length spec)) []))
          e
      ∙ ap (Option.map _) (
          compile_loop-fuel custom handlers now (suc (length spec)) (suc (length rest)) [] rest
            (omega
              (arith, length-handle_padspec spec, ap (λ (p : PaddingInfo × List ℕ). length p.1) e))
            (omega arith))

  loop-nil : (chars : List ℕ) → loop chars [] ≡ some (user_chars custom handlers now chars)
  unfolding loop compile_loop
  loop-nil chars = refl

  -- The loop reads directives back, with what their formatters are behind those of the characters.
  loop-show :
      (after : Bool) (chars : List ℕ) (ds : List Directive)
      → (after ≡ false → chars ≡ [])
      → WellFormed after ds
      → loop chars (show_all ds) ≡ some (user_chars custom handlers now chars ++ meaning_all ds)
  loop-show after chars [] h w = loop-nil chars ∙ ap some (sym (append-nil _))
  loop-show after chars (text s ∷ ds) h (off, ne, free, w) =
      loop-text chars s (show_all ds) free ∙ loop-show true (chars ++ s) ds (λ e. cc) w ∙ rw (h off)
  loop-show after chars (flag c ∷ ds) h (plain, w) =
      loop-flag chars (c ∷ show_all ds) no_padding c (show_all ds)
        (padspec-plain c (show_all ds) plain)
      ∙ rw (loop-show false [] ds (λ e. refl) w)
  loop-show after chars (padded side digits t c ∷ ds) h (ne, digs, lt, nd, nb, w) =
      loop-flag chars _ (padding_info (min (decimal 0 digits) 64) side t) c (show_all ds)
        (padspec-show side digits t c (show_all ds) ne digs lt nd nb)
      ∙ rw (loop-show false [] ds (λ e. refl) w)

  -- A well-formed list of directives, written out and compiled, gives the formatters that the
  -- directives stand for, in order.
  pub compile_pattern-show_all :
      (ds : List Directive)
      → WellFormed false ds
      → compile_pattern custom handlers now (show_all ds) ≡ some (meaning_all ds)
  unfolding compile_pattern loop
  compile_pattern-show_all ds w = loop-show false [] ds (λ e. refl) w
