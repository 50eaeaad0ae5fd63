-- ===== src/Pattern/Rounds.antt =====
-- The rounds of `compile_pattern_`'s loop: they are enough, and more of them change nothing.
use structlog.Padding.{PaddingInfo}
use structlog.Common.{
  ℕ_discrete, ne→==false, length, ◌≢◌, ℕ, zero, suc, ◌<◌, ◌≡◌, refl, List, [], ◌∷◌, ◌++◌, Option,
  some, arith,
}
use structlog.Common.Int.{ℤ}
use structlog.Pattern.Formatter.{Custom}
use structlog.Pattern.Compile.{
  at_flag, Formatters, user_chars, handle_flag, handle_padspec, compile_loop, compile_pattern,
}
use structlog.Pattern.Spec.{length-handle_padspec}

module _ (custom : Custom) (handlers : ℕ → Option custom.Handler) (now : ℤ) where
  pub round-char :
      (fuel : ℕ) (chars : List ℕ) (c : ℕ) (rest : List ℕ)
      → c ≢ b'%'
      → compile_loop custom handlers now (suc fuel) chars (c ∷ rest)
        ≡ compile_loop custom handlers now fuel (chars ++ c ∷ []) rest
  unfolding compile_loop
  round-char fuel chars c rest ne = rw (ne→==false c b'%' ne, compile_loop)

  pub round-flag :
      (fuel : ℕ) (chars rest : List ℕ)
      → compile_loop custom handlers now (suc fuel) chars (b'%' ∷ rest)
        ≡ at_flag custom handlers now chars
            (handle_padspec rest).0
            (handle_padspec rest).1
            (compile_loop custom handlers now fuel [])
  unfolding compile_loop
  round-flag fuel chars rest = refl

  at_flag_total :
      (chars : List ℕ) (info : PaddingInfo) (left : List ℕ)
      (loop : List ℕ → Option (Formatters custom handlers now))
      → ((rest : List ℕ)
          → length rest < length left
          → (fs : Formatters custom handlers now) × (loop rest ≡ some fs))
      → (fs : Formatters custom handlers now) × (at_flag custom handlers now chars info left loop
          ≡ some fs)
  at_flag_total chars info [] loop ih = (user_chars custom handlers now chars, refl)
  at_flag_total chars info (flag ∷ rest) loop ih =
      let (fs, e) = ih rest (omega arith) in
      (
        user_chars custom handlers now chars ++ (handle_flag custom handlers now flag info ++ fs),
        rw e,
      )

  at_flag-loop :
      (chars : List ℕ) (info : PaddingInfo) (left : List ℕ)
      (loop again : List ℕ → Option (Formatters custom handlers now))
      → ((rest : List ℕ) → length rest < length left → loop rest ≡ again rest)
      → at_flag custom handlers now chars info left loop
        ≡ at_flag custom handlers now chars info left again
  at_flag-loop chars info [] loop again ih = refl
  at_flag-loop chars info (flag ∷ rest) loop again ih = rw (ih rest (omega arith))

  -- With more rounds than the pattern has characters the loop ends.
  pub compile_loop_total :
      (fuel : ℕ) (chars rest : List ℕ)
      → length rest < fuel
      → (fs : Formatters custom handlers now) × (compile_loop custom handlers now fuel chars rest
          ≡ some fs)
  unfolding compile_loop
  compile_loop_total zero chars rest h = absurd (omega arith)
  compile_loop_total (suc fuel) chars [] h = (user_chars custom handlers now chars, refl)
  compile_loop_total (suc fuel) chars (c ∷ rest) h = elim (ℕ_discrete c b'%') [
    | yes e ↦
        rw (e, round-flag fuel chars rest)
          (at_flag_total chars (handle_padspec rest).0 (handle_padspec rest).1
            (compile_loop custom handlers now fuel [])
            (λ r lt. compile_loop_total fuel [] r (omega (arith, length-handle_padspec rest))))
    | no ne ↦
        rw (round-char fuel chars c rest ne)
          (compile_loop_total fuel (chars ++ c ∷ []) rest (omega arith))
  ]

  -- More rounds give the same formatters.
  pub compile_loop-fuel :
      (fuel more : ℕ) (chars rest : List ℕ)
      → length rest < fuel
      → length rest < more
      → compile_loop custom handlers now fuel chars rest
        ≡ compile_loop custom handlers now more chars rest
  unfolding compile_loop
  compile_loop-fuel zero more chars rest h k = absurd (omega arith)
  compile_loop-fuel (suc fuel) zero chars rest h k = absurd (omega arith)
  compile_loop-fuel (suc fuel) (suc more) chars [] h k = refl
  compile_loop-fuel (suc fuel) (suc more) chars (c ∷ rest) h k = elim (ℕ_discrete c b'%') [
    | yes e ↦
        rw (e, round-flag fuel chars rest, round-flag more chars rest)
          (at_flag-loop chars (handle_padspec rest).0 (handle_padspec rest).1
            (compile_loop custom handlers now fuel []) (compile_loop custom handlers now more [])
            (λ r lt.
              compile_loop-fuel fuel more [] r (omega (arith, length-handle_padspec rest))
                (omega (arith, length-handle_padspec rest))))
    | no ne ↦
        rw (round-char fuel chars c rest ne, round-char more chars c rest ne)
          (compile_loop-fuel fuel more (chars ++ c ∷ []) rest (omega arith) (omega arith))
  ]

  -- Every pattern compiles.
  pub compile_pattern_total :
      (pattern : List ℕ)
      → (fs : Formatters custom handlers now) × (compile_pattern custom handlers now pattern
          ≡ some fs)
  unfolding compile_pattern
  compile_pattern_total pattern = compile_loop_total (suc (length pattern)) [] pattern (omega arith)
