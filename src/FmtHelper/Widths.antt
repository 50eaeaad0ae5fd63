-- ===== src/FmtHelper/Widths.antt =====
-- What the padding helpers print: how many digits, and which number they stand for.
use structlog.FmtHelper.{
  decimal, Fmt, Decimal, Buf, digit, pad2, pad3, pad_uint, pad6, pad9, push_zeros, time_fraction,
}
use structlog.Common.Int.{pos}
use structlog.Common.{
  refl, length-replicate, length-append, ap, max, ◌≤◌, ◌∙◌, append_assoc, append-nil, [], ◌-◌, sym,
  arith, ◌%◌, ◌∷◌, length, replicate, ◌++◌, ◌/◌, ◌<◌, List, ℕ, zero, suc, ◌+◌, ◌≡◌,
}

-- The two digits of a number below 100.
abbrev pub two_digits : ℕ → List ℕ
two_digits n = digit (n / 10) ∷ digit (n % 10) ∷ []

module _ (f : Fmt) (dest : Buf) where
  pub pad2-two_digits : (n : ℕ) → n < 100 → pad2 f (pos n) dest ≡ dest ++ two_digits n
  unfolding pad2
  pad2-two_digits n h = ground arith

  -- `pad2` of a number below 100 appends two digits that stand for it.
  pub decimal-pad2 :
      (n : ℕ)
      → n < 100
      → (s : List ℕ) × (pad2 f (pos n) dest ≡ dest ++ s) × (length s ≡ 2) × (decimal 0 s ≡ n)
  decimal-pad2 n h = (two_digits n, pad2-two_digits n h, omega arith, omega arith)

  -- `pad3` of a number below 1000 appends three digits that stand for it.
  pub decimal-pad3 :
      (n : ℕ)
      → n < 1000
      → (s : List ℕ) × (pad3 f n dest ≡ dest ++ s) × (length s ≡ 3) × (decimal 0 s ≡ n)
  unfolding pad3
  decimal-pad3 n h = (
    digit (n / 100) ∷ digit (n % 100 / 10) ∷ digit (n % 100 % 10) ∷ [],
    ground arith,
    omega arith,
    omega arith,
  )

-- Leading zeros do not count.
decimal-zeros : (n : ℕ) (s : List ℕ) → decimal 0 (replicate n (digit 0) ++ s) ≡ decimal 0 s
decimal-zeros zero s = refl
decimal-zeros (suc n) s = decimal-zeros n s

push_zeros_lem : (n : ℕ) (dest : Buf) → push_zeros n dest ≡ dest ++ replicate n (digit 0)
unfolding push_zeros
push_zeros_lem zero dest = sym (append-nil dest)
push_zeros_lem (suc n) dest =
    push_zeros_lem n (dest ++ digit 0 ∷ []) ∙ append_assoc dest (digit 0 ∷ []) _

module _ (f : Fmt) (dest : Buf) where
  -- `pad_uint` appends the number's digits behind as many zeros as make up the width.
  pub pad_uint_lem :
      (n width : ℕ)
      → pad_uint f n width dest
        ≡ dest ++ (replicate (width - f.count_digits n) (digit 0) ++ f.format_int (pos n))
  unfolding pad_uint
  pad_uint_lem n width = rw push_zeros_lem (append_assoc dest _ _)

  -- `pad_uint` appends as many digits as the width says, or more where the number has more, and
  -- they stand for the number.
  pub decimal-pad_uint :
      Decimal f
      → (n width : ℕ)
      → (s : List ℕ) × (pad_uint f n width dest ≡ dest ++ s)
        × (length s ≡ max width (f.count_digits n))
        × (decimal 0 s ≡ n)
  decimal-pad_uint laws n width = (
    replicate (width - f.count_digits n) (digit 0) ++ f.format_int (pos n),
    pad_uint_lem n width,
    omega (
      arith,
      length-append (replicate (width - f.count_digits n) (digit 0)) (f.format_int (pos n)),
      length-replicate (width - f.count_digits n) (digit 0),
      laws.digits n,
    ),
    decimal-zeros (width - f.count_digits n) (f.format_int (pos n)) ∙ laws.value n,
  )

  -- `pad6` and `pad9` append six digits for microseconds and nine for nanoseconds of a second.
  pub length-pad6-pad9 :
      Decimal f
      → (n : ℕ)
      → ((n < 1000000 → length (pad6 f n dest) ≡ length dest + 6)
          × (n < 1000000000 → length (pad9 f n dest) ≡ length dest + 9))
  unfolding pad6 pad9
  length-pad6-pad9 laws n =
      (λ h. width_of 6 (laws.few_digits n 5 h), λ h. width_of 9 (laws.few_digits n 8 h))
    where
      width_of : (w : ℕ) → f.count_digits n ≤ w → length (pad_uint f n w dest) ≡ length dest + w
      width_of w le =
          let (s, e, l, _) = decimal-pad_uint laws n w in
          omega (arith, ap length e, length-append dest s)

-- The part of a time below a second is the remainder, for the units that the flags print.
pub time_fraction-mod :
    (t : ℕ)
    → (time_fraction 1000000 (pos t) ≡ pos (t / 1000000 % 1000))
      × (time_fraction 1000 (pos t) ≡ pos (t / 1000 % 1000000))
      × (time_fraction 1 (pos t) ≡ pos (t % 1000000000))
unfolding time_fraction
time_fraction-mod t = ground arith
