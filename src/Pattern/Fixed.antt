-- ===== src/Pattern/Fixed.antt =====
-- The flags `%D` and `%I`, whose fixed field size or range is not what they print.
use structlog.Padding.Exact.{with_padder-told}
use structlog.Common.{
  false, ltb-false, lt→ltb, ap, length-append, ltb, append_assoc, arith, take, suc, some, none,
  ◌==◌, length, ◌∷◌, true, ◌++◌, if◌then◌else◌, List, ◌≡◌, ℕ, ◌+◌, ◌%◌, ◌<◌, ◌≤◌, ◌-◌,
}
use structlog.Common.Int.{rem_ℤ, pos, ◌+ℤ◌}
use structlog.FmtHelper.{Fmt, Buf, pad2, push_back}
use structlog.FmtHelper.Widths.{two_digits, pad2-two_digits}
use structlog.Padding.{Padder, PaddingInfo}
use structlog.Pattern.Time.{Tm, format_cap_d, to12h}

-- An hour of the day on the 12-hour clock as `%I` and `%r` print it: midnight is 0, not 12.
pub to12h_lem :
    (tm : Tm) (h : ℕ)
    → h < 24
    → tm.tm_hour ≡ pos h
    → to12h tm ≡ pos (if h == 0 then 0 else suc ((h - 1) % 12))
unfolding to12h
to12h_lem tm h lt e = rw e (ground arith)

-- The eight characters of `%D`.
abbrev pub short_date : ℕ → ℕ → ℕ → List ℕ
short_date mon mday year =
    two_digits (mon + 1) ++ b'/' ∷ (two_digits mday ++ b'/' ∷ two_digits (year % 100))

-- A date that prints with two digits for each part.
pub record IsDate (tm : Tm) (mon mday year : ℕ) : Type 0 where
  pub mon_eq : tm.tm_mon ≡ pos mon
  pub mday_eq : tm.tm_mday ≡ pos mday
  pub year_eq : tm.tm_year ≡ pos year
  pub mon_lt : mon < 12
  pub mday_lt : mday < 32

module _ (f : Fmt) (tm : Tm) (mon mday year : ℕ) (d : IsDate tm mon mday year) where
  date_body :
      (dest : Buf)
      → pad2 f
          (rem_ℤ tm.tm_year 100)
          (push_back b'/' (pad2 f tm.tm_mday (push_back b'/' (pad2 f (tm.tm_mon +ℤ pos 1) dest))))
        ≡ dest ++ short_date mon mday year
  unfolding push_back
  date_body dest =
      rw
        (
          d.mon_eq,
          d.mday_eq,
          d.year_eq,
          month,
          last,
          pad2-two_digits f dest (mon + 1) (omega (arith, d.mon_lt)),
          pad2-two_digits f _ mday (omega (arith, d.mday_lt)),
          pad2-two_digits f _ (year % 100) (omega arith),
        )
        (simp append_assoc)
    where
      month : pos mon +ℤ pos 1 ≡ pos (mon + 1)
      month = ground arith

      last : rem_ℤ (pos year) 100 ≡ pos (year % 100)
      last = ground arith

  abbrev printed : Buf → Buf
  printed dest = dest ++ short_date mon mday year

  length-printed : (dest : Buf) → length (printed dest) ≡ length dest + 8
  length-printed dest = omega (arith, length-append dest (short_date mon mday year))

  told :
      (info : PaddingInfo) (dest : Buf)
      → info.truncate ≡ true
      → info.width < 10
      → format_cap_d f Padder.scoped_padder info tm dest ≡ (
          if ltb (length (printed dest) + info.width) 10
          then none
          else some (take (length (printed dest) + info.width - 10) (printed dest)))
  unfolding format_cap_d
  told info dest t lt = with_padder-told info 10 _ dest (printed dest) t lt (date_body dest)

  -- `%D` with a width below 10 that truncates keeps two characters fewer than the width, since the
  -- padder is told 10 characters where 8 are printed.
  pub cap_d-truncates :
      (info : PaddingInfo) (dest : Buf)
      → info.truncate ≡ true
      → info.width < 10
      → 2 ≤ length dest + info.width
      → format_cap_d f Padder.scoped_padder info tm dest
        ≡ some (take (length dest + info.width - 2) (dest ++ short_date mon mday year))
  cap_d-truncates info dest t lt ge =
      rw (told info dest t lt, off)
        (ap (λ n. some (take n (printed dest))) (omega (arith, length-printed dest)))
    where
      off : ltb (length (printed dest) + info.width) 10 ≡ false
      off = ltb-false _ _ (omega (arith, length-printed dest))

  -- With a width of 1 at the beginning of a line it resizes the buffer to a negative size, and
  -- throws.
  pub cap_d-throws :
      (info : PaddingInfo) (dest : Buf)
      → info.truncate ≡ true
      → length dest + info.width < 2
      → format_cap_d f Padder.scoped_padder info tm dest ≡ none
  cap_d-throws info dest t lt = rw (told info dest t (omega arith), off)
    where
      off : ltb (length (printed dest) + info.width) 10 ≡ true
      off = lt→ltb _ _ (omega (arith, length-printed dest))
