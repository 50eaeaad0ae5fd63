-- ===== src/FmtHelper.antt =====
-- include/spdlog/details/fmt_helper.h. What the bundled fmt library prints is a parameter.
pub mod Widths
pub mod Printer
mod Tests
use structlog.Common.{
  not, ℕ, zero, suc, ◌+◌, ◌-◌, ◌*◌, ◌/◌, ◌%◌, ◌^◌, ◌<◌, ◌≤◌, ◌≡◌, List, [], ◌∷◌, ◌++◌, ltb, ◌&&◌,
  if◌then◌else◌, length,
}
use structlog.Common.Int.{ℤ, pos, ◌-ℤ◌, ltb_ℤ, quot_ℤ, scale_ℤ, pos_part}

-- The output buffer, `memory_buf_t`.
abbrev pub Buf : Type 0
Buf = List ℕ

-- The calls of fmt: `format_int`, the format "{:02}", and `count_digits` of an unsigned number.
pub record Fmt : Type 0 where
  pub format_int : ℤ → List ℕ
  pub format_02 : ℤ → List ℕ
  pub count_digits : ℕ → ℕ

-- The number that a text of digits stands for, after `acc`.
abbrev pub decimal : ℕ → List ℕ → ℕ
decimal acc [] = acc
decimal acc (c ∷ s) = decimal (acc * 10 + (c - 48)) s

-- What fmt documents of them.
pub record Decimal (f : Fmt) : Type 0 where
  pub digits : (n : ℕ) → length (f.format_int (pos n)) ≡ f.count_digits n
  pub few_digits : (n k : ℕ) → n < 10 ^ suc k → f.count_digits n ≤ suc k
  pub value : (n : ℕ) → decimal 0 (f.format_int (pos n)) ≡ n

-- The characters '0' to '9'.
abbrev pub digit : ℕ → ℕ
digit n = 48 + n

unfoldable pub append_string_view : List ℕ → Buf → Buf
append_string_view view dest = dest ++ view

unfoldable pub push_back : ℕ → Buf → Buf
push_back c dest = dest ++ c ∷ []

-- `duration_cast<seconds>` of a time.
unfoldable pub seconds : ℤ → ℤ
seconds time = quot_ℤ time 1000000000

-- A time's part below one second, in units of `unit` nanoseconds.
unfoldable pub time_fraction : ℕ → ℤ → ℤ
time_fraction unit time = quot_ℤ time unit -ℤ scale_ℤ (quot_ℤ time 1000000000) (1000000000 / unit)

-- `n` rounds of the loop of `pad_uint`.
unfoldable pub push_zeros : ℕ → Buf → Buf
push_zeros zero dest = dest
push_zeros (suc n) dest = push_zeros n (dest ++ digit 0 ∷ [])

module _ (f : Fmt) where
  open f use {format_int, format_02, count_digits}

  unfoldable pub append_int : ℤ → Buf → Buf
  append_int n dest = dest ++ format_int n

  unfoldable pub pad2 : ℤ → Buf → Buf
  pad2 n dest =
      if not (ltb_ℤ n (pos 0)) && ltb_ℤ n (pos 100)
      then dest ++ digit (pos_part n / 10) ∷ digit (pos_part n % 10) ∷ []
      else dest ++ format_02 n

  unfoldable pub pad_uint : ℕ → ℕ → Buf → Buf
  unfolding push_zeros append_int
  pad_uint n width dest = append_int (pos n) (push_zeros (width - count_digits n) dest)

  unfoldable pub pad3 : ℕ → Buf → Buf
  unfolding append_int
  pad3 n dest =
      if ltb n 1000
      then dest ++ digit (n / 100) ∷ digit (n % 100 / 10) ∷ digit (n % 100 % 10) ∷ []
      else append_int (pos n) dest

  unfoldable pub pad6 : ℕ → Buf → Buf
  unfolding pad_uint
  pad6 n dest = pad_uint n 6 dest

  unfoldable pub pad9 : ℕ → Buf → Buf
  unfolding pad_uint
  pad9 n dest = pad_uint n 9 dest
