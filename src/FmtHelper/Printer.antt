-- ===== src/FmtHelper/Printer.antt =====
-- A decimal printer, to evaluate the model with and to show that what is asked of fmt can be met.
use structlog.Common.{
  ltb-false, ltb, length-append, if◌then◌else◌, lt→ltb, dec_lt, ◌++◌, refl, [], ◌∷◌, ◌≡◌, length,
  List, arith, ℕ, zero, suc, ◌+◌, ◌*◌, ◌/◌, ◌%◌, ◌^◌, ◌<◌, ◌≤◌, ◌-◌,
}
use structlog.Common.Int.{ℤ, pos, negsuc}
use structlog.FmtHelper.{Fmt, Decimal, digit, decimal}
use native.Mathlib.Nat.{pow-suc}

-- The digits of a number below the fuel.
print : ℕ → ℕ → List ℕ
print zero n = []
print (suc k) n =
    let rest = print k (n / 10) ++ digit (n % 10) ∷ [] in if ltb n 10 then digit n ∷ [] else rest

decimal-snoc :
    (acc : ℕ) (s : List ℕ) (c : ℕ) → decimal acc (s ++ c ∷ []) ≡ decimal acc s * 10 + (c - 48)
decimal-snoc acc [] c = refl
decimal-snoc acc (x ∷ s) c = decimal-snoc (acc * 10 + (x - 48)) s c

decimal-print : (k n : ℕ) → n < k → decimal 0 (print k n) ≡ n
unfolding print
decimal-print zero n h = absurd (omega arith)
decimal-print (suc k) n h = elim (dec_lt n 10) [
  | yes p ↦ rw (lt→ltb n 10 p) (omega arith)
  | no p ↦ rw (ltb-false n 10 p) (
      omega (
        arith,
        decimal-snoc 0 (print k (n / 10)) (digit (n % 10)),
        decimal-print k (n / 10) (omega arith),
      ))
]

length-print : (k n e : ℕ) → n < k → n < 10 ^ suc e → length (print k n) ≤ suc e
unfolding print
length-print zero n e h lt = absurd (omega arith)
length-print (suc k) n zero h lt = rw (lt→ltb n 10 lt) (omega arith)
length-print (suc k) n (suc e) h lt = elim (dec_lt n 10) [
  | yes p ↦ rw (lt→ltb n 10 p) (omega arith)
  | no p ↦ rw (ltb-false n 10 p) (
      omega (
        arith,
        length-append (print k (n / 10)) (digit (n % 10) ∷ []),
        length-print k (n / 10) e (omega arith) (omega (arith, pow-suc 10 (suc e))),
      ))
]

-- A minus sign before the digits of a negative number.
print_int : ℤ → List ℕ
print_int (pos n) = print (suc n) n
print_int (negsuc n) = b'-' ∷ print (suc (suc n)) (suc n)

unfoldable pub printer : Fmt
unfolding print print_int
printer = record {
  format_int = print_int;
  format_02 = λ n. print_int n;
  count_digits = λ n. length (print (suc n) n);
}

pub printer-Decimal : Decimal printer
unfolding printer
printer-Decimal = record {
  digits = λ n. refl;
  few_digits = λ n k h. length-print (suc n) n k (omega arith) h;
  value = λ n. decimal-print (suc n) n (omega arith);
}
