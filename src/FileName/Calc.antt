-- ===== src/FileName/Calc.antt =====
-- The names of rotated files are all different.
use structlog.Common.{
  ◌≢◌, get_or, ap₂, [], drop, length-append, ap, ◌∙◌, arith, ne→==false, ◌∷◌, refl, sym, ◌<◌, ◌≡◌,
}
use structlog.Common.{zero, suc}
use structlog.FmtHelper.{Fmt, Decimal, decimal}
use structlog.FileName.{length, ◌++◌, ℕ, List, calc_filename, split_by_extension}
use structlog.FileName.Split.{split_by_extension_lem}
use structlog.Common.Int.{pos}

append_left_cancel : (xs ys zs : List ℕ) → xs ++ ys ≡ xs ++ zs → ys ≡ zs
append_left_cancel [] ys zs e = e
append_left_cancel (x ∷ xs) ys zs e = append_left_cancel xs ys zs (ap (drop 1) e)

append_right_cancel : (xs ys zs : List ℕ) → xs ++ zs ≡ ys ++ zs → xs ≡ ys
append_right_cancel [] [] zs e = refl
append_right_cancel [] (y ∷ ys) zs e = absurd (omega (arith, ap length e, length-append ys zs))
append_right_cancel (x ∷ xs) [] zs e = absurd (omega (arith, ap length e, length-append xs zs))
append_right_cancel (x ∷ xs) (y ∷ ys) zs e =
    ap₂ ◌∷◌ (ap (λ l. get_or l 0 0) e) (append_right_cancel xs ys zs (ap (drop 1) e))

module _ (fmt : Fmt) (h : Decimal fmt) (fname : List ℕ) where
  abbrev numbered : ℕ → List ℕ
  numbered i =
      (split_by_extension fname).0
      ++ b'.' ∷ (fmt.format_int (pos i) ++ (split_by_extension fname).1)

  calc-numbered : (i : ℕ) → 0 < i → calc_filename fmt fname i ≡ numbered i
  unfolding calc_filename
  calc-numbered i l = rw (ne→==false i 0 (omega arith))

  pub calc-zero : calc_filename fmt fname 0 ≡ fname
  unfolding calc_filename
  calc-zero = refl

  longer : (i : ℕ) → length fname < length (numbered i)
  longer i = omega (
    arith,
    ap length (split_by_extension_lem fname).0,
    length-append (split_by_extension fname).0 (split_by_extension fname).1,
    length-append (split_by_extension fname).0
        (b'.' ∷ (fmt.format_int (pos i) ++ (split_by_extension fname).1)),
    length-append (fmt.format_int (pos i)) (split_by_extension fname).1,
  )

  numbered_inj : (i j : ℕ) → numbered i ≡ numbered j → i ≡ j
  numbered_inj i j e =
      sym (h.value i)
      ∙ ap (decimal 0) (
          append_right_cancel (fmt.format_int (pos i)) (fmt.format_int (pos j))
            (split_by_extension fname).1
            (ap (drop 1) (append_left_cancel (split_by_extension fname).0 _ _ e)))
      ∙ h.value j

  pub calc_filename_inj : (i j : ℕ) → calc_filename fmt fname i ≡ calc_filename fmt fname j → i ≡ j
  calc_filename_inj zero zero e = refl
  calc_filename_inj zero (suc j) e = absurd (
      omega (
        arith,
        longer (suc j),
        ap length (sym calc-zero ∙ e ∙ calc-numbered (suc j) (omega arith)),
      ))
  calc_filename_inj (suc i) zero e = absurd (
      omega (
        arith,
        longer (suc i),
        ap length (sym calc-zero ∙ sym e ∙ calc-numbered (suc i) (omega arith)),
      ))
  calc_filename_inj (suc i) (suc j) e =
      numbered_inj (suc i) (suc j)
        (sym (calc-numbered (suc i) (omega arith)) ∙ e ∙ calc-numbered (suc j) (omega arith))

  -- No two files of a rotation have the same name.
  pub calc_filename_ne : (i j : ℕ) → i ≢ j → calc_filename fmt fname i ≢ calc_filename fmt fname j
  calc_filename_ne i j ne e = ne (calc_filename_inj i j e)
