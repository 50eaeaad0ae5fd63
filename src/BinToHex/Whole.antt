-- ===== src/BinToHex/Whole.antt =====
-- The whole dump.
use structlog.BinToHex.Steps.{drop-length, format_byte-along, format_byte-newline, last_line-column}
use structlog.BinToHex.Lines.{column, line_hexes, lines, dump_lines, hexes, lines_from}
use structlog.BinToHex.{
  end_line, starts_line, to_hex, format_byte, put_newline, put_byte, suc, ◌∷◌, last_line, format,
  format_loop, DumpInfo, HexFormatter,
}
use structlog.Common.{
  inr, inl, refl, Bool-cases, append-nil, append_assoc, ◌-◌, sym, length-append, ap₂, drop, ap,
  zero, [], arith, ◌∙◌, length, ◌+◌, ◌++◌, true, ◌≡◌, ◌^◌, ◌<◌, List, ℕ,
}

module _ (fp : ℕ → List ℕ) (h : HexFormatter) (d : DumpInfo) (int : d.size_per_line < 2 ^ 31)
    (hn : h.put_newlines ≡ true) where
  -- The loop in the middle of a line, whose bytes so far are `cur`, with room for `r` more.
  format_loop-lines :
      (rest pre cur dest : List ℕ) (r : ℕ)
      → r + length cur ≡ d.size_per_line
      → 0 < length cur
      → d.range ≡ pre ++ (cur ++ rest)
      → last_line h d (format_loop fp h d rest (length pre + length cur) (length pre) dest)
        ≡ dest
          ++ (hexes h (lines_from d.size_per_line r rest).0
              ++ (column h d (cur ++ (lines_from d.size_per_line r rest).0)
                  ++ dump_lines h fp d
                      (length pre + d.size_per_line)
                      (lines_from d.size_per_line r rest).1))
  unfolding format_loop lines_from hexes dump_lines line_hexes put_byte put_newline
  format_loop-lines [] pre cur dest r er pos split =
      last_line-column fp h d int (length pre) dest
      ∙ ap (λ l. dest ++ column h d l) (ap (drop (length pre)) split ∙ drop-length pre (cur ++ []))
      ∙ simp append-nil
  format_loop-lines (x ∷ xs) pre cur dest zero er pos split =
      rw (format_byte-newline fp h d int pre cur (x ∷ xs) split pos x dest hn (omega arith)) (
        ap₂
          (λ i start. last_line h d (
            format_loop fp h d xs i start
              (put_byte h x (put_newline fp h (length pre + length cur) (dest ++ column h d cur)))))
          (omega (arith, length-append pre cur)) (sym (length-append pre cur))
        ∙ format_loop-lines xs (pre ++ cur) (x ∷ []) _ (d.size_per_line - 1) (omega arith)
            (omega arith) (split ∙ sym (append_assoc pre cur (x ∷ xs)))
        ∙ simp (length-append pre cur, el, append-nil, append_assoc))
    where
      el : length cur ≡ d.size_per_line
      el = omega arith
  format_loop-lines (x ∷ xs) pre cur dest (suc r) er pos split =
      rw (format_byte-along fp h d int pre cur (x ∷ xs) split pos x dest (omega arith)) (
        ap (λ i. last_line h d (format_loop fp h d xs i (length pre) (dest ++ hexes h (x ∷ []))))
          (omega (arith, length-append cur (x ∷ [])))
        ∙ format_loop-lines xs pre (cur ++ x ∷ []) _ r (omega (arith, length-append cur (x ∷ [])))
            (omega (arith, length-append cur (x ∷ [])))
            (split ∙ ap (◌++◌ pre) (sym (append_assoc cur (x ∷ []) xs)))
        ∙ simp append_assoc)

  first_byte :
      (x : ℕ) (dest : List ℕ)
      → format_byte fp h d x 0 0 dest ≡ (0, put_byte h x (put_newline fp h 0 dest))
  unfolding format_byte starts_line end_line
  first_byte x dest = elim (Bool-cases h.show_ascii) [ inl t ↦ simp (hn, t) | inr t ↦ simp (hn, t) ]

  format_loop-all :
      (x : ℕ) (xs dest : List ℕ)
      → d.range ≡ x ∷ xs
      → 0 < d.size_per_line
      → last_line h d (format_loop fp h d (x ∷ xs) 0 0 dest)
        ≡ dest ++ dump_lines h fp d 0 (lines d.size_per_line (x ∷ xs))
  unfolding format_loop lines lines_from dump_lines line_hexes put_byte put_newline
  format_loop-all x xs dest split pos = rw (first_byte x dest) (
      format_loop-lines xs [] (x ∷ []) _ (d.size_per_line - 1) (omega arith) (omega arith) split
      ∙ simp append_assoc)

-- Where the flags ask for lines, the output is the bytes in lines of the size asked for, each
-- after its position: the digits of the bytes with the delimiter between them, and their
-- characters if asked for, in a column at the same place in each line. The size is positive and
-- below 2^31, and the range is not empty.
pub format-dump_lines :
    (fp : ℕ → List ℕ) (h : HexFormatter) (x : ℕ) (xs : List ℕ) (n : ℕ) (dest : List ℕ)
    → h.put_newlines ≡ true
    → 0 < n
    → n < 2 ^ 31
    → format fp h (to_hex (x ∷ xs) n) dest
      ≡ dest ++ dump_lines h fp (to_hex (x ∷ xs) n) 0 (lines n (x ∷ xs))
unfolding format to_hex
format-dump_lines fp h x xs n dest hn pos int =
    format_loop-all fp h (to_hex (x ∷ xs) n) int hn x xs dest refl pos
