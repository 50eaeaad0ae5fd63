-- ===== src/BinToHex/Lines.antt =====
-- The dump of include/spdlog/fmt/bin_to_hex.h, line by line.
use structlog.Common.{
  ap, append_assoc, ◌∙◌, append-nil, sym, if◌then◌else◌, refl, ℕ, zero, suc, List, [], ◌∷◌, ◌++◌,
  ◌≡◌, ◌+◌, ◌-◌, ltb, length,
}
use structlog.BinToHex.{
  isprint, put_ascii, put_newline, put_blanks, HexFormatter, DumpInfo, put_byte,
}

-- The bytes of the line that has room for `r` more, and the lines of `n` after it.
unfoldable pub lines_from : ℕ → ℕ → List ℕ → List ℕ × List (List ℕ)
lines_from n r [] = ([], [])
lines_from n zero (x ∷ xs) = let (l, ls) = lines_from n (n - 1) xs in ([], (x ∷ l) ∷ ls)
lines_from n (suc r) (x ∷ xs) = let (l, ls) = lines_from n r xs in (x ∷ l, ls)

-- The bytes in lines of `n`, the last of which may be shorter.
unfoldable pub lines : ℕ → List ℕ → List (List ℕ)
unfolding lines_from
lines n xs = (lines_from n 0 xs).1

module _ (h : HexFormatter) where
  -- Bytes each of which comes after a delimiter.
  unfoldable pub hexes : List ℕ → List ℕ
  hexes [] = []
  hexes (c ∷ cs) = (if h.put_delimiters then b' ' ∷ [] else []) ++ put_byte h c [] ++ hexes cs

  unfoldable pub line_hexes : List ℕ → List ℕ
  unfolding hexes
  line_hexes [] = []
  line_hexes (c ∷ cs) = put_byte h c [] ++ hexes cs

  -- The column of the characters, set out where a line of several has room for more than `l`.
  unfoldable pub column : DumpInfo → List ℕ → List ℕ
  column d l =
      if h.show_ascii
      then (if ltb d.size_per_line (length d.range)
          then put_blanks h (d.size_per_line - length l) []
          else [])
        ++ b' ' ∷ b' ' ∷ put_ascii l []
      else []

  -- The lines from the position `pos`.
  unfoldable pub dump_lines : (ℕ → List ℕ) → DumpInfo → ℕ → List (List ℕ) → List ℕ
  unfolding line_hexes column
  dump_lines fmt_position d pos [] = []
  dump_lines fmt_position d pos (l ∷ ls) =
      put_newline fmt_position h pos []
      ++ line_hexes l
      ++ column d l
      ++ dump_lines fmt_position d (pos + d.size_per_line) ls

-- The helpers append to what is there.
pub put_byte-append :
    (h : HexFormatter) (c : ℕ) (dest : List ℕ) → put_byte h c dest ≡ dest ++ put_byte h c []
unfolding put_byte
put_byte-append h c dest = refl

pub put_newline-append :
    (fp : ℕ → List ℕ) (h : HexFormatter) (pos : ℕ) (dest : List ℕ)
    → put_newline fp h pos dest ≡ dest ++ put_newline fp h pos []
unfolding put_newline
put_newline-append fp h pos dest = refl

pub put_ascii-append : (l dest : List ℕ) → put_ascii l dest ≡ dest ++ put_ascii l []
unfolding put_ascii
put_ascii-append [] dest = sym (append-nil dest)
put_ascii-append (c ∷ cs) dest =
    put_ascii-append cs (dest ++ (if isprint c then c else b'.') ∷ [])
    ∙ append_assoc dest _ (put_ascii cs [])
    ∙ ap (◌++◌ dest) (sym (put_ascii-append cs ((if isprint c then c else b'.') ∷ [])))

pub put_blanks-append :
    (h : HexFormatter) (n : ℕ) (dest : List ℕ) → put_blanks h n dest ≡ dest ++ put_blanks h n []
unfolding put_blanks
put_blanks-append h zero dest = sym (append-nil dest)
put_blanks-append h (suc n) dest =
    put_blanks-append h n (dest ++ b' ' ∷ b' ' ∷ (if h.put_delimiters then b' ' ∷ [] else []))
    ∙ append_assoc dest _ (put_blanks h n [])
    ∙ ap (◌++◌ dest)
        (sym (put_blanks-append h n (b' ' ∷ b' ' ∷ (if h.put_delimiters then b' ' ∷ [] else []))))
