-- ===== src/BinToHex/Flags.antt =====
-- The flags that `parse` of include/spdlog/fmt/bin_to_hex.h reads.
use structlog.Common.{ap, ◌++◌, arith, ℕ, Bool, false, not, List, [], ◌∷◌, ◌&&◌, ◌||◌, ◌≡◌, ◌==◌}
use structlog.BinToHex.{parse, HexFormatter, apply_flag}

-- Whether a flag is among the given ones.
abbrev pub has : ℕ → List ℕ → Bool
has flag [] = false
has flag (c ∷ cs) = (c == flag) || has flag cs

-- What the flags do to a formatter, all at once.
abbrev pub with_flags : List ℕ → HexFormatter → HexFormatter
with_flags flags h = record {
  put_newlines = h.put_newlines && not (has b'n' flags);
  put_delimiters = h.put_delimiters && not (has b's' flags);
  use_uppercase = h.use_uppercase || has b'X' flags;
  put_positions = h.put_positions && not (has b'p' flags);
  show_ascii = (h.show_ascii || (h.put_newlines && has b'a' flags)) && not (has b'n' flags);
}

apply_flag-with_flags :
    (c : ℕ) (cs : List ℕ) (h : HexFormatter)
    → with_flags cs (apply_flag c h) ≡ with_flags (c ∷ cs) h
unfolding apply_flag
apply_flag-with_flags c cs h = ground arith

-- The flags before the closing brace work together, whatever their order: an upper case, no
-- delimiters, no positions, no lines, and the characters unless there are no lines.
pub parse-with_flags :
    (flags rest : List ℕ) (h : HexFormatter)
    → has b'}' flags ≡ false
    → parse (flags ++ b'}' ∷ rest) h ≡ (b'}' ∷ rest, with_flags flags h)
unfolding parse
parse-with_flags [] rest h e = ap (λ g. (b'}' ∷ rest, g)) (ground arith)
parse-with_flags (c ∷ cs) rest h e =
    ground (arith, parse-with_flags cs rest (apply_flag c h), apply_flag-with_flags c cs h)
