-- ===== src/BinToHex/Tests.antt =====
-- Dumps of a few bytes.
use structlog.BinToHex.Whole.{format-dump_lines}
use structlog.BinToHex.Lines.{lines, dump_lines}
use structlog.BinToHex.Flags.{with_flags}
use structlog.BinToHex.Digits.{read_pairs-format, without_spaces, read_pairs}
use structlog.BinToHex.{
  isprint, hex_chars, put_blanks, put_ascii, put_newline, put_byte, to_int, end_line, starts_line,
  last_line, format_byte, default_flags, format_loop, to_hex, apply_flag, format, HexFormatter,
  parse,
}
use structlog.Common.{arith, refl, [], ◌≡◌, ◌+◌, ◌∷◌, ◌++◌, List, ℕ, codes}

-- A stand-in for what fmt prints of a position below 10.
abbrev position : ℕ → List ℕ
position n = codes "000" ++ (n + 48) ∷ codes ": "

abbrev with_ascii : HexFormatter
with_ascii = with_flags (codes "aX") default_flags

dumps :
    (parse (codes "aXn}.") default_flags ≡ (codes "}.", with_flags (codes "Xn") default_flags))
    × (format position default_flags (to_hex (codes "abc") 2) [] ≡ codes "\n0000: 61 62\n0002: 63")
    × (format position with_ascii (to_hex (codes "m\nz") 2) []
        ≡ codes "\n0000: 6D 0A  m.\n0002: 7A     z")
    × (format position with_ascii (to_hex [] 2) [] ≡ codes "  ")
unfolding parse apply_flag format format_loop format_byte last_line starts_line end_line to_hex
    to_int put_byte put_newline put_ascii put_blanks hex_chars isprint
dumps = (refl, refl, refl, refl)

format-dump_lines_example :
    format position with_ascii (to_hex (codes "m\nz") 2) []
    ≡ [] ++ dump_lines with_ascii position (to_hex (codes "m\nz") 2) 0 (lines 2 (codes "m\nz"))
format-dump_lines_example =
    format-dump_lines position with_ascii b'm' (codes "\nz") 2 [] refl (omega arith) (omega arith)

read_pairs-format_example :
    read_pairs (
      without_spaces
        (format position (with_flags (codes "nX") default_flags) (to_hex (codes "z~") 4) []))
    ≡ codes "z~"
read_pairs-format_example =
    read_pairs-format position (with_flags (codes "nX") default_flags) (codes "z~") 4 refl refl
      (omega arith, (omega arith, tt))
