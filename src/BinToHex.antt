-- ===== src/BinToHex.antt =====
-- include/spdlog/fmt/bin_to_hex.h: the hexadecimal dump of a range of bytes. What fmt prints
-- for the position of a line is a parameter.
pub mod Lines
pub mod Steps
pub mod Whole
pub mod Flags
pub mod Digits
mod Tests
use structlog.Common.{
  ◌||◌, ℕ, suc, Bool, true, false, not, List, [], ◌∷◌, ◌++◌, if◌then◌else◌, ltb, leb, ◌==◌, ◌&&◌,
  ◌+◌, ◌-◌, ◌/◌, ◌%◌, ◌^◌, take, drop, length, replicate, get_or, codes,
}
use structlog.FmtHelper.{Buf}

-- `details::dump_info`: the range from `begin_` to `end_` as the list of its bytes.
pub record DumpInfo : Type 0 where
  pub range : List ℕ
  pub size_per_line : ℕ

-- `to_hex`; the source's default for the second argument is 32.
unfoldable pub to_hex : List ℕ → ℕ → DumpInfo
to_hex container size_per_line = record { range = container; size_per_line = size_per_line }

-- The fields of `formatter<dump_info>` that the flags change.
pub record HexFormatter : Type 0 where
  pub put_newlines : Bool
  pub put_delimiters : Bool
  pub use_uppercase : Bool
  pub put_positions : Bool
  pub show_ascii : Bool

abbrev pub default_flags : HexFormatter
default_flags = record {
  put_newlines = true;
  put_delimiters = true;
  use_uppercase = false;
  put_positions = true;
  show_ascii = false;
}

-- The `switch` of `parse`.
unfoldable pub apply_flag : ℕ → HexFormatter → HexFormatter
apply_flag c h =
    if c == b'X'
    then record h { use_uppercase = true }
    else if c == b's'
    then record h { put_delimiters = false }
    else if c == b'p'
    then record h { put_positions = false }
    else if c == b'n'
    then record h { put_newlines = false; show_ascii = false }
    else if c == b'a'
    then (if h.put_newlines then record h { show_ascii = true } else h)
    else h

-- The text that is left from the place where `parse` stops, and the flags.
unfoldable pub parse : List ℕ → HexFormatter → List ℕ × HexFormatter
unfolding apply_flag
parse [] h = ([], h)
parse (c ∷ rest) h =
    let parsed = parse rest (apply_flag c h) in if c == b'}' then (c ∷ rest, h) else parsed

-- `static_cast<int>` of a `size_t`. A negative `int` acts as 0 in each of its three tests.
unfoldable pub to_int : ℕ → ℕ
to_int n = if ltb (n % 2 ^ 32) (2 ^ 31) then n % 2 ^ 32 else 0

-- `std::isprint` in the "C" locale.
unfoldable pub isprint : ℕ → Bool
isprint c = leb 32 c && ltb c 127

unfoldable pub hex_chars : HexFormatter → List ℕ
hex_chars h = if h.use_uppercase then codes "0123456789ABCDEF" else codes "0123456789abcdef"

-- The two digits of a byte.
unfoldable pub put_byte : HexFormatter → ℕ → Buf → Buf
unfolding hex_chars
put_byte h ch dest =
    dest ++ get_or (hex_chars h) (ch / 16 % 16) 0 ∷ get_or (hex_chars h) (ch % 16) 0 ∷ []

-- The loops over the bytes from `start_of_line`.
unfoldable pub put_ascii : List ℕ → Buf → Buf
unfolding isprint
put_ascii [] dest = dest
put_ascii (c ∷ cs) dest = put_ascii cs (dest ++ (if isprint c then c else b'.') ∷ [])

-- `n` rounds of the loop over `blank_num`.
unfoldable pub put_blanks : HexFormatter → ℕ → Buf → Buf
put_blanks h ℕ.zero dest = dest
put_blanks h (suc n) dest =
    put_blanks h n (dest ++ b' ' ∷ b' ' ∷ (if h.put_delimiters then b' ' ∷ [] else []))

-- The condition for a new line at the byte of index `i`.
unfoldable pub starts_line : HexFormatter → DumpInfo → ℕ → ℕ → Bool
unfolding to_int
starts_line h the_range i start_of_line =
    h.put_newlines && ((i == 0) || leb (to_int the_range.size_per_line) (i - start_of_line))

-- The column of a line before the byte of index `i`, where a new line starts.
unfoldable pub end_line : HexFormatter → DumpInfo → ℕ → ℕ → Buf → Buf
unfolding put_ascii
end_line h the_range i start_of_line dest =
    let line = take (i - start_of_line) (drop start_of_line the_range.range) in
    if h.show_ascii && not (i == 0) then put_ascii line (dest ++ b' ' ∷ b' ' ∷ []) else dest

-- What `format` does after its loop.
unfoldable pub last_line : HexFormatter → DumpInfo → ℕ × Buf → Buf
unfolding put_ascii put_blanks to_int
last_line h the_range (start_of_line, dest) =
    let size_per_line = to_int the_range.size_per_line in
    let line = drop start_of_line the_range.range in
    let blanked =
      if ltb size_per_line (length the_range.range)
      then put_blanks h (size_per_line - length line) dest
      else dest in
    if h.show_ascii then put_ascii line (blanked ++ b' ' ∷ b' ' ∷ []) else dest

-- `fmt` is "{:04X}: " of a position.
module _ (fmt_position : ℕ → List ℕ) where
  unfoldable pub put_newline : HexFormatter → ℕ → Buf → Buf
  put_newline h pos dest = dest ++ b'\n' ∷ (if h.put_positions then fmt_position pos else [])

  -- One round of the loop of `format`, at the byte `ch` of index `i`: the start of the line and the
  -- output after it.
  unfoldable pub format_byte : HexFormatter → DumpInfo → ℕ → ℕ → ℕ → Buf → ℕ × Buf
  unfolding put_byte end_line put_newline starts_line
  format_byte h the_range ch i start_of_line dest =
      if starts_line h the_range i start_of_line
      then (i, put_byte h ch (put_newline h i (end_line h the_range i start_of_line dest)))
      else (start_of_line, put_byte h ch (if h.put_delimiters then dest ++ b' ' ∷ [] else dest))

  -- The loop of `format` over the bytes that are left, from index `i`.
  unfoldable pub format_loop : HexFormatter → DumpInfo → List ℕ → ℕ → ℕ → Buf → ℕ × Buf
  unfolding format_byte
  format_loop h the_range [] i start_of_line dest = (start_of_line, dest)
  format_loop h the_range (ch ∷ rest) i start_of_line dest =
      let (start, dest') = format_byte h the_range ch i start_of_line dest in
      format_loop h the_range rest (suc i) start dest'

  unfoldable pub format : HexFormatter → DumpInfo → Buf → Buf
  unfolding format_loop last_line
  format h the_range dest = last_line h the_range (format_loop h the_range the_range.range 0 0 dest)
