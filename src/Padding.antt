-- ===== src/Padding.antt =====
-- `padding_info` of include/spdlog/pattern_formatter.h and `scoped_padder` of
-- pattern_formatter-inl.h.
pub mod Exact
mod Tests
use structlog.Common.{
  ℕ, ◌+◌, ◌/◌, ◌%◌, Bool, true, false, Option, none, some, List, ◌++◌, ltb, if◌then◌else◌, length,
  take, replicate,
}
use structlog.Common.Int.{ℤ, pos, negsuc, ◌+ℤ◌, ◌-ℤ◌}
use structlog.FmtHelper.{Buf}

pub data PadSide : Type 0 where
  left right center : PadSide

pub record PaddingInfo : Type 0 where
  pub width : ℕ
  pub side : PadSide
  pub truncate : Bool
  pub enabled : Bool

-- `padding_info()`
abbrev pub no_padding : PaddingInfo
no_padding = record { width = 0; side = PadSide.left; truncate = false; enabled = false }

-- `padding_info(width, side, truncate)`
abbrev pub padding_info : ℕ → PadSide → Bool → PaddingInfo
padding_info width side truncate = record {
  width = width;
  side = side;
  truncate = truncate;
  enabled = true;
}

-- The template argument of a flag's formatter.
pub data Padder : Type 0 where
  scoped_padder null_scoped_padder : Padder

-- The 64 spaces of `spaces_`; a view of more of them would read past its end.
abbrev pub spaces : List ℕ
spaces = replicate 64 32

unfoldable pub pad_it : ℕ → Buf → Buf
pad_it count dest = dest ++ take count spaces

-- The padding before the text, given what remains up to the width, and what is left after it.
unfoldable pub pad_before : ℤ → PadSide → Buf → ℤ × Buf
pad_before (negsuc n) side dest = (negsuc n, dest)
pad_before (pos n) PadSide.left dest = (pos 0, pad_it n dest)
pad_before (pos n) PadSide.center dest = (pos (n / 2 + n % 2), pad_it (n / 2) dest)
pad_before (pos n) PadSide.right dest = (pos n, dest)

-- `scoped_padder`'s constructor: the padding left for the destructor, and the buffer.
unfoldable pub open_padder : ℕ → PaddingInfo → Buf → ℤ × Buf
unfolding pad_before
open_padder wrapped_size info dest = pad_before (pos info.width -ℤ pos wrapped_size) info.side dest

-- `dest_.resize(new_size)` with a size not above the buffer's: a negative one becomes a size that
-- no buffer can have, and the call throws.
unfoldable pub resize : ℤ → Buf → Option Buf
resize (pos n) dest = some (take n dest)
resize (negsuc n) dest = none

-- `scoped_padder`'s destructor.
unfoldable pub close_padder : ℤ → PaddingInfo → Buf → Option Buf
unfolding pad_it resize
close_padder (pos n) info dest = some (pad_it n dest)
close_padder (negsuc n) info dest =
    if info.truncate then resize (pos (length dest) +ℤ negsuc n) dest else some dest

-- A padder around what `body` appends.
unfoldable pub with_padder : Padder → ℕ → PaddingInfo → (Buf → Buf) → Buf → Option Buf
unfolding open_padder close_padder pad_it resize
with_padder Padder.null_scoped_padder size info body dest = some (body dest)
with_padder Padder.scoped_padder size info body dest =
    let (remaining, padded) = open_padder size info dest in
    close_padder remaining info (body padded)
