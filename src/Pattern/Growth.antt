-- ===== src/Pattern/Growth.antt =====
-- The fields of a pattern that do not truncate only append to the buffer.
use structlog.Common.{
  true, ℕ, Bool, false, Option, none, some, [], ◌∷◌, ◌++◌, ◌≡◌, ◌≤◌, length, length-append,
  if◌then◌else◌, arith,
}
use structlog.Common.Int.{ℤ, pos, negsuc, ◌-ℤ◌}
use structlog.FmtHelper.{
  Fmt, Buf, append_string_view, push_back, append_int, pad2, pad3, pad_uint, pad6, pad9,
}
use structlog.FmtHelper.Widths.{pad_uint_lem}
use structlog.Padding.{
  Padder, PadSide, PaddingInfo, with_padder, open_padder, close_padder, pad_before, pad_it,
}

-- The buffer has `n` characters or more.
pub record Grew (n : ℕ) (b : Buf) : Type 0 where
  pub at_least : n ≤ length b

-- So has the buffer of a call, unless it throws.
abbrev pub GrewIf : ℕ → Option Buf → Type 0
GrewIf n none = Unit
GrewIf n (some b) = Grew n b

pub GrewIf-if :
    (n : ℕ) (t : Bool) (a b : Option Buf) → GrewIf n a → GrewIf n b → GrewIf n (if t then a else b)
GrewIf-if n true a b g h = g
GrewIf-if n false a b g h = h

pub Grew-self : (b : Buf) → Grew (length b) b
Grew-self b = record { at_least = omega arith }

module _ {n : ℕ} where
  Grew-append : (b t : Buf) → Grew n b → Grew n (b ++ t)
  Grew-append b t h = record { at_least = omega (arith, length-append b t, h.at_least) }

  pub Grew-append_string_view : (b t : Buf) → Grew n b → Grew n (append_string_view t b)
  unfolding append_string_view
  Grew-append_string_view b t h = Grew-append b t h

  pub Grew-push_back : (b : Buf) (c : ℕ) → Grew n b → Grew n (push_back c b)
  unfolding push_back
  Grew-push_back b c h = Grew-append b (c ∷ []) h

  pub Grew-if : (t : Bool) (a b : Buf) → Grew n a → Grew n b → Grew n (if t then a else b)
  Grew-if true a b g h = g
  Grew-if false a b g h = h

  pub Grew-pad_it : (b : Buf) (k : ℕ) → Grew n b → Grew n (pad_it k b)
  unfolding pad_it
  Grew-pad_it b k h = Grew-append b _ h

module _ {n : ℕ} (f : Fmt) (b : Buf) where
  pub Grew-append_int : (i : ℤ) → Grew n b → Grew n (append_int f i b)
  unfolding append_int
  Grew-append_int i h = Grew-append b (f.format_int i) h

  pub Grew-pad2 : (i : ℤ) → Grew n b → Grew n (pad2 f i b)
  unfolding pad2
  Grew-pad2 i h = Grew-if _ _ _ (Grew-append b _ h) (Grew-append b _ h)

  pub Grew-pad3 : (k : ℕ) → Grew n b → Grew n (pad3 f k b)
  unfolding pad3
  Grew-pad3 k h = Grew-if _ _ _ (Grew-append b _ h) (Grew-append_int (pos k) h)

  pub Grew-pad_uint : (k w : ℕ) → Grew n b → Grew n (pad_uint f k w b)
  Grew-pad_uint k w h = rw (pad_uint_lem f b k w) (Grew-append b _ h)

  pub Grew-pad6 : (k : ℕ) → Grew n b → Grew n (pad6 f k b)
  unfolding pad6
  Grew-pad6 k h = Grew-pad_uint k 6 h

  pub Grew-pad9 : (k : ℕ) → Grew n b → Grew n (pad9 f k b)
  unfolding pad9
  Grew-pad9 k h = Grew-pad_uint k 9 h

pub ruleset growth = (
  Grew-append_string_view, Grew-push_back, Grew-if, Grew-append_int, Grew-pad2, Grew-pad3,
  Grew-pad6, Grew-pad9,
)

-- What an appending text makes of a buffer.
abbrev pub Appends : (Buf → Buf) → Type 0
Appends body = (n : ℕ) (b : Buf) → Grew n b → Grew n (body b)

pad_before-Grew :
    {n : ℕ} (i : ℤ) (side : PadSide) (dest : Buf) → Grew n dest → Grew n (pad_before i side dest).1
unfolding pad_before
pad_before-Grew (negsuc k) side dest h = h
pad_before-Grew (pos k) PadSide.left dest h = Grew-pad_it _ _ h
pad_before-Grew (pos k) PadSide.center dest h = Grew-pad_it _ _ h
pad_before-Grew (pos k) PadSide.right dest h = h

close_padder-Grew :
    {n : ℕ} (i : ℤ) (info : PaddingInfo) (b : Buf)
    → info.truncate ≡ false
    → Grew n b
    → GrewIf n (close_padder i info b)
unfolding close_padder
close_padder-Grew (pos k) info b e h = Grew-pad_it _ _ h
close_padder-Grew (negsuc k) info b e h = rw (e, close_padder) h

pub with_padder-Grew :
    {n : ℕ} (p : Padder) (size : ℕ) (info : PaddingInfo) (body : Buf → Buf) (dest : Buf)
    → info.truncate ≡ false
    → Appends body
    → Grew n dest
    → GrewIf n (with_padder p size info body dest)
unfolding with_padder open_padder
with_padder-Grew Padder.null_scoped_padder size info body dest e a h = a _ dest h
with_padder-Grew Padder.scoped_padder size info body dest e a h =
    close_padder-Grew _ info _ e
      (a _ _ (pad_before-Grew (pos info.width -ℤ pos size) info.side dest h))
