-- ===== src/Pattern/Spec.antt =====
-- Padding specifications: what `handle_padspec_` reads, how far it reads, and the widths it allows.
use structlog.Common.{size_mod, [], ◌%◌, ◌∷◌, arith, length, List, ℕ, ◌+◌, ◌*◌, ◌-◌, ◌≤◌}
use structlog.Padding.{PadSide}
use structlog.Pattern.Compile.{read_width, read_truncate, read_spec, handle_padspec}

length-read_width : (w : ℕ) (s : List ℕ) → length (read_width w s).1 ≤ length s
unfolding read_width
length-read_width w [] = omega arith
length-read_width w (c ∷ s) = ground (arith, length-read_width ((w * 10 + (c - b'0')) % size_mod) s)

length-read_truncate : (s : List ℕ) → length (read_truncate s).1 ≤ length s
unfolding read_truncate
length-read_truncate [] = omega arith
length-read_truncate (c ∷ s) = ground arith

length-read_spec : (side : PadSide) (s : List ℕ) → length (read_spec side s).1 ≤ length s
unfolding read_spec
length-read_spec side [] = omega arith
length-read_spec side (c ∷ s) =
    ground (arith, length-read_width (c - b'0') s, length-read_truncate (read_width (c - b'0') s).1)

-- A specification's text is taken off the front of the pattern.
pub length-handle_padspec : (s : List ℕ) → length (handle_padspec s).1 ≤ length s
unfolding handle_padspec
length-handle_padspec [] = omega arith
length-handle_padspec (c ∷ s) = ground (
  arith,
  length-read_spec PadSide.right s,
  length-read_spec PadSide.center s,
  length-read_spec PadSide.left (c ∷ s),
)

width-read_spec : (side : PadSide) (s : List ℕ) → (read_spec side s).0.width ≤ 64
unfolding read_spec
width-read_spec side [] = omega arith
width-read_spec side (c ∷ s) = ground arith

-- No specification asks for more than the 64 spaces that the padder has.
pub width-handle_padspec : (s : List ℕ) → (handle_padspec s).0.width ≤ 64
unfolding handle_padspec
width-handle_padspec [] = omega arith
width-handle_padspec (c ∷ s) = ground (
  arith,
  width-read_spec PadSide.right s,
  width-read_spec PadSide.center s,
  width-read_spec PadSide.left (c ∷ s),
)
