-- ===== src/Padding/Exact.antt =====
-- What a `scoped_padder` makes of a text whose size it was told.
use structlog.FmtHelper.{append_string_view}
use structlog.Padding.{
  ◌-ℤ◌, resize, ◌+ℤ◌, pos, negsuc, open_padder, Padder, close_padder, with_padder, Buf, pad_before,
  PaddingInfo, PadSide, pad_it,
}
use structlog.Common.{
  ltb-false, lt→ltb, dec_lt, none, ltb, ◌<◌, true, leb-false, le→leb, length-replicate, length-take,
  take-append, append-nil, dec_le, length-append, inr, ◌-◌, inl, append_assoc, leb, refl, ◌∙◌,
  Bool-cases, max, zero, if◌then◌else◌, ◌%◌, ◌∷◌, ◌+◌, arith, ap, ◌/◌, some, ◌++◌, suc, length, ◌≡◌,
  replicate, List, take, ◌≤◌, ℕ,
}

-- A text with `n` spaces beside it.
abbrev pub beside : PadSide → ℕ → List ℕ → List ℕ
beside PadSide.left n t = replicate n 32 ++ t
beside PadSide.right n t = t ++ replicate n 32
beside PadSide.center n t = replicate (n / 2) 32 ++ (t ++ replicate (n / 2 + n % 2) 32)

-- The text at the width that the padding asks for.
abbrev pub pad_text : PaddingInfo → List ℕ → List ℕ
pad_text info t =
    if leb (length t) info.width
    then beside info.side (info.width - length t) t
    else if info.truncate
    then take info.width t
    else t

length-beside : (side : PadSide) (n : ℕ) (t : List ℕ) → length (beside side n t) ≡ n + length t
length-beside PadSide.left n t =
    omega (arith, length-append (replicate n 32) t, length-replicate {A = ℕ} n 32)
length-beside PadSide.right n t =
    omega (arith, length-append t (replicate n 32), length-replicate {A = ℕ} n 32)
length-beside PadSide.center n t = omega (
  arith,
  length-append (replicate (n / 2) 32) (t ++ replicate (n / 2 + n % 2) 32),
  length-append t (replicate (n / 2 + n % 2) 32),
  length-replicate {A = ℕ} (n / 2) 32,
  length-replicate {A = ℕ} (n / 2 + n % 2) 32,
)

take-replicate : (n k : ℕ) (c : ℕ) → n ≤ k → take n (replicate k c) ≡ replicate n c
take-replicate zero k c h = refl
take-replicate (suc n) zero c h = absurd (omega arith)
take-replicate (suc n) (suc k) c h = ap (◌∷◌ c) (take-replicate n k c (omega arith))

pad_it_lem : (n : ℕ) (dest : Buf) → n ≤ 64 → pad_it n dest ≡ dest ++ replicate n 32
unfolding pad_it
pad_it_lem n dest h = ap (◌++◌ dest) (take-replicate n 64 32 h)

-- A text that fits.
pad-fits :
    (side : PadSide) (n : ℕ) (info : PaddingInfo) (t dest : List ℕ)
    → n ≤ 64
    → (let (remaining, padded) = pad_before (pos n) side dest in
        close_padder remaining info (append_string_view t padded))
      ≡ some (dest ++ beside side n t)
unfolding pad_before close_padder append_string_view
pad-fits PadSide.left n info t dest h = ap some (
    pad_it_lem 0 (pad_it n dest ++ t) (omega arith)
    ∙ append-nil (pad_it n dest ++ t)
    ∙ ap (λ b. b ++ t) (pad_it_lem n dest h)
    ∙ append_assoc dest _ t)
pad-fits PadSide.right n info t dest h =
    ap some (pad_it_lem n (dest ++ t) h ∙ append_assoc dest t _)
pad-fits PadSide.center n info t dest h = ap some (
    pad_it_lem (n / 2 + n % 2) (pad_it (n / 2) dest ++ t) (omega arith)
    ∙ ap (λ b. b ++ t ++ replicate (n / 2 + n % 2) 32) (pad_it_lem (n / 2) dest (omega arith))
    ∙ append_assoc (dest ++ replicate (n / 2) 32) t _
    ∙ append_assoc dest _ _)

-- A text that is too long.
pad-over :
    (side : PadSide) (n : ℕ) (info : PaddingInfo) (t dest : List ℕ)
    → length t ≡ info.width + suc n
    → (let (remaining, padded) = pad_before (negsuc n) side dest in
        close_padder remaining info (append_string_view t padded))
      ≡ some (dest ++ (if info.truncate then take info.width t else t))
unfolding pad_before close_padder append_string_view
pad-over side n info t dest h = elim (Bool-cases info.truncate) [
  | inl e ↦ rw e (rw (cut, resize) (ap some (take-append _ info.width dest t refl)))
  | inr e ↦ rw e refl
]
  where
    cut : pos (length (dest ++ t)) +ℤ negsuc n ≡ pos (length dest + info.width)
    cut = ground (arith, length-append dest t)

-- A padder that is told the size of the text appends the text padded to the width, or cut to it
-- where the padding says so; it never throws.
pub with_padder-pad_text :
    (info : PaddingInfo) (t : List ℕ) (dest : Buf)
    → info.width ≤ 64
    → with_padder Padder.scoped_padder (length t) info (append_string_view t) dest
      ≡ some (dest ++ pad_text info t)
unfolding with_padder open_padder
with_padder-pad_text info t dest h = elim (dec_le (length t) info.width) [
  | yes p ↦
      rw (room p, le→leb (length t) info.width p)
        (pad-fits info.side (info.width - length t) info t dest (omega arith))
  | no p ↦
      rw (excess p, leb-false (length t) info.width p)
        (pad-over info.side (length t - info.width - 1) info t dest (omega arith))
]
  where
    room : length t ≤ info.width → pos info.width -ℤ pos (length t) ≡ pos (info.width - length t)
    room p = ground arith

    excess :
        ¬ (length t ≤ info.width)
        → pos info.width -ℤ pos (length t) ≡ negsuc (length t - info.width - 1)
    excess p = ground arith

-- What it appends has the width asked for, or is the text where that is longer and not cut.
pub length-pad_text :
    (info : PaddingInfo) (t : List ℕ)
    → length (pad_text info t) ≡ (if info.truncate then info.width else max info.width (length t))
length-pad_text info t =
    ground (arith, length-beside info.side (info.width - length t) t, length-take info.width t)

-- A padder that truncates takes off as many characters as the size it was told goes over the
-- width, whatever the size of the text; it throws where the buffer has fewer.
pub with_padder-told :
    (info : PaddingInfo) (size : ℕ) (body : Buf → Buf) (dest out : Buf)
    → info.truncate ≡ true
    → info.width < size
    → body dest ≡ out
    → with_padder Padder.scoped_padder size info body dest ≡ (
        if ltb (length out + info.width) size
        then none
        else some (take (length out + info.width - size) out))
unfolding with_padder open_padder pad_before close_padder
with_padder-told info size body dest out t lt e = elim (dec_lt (length out + info.width) size) [
  | yes p ↦ rw (excess, t, e, below p, resize, lt→ltb _ _ p)
  | no p ↦ rw (excess, t, e, within p, resize, ltb-false _ _ p)
]
  where
    below :
        length out + info.width < size
        → pos (length out) +ℤ negsuc (size - info.width - 1)
          ≡ negsuc (size - info.width - length out - 1)
    below p = ground arith

    within :
        ¬ (length out + info.width < size)
        → pos (length out) +ℤ negsuc (size - info.width - 1) ≡ pos (length out + info.width - size)
    within p = ground arith

    excess : pos info.width -ℤ pos size ≡ negsuc (size - info.width - 1)
    excess = ground arith
