-- ===== src/Pattern/Language.antt =====
-- The language of patterns: a list of directives, how each is written, and what it stands for.
use structlog.Common.{
  refl, ne→==false, false, size_mod, true, ◌∷◌, arith, ◌++◌, ◌<◌, ◌≡◌, [], List, Bool, ◌≢◌, ℕ, ◌+◌,
  ◌*◌, ◌-◌, ◌≤◌,
}
use structlog.FmtHelper.{decimal}
use structlog.Padding.{PadSide}
use structlog.Pattern.Compile.{read_width, read_truncate}

pub data Directive : Type 0 where
  text : List ℕ → Directive
  flag : ℕ → Directive
  padded : PadSide → List ℕ → Bool → ℕ → Directive

-- The mark of a side before the digits, and the mark of truncation behind them.
abbrev pub side_mark : PadSide → List ℕ
side_mark PadSide.left = []
side_mark PadSide.right = b'-' ∷ []
side_mark PadSide.center = b'=' ∷ []

abbrev pub truncate_mark : Bool → List ℕ
truncate_mark true = b'!' ∷ []
truncate_mark false = []

-- A directive's text, in front of the rest of the pattern.
abbrev pub show : Directive → List ℕ → List ℕ
show (text s) rest = s ++ rest
show (flag c) rest = b'%' ∷ c ∷ rest
show (padded side digits truncate c) rest =
    b'%' ∷ (side_mark side ++ (digits ++ (truncate_mark truncate ++ c ∷ rest)))

abbrev pub show_all : List Directive → List ℕ
show_all [] = []
show_all (d ∷ ds) = show d (show_all ds)

abbrev pub All : (ℕ → Type 0) → List ℕ → Type 0
All P [] = Unit
All P (c ∷ s) = P c × All P s

abbrev pub IsDigit : ℕ → Type 0
IsDigit c = (b'0' ≤ c) × (c ≤ b'9')

-- A flag that no specification can take in.
abbrev pub IsPlain : ℕ → Type 0
IsPlain c = (c ≢ b'-') × (c ≢ b'=') × ¬ IsDigit c

-- A list of directives that can be read back: no text holds a `%` or is empty, none follows
-- another, no flag looks like a part of a specification, and each width is a `size_t`.
abbrev pub WellFormed : Bool → List Directive → Type 0
WellFormed after [] = Unit
WellFormed after (text s ∷ ds) =
    (after ≡ false) × (s ≢ []) × All (λ c. c ≢ b'%') s × WellFormed true ds
WellFormed after (flag c ∷ ds) = IsPlain c × WellFormed false ds
WellFormed after (padded side digits truncate c ∷ ds) =
    (digits ≢ [])
    × All IsDigit digits
    × (decimal 0 digits < size_mod)
    × ¬ IsDigit c
    × (truncate ≡ false → c ≢ b'!')
    × WellFormed false ds

-- What a specification is read as.
le-decimal : (w : ℕ) (s : List ℕ) → w ≤ decimal w s
le-decimal w [] = omega arith
le-decimal w (c ∷ s) = omega (arith, le-decimal (w * 10 + (c - 48)) s)

pub read_width-decimal :
    (w : ℕ) (s : List ℕ) (c : ℕ) (rest : List ℕ)
    → All IsDigit s
    → ¬ IsDigit c
    → decimal w s < size_mod
    → read_width w (s ++ c ∷ rest) ≡ (decimal w s, c ∷ rest)
unfolding read_width
read_width-decimal w [] c rest ds nd lt = ground arith
read_width-decimal w (k ∷ s) c rest ds nd lt =
    ground (
      arith,
      le-decimal (w * 10 + (k - 48)) s,
      read_width-decimal (w * 10 + (k - 48)) s c rest ds.1,
    )

pub read_truncate-mark :
    (t : Bool) (c : ℕ) (rest : List ℕ)
    → (t ≡ false → c ≢ b'!')
    → read_truncate (truncate_mark t ++ c ∷ rest) ≡ (t, c ∷ rest)
unfolding read_truncate
read_truncate-mark true c rest h = refl
read_truncate-mark false c rest h = rw (ne→==false c b'!' (h refl))
