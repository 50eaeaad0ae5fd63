-- ===== src/BinToHex/Digits.antt =====
-- The digits of a dump read back.
use structlog.Common.{
  ap₂, append_assoc, append-nil, sym, inr, ◌∙◌, inl, Bool-cases, ◌%◌, codes, ◌/◌, ap, refl, get_or,
  ℕ, zero, suc, Bool, true, false, not, List, [], ◌∷◌, ◌++◌, ◌&&◌, ◌≡◌, ◌==◌, leb, if◌then◌else◌,
  ◌+◌, ◌-◌, ◌*◌, ◌<◌, arith,
}
use structlog.BinToHex.{
  starts_line, format_byte, last_line, format, format_loop, DumpInfo, to_hex, HexFormatter,
  hex_chars, put_byte,
}
use structlog.BinToHex.Lines.{hexes}

-- The value of a digit.
abbrev pub digit_value : ℕ → ℕ
digit_value c = if leb c b'9' then c - b'0' else if leb c b'F' then c - b'A' + 10 else c - b'a' + 10

abbrev pub without_spaces : List ℕ → List ℕ
without_spaces [] = []
without_spaces (c ∷ cs) = if c == b' ' then without_spaces cs else c ∷ without_spaces cs

abbrev pub read_pairs : List ℕ → List ℕ
read_pairs [] = []
read_pairs (a ∷ []) = []
read_pairs (a ∷ b ∷ cs) = (digit_value a * 16 + digit_value b) ∷ read_pairs cs

abbrev pub Bytes : List ℕ → Type 0
Bytes [] = Unit
Bytes (c ∷ cs) = (c < 256) × Bytes cs

all_below : ℕ → (ℕ → Bool) → Bool
all_below zero p = true
all_below (suc n) p = p n && all_below n p

all_below→ : (n k : ℕ) (p : ℕ → Bool) → all_below n p ≡ true → k < n → p k ≡ true
unfolding all_below
all_below→ zero k p e l = absurd (omega arith)
all_below→ (suc n) k p e l = ground (arith, all_below→ n k p, ap p)

-- A digit is no space, and has its value.
is_digit : List ℕ → ℕ → Bool
is_digit chars k = not (get_or chars k 0 == b' ') && (digit_value (get_or chars k 0) == k)

module _ (h : HexFormatter) where
  hex_chars-is_digit : (k : ℕ) → k < 16 → is_digit (hex_chars h) k ≡ true
  unfolding hex_chars all_below is_digit
  hex_chars-is_digit k l = elim (Bool-cases h.use_uppercase) [
    | inl t ↦ rw t (all_below→ 16 k (is_digit (codes "0123456789ABCDEF")) upper l)
    | inr t ↦ rw t (all_below→ 16 k (is_digit (codes "0123456789abcdef")) lower l)
  ]
    where
      upper : all_below 16 (is_digit (codes "0123456789ABCDEF")) ≡ true
      upper = refl

      lower : all_below 16 (is_digit (codes "0123456789abcdef")) ≡ true
      lower = refl

  digit-value :
      (k : ℕ) (l : k < 16)
      → ((get_or (hex_chars h) k 0 == b' ') ≡ false) × (digit_value (get_or (hex_chars h) k 0) ≡ k)
  unfolding is_digit
  digit-value k l = ground (arith, hex_chars-is_digit k l)

  read_pairs-hexes : (bs : List ℕ) → Bytes bs → read_pairs (without_spaces (hexes h bs)) ≡ bs
  unfolding hexes put_byte
  read_pairs-hexes [] b = refl
  read_pairs-hexes (c ∷ cs) (l, b) =
      let (s1, v1) = digit-value (c / 16 % 16) (omega arith) in
      let (s2, v2) = digit-value (c % 16) (omega arith) in
      elim (Bool-cases h.put_delimiters) [
        | inl t ↦ simp (t, s1, s2, v1, v2) (ap₂ ◌∷◌ (omega arith) (read_pairs-hexes cs b))
        | inr t ↦ simp (t, s1, s2, v1, v2) (ap₂ ◌∷◌ (omega arith) (read_pairs-hexes cs b))
      ]

  module _ (fp : ℕ → List ℕ) (d : DumpInfo) (one_line : h.put_newlines ≡ false) where
    format_loop-hexes :
        (bs : List ℕ) (i : ℕ) (dest : List ℕ)
        → format_loop fp h d bs i 0 dest ≡ (0, dest ++ hexes h bs)
    unfolding format_loop format_byte starts_line hexes put_byte
    format_loop-hexes [] i dest = ap (λ b. (0, b)) (sym (append-nil dest))
    format_loop-hexes (c ∷ cs) i dest = elim (Bool-cases h.put_delimiters) [
      | inl t ↦
          simp (one_line, t) (format_loop-hexes cs (suc i) _ ∙ ap (λ b. (0, b)) (simp append_assoc))
      | inr t ↦
          simp (one_line, t) (format_loop-hexes cs (suc i) _ ∙ ap (λ b. (0, b)) (simp append_assoc))
    ]

    format-hexes :
        h.show_ascii ≡ false → (dest : List ℕ) → format fp h d dest ≡ dest ++ hexes h d.range
    unfolding format last_line
    format-hexes e dest = simp (format_loop-hexes d.range 0 dest, e)

-- Bytes that are printed in one line are read back from their digits, whatever the case of
-- these and whether or not spaces stand between the bytes.
pub read_pairs-format :
    (fp : ℕ → List ℕ) (h : HexFormatter) (bytes : List ℕ) (n : ℕ)
    → h.put_newlines ≡ false
    → h.show_ascii ≡ false
    → Bytes bytes
    → read_pairs (without_spaces (format fp h (to_hex bytes n) [])) ≡ bytes
unfolding to_hex
read_pairs-format fp h bytes n one_line e b =
    ap (λ t. read_pairs (without_spaces t)) (format-hexes h fp (to_hex bytes n) one_line e [])
    ∙ read_pairs-hexes h bytes b
