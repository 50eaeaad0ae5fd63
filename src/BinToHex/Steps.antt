-- ===== src/BinToHex/Steps.antt =====
-- The rounds of the loop of `format`, and what follows it.
use structlog.BinToHex.Lines.{put_blanks-append, put_ascii-append, hexes, column}
use structlog.BinToHex.{
  put_ascii, put_newline, put_byte, starts_line, to_int, end_line, ◌∷◌, last_line, put_blanks,
  format_byte, DumpInfo, HexFormatter,
}
use structlog.Common.{
  append-nil, append_assoc, leb-false, sym, inl, inr, ◌∙◌, ne→==false, le→leb, ltb, Bool-cases,
  refl, ap₂, ◌-◌, true, false, ap, [], arith, if◌then◌else◌, ◌+◌, ◌^◌, ◌≡◌, ◌++◌, ◌<◌, length, take,
  drop, List, ℕ, ◌==◌,
}

pub drop-length : (xs ys : List ℕ) → drop (length xs) (xs ++ ys) ≡ ys
drop-length [] ys = refl
drop-length (x ∷ xs) ys = drop-length xs ys

take-length : (xs ys : List ℕ) → take (length xs) (xs ++ ys) ≡ xs
take-length [] ys = refl
take-length (x ∷ xs) ys = ap (◌∷◌ x) (take-length xs ys)

module _ (fp : ℕ → List ℕ) (h : HexFormatter) (d : DumpInfo) (int : d.size_per_line < 2 ^ 31) where
  to_int-size : to_int d.size_per_line ≡ d.size_per_line
  unfolding to_int
  to_int-size = ground arith

  pub last_line-column :
      (start : ℕ) (dest : List ℕ)
      → last_line h d (start, dest) ≡ dest ++ column h d (drop start d.range)
  unfolding last_line column
  last_line-column start dest = elim (Bool-cases h.show_ascii) [
    | inr e ↦ rw e (sym (append-nil dest))
    | inl e ↦ elim (Bool-cases (ltb d.size_per_line (length d.range))) [
      | inr t ↦
          rw (to_int-size, e, t)
            (put_ascii-append (drop start d.range) (dest ++ b' ' ∷ b' ' ∷ [])
              ∙ append_assoc dest (b' ' ∷ b' ' ∷ []) _)
      | inl t ↦
          rw (to_int-size, e, t)
            (put_ascii-append (drop start d.range) _
              ∙ ap (λ b. (b ++ b' ' ∷ b' ' ∷ []) ++ put_ascii (drop start d.range) [])
                  (put_blanks-append h (d.size_per_line - length (drop start d.range)) dest)
              ∙ simp append_assoc)
    ]
  ]

  module _ (pre cur rest : List ℕ) (split : d.range ≡ pre ++ (cur ++ rest))
      (some_cur : 0 < length cur) where
    not_first : (length pre + length cur == 0) ≡ false
    not_first = ne→==false _ _ (omega arith)

    starts_line-full :
        h.put_newlines ≡ true
        → length cur ≡ d.size_per_line
        → starts_line h d (length pre + length cur) (length pre) ≡ true
    unfolding starts_line
    starts_line-full hn el = simp (
      hn,
      not_first,
      le→leb (to_int d.size_per_line) (length pre + length cur - length pre)
          (omega (arith, to_int-size, el)),
    )

    starts_line-room :
        length cur < d.size_per_line
        → starts_line h d (length pre + length cur) (length pre) ≡ false
    unfolding starts_line
    starts_line-room l = elim (Bool-cases h.put_newlines) [
      | inl t ↦ simp (
        t,
        not_first,
        leb-false (to_int d.size_per_line) (length pre + length cur - length pre)
            (omega (arith, to_int-size, l)),
      )
      | inr t ↦ simp t
    ]

    this_line : take (length pre + length cur - length pre) (drop (length pre) d.range) ≡ cur
    this_line =
        ap₂ take (omega arith) (ap (drop (length pre)) split ∙ drop-length pre (cur ++ rest))
        ∙ take-length cur rest

    no_blanks :
        length cur ≡ d.size_per_line
        → (if ltb d.size_per_line (length d.range)
            then put_blanks h (d.size_per_line - length cur) []
            else [])
          ≡ []
    unfolding put_blanks
    no_blanks el = elim (Bool-cases (ltb d.size_per_line (length d.range))) [
      | inl t ↦
          rw t
            (ap (λ k. put_blanks h k []) {x = d.size_per_line - length cur} {y = 0} (omega arith))
      | inr t ↦ rw t
    ]

    -- A line that is full gets its column, with no room to set it out.
    end_line-column :
        (dest : List ℕ)
        → length cur ≡ d.size_per_line
        → end_line h d (length pre + length cur) (length pre) dest ≡ dest ++ column h d cur
    unfolding end_line column
    end_line-column dest el = elim (Bool-cases h.show_ascii) [
      | inr e ↦ rw e (sym (append-nil dest))
      | inl e ↦
          simp (e, not_first, this_line)
            (put_ascii-append cur (dest ++ b' ' ∷ b' ' ∷ [])
              ∙ append_assoc dest (b' ' ∷ b' ' ∷ []) (put_ascii cur [])
              ∙ ap (λ b. dest ++ (b ++ b' ' ∷ b' ' ∷ put_ascii cur [])) (sym (no_blanks el)))
    ]

    pub format_byte-newline :
        (c : ℕ) (dest : List ℕ)
        → h.put_newlines ≡ true
        → length cur ≡ d.size_per_line
        → format_byte fp h d c (length pre + length cur) (length pre) dest ≡ (
          length pre + length cur,
          put_byte h c (put_newline fp h (length pre + length cur) (dest ++ column h d cur)),
        )
    unfolding format_byte
    format_byte-newline c dest hn el = rw (starts_line-full hn el) (
        ap
          (λ b.
            (length pre + length cur, put_byte h c (put_newline fp h (length pre + length cur) b)))
          (end_line-column dest el))

    pub format_byte-along :
        (c : ℕ) (dest : List ℕ)
        → length cur < d.size_per_line
        → format_byte fp h d c (length pre + length cur) (length pre) dest
          ≡ (length pre, dest ++ hexes h (c ∷ []))
    unfolding format_byte hexes
    format_byte-along c dest l = rw (starts_line-room l) (elim (Bool-cases h.put_delimiters) [
      | inl t ↦ simp (t, append_assoc)
      | inr t ↦ simp (t, append_assoc)
    ])
