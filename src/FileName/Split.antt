-- ===== src/FileName/Split.antt =====
-- What `split_by_extension` returns.
use structlog.Common.{
  ne→==false, eq→==true, le→leb, ℕ_discrete, leb-false, subst, dec_lt, ◌∙◌, length-drop, sym,
  some_inj, zero, length-take, Bool-cases, ap, arith, none_ne_some, false, refl, ◌-◌, suc, inr,
  if◌then◌else◌, inl, length, append-nil, ◌⊎◌, ◌∷◌, ◌<◌, drop, [], take, Option-cases, some, none,
  List, ℕ, ◌==◌, ◌||◌, ◌≡◌, ◌++◌,
}
use structlog.FileName.{split_by_extension, split_at, rfind}

take-drop : (n : ℕ) (xs : List ℕ) → take n xs ++ drop n xs ≡ xs
take-drop zero xs = refl
take-drop (suc n) [] = refl
take-drop (suc n) (x ∷ xs) = ap (◌∷◌ x) (take-drop n xs)

rfind-some : (c x : ℕ) (xs : List ℕ) (f : ℕ) → rfind c xs ≡ some f → rfind c (x ∷ xs) ≡ some (suc f)
unfolding rfind
rfind-some c x xs f e = rw e

rfind-none :
    (c x : ℕ) (xs : List ℕ)
    → rfind c xs ≡ none
    → rfind c (x ∷ xs) ≡ (if x == c then some 0 else none)
unfolding rfind
rfind-none c x xs e = rw e

-- No `c` stands from place `k` on where the last one stands before it.
rfind-drop :
    (c : ℕ) (xs : List ℕ) (k : ℕ)
    → ((f : ℕ) → rfind c xs ≡ some f → f < k)
    → rfind c (drop k xs) ≡ none
unfolding rfind
rfind-drop c xs zero h = elim (Option-cases (rfind c xs)) [
  | inl e ↦ e
  | inr (f, e) ↦ absurd (omega (arith, h f e))
]
rfind-drop c [] (suc k) h = refl
rfind-drop c (x ∷ xs) (suc k) h =
    rfind-drop c xs k (λ f e. omega (arith, h (suc f) (rfind-some c x xs f e)))

-- The place is inside, and has the character.
rfind-here :
    (c : ℕ) (xs : List ℕ) (i : ℕ)
    → rfind c xs ≡ some i
    → (i < length xs) × (drop i xs ≡ c ∷ drop (suc i) xs)
unfolding rfind
rfind-here c [] i h = absurd (none_ne_some h)
rfind-here c (x ∷ xs) i h = elim (Option-cases (rfind c xs)) [
  | inr (j, e) ↦
      let (lt, eq) = rfind-here c xs j e in
      let ij : suc j ≡ i = some_inj (sym (rfind-some c x xs j e) ∙ h) in
      (omega (arith, lt, ij), subst (λ k. drop k (x ∷ xs) ≡ c ∷ drop (suc k) (x ∷ xs)) ij eq)
  | inl e ↦ elim (ℕ_discrete x c) [
    | yes xc ↦
        let ij : 0 ≡ i = some_inj (sym (rfind-none c x xs e ∙ rw (eq→==true x c xc)) ∙ h) in
        (
          omega (arith, ij),
          subst (λ k. drop k (x ∷ xs) ≡ c ∷ drop (suc k) (x ∷ xs)) ij (ap (λ a. a ∷ xs) xc),
        )
    | no ne ↦ absurd (none_ne_some (sym (rfind-none c x xs e ∙ rw (ne→==false x c ne)) ∙ h))
  ]
]

-- What makes `ext` the extension of a name that is `base` and `ext`: there is none, or it is a dot
-- with at least one character behind it, no further dot and no separator; the base name is then not
-- empty and does not end in a separator.
abbrev pub Extension : List ℕ → List ℕ → List ℕ → Type 0
Extension fname base ext =
    (ext ≡ [])
    ⊎ ((rest : List ℕ) × (ext ≡ b'.' ∷ rest)
        × (0 < length rest)
        × (rfind b'.' rest ≡ none)
        × (0 < length base)
        × (rfind b'/' (drop (length base - 1) fname) ≡ none))

abbrev Splits : List ℕ → List ℕ × List ℕ → Type 0
Splits fname s = (s.0 ++ s.1 ≡ fname) × Extension fname s.0 s.1

whole-Splits : (fname : List ℕ) → Splits fname (fname, [])
whole-Splits fname = (append-nil fname, inl refl)

parts-Splits :
    (fname : List ℕ) (i : ℕ)
    → rfind b'.' fname ≡ some i
    → ((i == 0) || (i == length fname - 1)) ≡ false
    → ((f : ℕ) → rfind b'/' fname ≡ some f → f < i - 1)
    → Splits fname (take i fname, drop i fname)
parts-Splits fname i e inside sep =
    let (lt, eq) = rfind-here b'.' fname i e in
    let len : length (take i fname) ≡ i = omega (arith, length-take i fname) in
    (
      take-drop i fname,
      inr (
        drop (suc i) fname,
        eq,
        ground (arith, length-drop (suc i) fname),
        rfind-drop b'.' fname (suc i) (λ f ef. omega (arith, some_inj (sym e ∙ ef))),
        ground (arith),
        rfind-drop b'/' fname (length (take i fname) - 1) (λ f ef. omega (arith, sep f ef)),
      ),
    )

-- `split_by_extension` cuts a name in two: the two parts are the name, and the second one is its
-- extension.
pub split_by_extension_lem :
    (fname : List ℕ)
    → ((split_by_extension fname).0 ++ (split_by_extension fname).1 ≡ fname)
      × Extension fname (split_by_extension fname).0 (split_by_extension fname).1
unfolding split_by_extension split_at
split_by_extension_lem fname = elim (Option-cases (rfind b'.' fname)) [
  | inl e ↦ whole (rw (split_by_extension, e))
  | inr (i, e) ↦ elim (Bool-cases ((i == 0) || (i == length fname - 1))) [
    | inl ends ↦ whole (rw (split_by_extension, e, split_at, ends))
    | inr inside ↦ elim (Option-cases (rfind b'/' fname)) [
      | inl none_there ↦
          parts i (rw (split_by_extension, e, split_at, inside, none_there))
            (parts-Splits fname i e inside (λ f ef. absurd (none_ne_some (sym none_there ∙ ef))))
      | inr (f, ef) ↦ elim (dec_lt f (i - 1)) [
        | yes lt ↦
            parts i
              (rw (split_by_extension, e, split_at, inside, ef, leb-false (i - 1) f (omega arith)))
              (parts-Splits fname i e inside (λ g eg. omega (arith, some_inj (sym ef ∙ eg))))
        | no ge ↦
            whole (rw (split_by_extension, e, split_at, inside, ef, le→leb (i - 1) f (omega arith)))
      ]
    ]
  ]
]
  where
    whole : split_by_extension fname ≡ (fname, []) → Splits fname (split_by_extension fname)
    whole e = subst (Splits fname) (sym e) (whole-Splits fname)

    parts :
        (i : ℕ)
        → split_by_extension fname ≡ (take i fname, drop i fname)
        → Splits fname (take i fname, drop i fname)
        → Splits fname (split_by_extension fname)
    parts i e h = subst (Splits fname) (sym e) h
