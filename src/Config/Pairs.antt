-- ===== src/Config/Pairs.antt =====
-- The pairs of keys and values that are read from a text.
use structlog.Common.{
  if◌then◌else◌, true, not, ◌&&◌, length, length-append, ap₂, ◌<◌, inr, arith, append_assoc, inl,
  refl, Bool-cases, append-nil, ◌||◌, ◌∙◌, some, sym, ◌==◌, ◌++◌, ap, false, ◌≡◌,
}
use structlog.Registry.Apply.{true_ne_false}
use structlog.Registry.{Map, assign}
use structlog.Config.{
  [], ◌∷◌, Bool, List, ℕ, trim, trim_front, trim_back, keep_text, cut, extract_kv, tokens,
  add_pairs, extract_key_vals,
}

abbrev pub has : ℕ → List ℕ → Bool
has c [] = false
has c (x ∷ xs) = (x == c) || has c xs

abbrev pub blank : ℕ → Bool
blank c = (c == b' ') || (c == b'\n') || (c == b'\r') || (c == b'\t')

-- A text of blanks.
abbrev pub all_blank : List ℕ → Bool
all_blank [] = true
all_blank (c ∷ str) = blank c && all_blank str

-- The first character is no blank, if there is one, and the last.
abbrev pub bare_front : List ℕ → Bool
bare_front [] = true
bare_front (c ∷ str) = not (blank c)

abbrev pub bare_back : List ℕ → Bool
bare_back [] = true
bare_back (c ∷ []) = not (blank c)
bare_back (c ∷ x ∷ xs) = bare_back (x ∷ xs)

-- A text with blanks around it.
pub record Padded : Type 0 where
  pub before : List ℕ
  pub text : List ℕ
  pub after : List ℕ

abbrev pub show_padded : Padded → List ℕ
show_padded t = t.before ++ (t.text ++ t.after)

pub record IsPadded (t : Padded) : Type 0 where
  pub blank_before : all_blank t.before ≡ true
  pub blank_after : all_blank t.after ≡ true
  pub starts_bare : bare_front t.text ≡ true
  pub ends_bare : bare_back t.text ≡ true

-- The text "k=v," of each pair, with blanks around keys and values.
abbrev pub show_pairs : List (Padded × Padded) → List ℕ
show_pairs [] = []
show_pairs ((k, v) ∷ kvs) = (show_padded k ++ b'=' ∷ show_padded v) ++ b',' ∷ show_pairs kvs

abbrev pub assign_all : List (Padded × Padded) → Map (List ℕ) → Map (List ℕ)
assign_all [] rv = rv
assign_all ((k, v) ∷ kvs) rv = assign_all kvs (assign k.text v.text rv)

-- Keys and values that hold no comma, and keys that hold no equals sign.
pub data Plain : List (Padded × Padded) → Type 0 where
  nil : Plain []
  cons :
      {k v : Padded} {kvs : List (Padded × Padded)}
      → has b',' (show_padded k ++ b'=' ∷ show_padded v) ≡ false
      → has b'=' (show_padded k) ≡ false
      → IsPadded k
      → IsPadded v
      → Plain kvs
      → Plain ((k, v) ∷ kvs)

and-parts : (a b : Bool) → (a && b) ≡ true → (a ≡ true) × (b ≡ true)
and-parts true b e = (refl, e)
and-parts false b e = absurd (true_ne_false (sym e))

not-true : (a : Bool) → not a ≡ true → a ≡ false
not-true true e = absurd (true_ne_false (sym e))
not-true false e = refl

trim_back-blank : (xs : List ℕ) → all_blank xs ≡ true → trim_back xs ≡ []
trim_back-blank [] e = refl
trim_back-blank (c ∷ xs) e =
    let (b, rest) = and-parts (blank c) (all_blank xs) e in
    ap (keep_text c) (trim_back-blank xs rest) ∙ ap (λ t. if t then [] else c ∷ []) b

trim_back-after : (xs ys : List ℕ) → all_blank ys ≡ true → trim_back (xs ++ ys) ≡ trim_back xs
trim_back-after [] ys e = trim_back-blank ys e
trim_back-after (c ∷ xs) ys e = ap (keep_text c) (trim_back-after xs ys e)

trim_back-bare : (xs : List ℕ) → bare_back xs ≡ true → trim_back xs ≡ xs
trim_back-bare [] e = refl
trim_back-bare (c ∷ []) e = ap (λ t. if t then [] else c ∷ []) (not-true (blank c) e)
trim_back-bare (c ∷ x ∷ xs) e = ap (keep_text c) (trim_back-bare (x ∷ xs) e)

keep_text-append :
    (c x : ℕ) (before xs : List ℕ) → keep_text c (before ++ x ∷ xs) ≡ c ∷ (before ++ x ∷ xs)
keep_text-append c x [] xs = refl
keep_text-append c x (b ∷ before) xs = refl

-- A text that ends in no blank is kept whole.
trim_back-before :
    (before : List ℕ) (x : ℕ) (xs : List ℕ)
    → bare_back (x ∷ xs) ≡ true
    → trim_back (before ++ x ∷ xs) ≡ before ++ x ∷ xs
trim_back-before [] x xs e = trim_back-bare (x ∷ xs) e
trim_back-before (c ∷ before) x xs e =
    ap (keep_text c) (trim_back-before before x xs e) ∙ keep_text-append c x before xs

trim_front-bare : (xs : List ℕ) → bare_front xs ≡ true → trim_front xs ≡ xs
trim_front-bare [] e = refl
trim_front-bare (c ∷ xs) e = ap (λ t. if t then trim_front xs else c ∷ xs) (not-true (blank c) e)

trim_front-before :
    (before xs : List ℕ) → all_blank before ≡ true → trim_front (before ++ xs) ≡ trim_front xs
trim_front-before [] xs e = refl
trim_front-before (c ∷ before) xs e =
    let (b, rest) = and-parts (blank c) (all_blank before) e in
    ap (λ t. if t then trim_front (before ++ xs) else c ∷ (before ++ xs)) b
    ∙ trim_front-before before xs rest

trim-show_padded : (t : Padded) → IsPadded t → trim (show_padded t) ≡ t.text
trim-show_padded t h =
    ap trim_front (
      ap trim_back (sym (append_assoc t.before t.text t.after))
      ∙ trim_back-after (t.before ++ t.text) t.after h.blank_after)
    ∙ go t.text h.starts_bare h.ends_bare
  where
    go :
        (xs : List ℕ)
        → bare_front xs ≡ true
        → bare_back xs ≡ true
        → trim_front (trim_back (t.before ++ xs)) ≡ xs
    go [] f b =
        ap trim_front (ap trim_back (append-nil t.before) ∙ trim_back-blank t.before h.blank_before)
    go (x ∷ xs) f b =
        ap trim_front (trim_back-before t.before x xs b)
        ∙ trim_front-before t.before (x ∷ xs) h.blank_before
        ∙ trim_front-bare (x ∷ xs) f

has-cons :
    (c x : ℕ) (xs : List ℕ) → has c (x ∷ xs) ≡ false → ((x == c) ≡ false) × (has c xs ≡ false)
has-cons c x xs e = elim (Bool-cases (x == c)) [
  | inl t ↦ absurd (ground arith)
  | inr t ↦ (t, ground arith)
]

tokens-comma :
    (xs rest token : List ℕ)
    → has b',' xs ≡ false
    → tokens (xs ++ b',' ∷ rest) token ≡ (token ++ xs) ∷ tokens rest []
tokens-comma [] rest token e = ap (λ l. l ∷ tokens rest []) (sym (append-nil token))
tokens-comma (x ∷ xs) rest token e =
    let (ne, more) = has-cons b',' x xs e in
    rw ne (
      tokens-comma xs rest (token ++ x ∷ []) more
      ∙ ap (λ l. l ∷ tokens rest []) (append_assoc token (x ∷ []) xs))

cut-sep : (k v : List ℕ) → has b'=' k ≡ false → cut b'=' (k ++ b'=' ∷ v) ≡ some (k, v)
cut-sep [] v e = refl
cut-sep (x ∷ k) v e = let (ne, more) = has-cons b'=' x k e in rw (ne, cut-sep k v more)

add_pairs-nonempty :
    (t : List ℕ) (ts : List (List ℕ)) (rv : Map (List ℕ))
    → 0 < length t
    → add_pairs (t ∷ ts) rv ≡ add_pairs ts (assign (extract_kv b'=' t).0 (extract_kv b'=' t).1 rv)
add_pairs-nonempty [] ts rv h = absurd (omega arith)
add_pairs-nonempty (c ∷ t) ts rv h = refl

add_pairs-token :
    (k v : Padded) (ts : List (List ℕ)) (rv : Map (List ℕ))
    → has b'=' (show_padded k) ≡ false
    → IsPadded k
    → IsPadded v
    → add_pairs ((show_padded k ++ b'=' ∷ show_padded v) ∷ ts) rv
      ≡ add_pairs ts (assign k.text v.text rv)
unfolding extract_kv
add_pairs-token k v ts rv e hk hv =
    add_pairs-nonempty (show_padded k ++ b'=' ∷ show_padded v) ts rv
      (omega (arith, length-append (show_padded k) (b'=' ∷ show_padded v)))
    ∙ ap (λ p. add_pairs ts (assign p.0 p.1 rv)) parts
  where
    parts : extract_kv b'=' (show_padded k ++ b'=' ∷ show_padded v) ≡ (k.text, v.text)
    parts =
        rw (extract_kv, cut-sep (show_padded k) (show_padded v) e)
          (ap₂ (λ a b. (a, b)) (trim-show_padded k hk) (trim-show_padded v hv))

-- Pairs that are written one after the other, each with a comma behind it, are read back without
-- the blanks around keys and values; a later value of a key replaces an earlier one. Keys and
-- values hold no comma and keys no equals sign; they may be empty, and may have blanks inside,
-- but not at their ends.
pub extract_key_vals-show_pairs :
    (kvs : List (Padded × Padded))
    → Plain kvs
    → extract_key_vals (show_pairs kvs) ≡ assign_all kvs []
unfolding extract_key_vals
extract_key_vals-show_pairs kvs h = loop kvs [] h
  where
    loop :
        (kvs : List (Padded × Padded)) (rv : Map (List ℕ))
        → Plain kvs
        → add_pairs (tokens (show_pairs kvs) []) rv ≡ assign_all kvs rv
    loop [] rv h = refl
    loop ((k, v) ∷ kvs) rv (Plain.cons c e hk hv h) =
        ap (λ ts. add_pairs ts rv)
          (tokens-comma (show_padded k ++ b'=' ∷ show_padded v) (show_pairs kvs) [] c)
        ∙ add_pairs-token k v (tokens (show_pairs kvs) []) rv e hk hv
        ∙ loop kvs (assign k.text v.text rv) h
