-- ===== src/Rotating/Shift.antt =====
-- How the loop of a rotation moves the files' contents.
use structlog.Common.{
  zero, inr, inl, Bool-cases, ap₂, sym, ℕ_discrete, ap, ◌∙◌, ◌≢◌, arith, true, false, ◌<◌, refl,
  suc, ◌≡◌,
}
use structlog.FmtHelper.{Fmt, Decimal}
use structlog.FileName.{calc_filename}
use structlog.FileName.Calc.{calc_filename_ne}
use structlog.FileHelper.{Os, Node}
use structlog.FileHelper.Laws.{Posix, Healthy, is_there}
use structlog.Rotating.{ℕ, List, rotate_loop, rename_twice, rename_file}

abbrev pub or_else : Node → Node → Node
or_else Node.nothing b = b
or_else Node.directory b = Node.directory
or_else (Node.file bytes) b = Node.file bytes

-- `new` are the contents at each index after the files below index `n` have moved up by one.
pub record Shift (n : ℕ) (old new : ℕ → Node) : Type 0 where
  pub above : (j : ℕ) → n < j → new j ≡ old j
  pub at_end : (k : ℕ) → n ≡ suc k → new n ≡ or_else (old k) (old n)
  pub middle : (j : ℕ) → suc j < n → new (suc j) ≡ old j
  pub first : 0 < n → new 0 ≡ Node.nothing
  pub same : n ≡ 0 → new 0 ≡ old 0

or_else-nothing : (a : Node) → or_else a Node.nothing ≡ a
or_else-nothing Node.nothing = refl
or_else-nothing Node.directory = refl
or_else-nothing (Node.file bytes) = refl

-- One file moves first, from `n` to `n + 1`, then those below it.
Shift-more :
    (n : ℕ) (old mid new : ℕ → Node)
    → mid (suc n) ≡ or_else (old n) (old (suc n))
    → mid n ≡ Node.nothing
    → ((j : ℕ) → j ≢ n → j ≢ suc n → mid j ≡ old j)
    → Shift n mid new
    → Shift (suc n) old new
Shift-more n old mid new up gone others h = record {
  above = λ j l. h.above j (omega arith) ∙ others j (omega arith) (omega arith);
  at_end = λ k e.
      h.above (suc n) (omega arith)
      ∙ up
      ∙ ap (λ a. or_else (old a) (old (suc n))) {y = k} (omega arith);
  middle = λ j l. elim (ℕ_discrete n (suc j)) [
    | yes e ↦
        ap new (sym e)
        ∙ h.at_end j e
        ∙ ap₂ or_else (others j (omega arith) (omega arith)) gone
        ∙ or_else-nothing (old j)
    | no ne ↦ h.middle j (omega arith) ∙ others j (omega arith) (omega arith)
  ];
  first = λ l. elim (ℕ_discrete n 0) [
    | yes e ↦ h.same e ∙ ap mid (sym e) ∙ gone
    | no ne ↦ h.first (omega arith)
  ];
  same = λ e. absurd (omega arith);
}

there-or_else : (a b : Node) → is_there a ≡ true → or_else a b ≡ a
there-or_else Node.nothing b e = absurd (ground arith)
there-or_else Node.directory b e = refl
there-or_else (Node.file bytes) b e = refl

not_there : (a : Node) → is_there a ≡ false → a ≡ Node.nothing
not_there Node.nothing e = refl
not_there Node.directory e = absurd (ground arith)
not_there (Node.file bytes) e = absurd (ground arith)

module _ {F : Type 0} (os : Os F) (posix : Posix os) (healthy : Healthy os) (fmt : Fmt)
    (printer : Decimal fmt) (base : List ℕ) where
  abbrev pub node_at : F → ℕ → Node
  node_at f i = os.read f (calc_filename fmt base i)

  rename_twice-moves :
      (i : ℕ) (f : F)
      → os.path_exists f (calc_filename fmt base i) ≡ true
      → (f1 : F) × (rename_twice os fmt
            (calc_filename fmt base i)
            (calc_filename fmt base (suc i))
            f
          ≡ (true, f1))
        × (node_at f1 (suc i) ≡ node_at f i)
        × (node_at f1 i ≡ Node.nothing)
        × ((j : ℕ) → j ≢ i → j ≢ suc i → node_at f1 j ≡ node_at f j)
  unfolding rename_twice rename_file
  rename_twice-moves i f e = (
    (os.rename gone_target (name i) (name (suc i))).1,
    rw renamed,
    (posix.renames gone_target (name i) (name (suc i)) (differ i (suc i) (omega arith)) renamed).0
        ∙ posix.removes f (name (suc i)) (name i) (differ i (suc i) (omega arith)),
    (posix.renames gone_target (name i) (name (suc i)) (differ i (suc i) (omega arith)) renamed).1,
    λ j ne1 ne2.
        posix.renames_other gone_target (name i) (name (suc i)) (name j) (differ j i ne1)
          (differ j (suc i) ne2)
        ∙ posix.removes f (name (suc i)) (name j) (differ j (suc i) ne2),
  )
    where
      name : ℕ → List ℕ
      name = calc_filename fmt base

      differ : (a b : ℕ) → a ≢ b → name a ≢ name b
      differ a b = calc_filename_ne fmt printer base a b

      gone_target : F
      gone_target = (os.remove f (name (suc i))).1

      renamed : (os.rename gone_target (name i) (name (suc i))).0 ≡ true
      renamed = healthy.renames_ok gone_target (name i) (name (suc i)) (
          posix.exists gone_target (name i)
          ∙ ap is_there (posix.removes f (name (suc i)) (name i) (differ i (suc i) (omega arith)))
          ∙ sym (posix.exists f (name i))
          ∙ e)

  pub rotate_loop-Shift :
      (n : ℕ) (f : F)
      → (f' : F) × (rotate_loop os fmt base n f ≡ (true, f')) × Shift n (node_at f) (node_at f')
  unfolding rotate_loop
  rotate_loop-Shift zero f = (
    f,
    refl,
    record {
      above = λ j l. refl;
      at_end = λ k e. absurd (omega arith);
      middle = λ j l. absurd (omega arith);
      first = λ l. absurd (omega arith);
      same = λ e. refl;
    },
  )
  rotate_loop-Shift (suc i) f = elim (Bool-cases (os.path_exists f (calc_filename fmt base i))) [
    | inl e ↦
        let (f1, er, up, gone, others) = rename_twice-moves i f e in
        let (f', el, h) = rotate_loop-Shift i f1 in
        (
          f',
          rw (e, er) el,
          Shift-more i (node_at f) (node_at f1) (node_at f')
              (up
                ∙ sym
                    (there-or_else (node_at f i) (node_at f (suc i)) (sym (posix.exists f _) ∙ e)))
              gone others h,
        )
    | inr e ↦
        let empty_there = not_there (node_at f i) (sym (posix.exists f _) ∙ e) in
        let (f', el, h) = rotate_loop-Shift i f in
        (
          f',
          rw e el,
          Shift-more i (node_at f) (node_at f) (node_at f')
              (ap (λ a. or_else a (node_at f (suc i))) (sym empty_there)) empty_there
              (λ j a b. refl) h,
        )
  ]
