-- ===== src/Registry/Apply.antt =====
-- A change of all registered loggers, and what `set_levels` does to each of them.
use structlog.Common.{
  subst, Option, some_inj, text_eq→eq, text_eq_refl, inr, inl, sym, Bool-cases, text_eq, arith, ap,
  refl, none_ne_some, ℕ_discrete, ◌∙◌, eq→==true, false, none, some, ne→==false, ◌≢◌, ◌≡◌,
}
use structlog.Level.{Level}
use structlog.Registry.{
  [], ◌∷◌, List, true, ℕ, LoggerObject, Map, Store, Registry, find, update, apply_all, set_levels,
  new_level,
}

pub true_ne_false : true ≢ false
true_ne_false e = ground arith

pub find-first :
    {A : Type 0} (k j : List ℕ) (a : A) (m : Map A)
    → text_eq k j ≡ true
    → find k ((j, a) ∷ m) ≡ some a
find-first k j a m e = rw e

pub find-later :
    {A : Type 0} (k j : List ℕ) (a : A) (m : Map A)
    → text_eq k j ≡ false
    → find k ((j, a) ∷ m) ≡ find k m
find-later k j a m e = rw e

pub find-skip :
    {A : Type 0} (k j : List ℕ) (a : A) (m : Map A)
    → find k ((j, a) ∷ m) ≡ none
    → (k ≢ j) × (find k m ≡ none)
find-skip k j a m e = elim (Bool-cases (text_eq k j)) [
  | inl t ↦ absurd (none_ne_some (sym e ∙ find-first k j a m t))
  | inr t ↦ (
    λ kj. absurd (true_ne_false (sym (text_eq_refl k) ∙ ap (text_eq k) kj ∙ t)),
    sym (find-later k j a m t) ∙ e,
  )
]

module _ {F H : Type 0} where
  -- A map of loggers: each stands under its own name, and no two names are the same.
  pub data Tidy (st : Store F H) : Map ℕ → Type 0 where
    nil : Tidy st []
    cons :
        {k : List ℕ} {r : ℕ} {m : Map ℕ}
        → (st r).name ≡ k
        → find k m ≡ none
        → Tidy st m
        → Tidy st ((k, r) ∷ m)

  pub update_self : (st : Store F H) (r : ℕ) (o : LoggerObject F H) → update st r o r ≡ o
  update_self st r o = rw (eq→==true r r refl)

  update-ne : (st : Store F H) (r i : ℕ) (o : LoggerObject F H) → i ≢ r → update st r o i ≡ st i
  update-ne st r i o ne = rw (ne→==false i r ne)

  module _ (f : List ℕ → LoggerObject F H → LoggerObject F H)
      (named : (k : List ℕ) (o : LoggerObject F H) → (f k o).name ≡ o.name) where
    pub update-name :
        (st : Store F H) (k : List ℕ) (r i : ℕ) → (update st r (f k (st r)) i).name ≡ (st i).name
    update-name st k r i = elim (ℕ_discrete i r) [
      | yes e ↦
          ap (λ o. o.name) (ap (update st r (f k (st r))) e ∙ update_self st r (f k (st r)))
          ∙ named k (st r)
          ∙ ap (λ a. (st a).name) (sym e)
      | no ne ↦ ap (λ o. o.name) (update-ne st r i (f k (st r)) ne)
    ]

    pub Tidy-update :
        (st : Store F H) (k : List ℕ) (r : ℕ) {m : Map ℕ}
        → Tidy st m
        → Tidy (update st r (f k (st r))) m
    Tidy-update st k r Tidy.nil = Tidy.nil
    Tidy-update st k r (Tidy.cons {r = i} e d t) =
        Tidy.cons (update-name st k r i ∙ e) d (Tidy-update st k r t)

    -- A registered logger has the name of its key.
    Tidy-name :
        (st : Store F H) (k : List ℕ) (i : ℕ) {m : Map ℕ}
        → Tidy st m
        → find k m ≡ some i
        → (st i).name ≡ k
    Tidy-name st k i Tidy.nil e = absurd (none_ne_some e)
    Tidy-name st k i (Tidy.cons {k = j} {r = r} {m = m} ek d t) e =
        elim (Bool-cases (text_eq k j)) [
          | inl same ↦
              ap (λ a. (st a).name) (some_inj (sym e ∙ find-first k j r m same))
              ∙ ek
              ∙ sym (text_eq→eq k j same)
          | inr other ↦ Tidy-name st k i t (sym (find-later k j r m other) ∙ e)
        ]

    apply_all-absent :
        (m : Map ℕ) (st : Store F H) (i : ℕ)
        → Tidy st m
        → find (st i).name m ≡ none
        → apply_all f m st i ≡ st i
    unfolding apply_all
    apply_all-absent [] st i t e = refl
    apply_all-absent ((k, r) ∷ m) st i (Tidy.cons ek d t) e =
        let (ne, rest) = find-skip (st i).name k r m e in
        let ir : i ≢ r = λ z. ne (ap (λ a. (st a).name) z ∙ ek) in
        apply_all-absent m (update st r (f k (st r))) i (Tidy-update st k r t)
          (ap (λ n. find n m) (update-name st k r i) ∙ rest)
        ∙ update-ne st r i (f k (st r)) ir

    -- Each registered logger is changed once, by its key.
    pub apply_all_lem :
        (m : Map ℕ) (st : Store F H) (k : List ℕ) (i : ℕ)
        → Tidy st m
        → find k m ≡ some i
        → apply_all f m st i ≡ f k (st i)
    unfolding apply_all
    apply_all_lem [] st k i t e = absurd (none_ne_some e)
    apply_all_lem ((j, r) ∷ m) st k i (Tidy.cons ek d t) e = elim (Bool-cases (text_eq k j)) [
      | inl same ↦
          let kj = text_eq→eq k j same in
          subst (λ a. apply_all f m (update st r (f j (st r))) a ≡ f k (st a))
            (some_inj (sym (find-first k j r m same) ∙ e))
            (apply_all-absent m (update st r (f j (st r))) r (Tidy-update st j r t)
                (ap (λ n. find n m) (update-name st j r r ∙ ek) ∙ d)
              ∙ update_self st r (f j (st r))
              ∙ ap (λ n. f n (st r)) (sym kj))
      | inr other ↦
          let later = sym (find-later k j r m other) ∙ e in
          let ir : i ≢ r = λ z. true_ne_false (
            sym (text_eq_refl k)
            ∙ ap (text_eq k) (sym (Tidy-name st k i t later) ∙ ap (λ a. (st a).name) z ∙ ek)
            ∙ other) in
          apply_all_lem m (update st r (f j (st r))) k i (Tidy-update st j r t) later
          ∙ ap (f k) (update-ne st r i (f j (st r)) ir)
    ]

    pub apply_all-Tidy : (m' m : Map ℕ) (st : Store F H) → Tidy st m' → Tidy (apply_all f m st) m'
    unfolding apply_all
    apply_all-Tidy m' [] st t = t
    apply_all-Tidy m' ((k, r) ∷ m) st t =
        apply_all-Tidy m' m (update st r (f k (st r))) (Tidy-update st k r t)

  -- `set_levels` gives each registered logger the level for its name, or else the global level
  -- where one is asked for, and leaves it its own level otherwise; nothing else of it changes.
  pub set_levels_lem :
      (levels : Map Level) (global_level : Option Level) (reg : Registry F H) (st : Store F H)
      (k : List ℕ) (i : ℕ)
      → Tidy st reg.loggers
      → find k reg.loggers ≡ some i
      → ((set_levels levels global_level reg st).1 i
          ≡ record (st i) { level = new_level levels global_level k (st i).level })
        × Tidy
            (set_levels levels global_level reg st).1
            (set_levels levels global_level reg st).0.loggers
  unfolding set_levels
  set_levels_lem levels global_level reg st k i t e = (
    apply_all_lem (λ k o. record o { level = new_level levels global_level k o.level })
        (λ k o. refl) reg.loggers st k i t e,
    apply_all-Tidy (λ k o. record o { level = new_level levels global_level k o.level })
        (λ k o. refl) reg.loggers reg.loggers st t,
  )
