-- ===== src/JsonFormatter/Order.antt =====
-- The order in which the unordered set gives its populators.
use structlog.Common.{
  ℕ, Option, some, none, List, [], ◌∷◌, ◌++◌, ◌≡◌, ◌≢◌, refl, ap, sym, ◌∙◌, inl, inr, Bool-cases,
  text_eq, text_eq→eq,
}
use structlog.Common.Int.{ℤ}
use mathlib.Core.Path.{fun_ext}
use mathlib.Core.Quot
use mathlib.Core.Quot.{Quot}
use structlog.LogMsg.{LogMsg}
use structlog.JsonFormatter.{
  Json, Object, Populator, JsonMsg, assign, assign_items, empty_object, populate, populate_all,
  json_entry, json_format,
}
use structlog.JsonFormatter.Fields.{key_of, value_of, put, populate-put}

assign-assign :
    {V : Type 0} (k1 k2 : List ℕ) (v1 v2 : V) (entry : Object V)
    → k1 ≢ k2
    → assign k1 v1 (assign k2 v2 entry) ≡ assign k2 v2 (assign k1 v1 entry)
assign-assign k1 k2 v1 v2 entry ne = fun_ext (λ q. elim (Bool-cases (text_eq q k1)) [
  | inr e ↦ rw e refl
  | inl e ↦ elim (Bool-cases (text_eq q k2)) [
    | inr f ↦ rw (e, f) refl
    | inl f ↦ absurd (ne (sym (text_eq→eq q k1 e) ∙ text_eq→eq q k2 f))
  ]
])

module _ {V : Type 0} (json : Json V) {Fm : Type 0} (format : Fm → LogMsg → List ℕ × Fm)
    (pid : ℤ) where
  put-put :
      (k1 k2 : List ℕ) (v1 v2 : Option V) (entry : Object V)
      → k1 ≢ k2
      → put json format pid k1 v1 (put json format pid k2 v2 entry)
        ≡ put json format pid k2 v2 (put json format pid k1 v1 entry)
  put-put k1 k2 none v2 entry ne = refl
  put-put k1 k2 (some v1) none entry ne = refl
  put-put k1 k2 (some v1) (some v2) entry ne = assign-assign k1 k2 v1 v2 entry ne

  -- Two populators of different keys in either order.
  populate_all-swapped :
      (p q : Populator Fm) (rest : List (Populator Fm)) (msg : LogMsg) (entry : Object V)
      → key_of p ≢ key_of q
      → (populate_all json format pid (p ∷ q ∷ rest) msg entry).1
        ≡ (populate_all json format pid (q ∷ p ∷ rest) msg entry).1
  unfolding populate_all
  populate_all-swapped p q rest msg entry ne =
      ap (λ e. (populate_all json format pid rest msg e).1)
        (two p q ∙ put-put (key_of q) (key_of p) _ _ entry (λ e. ne (sym e)) ∙ sym (two q p))
    where
      two :
          (a b : Populator Fm)
          → (populate json format pid b msg (populate json format pid a msg entry).1).1
            ≡ put json format pid
                (key_of b)
                (value_of json format pid b msg)
                (put json format pid (key_of a) (value_of json format pid a msg) entry)
      two a b =
          populate-put json format pid b msg _
          ∙ ap (put json format pid (key_of b) (value_of json format pid b msg))
              (populate-put json format pid a msg entry)

  populate_all-front :
      (front ps qs : List (Populator Fm)) (msg : LogMsg)
      → ((entry : Object V)
          → (populate_all json format pid ps msg entry).1
            ≡ (populate_all json format pid qs msg entry).1)
      → (entry : Object V)
      → (populate_all json format pid (front ++ ps) msg entry).1
        ≡ (populate_all json format pid (front ++ qs) msg entry).1
  unfolding populate_all
  populate_all-front [] ps qs msg h entry = h entry
  populate_all-front (p ∷ front) ps qs msg h entry =
      populate_all-front front ps qs msg h (populate json format pid p msg entry).1

  json_entry-populate_all :
      (ps qs : List (Populator Fm)) (m : JsonMsg V)
      → (populate_all json format pid ps m.msg empty_object).1
        ≡ (populate_all json format pid qs m.msg empty_object).1
      → json_entry json format pid ps m ≡ json_entry json format pid qs m
  unfolding json_entry
  json_entry-populate_all ps qs m e =
      ap (λ o. elim m.params [ none ↦ o | some items ↦ assign_items items o ]) e

  -- The text of a message does not depend on which of two neighbours, whose keys differ, the
  -- set gives first.
  pub json_format-swapped :
      (k_eol : List ℕ) (front rest : List (Populator Fm)) (p q : Populator Fm) (m : JsonMsg V)
      (dest : List ℕ)
      → key_of p ≢ key_of q
      → (json_format json format pid
          (record { k_eol = k_eol; populators = front ++ p ∷ q ∷ rest })
          m
          dest).1
        ≡ (json_format json format pid
            (record { k_eol = k_eol; populators = front ++ q ∷ p ∷ rest })
            m
            dest).1
  unfolding json_format
  json_format-swapped k_eol front rest p q m dest ne =
      ap (λ e. dest ++ (json.dump e ++ k_eol))
        (json_entry-populate_all (front ++ p ∷ q ∷ rest) (front ++ q ∷ p ∷ rest) m (
          populate_all-front front (p ∷ q ∷ rest) (q ∷ p ∷ rest) m.msg
            (λ entry. populate_all-swapped p q rest m.msg entry ne) empty_object))

  -- Lists of populators in which two neighbours of different keys have changed places.
  abbrev pub Swapped : List (Populator Fm) → List (Populator Fm) → Type 0
  Swapped ps qs =
      (front rest : List (Populator Fm)) × (p q : Populator Fm) × (key_of p ≢ key_of q)
      × (ps ≡ front ++ p ∷ q ∷ rest)
      × (qs ≡ front ++ q ∷ p ∷ rest)

  -- A set of populators, whose order is forgotten but for those of the same key.
  abbrev pub PopulatorSet : Type 0
  PopulatorSet = Quot Swapped

  texts : IsSet (List ℕ)
  texts = hlevel

  pub mk_set : List (Populator Fm) → PopulatorSet
  mk_set ps = Quot.mk ps

  pub mk_set-Swapped : (ps qs : List (Populator Fm)) → Swapped ps qs → mk_set ps ≡ mk_set qs
  unfolding mk_set
  mk_set-Swapped ps qs h = Quot.sound h

  format_set : List ℕ → JsonMsg V → List ℕ → PopulatorSet → List ℕ
  format_set k_eol m dest =
      Quot.lift texts
        (λ ps. (json_format json format pid (record { k_eol = k_eol; populators = ps }) m dest).1)
        (λ ps qs h.
          let (front, rest, p, q, ne, ep, eq) = h in
          ap
            (λ l. (json_format json format pid (record { k_eol = k_eol; populators = l }) m dest).1)
            ep
          ∙ json_format-swapped k_eol front rest p q m dest ne
          ∙ sym (
              ap
                (λ l.
                  (json_format json format pid (record { k_eol = k_eol; populators = l }) m dest).1)
                eq))

  -- The text of a message is the same in every order in which a set gives its populators, where
  -- those of the same key keep theirs.
  pub json_format-PopulatorSet :
      (k_eol : List ℕ) (ps qs : List (Populator Fm)) (m : JsonMsg V) (dest : List ℕ)
      → mk_set ps ≡ mk_set qs
      → (json_format json format pid (record { k_eol = k_eol; populators = ps }) m dest).1
        ≡ (json_format json format pid (record { k_eol = k_eol; populators = qs }) m dest).1
  unfolding format_set mk_set
  json_format-PopulatorSet k_eol ps qs m dest e = ap (format_set k_eol m dest) e
