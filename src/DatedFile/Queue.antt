-- ===== src/DatedFile/Queue.antt =====
-- The queue of the names of the files that a sink keeps.
use structlog.Common.{
  nil_of_length, vector_max, add_size, some, dec_lt, sym, length-append, refl, ◌-◌, Bool-cases,
  drop, Bool, ap, ◌∙◌, ℕ, suc, true, false, List, [], ◌∷◌, ◌++◌, ◌≡◌, ◌<◌, ◌⊎◌, inl, inr, length,
  keep_last, arith,
}
use structlog.CircularQ.{size, create, empty, CircularQ, push_back, pop_front, full}
use structlog.CircularQ.Valid.{
  create-IsValid, size-lt, IsValid, push_back-IsValid, pop_front-IsValid,
}
use structlog.CircularQ.Refine.{
  contents, contents-push_back, contents-pop_front, empty-full, length-contents,
}
use structlog.CircularQ.Counts.{create-max_items, push_back-max_items, pop_front-max_items}
use structlog.FileHelper.{Os, remove_if_exists}
use structlog.DatedFile.{DatedFileSink, delete_old}

-- A queue of names with room for `max_files`.
pub record Holds (max_files : ℕ) (q : CircularQ (List ℕ)) : Type 0 where
  pub valid : IsValid q
  pub room : q.max_items ≡ suc max_files

size-create : (n : ℕ) → size (create {A = List ℕ} [] n) ≡ 0
unfolding create size
size-create n = omega arith

pub create-Holds :
    (n : ℕ)
    → add_size n 1 < vector_max
    → n < vector_max
    → Holds n (create [] n) × (contents {A = List ℕ} [] (create [] n) ≡ [])
create-Holds n fits small = (
  record { valid = create-IsValid [] n fits; room = create-max_items [] n ∙ omega arith },
  nil_of_length _ (length-contents [] (create [] n) ∙ size-create n),
)

pub push_back-Holds :
    (n : ℕ) (q : CircularQ (List ℕ)) (name : List ℕ)
    → Holds n q
    → Holds n (push_back q name)
      × (contents [] (push_back q name) ≡ keep_last n (contents [] q ++ name ∷ []))
push_back-Holds n q name h = (
  record { valid = push_back-IsValid q name h.valid; room = push_back-max_items q name ∙ h.room },
  contents-push_back [] q name h.valid
      ∙ ap (λ k. keep_last k (contents [] q ++ name ∷ [])) (omega (arith, h.room)),
)

-- Taking the oldest name of a full queue before a new one comes in leaves what the new one would.
keep_last-full :
    (n : ℕ) (x y : List ℕ) (xs : List (List ℕ))
    → length (x ∷ xs) ≡ n
    → keep_last n (xs ++ y ∷ []) ≡ keep_last n (x ∷ xs ++ y ∷ [])
keep_last-full n x y xs e =
    ap (λ k. drop k (xs ++ y ∷ [])) {x = length (xs ++ y ∷ []) - n} {y = 0}
      (omega (arith, length-append xs (y ∷ [])))
    ∙ ap (λ k. drop k (x ∷ xs ++ y ∷ [])) {x = 1} {y = length (x ∷ xs ++ y ∷ []) - n}
        (omega (arith, length-append xs (y ∷ [])))

module _ (n : ℕ) (q : CircularQ (List ℕ)) (h : Holds n q) where
  length-full : full q ≡ true → length (contents [] q) ≡ n
  length-full t = omega (arith, ((empty-full [] q h.valid).1.0 t).1, h.room)

  length-room : full q ≡ false → length (contents [] q) < n
  length-room t = elim (dec_lt (length (contents [] q)) n) [
    | yes l ↦ l
    | no l ↦ absurd (
        ground (
          arith,
          (empty-full [] q h.valid).1.1 (
            omega (arith, h.room),
            omega (arith, h.room, length-contents [] q, size-lt q h.valid),
          ),
        ))
  ]

  full-some : 0 < n → full q ≡ true → empty q ≡ false
  full-some pos t = elim (Bool-cases (empty q)) [
    | inr e ↦ e
    | inl e ↦ absurd (omega (arith, length-full t, ap length ((empty-full [] q h.valid).0.0 e)))
  ]

  pop_front-Holds : {q' : CircularQ (List ℕ)} → pop_front q ≡ some q' → Holds n q'
  pop_front-Holds e = record {
    valid = pop_front-IsValid q h.valid e;
    room = pop_front-max_items q e ∙ h.room;
  }

module _ {F : Type 0} (os : Os F) where
  -- What the deletion does to the files: nothing where there is room, else the oldest one is
  -- removed.
  abbrev pub Deletes : DatedFileSink → F → Bool → F → Type 0
  Deletes s f ok f' =
      ((length (contents [] s.filenames_q) < s.max_files) × (ok ≡ true) × (f' ≡ f))
      ⊎ ((oldest : List ℕ) × (rest : List (List ℕ)) × (contents [] s.filenames_q ≡ oldest ∷ rest)
          × (length (contents [] s.filenames_q) ≡ s.max_files)
          × ((ok, f') ≡ remove_if_exists os oldest f))

  -- Whether or not a removal succeeds, the current name enters the queue, which keeps the
  -- newest `max_files` names; what is removed is the oldest file, and only where there is no
  -- room for one more. The queue is one of a sink that keeps a positive number of files.
  pub delete_old_lem :
      (s : DatedFileSink) (f : F)
      → 0 < s.max_files
      → Holds s.max_files s.filenames_q
      → (ok : Bool) × (q : CircularQ (List ℕ)) × (f' : F) × (delete_old os s f
          ≡ (ok, record s { filenames_q = q }, f'))
        × Holds s.max_files q
        × (contents [] q
            ≡ keep_last s.max_files (contents [] s.filenames_q ++ s.file_helper.filename ∷ []))
        × Deletes s f ok f'
  unfolding delete_old
  delete_old_lem s f pos h = elim (Bool-cases (full s.filenames_q)) [
    | inr room ↦
        let (held, e) = push_back-Holds s.max_files s.filenames_q s.file_helper.filename h in
        (
          true,
          push_back s.filenames_q s.file_helper.filename,
          f,
          rw room refl,
          held,
          e,
          inl (length-room s.max_files s.filenames_q h room, refl, refl),
        )
    | inl t ↦
        let (oldest, q', ef, ep, ec) =
          contents-pop_front [] s.filenames_q h.valid
            (full-some s.max_files s.filenames_q h pos t) in
        let (held, e) =
          push_back-Holds s.max_files q' s.file_helper.filename
            (pop_front-Holds s.max_files s.filenames_q h ep) in
        (
          (remove_if_exists os oldest f).0,
          push_back q' s.file_helper.filename,
          (remove_if_exists os oldest f).1,
          rw (t, ef, ep) refl,
          held,
          e
              ∙ (keep_last-full s.max_files oldest s.file_helper.filename (contents [] q')
                    (sym (ap length ec) ∙ length-full s.max_files s.filenames_q h t)
                  ∙ ap (λ c. keep_last s.max_files (c ++ s.file_helper.filename ∷ [])) (sym ec)),
          inr (oldest, contents [] q', ec, length-full s.max_files s.filenames_q h t, refl),
        )
  ]
