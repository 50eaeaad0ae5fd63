-- ===== src/DatedFile/Existing.antt =====
-- The names that a sink finds when it is made.
use structlog.Common.{
  keep_last_all, ap, ◌∙◌, inl, refl, inr, length-append, length, ◌^◌, Bool-cases, ℕ, zero, suc,
  true, false, List, [], ◌∷◌, ◌++◌, ◌≡◌, ◌<◌, ◌≤◌, keep_last, arith, vector_max, add_size,
}
use structlog.Common.Int.{ℤ, pos, ◌-ℤ◌}
use structlog.CircularQ.{create}
use structlog.CircularQ.Refine.{contents}
use structlog.FileHelper.{Os}
use structlog.DatedFile.{init_filenames_q, existing_files, push_reversed}
use structlog.DatedFile.Queue.{create-Holds, Holds, push_back-Holds}

module _ {F : Type 0} (os : Os F) (calc : List ℕ → ℤ → List ℕ) (period : ℕ) (base : List ℕ) where
  -- The time `k` periods earlier.
  abbrev pub back : ℕ → ℤ → ℤ
  back zero now = now
  back (suc k) now = back k (now -ℤ pos period)

  -- The names of the last `k` periods, the earliest first.
  abbrev pub names_back : ℕ → ℤ → List (List ℕ)
  names_back zero now = []
  names_back (suc k) now = names_back k (now -ℤ pos period) ++ calc base now ∷ []

  -- The queue holds the names of the `k` files of the last periods, which exist, and stops
  -- before one that does not.
  pub record Found (n k : ℕ) (now : ℤ) (f : F) (names : List (List ℕ)) : Type 0 where
    pub few : k ≤ n
    pub listed : names ≡ names_back k now
    pub there : (j : ℕ) → j < k → os.path_exists f (calc base (back j now)) ≡ true
    pub ends : k < n → os.path_exists f (calc base (back k now)) ≡ false

  length-names_back : (k : ℕ) (now : ℤ) → length (names_back k now) ≡ k
  length-names_back zero now = refl
  length-names_back (suc k) now = omega (
    arith,
    length-append (names_back k (now -ℤ pos period)) (calc base now ∷ []),
    length-names_back k (now -ℤ pos period),
  )

  module _ (k : ℕ) (now : ℤ) {f : F} (first : os.path_exists f (calc base now) ≡ true)
      (earlier : (j : ℕ)
        → j < k
        → os.path_exists f (calc base (back j (now -ℤ pos period))) ≡ true) where
    there_more : (j : ℕ) → j < suc k → os.path_exists f (calc base (back j now)) ≡ true
    there_more zero lt = first
    there_more (suc j) lt = earlier j (omega arith)

  module _ (n : ℕ) (fits : add_size n 1 < vector_max) (small : n < vector_max) (f : F) where
    push_reversed-Found :
        (m : ℕ) (now : ℤ)
        → m ≤ n
        → Holds n (push_reversed (create [] n) (existing_files os calc period m base now f))
          × ((k : ℕ) × Found m k now f (
                contents []
                  (push_reversed (create [] n) (existing_files os calc period m base now f))))
    unfolding push_reversed existing_files
    push_reversed-Found zero now l = (
      (create-Holds n fits small).0,
      (
        0,
        record {
          few = omega arith;
          listed = (create-Holds n fits small).1;
          there = λ j lt. absurd (omega arith);
          ends = λ lt. absurd (omega arith);
        },
      ),
    )
    push_reversed-Found (suc m) now l = elim (Bool-cases (os.path_exists f (calc base now))) [
      | inr t ↦ rw t (
        (create-Holds n fits small).0,
        (
          0,
          record {
            few = omega arith;
            listed = (create-Holds n fits small).1;
            there = λ j lt. absurd (omega arith);
            ends = λ lt. t;
          },
        ),
      )
      | inl t ↦
          let (held, of_k) = push_reversed-Found m (now -ℤ pos period) (omega arith) in
          let (k, found) = of_k in
          let (held', pushed) = push_back-Holds n _ (calc base now) held in
          rw t (
            held',
            (
              suc k,
              record {
                few = omega (arith, found.few);
                listed =
                    pushed
                    ∙ ap (λ c. keep_last n (c ++ calc base now ∷ [])) found.listed
                    ∙ keep_last_all n (names_back (suc k) now)
                        (omega (arith, length-names_back (suc k) now, found.few));
                there = there_more k now {f = f} t found.there;
                ends = λ lt. found.ends (omega arith);
              },
            ),
          )
    ]

  -- A new sink's queue holds the names of the files of the last periods before the clock's
  -- reading, the earliest first: as many as there are up to the first that does not exist, and
  -- at most `max_files`, which is below 2^16.
  pub init_filenames_q-Found :
      (max_files : ℕ) (now : ℤ) (f : F)
      → max_files < 2 ^ 16
      → Holds max_files (init_filenames_q os calc period base max_files now f)
        × ((k : ℕ) × Found max_files k now f
              (contents [] (init_filenames_q os calc period base max_files now f)))
  unfolding init_filenames_q
  init_filenames_q-Found max_files now f small =
      push_reversed-Found max_files (omega arith) (omega arith) f max_files now (omega arith)
