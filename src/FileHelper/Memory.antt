-- ===== src/FileHelper/Memory.antt =====
-- A file system in memory, to evaluate the model with and to show that what is asked of the
-- operating system can be met.
use structlog.Common.{
  inr, text_eq→eq, inl, text_eq_refl, [], ◌≡◌, Bool-cases, text_eq, ap, arith, ℕ, ◌∙◌, not, ◌≢◌,
  refl, sym,
}
use structlog.FileHelper.{false, true, List, if◌then◌else◌, ◌++◌, Os, Node}
use structlog.FileHelper.Laws.{Posix, Writes, Opens, Healthy, is_there}

abbrev pub Files : Type 0
Files = List ℕ → Node

abbrev update : Files → List ℕ → Node → Files
update f p n = λ q. if text_eq q p then n else f q

abbrev content : Node → List ℕ
content Node.nothing = []
content Node.directory = []
content (Node.file bytes) = bytes

unfoldable pub memory : Os Files
memory = record {
  read = λ f p. f p;
  path_exists = λ f p. is_there (f p);
  remove = λ f p. (is_there (f p), update f p Node.nothing);
  rename = λ f s t.
      (is_there (f s), if is_there (f s) then update (update f t (f s)) s Node.nothing else f);
  mkdir = λ f p. (not (is_there (f p)), if is_there (f p) then f else update f p Node.directory);
  fopen_wb = λ f p. (true, update f p (Node.file []));
  fopen_ab = λ f p. (true, if is_there (f p) then f else update f p (Node.file []));
  fwrite = λ f p buf. (true, update f p (Node.file (content (f p) ++ buf)));
}

-- As `memory`, on a medium that refuses every rename.
unfoldable pub read_only_names : Os Files
unfolding memory
read_only_names = record memory { rename = λ f s t. (false, f) }

update-here : (f : Files) (p : List ℕ) (n : Node) → update f p n p ≡ n
update-here f p n = rw (text_eq_refl p)

update-other : (f : Files) (p q : List ℕ) (n : Node) → q ≢ p → update f p n q ≡ f q
update-other f p q n ne = elim (Bool-cases (text_eq q p)) [
  | inl e ↦ absurd (ne (text_eq→eq q p e))
  | inr e ↦ rw e
]

true_ne_false : true ≢ false
true_ne_false e = ground arith

-- A file stays where only what is not there is replaced.
update-missing :
    (f : Files) (p q b : List ℕ) (n : Node)
    → f q ≡ Node.file b
    → (if is_there (f p) then f else update f p n) q ≡ Node.file b
update-missing f p q b n e = elim (Bool-cases (is_there (f p))) [
  | inl t ↦ rw t e
  | inr t ↦ rw t (
      update-other f p q n
        (λ qp. absurd (true_ne_false (sym (ap is_there (sym (ap f qp) ∙ e)) ∙ t)))
      ∙ e)
]

pub memory-Posix : Posix memory
unfolding memory
memory-Posix = record {
  exists = λ f p. refl;
  removes = λ f p q ne. update-other f p q Node.nothing ne;
  removed = λ f p ok. update-here f p Node.nothing;
  renames = λ f s t ne ok. rw ok (
    update-other (update f t (f s)) s t Node.nothing (λ e. ne (sym e)) ∙ update-here f t (f s),
    update-here (update f t (f s)) s Node.nothing,
  );
  renames_other = λ f s t p ns nt. elim (Bool-cases (is_there (f s))) [
    | inl e ↦
        rw e (update-other (update f t (f s)) s p Node.nothing ns ∙ update-other f t p (f s) nt)
    | inr e ↦ rw e
  ];
  mkdirs = λ f p q b e. update-missing f p q b Node.directory e;
  truncates = λ f p ok. update-here f p (Node.file []);
  truncates_other = λ f p q ne. update-other f p q (Node.file []) ne;
  opens = λ f p q b e. update-missing f p q b (Node.file []) e;
}

memory-Opens : Opens memory
unfolding memory
memory-Opens = record { truncates_ok = λ f p. refl; opens_ok = λ f p. refl }

pub memory-Healthy : Healthy memory
unfolding memory
memory-Healthy = record { renames_ok = λ f s t e. e; openings = memory-Opens }

pub memory-Writes : Writes memory
unfolding memory
memory-Writes = record {
  writes = λ f p b buf ok e.
      update-here f p (Node.file (content (f p) ++ buf)) ∙ ap (λ n. Node.file (content n ++ buf)) e;
  writes_ok = λ f p buf. refl;
}

pub read_only_names-Posix : Posix read_only_names
unfolding read_only_names memory
read_only_names-Posix = record {
  exists = memory-Posix.exists;
  removes = memory-Posix.removes;
  removed = memory-Posix.removed;
  renames = λ f s t ne ok. absurd (true_ne_false (sym ok));
  renames_other = λ f s t p ns nt. refl;
  mkdirs = memory-Posix.mkdirs;
  truncates = memory-Posix.truncates;
  truncates_other = memory-Posix.truncates_other;
  opens = memory-Posix.opens;
}

pub read_only_names-Opens : Opens read_only_names
unfolding read_only_names memory
read_only_names-Opens = record { truncates_ok = λ f p. refl; opens_ok = λ f p. refl }
