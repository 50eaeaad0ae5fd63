-- ===== src/FileHelper/Laws.antt =====
-- What the operating system documents of its calls, and what `open` then does.
use structlog.Common.{◌++◌, ◌&&◌, inr, not, ◌∙◌, inl, Bool-cases, true, [], ◌∷◌, ◌≢◌, false, ℕ, ◌≡◌}
use structlog.Common.{◌==◌, ◌≢◌}
use structlog.FileHelper.{
  Bool, List, Os, Node, FileHelper, create_dir, create_loop, make_dir, open_try, open_loop,
  open_file, reopen, is_nil,
}
use structlog.FileName.{dir_name}

abbrev pub is_there : Node → Bool
is_there Node.nothing = false
is_there Node.directory = true
is_there (Node.file bytes) = true

module _ {F : Type 0} (os : Os F) where
  pub record Posix : Type 0 where
    pub exists : (f : F) (p : List ℕ) → os.path_exists f p ≡ is_there (os.read f p)
    pub removes : (f : F) (p q : List ℕ) → q ≢ p → os.read (os.remove f p).1 q ≡ os.read f q
    pub removed :
        (f : F) (p : List ℕ) → (os.remove f p).0 ≡ true → os.read (os.remove f p).1 p ≡ Node.nothing
    pub renames :
        (f : F) (src target : List ℕ)
        → src ≢ target
        → (os.rename f src target).0 ≡ true
        → (os.read (os.rename f src target).1 target ≡ os.read f src)
          × (os.read (os.rename f src target).1 src ≡ Node.nothing)
    pub renames_other :
        (f : F) (src target p : List ℕ)
        → p ≢ src
        → p ≢ target
        → os.read (os.rename f src target).1 p ≡ os.read f p
    pub mkdirs :
        (f : F) (p q bytes : List ℕ)
        → os.read f q ≡ Node.file bytes
        → os.read (os.mkdir f p).1 q ≡ Node.file bytes
    pub truncates :
        (f : F) (p : List ℕ)
        → (os.fopen_wb f p).0 ≡ true
        → os.read (os.fopen_wb f p).1 p ≡ Node.file []
    pub truncates_other :
        (f : F) (p q : List ℕ) → q ≢ p → os.read (os.fopen_wb f p).1 q ≡ os.read f q
    pub opens :
        (f : F) (p q bytes : List ℕ)
        → os.read f q ≡ Node.file bytes
        → os.read (os.fopen_ab f p).1 q ≡ Node.file bytes

  -- What a complete write does.
  pub record Writes : Type 0 where
    pub writes :
        (f : F) (p bytes buf : List ℕ)
        → (os.fwrite f p buf).0 ≡ true
        → os.read f p ≡ Node.file bytes
        → os.read (os.fwrite f p buf).1 p ≡ Node.file (bytes ++ buf)
    pub writes_ok : (f : F) (p buf : List ℕ) → (os.fwrite f p buf).0 ≡ true

  -- A file system in which every file can be opened.
  pub record Opens : Type 0 where
    pub truncates_ok : (f : F) (p : List ℕ) → (os.fopen_wb f p).0 ≡ true
    pub opens_ok : (f : F) (p : List ℕ) → (os.fopen_ab f p).0 ≡ true

  -- A file system in which the calls of a rotation succeed.
  pub record Healthy : Type 0 where
    pub renames_ok :
        (f : F) (src target : List ℕ)
        → os.path_exists f src ≡ true
        → (os.rename f src target).0 ≡ true
    pub openings : Opens

  module _ (posix : Posix) (q bytes : List ℕ) where
    make_dir-keeps :
        (subdir : List ℕ) (f : F)
        → os.read f q ≡ Node.file bytes
        → os.read (make_dir os subdir f).1 q ≡ Node.file bytes
    unfolding make_dir
    make_dir-keeps subdir f e =
        elim (Bool-cases (not (is_nil subdir) && not (os.path_exists f subdir))) [
          | inl t ↦ rw t (posix.mkdirs f subdir q bytes e)
          | inr t ↦ rw t e
        ]

    create_loop-keeps :
        (done rest : List ℕ) (f : F)
        → os.read f q ≡ Node.file bytes
        → os.read (create_loop os done rest f).1 q ≡ Node.file bytes
    unfolding create_loop
    create_loop-keeps done [] f e = make_dir-keeps done f e
    create_loop-keeps done (c ∷ rest) f e = elim (Bool-cases (c == b'/')) [
      | inr t ↦ rw t (create_loop-keeps (done ++ c ∷ []) rest f e)
      | inl t ↦ elim (Bool-cases (make_dir os done f).0) [
        | inr u ↦ rw (t, u) (make_dir-keeps done f e)
        | inl u ↦ elim (Bool-cases (is_nil rest)) [
          | inl v ↦ rw (t, u, v) (make_dir-keeps done f e)
          | inr v ↦
              rw (t, u, v) (create_loop-keeps (done ++ c ∷ []) rest _ (make_dir-keeps done f e))
        ]
      ]
    ]

    pub create_dir-keeps :
        (path : List ℕ) (f : F)
        → os.read f q ≡ Node.file bytes
        → os.read (create_dir os path f).1 q ≡ Node.file bytes
    unfolding create_dir
    create_dir-keeps path f e = elim (Bool-cases (os.path_exists f path)) [
      | inl t ↦ rw t e
      | inr t ↦ elim (Bool-cases (is_nil path)) [
        | inl u ↦ rw (t, u) e
        | inr u ↦ rw (t, u) (create_loop-keeps [] path f e)
      ]
    ]

  -- The first try of a healthy system opens the file: it is empty, and the other files are kept.
  abbrev Truncated : List ℕ → F → F → Type 0
  Truncated fname f f' =
      (os.read f' fname ≡ Node.file [])
      × ((q bytes : List ℕ)
          → q ≢ fname
          → os.read f q ≡ Node.file bytes
          → os.read f' q ≡ Node.file bytes)

  open_try-truncates :
      Posix
      → Opens
      → (fname : List ℕ) (f : F)
      → ((open_try os fname true f).0 ≡ true) × Truncated fname f (open_try os fname true f).1
  unfolding open_try
  open_try-truncates posix openings fname f =
      rw (openings.truncates_ok (create_dir os (dir_name fname) f).1 fname) (
        openings.opens_ok _ fname,
        (
          posix.opens _ fname fname [] (posix.truncates _ fname (openings.truncates_ok _ fname)),
          λ q bytes ne e. posix.opens _ fname q bytes (
              posix.truncates_other _ fname q ne
              ∙ create_dir-keeps posix q bytes (dir_name fname) f e),
        ),
      )

  -- So does the first try of any opening.
  open_try-opens :
      Opens → (fname : List ℕ) (truncate : Bool) (f : F) → (open_try os fname truncate f).0 ≡ true
  unfolding open_try
  open_try-opens openings fname true f =
      rw (openings.truncates_ok (create_dir os (dir_name fname) f).1 fname)
        (openings.opens_ok _ fname)
  open_try-opens openings fname false f = openings.opens_ok _ fname

  pub open_file-opens :
      Opens
      → (h : FileHelper) (fname : List ℕ) (truncate : Bool) (f : F)
      → open_file os h fname truncate f
        ≡ (true, record { fd = true; filename = fname }, (open_try os fname truncate f).1)
  unfolding open_file open_loop
  open_file-opens openings h fname truncate f = rw (open_try-opens openings fname truncate f)

  pub reopen-truncates :
      Posix
      → Opens
      → (h : FileHelper) (f : F) → is_nil h.filename ≡ false
      → (f' : F) × (reopen os h true f ≡ (true, record { fd = true; filename = h.filename }, f'))
        × (os.read f' h.filename ≡ Node.file [])
        × ((q bytes : List ℕ)
            → q ≢ h.filename
            → os.read f q ≡ Node.file bytes
            → os.read f' q ≡ Node.file bytes)
  unfolding reopen open_file open_loop
  reopen-truncates posix openings h f e =
      let (ok, (empty_file, kept)) = open_try-truncates posix openings h.filename f in
      ((open_try os h.filename true f).1, rw (e, ok), empty_file, kept)
