-- ===== src/FileHelper.antt =====
-- include/spdlog/details/file_helper.h and file_helper-inl.h, with `remove_if_exists` and
-- `create_dir` of os-inl.h. The calls of the operating system, with the state of its file
-- system, are a parameter.
pub mod Laws
pub mod Memory
use structlog.Common.{
  length, some, ◌&&◌, none, ◌==◌, [], zero, not, ◌++◌, suc, if◌then◌else◌, true, ◌∷◌, Option, Bool,
  ℕ, List, false,
}
use structlog.FileName.{dir_name}

-- What a path names.
pub data Node : Type 0 where
  nothing : Node
  directory : Node
  file : List ℕ → Node

-- `read` observes the file system; the Booleans say whether a call succeeds.
pub record Os (F : Type 0) : Type 0 where
  pub read : F → List ℕ → Node
  pub path_exists : F → List ℕ → Bool
  pub remove : F → List ℕ → Bool × F
  pub rename : F → List ℕ → List ℕ → Bool × F
  pub mkdir : F → List ℕ → Bool × F
  pub fopen_wb : F → List ℕ → Bool × F
  pub fopen_ab : F → List ℕ → Bool × F
  pub fwrite : F → List ℕ → List ℕ → Bool × F

-- `fd` says whether a file is open; it is the one that `filename` names.
pub record FileHelper : Type 0 where
  pub fd : Bool
  pub filename : List ℕ

abbrev pub is_nil : List ℕ → Bool
is_nil [] = true
is_nil (x ∷ xs) = false

module _ {F : Type 0} (os : Os F) where
  -- `os::remove_if_exists`; true is a result of 0.
  unfoldable pub remove_if_exists : List ℕ → F → Bool × F
  remove_if_exists filename f =
      if os.path_exists f filename then os.remove f filename else (true, f)

  make_dir : List ℕ → F → Bool × F
  make_dir subdir f =
      if not (is_nil subdir) && not (os.path_exists f subdir) then os.mkdir f subdir else (true, f)

  -- The loop of `create_dir`: `rest` is what follows the text `done` of the path.
  create_loop : List ℕ → List ℕ → F → Bool × F
  unfolding make_dir
  create_loop done [] f = make_dir done f
  create_loop done (c ∷ rest) f =
      let (ok, f') = make_dir done f in
      let deeper = create_loop (done ++ c ∷ []) rest f' in
      let along = create_loop (done ++ c ∷ []) rest f in
      if c == b'/'
      then (if not ok then (false, f') else if is_nil rest then (true, f') else deeper)
      else along

  pub create_dir : List ℕ → F → Bool × F
  unfolding create_loop
  create_dir path f =
      if os.path_exists f path
      then (true, f)
      else if is_nil path
      then (false, f)
      else create_loop [] path f

  -- One of the tries of `open`.
  pub open_try : List ℕ → Bool → F → Bool × F
  open_try fname truncate f =
      let (made, f1) = create_dir (dir_name fname) f in
      let (truncated, f2) = os.fopen_wb f1 fname in
      if truncate
      then (if truncated then os.fopen_ab f2 fname else (false, f2))
      else os.fopen_ab f1 fname

  open_loop : ℕ → List ℕ → Bool → F → Bool × F
  unfolding open_try
  open_loop zero fname truncate f = (false, f)
  open_loop (suc tries) fname truncate f =
      let (ok, f') = open_try fname truncate f in
      let again = open_loop tries fname truncate f' in if ok then (true, f') else again

  -- `open_tries_`
  abbrev pub open_tries : ℕ
  open_tries = 5

  -- The operations that may throw: `false` is a throw.
  pub open_file : FileHelper → List ℕ → Bool → F → Bool × FileHelper × F
  unfolding open_loop
  open_file h fname truncate f =
      let (ok, f') = open_loop open_tries fname truncate f in
      (ok, record { fd = ok; filename = fname }, f')

  pub reopen : FileHelper → Bool → F → Bool × FileHelper × F
  reopen h truncate f =
      if is_nil h.filename then (false, h, f) else open_file h h.filename truncate f

  unfoldable pub close : FileHelper → FileHelper
  close h = record h { fd = false }

  unfoldable pub write : FileHelper → List ℕ → F → Bool × F
  write h buf f = os.fwrite f h.filename buf

  -- `none` is a throw; `filesize` of what is not a file is not asked for.
  unfoldable pub size : FileHelper → F → Option ℕ
  size h f =
      if not h.fd
      then none
      else elim (os.read f h.filename) [ Node.file bytes ↦ some (length bytes) | _ ↦ none ]
