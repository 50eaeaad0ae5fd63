-- ===== src/Rotating.antt =====
-- include/spdlog/sinks/rotating_file_sink.h and rotating_file_sink-inl.h. The formatted message
-- is an argument; a Boolean result of false is a throw.
pub mod Shift
pub mod Rotate
mod Tests
use structlog.Common.{
  some, ◌&&◌, none, ◌>>=◌, ltb, [], zero, not, length, false, suc, Option, add_size, if◌then◌else◌,
  true, ℕ, List, Bool,
}
use structlog.FmtHelper.{Fmt}
use structlog.FileName.{calc_filename}
use structlog.FileHelper.{Os, FileHelper, open_file, reopen, close, write, size}

pub record RotatingFileSink : Type 0 where
  pub base_filename : List ℕ
  pub max_size : ℕ
  pub max_files : ℕ
  pub current_size : ℕ
  pub file_helper : FileHelper

module _ {F : Type 0} (os : Os F) (fmt : Fmt) where
  pub rename_file : List ℕ → List ℕ → F → Bool × F
  rename_file src_filename target_filename f =
      os.rename (os.remove f target_filename).1 src_filename target_filename

  -- A rename, tried again if it fails.
  rename_twice : List ℕ → List ℕ → F → Bool × F
  unfolding rename_file
  rename_twice src target f =
      let (ok, f1) = rename_file src target f in
      let again = rename_file src target f1 in if ok then (true, f1) else again

  -- The loop of `rotate_`, from index `i` down; false where it gives up.
  pub rotate_loop : List ℕ → ℕ → F → Bool × F
  unfolding rename_twice
  rotate_loop base zero f = (true, f)
  rotate_loop base (suc i) f =
      let src = calc_filename fmt base i in
      let (ok, f1) = rename_twice src (calc_filename fmt base (suc i)) f in
      let skipped = rotate_loop base i f in
      let renamed = rotate_loop base i f1 in
      if not (os.path_exists f src) then skipped else if ok then renamed else (false, f1)

  pub rotate : RotatingFileSink → F → Bool × RotatingFileSink × F
  unfolding rotate_loop
  rotate s f =
      let (ok, f1) = rotate_loop s.base_filename s.max_files f in
      let (opened, h, f2) = reopen os (close os s.file_helper) true f1 in
      if ok then (opened, record s { file_helper = h }, f2) else (
        false,
        record s { file_helper = h; current_size = if opened then 0 else s.current_size },
        f2,
      )

  pub sink_it : RotatingFileSink → List ℕ → F → Bool × RotatingFileSink × F
  unfolding rotate
  sink_it s formatted f =
      let current_size = add_size s.current_size (length formatted) in
      let grown = record s { current_size = current_size } in
      let (rotated, s1, f1) = rotate grown f in
      let s2 = record s1 { current_size = length formatted } in
      let (written1, g1) = write os s2.file_helper formatted f1 in
      let (written0, g0) = write os grown.file_helper formatted f in
      if ltb s.max_size current_size
      then (if rotated then (written1, s2, g1) else (false, s1, f1))
      else (written0, grown, g0)

  -- The constructor; `none` where it throws.
  pub create_sink : List ℕ → ℕ → ℕ → Bool → F → Option (RotatingFileSink × F)
  unfolding rotate
  create_sink base_filename max_size max_files rotate_on_open f =
      let (opened, h, f1) =
        open_file os (record { fd = false; filename = [] }) (calc_filename fmt base_filename 0)
          false f in
      size os h f1 >>= λ current_size.
      let s : RotatingFileSink = record {
        base_filename = base_filename;
        max_size = max_size;
        max_files = max_files;
        current_size = current_size;
        file_helper = h;
      } in
      let (rotated, s1, f2) = rotate s f1 in
      if not opened
      then none
      else if rotate_on_open && ltb 0 current_size
      then (if rotated then some (s1, f2) else none)
      else some (s, f1)
