-- ===== src/DatedFile.antt =====
-- What include/spdlog/sinks/daily_file_sink.h and hourly_file_sink.h share: a file for each
-- period of time, the last `max_files` of which are kept. A time point is a number of
-- nanoseconds since the epoch; each reading of the clock is an argument, and so is the
-- formatted message.
pub mod Daily
pub mod Hourly
pub mod Queue
pub mod Existing
pub mod Runs
pub mod NextTime
mod Utc
mod Tests
use structlog.Common.{
  ℕ, zero, suc, Bool, true, false, not, Option, some, none, List, [], ◌∷◌, ◌&&◌, ltb, value_or,
  if◌then◌else◌,
}
use structlog.Common.Int.{ℤ, pos, ◌-ℤ◌, ltb_ℤ}
use structlog.CircularQ.{CircularQ, create, disabled, push_back, pop_front, front, full}
use structlog.FileHelper.{Os, FileHelper, open_file, write, remove_if_exists}

-- The fields that both classes have.
pub record DatedFileSink : Type 0 where
  pub base_filename : List ℕ
  pub rotation_tp : ℤ
  pub file_helper : FileHelper
  pub truncate : Bool
  pub max_files : ℕ
  pub filenames_q : CircularQ (List ℕ)

-- The second loop of `init_filenames_q_`, over the names from the last to the first.
unfoldable pub push_reversed : CircularQ (List ℕ) → List (List ℕ) → CircularQ (List ℕ)
push_reversed q [] = q
push_reversed q (filename ∷ filenames) = push_back (push_reversed q filenames) filename

-- `calc_filename` is that of the class, of the local time of a time point.
module _ {F : Type 0} (os : Os F) where
  module _ (calc_filename : List ℕ → ℤ → List ℕ) (period : ℕ) where
    -- The first loop of `init_filenames_q_`, with room for `n` more names.
    unfoldable pub existing_files : ℕ → List ℕ → ℤ → F → List (List ℕ)
    existing_files zero base_filename now f = []
    existing_files (suc n) base_filename now f =
        let filename = calc_filename base_filename now in
        let earlier = existing_files n base_filename (now -ℤ pos period) f in
        if not (os.path_exists f filename) then [] else filename ∷ earlier

    unfoldable pub init_filenames_q : List ℕ → ℕ → ℤ → F → CircularQ (List ℕ)
    unfolding existing_files push_reversed
    init_filenames_q base_filename max_files now f =
        push_reversed (create [] max_files) (existing_files max_files base_filename now f)

  -- False is a throw. A full queue has a front, so the defaults are not used.
  unfoldable pub delete_old : DatedFileSink → F → Bool × DatedFileSink × F
  delete_old s f =
      let current_file = s.file_helper.filename in
      let old_filename = value_or [] (front s.filenames_q) in
      let q = value_or s.filenames_q (pop_front s.filenames_q) in
      let (ok, f') = remove_if_exists os old_filename f in
      if full s.filenames_q
      then (ok, record s { filenames_q = push_back q current_file }, f')
      else (true, record s { filenames_q = push_back s.filenames_q current_file }, f)

  module _ (calc_filename : List ℕ → ℤ → List ℕ) (next_rotation_tp : ℤ → ℤ) where
    -- The first step of `sink_it_`, at a message's time `time` where the clock reads `now`.
    unfoldable pub rotate : DatedFileSink → ℤ → ℤ → F → Bool × DatedFileSink × F
    rotate s time now f =
        let (opened, h, f') =
          open_file os s.file_helper (calc_filename s.base_filename time) s.truncate f in
        (
          opened,
          record s {
            file_helper = h;
            rotation_tp = if opened then next_rotation_tp now else s.rotation_tp;
          },
          f',
        )

    -- The rest of it.
    unfoldable pub write_message : Bool → DatedFileSink → List ℕ → F → Bool × DatedFileSink × F
    unfolding delete_old
    write_message should_rotate s formatted f =
        let (written, f') = write os s.file_helper formatted f in
        if not written
        then (false, s, f')
        else if should_rotate && ltb 0 s.max_files
        then delete_old s f'
        else (true, s, f')

    unfoldable pub sink_it : DatedFileSink → ℤ → List ℕ → ℤ → F → Bool × DatedFileSink × F
    unfolding rotate write_message
    sink_it s time formatted now f =
        let should_rotate = not (ltb_ℤ time s.rotation_tp) in
        let (opened, s1, f1) = rotate s time now f in
        if not should_rotate
        then write_message false s formatted f
        else if opened
        then write_message true s1 formatted f1
        else (false, s1, f1)

    -- The constructors; `none` is a throw. The clock is read three times.
    unfoldable pub create_sink : ℕ → List ℕ → Bool → ℕ → ℤ → ℤ → ℤ → F → Option (DatedFileSink × F)
    unfolding init_filenames_q
    create_sink period base_filename truncate max_files now1 now2 now3 f =
        let (opened, h, f') =
          open_file os (record { fd = false; filename = [] }) (calc_filename base_filename now1)
            truncate f in
        if opened
        then some (
          record {
            base_filename = base_filename;
            rotation_tp = next_rotation_tp now2;
            file_helper = h;
            truncate = truncate;
            max_files = max_files;
            filenames_q =
                if ltb 0 max_files
                then init_filenames_q calc_filename period base_filename max_files now3 f'
                else disabled;
          },
          f',
        )
        else none
