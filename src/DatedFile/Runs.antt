-- ===== src/DatedFile/Runs.antt =====
-- The names that a sink keeps over a sequence of messages.
use structlog.Common.{
  append_assoc, refl, keep_last-keep_last, lt→ltb, keep_last_all, ap, sym, ◌∙◌, inr, inl,
  Bool-cases, Bool, ℕ, true, false, List, [], ◌∷◌, ◌++◌, ◌≡◌, ◌<◌, keep_last, arith, if◌then◌else◌,
  append-nil,
}
use structlog.Common.Int.{ℤ, ltb_ℤ}
use structlog.CircularQ.Refine.{length-contents, contents}
use structlog.FileHelper.{Os, FileHelper, open_try, write}
use structlog.FileHelper.Laws.{open_file-opens, Opens, Writes}
use structlog.CircularQ.{CircularQ}
use structlog.CircularQ.Valid.{size-lt}
use structlog.DatedFile.{DatedFileSink, sink_it, rotate, write_message}
use structlog.DatedFile.Queue.{Holds, delete_old_lem}

-- A message's time and text, and the clock where the sink gets it.
pub record Event : Type 0 where
  pub time : ℤ
  pub formatted : List ℕ
  pub now : ℤ

module _ (calc : List ℕ → ℤ → List ℕ) (next : ℤ → ℤ) where
  module _ {F : Type 0} (os : Os F) where
    -- A logger goes on after a throw.
    unfoldable pub run : DatedFileSink → List Event → F → DatedFileSink × F
    run s [] f = (s, f)
    run s (e ∷ es) f =
        let (ok, s', f') = sink_it os calc next s e.time e.formatted e.now f in run s' es f'

  -- The names of the files that messages start, where the next rotation is at `tp`.
  unfoldable pub started : List ℕ → ℤ → List Event → List (List ℕ)
  started base tp [] = []
  started base tp (e ∷ es) =
      let later = started base (if ltb_ℤ e.time tp then tp else next e.now) es in
      if ltb_ℤ e.time tp then later else calc base e.time ∷ later

module _ {F : Type 0} (os : Os F) (openings : Opens os) (writing : Writes os)
    (calc : List ℕ → ℤ → List ℕ) (next : ℤ → ℤ) where
  write-ok : (h : FileHelper) (formatted : List ℕ) (f : F) → (write os h formatted f).0 ≡ true
  unfolding write
  write-ok h formatted f = writing.writes_ok f h.filename formatted

  sink_it-same :
      (s : DatedFileSink) (e : Event) (f : F)
      → ltb_ℤ e.time s.rotation_tp ≡ true
      → (f' : F) × (sink_it os calc next s e.time e.formatted e.now f ≡ (true, s, f'))
  unfolding sink_it write_message
  sink_it-same s e f t =
      ((write os s.file_helper e.formatted f).1, rw (t, write-ok s.file_helper e.formatted f) refl)

  sink_it-rotates :
      (s : DatedFileSink) (e : Event) (f : F)
      → ltb_ℤ e.time s.rotation_tp ≡ false
      → 0 < s.max_files
      → Holds s.max_files s.filenames_q
      → (ok : Bool) × (q : CircularQ (List ℕ)) × (f' : F) × (sink_it os calc next s e.time
            e.formatted e.now f
          ≡ (
            ok,
            record s {
              file_helper = record { fd = true; filename = calc s.base_filename e.time };
              rotation_tp = next e.now;
              filenames_q = q;
            },
            f',
          ))
        × Holds s.max_files q
        × (contents [] q
            ≡ keep_last s.max_files (contents [] s.filenames_q ++ calc s.base_filename e.time ∷ []))
  unfolding sink_it rotate write_message
  sink_it-rotates s e f t pos h =
      let name = calc s.base_filename e.time in
      let s1 = record s {
        file_helper = record { fd = true; filename = name };
        rotation_tp = next e.now;
      } in
      let f1 = (open_try os name s.truncate f).1 in
      let (ok, q, f', ed, held, ec, _) =
        delete_old_lem os s1 (write os s1.file_helper e.formatted f1).1 pos h in
      (
        ok,
        q,
        f',
        rw
            (
              t,
              open_file-opens os openings s.file_helper name s.truncate f,
              write-ok s1.file_helper e.formatted f1,
              lt→ltb 0 s.max_files pos,
              ed,
            )
            refl,
        held,
        ec,
      )

  -- Where files can be opened and written, and whatever the clock and the removals of files do,
  -- the sink's queue holds the names of its files that started last, as many as `max_files` at
  -- most: those it began with and those that messages started at or after the time of a
  -- rotation. The queue is one of a sink that keeps a positive number of files.
  pub run-keep_last :
      (es : List Event) (s : DatedFileSink) (f : F)
      → 0 < s.max_files
      → Holds s.max_files s.filenames_q
      → contents [] (run calc next os s es f).0.filenames_q
        ≡ keep_last s.max_files
            (contents [] s.filenames_q ++ started calc next s.base_filename s.rotation_tp es)
  unfolding run started
  run-keep_last [] s f pos h = sym (
      ap (keep_last s.max_files) (append-nil (contents [] s.filenames_q))
      ∙ keep_last_all s.max_files (contents [] s.filenames_q)
          (omega (arith, h.room, length-contents [] s.filenames_q, size-lt s.filenames_q h.valid)))
  run-keep_last (e ∷ es) s f pos h = elim (Bool-cases (ltb_ℤ e.time s.rotation_tp)) [
    | inl t ↦ let (f', er) = sink_it-same s e f t in rw t (after er ∙ run-keep_last es s f' pos h)
    | inr t ↦
        let (ok, q, f', er, held, ec) = sink_it-rotates s e f t pos h in
        rw t (
          after er
          ∙ run-keep_last es _ f' pos held
          ∙ ap (λ c. keep_last s.max_files (c ++ started calc next s.base_filename (next e.now) es))
              ec
          ∙ keep_last-keep_last s.max_files
              (contents [] s.filenames_q ++ calc s.base_filename e.time ∷ []) _
          ∙ ap (keep_last s.max_files)
              (append_assoc (contents [] s.filenames_q) (calc s.base_filename e.time ∷ []) _))
  ]
    where
      after :
          {r : Bool × DatedFileSink × F}
          → sink_it os calc next s e.time e.formatted e.now f ≡ r
          → contents [] (run calc next os s (e ∷ es) f).0.filenames_q
            ≡ contents [] (run calc next os r.1 es r.2).0.filenames_q
      after er = ap (λ r. contents [] (run calc next os r.1 es r.2).0.filenames_q) er
