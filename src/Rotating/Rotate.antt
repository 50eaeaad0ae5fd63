-- ===== src/Rotating/Rotate.antt =====
-- What a rotation and a message do to the files.
use structlog.Common.{
  refl, lt→ltb, length-append, ltb-false, add_size, dec_lt, ◌++◌, max, ◌≤◌, ◌≢◌, [], size_mod, true,
  ◌+◌, sym, ap, ◌∙◌, arith, ℕ_discrete, suc, length, ◌<◌, false, ℕ, ◌≡◌,
}
use structlog.FmtHelper.{Fmt, Decimal}
use structlog.FileName.{calc_filename}
use structlog.FileName.Calc.{calc_filename_ne, calc-zero}
use structlog.FileHelper.{Os, Node, close, write, is_nil}
use structlog.FileHelper.Laws.{Opens, Posix, Healthy, Writes, reopen-truncates}
use structlog.Rotating.{rotate_loop, List, RotatingFileSink, rotate, sink_it}
use structlog.Rotating.Shift.{Shift, node_at, rotate_loop-Shift, or_else}

-- The sink writes to the file of its base name, whose size it knows.
pub record Sized {F : Type 0} (os : Os F) (s : RotatingFileSink) (f : F) : Type 0 where
  pub named : is_nil s.base_filename ≡ false
  pub at_base : s.file_helper.filename ≡ s.base_filename
  pub bytes : List ℕ
  pub there : os.read f s.base_filename ≡ Node.file bytes
  pub sized : s.current_size ≡ length bytes

module _ {F : Type 0} (os : Os F) (posix : Posix os) (healthy : Healthy os) (fmt : Fmt)
    (printer : Decimal fmt) where
  shifted :
      (base : List ℕ) (n i : ℕ) (f f' : F) (b : List ℕ)
      → Shift n
          (node_at os posix healthy fmt printer base f)
          (node_at os posix healthy fmt printer base f')
      → i < n
      → os.read f (calc_filename fmt base i) ≡ Node.file b
      → os.read f' (calc_filename fmt base (suc i)) ≡ Node.file b
  shifted base n i f f' b h l e = elim (ℕ_discrete n (suc i)) [
    | no ne ↦ h.middle i (omega arith) ∙ e
    | yes en ↦
        ap (node_at os posix healthy fmt printer base f') (sym en)
        ∙ h.at_end i en
        ∙ ap (λ a. or_else a (node_at os posix healthy fmt printer base f n)) e
  ]

  -- A rotation succeeds where the calls of the operating system do. Each file below the last index
  -- has moved up by one, a file above it has stayed, and the sink goes on with an empty file.
  pub rotate-moves :
      (s : RotatingFileSink) (f : F)
      → is_nil s.base_filename ≡ false
      → s.file_helper.filename ≡ s.base_filename
      → (f' : F) × (rotate os fmt s f ≡ (
        true,
        record s { file_helper = record { fd = true; filename = s.file_helper.filename } },
        f',
      ))
        × (os.read f' s.base_filename ≡ Node.file [])
        × ((i : ℕ) (b : List ℕ)
            → i < s.max_files
            → os.read f (calc_filename fmt s.base_filename i) ≡ Node.file b
            → os.read f' (calc_filename fmt s.base_filename (suc i)) ≡ Node.file b)
        × ((i : ℕ) (b : List ℕ)
            → s.max_files < i
            → os.read f (calc_filename fmt s.base_filename i) ≡ Node.file b
            → os.read f' (calc_filename fmt s.base_filename i) ≡ Node.file b)
  unfolding rotate close
  rotate-moves s f named e =
      let (f1, el, h) =
        rotate_loop-Shift os posix healthy fmt printer s.base_filename s.max_files f in
      let (f2, er, empty_file, kept) =
        reopen-truncates os posix healthy.openings (close os s.file_helper) f1
          (ap is_nil e ∙ named) in
      (
        f2,
        rw (el, er),
        ap (os.read f2) (sym e) ∙ empty_file,
        λ i b l eb.
            kept _ b (not_base (suc i) (omega arith))
              (shifted s.base_filename s.max_files i f f1 b h l eb),
        λ i b l eb. kept _ b (not_base i (omega arith)) (h.above i l ∙ eb),
      )
    where
      not_base : (i : ℕ) → 0 < i → calc_filename fmt s.base_filename i ≢ s.file_helper.filename
      not_base i l ei =
          calc_filename_ne fmt printer s.base_filename i 0 (omega arith)
            (ei ∙ e ∙ sym (calc-zero fmt printer s.base_filename))

  -- Where the calls of the operating system succeed and the size does not overflow, a message is
  -- written whole, and the sink knows the size of its file afterwards as it did before; the file is
  -- not larger than the limit, unless it is this one message.
  pub sink_it-Sized :
      Writes os
      → (s : RotatingFileSink) (formatted : List ℕ) (f : F) → Sized os s f
      → s.current_size + length formatted < size_mod
      → (s' : RotatingFileSink) × (f' : F) × (sink_it os fmt s formatted f ≡ (true, s', f'))
        × Sized os s' f'
        × (s'.current_size ≤ max s.max_size (length formatted))
  unfolding sink_it write
  sink_it-Sized w s formatted f h small =
      elim (dec_lt s.max_size (add_size s.current_size (length formatted))) [
        | no fits ↦ (
          record s { current_size = add_size s.current_size (length formatted) },
          (os.fwrite f s.file_helper.filename formatted).1,
          rw (ltb-false _ _ fits, w.writes_ok f s.file_helper.filename formatted),
          record {
            named = h.named;
            at_base = h.at_base;
            bytes = h.bytes ++ formatted;
            there = written s.file_helper.filename f h.bytes h.at_base h.there;
            sized = omega (arith, h.sized, length-append h.bytes formatted);
          },
          omega arith,
        )
        | yes large ↦
            let (f1, er, empty_file, moved, stayed) =
              rotate-moves (record s { current_size = add_size s.current_size (length formatted) })
                f h.named h.at_base in
            (
              record s {
                current_size = length formatted;
                file_helper = record { fd = true; filename = s.file_helper.filename };
              },
              (os.fwrite f1 s.file_helper.filename formatted).1,
              rw (lt→ltb _ _ large, er, w.writes_ok f1 s.file_helper.filename formatted),
              record {
                named = h.named;
                at_base = h.at_base;
                bytes = formatted;
                there = written s.file_helper.filename f1 [] h.at_base empty_file;
                sized = refl;
              },
              omega arith,
            )
      ]
    where
      written :
          (name : List ℕ) (g : F) (b : List ℕ)
          → name ≡ s.base_filename
          → os.read g s.base_filename ≡ Node.file b
          → os.read (os.fwrite g name formatted).1 s.base_filename ≡ Node.file (b ++ formatted)
      written name g b e eb =
          ap (os.read (os.fwrite g name formatted).1) (sym e)
          ∙ w.writes g name b formatted (w.writes_ok g name formatted) (ap (os.read g) e ∙ eb)

module _ {F : Type 0} (os : Os F) (posix : Posix os) (openings : Opens os) (fmt : Fmt) where
  -- Where files can be opened but the loop gives up, for a file that twice cannot be renamed, the
  -- rotation throws; the sink is left with an empty file and a size of 0.
  pub rotate-gives_up :
      (s : RotatingFileSink) (f : F)
      → is_nil s.base_filename ≡ false
      → s.file_helper.filename ≡ s.base_filename
      → (rotate_loop os fmt s.base_filename s.max_files f).0 ≡ false
      → (s' : RotatingFileSink) × (f' : F) × (rotate os fmt s f ≡ (false, s', f'))
        × Sized os s' f'
        × (s'.current_size ≡ 0)
  unfolding rotate close
  rotate-gives_up s f named e failed =
      let (f2, er, empty_file, kept) =
        reopen-truncates os posix openings (close os s.file_helper)
          (rotate_loop os fmt s.base_filename s.max_files f).1 (ap is_nil e ∙ named) in
      (
        record s {
          current_size = 0;
          file_helper = record { fd = true; filename = s.file_helper.filename };
        },
        f2,
        rw (failed, er),
        record {
          named = named;
          at_base = e;
          bytes = [];
          there = ap (os.read f2) (sym e) ∙ empty_file;
          sized = refl;
        },
        refl,
      )
