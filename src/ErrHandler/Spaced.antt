-- ===== src/ErrHandler/Spaced.antt =====
-- How often errors are reported.
use structlog.Common.{
  add_size, ◌∙◌, sym, ap, ℕ, false, List, [], ◌∷◌, ◌≡◌, ◌<◌, ◌+◌, length, size_mod, arith, refl,
  inl, inr, Bool-cases,
}
use structlog.Common.Int.{ℤ, pos, ◌-ℤ◌, ltb_ℤ}
use structlog.ErrHandler.{Report, ErrorState, default_err_handler}

-- An error of a logger.
pub record Error : Type 0 where
  pub logger_name : List ℕ
  pub text : List ℕ
  pub now : ℤ

unfoldable pub handle_all : List Error → ErrorState → ErrorState
handle_all [] s = s
handle_all (e ∷ es) s = handle_all es (default_err_handler e.logger_name e.text e.now s)

-- Each report comes a second or more after the one before it, and the first of them so long
-- after `first`.
abbrev pub Spaced : ℤ → List Report → Type 0
Spaced first [] = Unit
Spaced first (r ∷ []) = ltb_ℤ (r.time -ℤ first) (pos 1000000000) ≡ false
Spaced first (r ∷ q ∷ rs) =
    (ltb_ℤ (r.time -ℤ q.time) (pos 1000000000) ≡ false) × Spaced first (q ∷ rs)

-- The time of the last report.
abbrev pub last_time : ℤ → List Report → ℤ
last_time first [] = first
last_time first (r ∷ rs) = r.time

Spaced-more :
    (first : ℤ) (r : Report) (rs : List Report)
    → ltb_ℤ (r.time -ℤ last_time first rs) (pos 1000000000) ≡ false
    → Spaced first rs
    → Spaced first (r ∷ rs)
Spaced-more first r [] e h = e
Spaced-more first r (q ∷ rs) e h = (e, h)

-- The reports so far are as far apart as they should be.
pub record Sparse (first : ℤ) (s : ErrorState) : Type 0 where
  pub spaced : Spaced first s.reports
  pub last : s.last_report_time ≡ last_time first s.reports

default_err_handler-Sparse :
    (first : ℤ) (e : Error) (s : ErrorState)
    → Sparse first s
    → Sparse first (default_err_handler e.logger_name e.text e.now s)
unfolding default_err_handler
default_err_handler-Sparse first e s h =
    elim (Bool-cases (ltb_ℤ (e.now -ℤ s.last_report_time) (pos 1000000000))) [
      | inl t ↦ rw t (record { spaced = h.spaced; last = h.last })
      | inr t ↦ rw t (record {
        spaced =
            Spaced-more first
              (record {
                number = add_size s.err_counter 1;
                time = e.now;
                logger_name = e.logger_name;
                text = e.text;
              })
              s.reports (ap (λ l. ltb_ℤ (e.now -ℤ l) (pos 1000000000)) (sym h.last) ∙ t) h.spaced;
        last = refl;
      })
    ]

counted :
    (e : Error) (s : ErrorState)
    → s.err_counter + 1 < size_mod
    → (default_err_handler e.logger_name e.text e.now s).err_counter ≡ s.err_counter + 1
unfolding default_err_handler
counted e s l = elim (Bool-cases (ltb_ℤ (e.now -ℤ s.last_report_time) (pos 1000000000))) [
  | inl t ↦ rw t (omega arith)
  | inr t ↦ rw t (omega arith)
]

-- Whatever errors the loggers have and whatever the clock does, each is counted, and two
-- reports that follow each other are a second or more apart, by the times that the clock gave
-- them. The counter does not overflow.
pub handle_all-Sparse :
    (first : ℤ) (es : List Error) (s : ErrorState)
    → Sparse first s
    → s.err_counter + length es < size_mod
    → Sparse first (handle_all es s) × ((handle_all es s).err_counter ≡ s.err_counter + length es)
unfolding handle_all
handle_all-Sparse first [] s h l = (h, omega arith)
handle_all-Sparse first (e ∷ es) s h l =
    let s' = default_err_handler e.logger_name e.text e.now s in
    let one_more = counted e s (omega arith) in
    let (h', n) =
      handle_all-Sparse first es s' (default_err_handler-Sparse first e s h) (omega arith) in
    (h', omega (arith, n, one_more))
