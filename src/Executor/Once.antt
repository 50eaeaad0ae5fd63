-- ===== src/Executor/Once.antt =====
-- The calls that a program's executors make, over any use of them.
use structlog.Common.{
  inr, inl, ◌∙◌, refl, Option-cases, ℕ, zero, suc, Bool, true, false, some, none, List, [], ◌∷◌,
  ◌++◌, ◌≡◌, ◌+◌, arith,
}
use structlog.LogMsg.{LogMsg}
use structlog.Executor.{Context, Executor, create, move, apply, destroy}

-- A call of a logger makes an executor; another one is moved to a new place, gets params, or
-- ends its life. Executors are named by their place in the list of those that live.
pub data Use (Lgr V : Type 0) : Type 0 where
  make : Lgr → LogMsg → Bool → Bool → Use Lgr V
  move_from : ℕ → Use Lgr V
  add_params : ℕ → List (List ℕ × V) → Use Lgr V
  end_life : ℕ → Use Lgr V

-- The executors that live, and the contexts that were logged, the last one first.
abbrev pub State : Type 0 → Type 0 → Type 0
State Lgr V = List (Executor Lgr V) × List (Context Lgr V)

abbrev one : Bool → ℕ
one true = 1
one false = 0

module _ {Lgr V : Type 0} where
  unfoldable pub logged : Executor Lgr V → List (Context Lgr V) → List (Context Lgr V)
  unfolding destroy
  logged e calls = destroy (λ c cs. c ∷ cs) e calls

  -- One use of the executor at a place; there is none at a place past the last.
  unfoldable pub at_place :
      (Executor Lgr V → List (Context Lgr V) → List (Executor Lgr V) × List (Context Lgr V))
      → ℕ
      → List (Executor Lgr V)
      → List (Context Lgr V)
      → List (Executor Lgr V) × List (Context Lgr V)
  at_place f i [] calls = ([], calls)
  at_place f zero (e ∷ es) calls = let (here, calls') = f e calls in (here ++ es, calls')
  at_place f (suc i) (e ∷ es) calls = let (es', calls') = at_place f i es calls in (e ∷ es', calls')

  unfoldable pub use_one : Use Lgr V → State Lgr V → State Lgr V
  unfolding at_place create move apply logged
  use_one (Use.make lgr msg log_enabled traceback_enabled) (es, calls) =
      (create lgr msg log_enabled traceback_enabled ∷ es, calls)
  use_one (Use.move_from i) (es, calls) =
      at_place (λ e cs. let (new, old) = move e in (new ∷ old ∷ [], cs)) i es calls
  use_one (Use.add_params i params) (es, calls) =
      at_place (λ e cs. (apply params e ∷ [], cs)) i es calls
  use_one (Use.end_life i) (es, calls) = at_place (λ e cs. ([], logged e cs)) i es calls

  unfoldable pub use_all : List (Use Lgr V) → State Lgr V → State Lgr V
  unfolding use_one
  use_all [] s = s
  use_all (u ∷ us) s = use_all us (use_one u s)

  -- How many contexts of a kind there are, and how many calls of loggers made one.
  module _ (kind : Lgr → LogMsg → Bool → Bool → Bool) where
    abbrev of_context : Context Lgr V → ℕ
    of_context c = one (kind c.lgr c.msg c.log_enabled c.traceback_enabled)

    abbrev of_executor : Executor Lgr V → ℕ
    of_executor e = elim e.ctx [ none ↦ 0 | some c ↦ of_context c ]

    abbrev pub living : List (Executor Lgr V) → ℕ
    living [] = 0
    living (e ∷ es) = of_executor e + living es

    abbrev pub called : List (Context Lgr V) → ℕ
    called [] = 0
    called (c ∷ cs) = of_context c + called cs

    abbrev pub made : List (Use Lgr V) → ℕ
    made [] = 0
    made (Use.make lgr msg le te ∷ us) = one (kind lgr msg le te) + made us
    made (Use.move_from i ∷ us) = made us
    made (Use.add_params i params ∷ us) = made us
    made (Use.end_life i ∷ us) = made us

    abbrev total : State Lgr V → ℕ
    total (es, calls) = living es + called calls

    living-append : (es fs : List (Executor Lgr V)) → living (es ++ fs) ≡ living es + living fs
    living-append [] fs = omega arith
    living-append (e ∷ es) fs = omega (arith, living-append es fs)

    -- A use that neither makes nor loses contexts of the executor at its place.
    at_place-total :
        (f : Executor Lgr V → List (Context Lgr V) → State Lgr V)
        → ((e : Executor Lgr V) (calls : List (Context Lgr V))
            → total (f e calls) ≡ of_executor e + called calls)
        → (i : ℕ) (es : List (Executor Lgr V)) (calls : List (Context Lgr V))
        → total (at_place f i es calls) ≡ living es + called calls
    unfolding at_place
    at_place-total f h i [] calls = refl
    at_place-total f h zero (e ∷ es) calls =
        omega (arith, h e calls, living-append (f e calls).0 es)
    at_place-total f h (suc i) (e ∷ es) calls = omega (arith, at_place-total f h i es calls)

    moved :
        (e : Executor Lgr V) (calls : List (Context Lgr V))
        → total ((move e).0 ∷ (move e).1 ∷ [], calls) ≡ of_executor e + called calls
    unfolding move
    moved e calls = omega arith

    applied :
        (params : List (List ℕ × V)) (e : Executor Lgr V) (calls : List (Context Lgr V))
        → total (apply params e ∷ [], calls) ≡ of_executor e + called calls
    unfolding apply
    applied params e calls = elim (Option-cases e.ctx) [
      | inl n ↦ rw n refl
      | inr n ↦ rw (n.1) (omega arith)
    ]

    ended :
        (e : Executor Lgr V) (calls : List (Context Lgr V))
        → total ([], logged e calls) ≡ of_executor e + called calls
    unfolding logged
    ended e calls = elim (Option-cases e.ctx) [ inl n ↦ rw n refl | inr n ↦ rw (n.1) (omega arith) ]

    use_one-total :
        (u : Use Lgr V) (s : State Lgr V) → total (use_one u s) ≡ made (u ∷ []) + total s
    unfolding use_one create
    use_one-total (Use.make lgr msg le te) (es, calls) = omega arith
    use_one-total (Use.move_from i) (es, calls) =
        at_place-total (λ e cs. ((move e).0 ∷ (move e).1 ∷ [], cs)) moved i es calls ∙ omega arith
    use_one-total (Use.add_params i params) (es, calls) =
        at_place-total (λ e cs. (apply params e ∷ [], cs)) (applied params) i es calls ∙ omega arith
    use_one-total (Use.end_life i) (es, calls) =
        at_place-total (λ e cs. ([], logged e cs)) ended i es calls ∙ omega arith

    made-cons : (u : Use Lgr V) (us : List (Use Lgr V)) → made (u ∷ us) ≡ made (u ∷ []) + made us
    made-cons (Use.make lgr msg le te) us = omega arith
    made-cons (Use.move_from i) us = omega arith
    made-cons (Use.add_params i params) us = omega arith
    made-cons (Use.end_life i) us = omega arith

    -- However executors are made, moved, given params and ended, each call of a logger is
    -- logged once: of any kind of calls, those that were made are as many as those that were
    -- logged and those that an executor still holds.
    pub use_all-once :
        (us : List (Use Lgr V)) (s : State Lgr V)
        → living (use_all us s).0 + called (use_all us s).1 ≡ made us + (living s.0 + called s.1)
    unfolding use_all
    use_all-once [] s = omega arith
    use_all-once (u ∷ us) s =
        omega (arith, use_all-once us (use_one u s), use_one-total u s, made-cons u us)
