-- ===== src/GlobalPool/Attached.antt =====
-- The pool of the registry is that of every async logger, until it is replaced.
use structlog.GlobalPool.Runs.{
  run, keep_tp-cases, renewed, ensure_tp-cases, init_thread_pool-cases, release_tp, step, Call,
  create_async-cases,
}
use structlog.GlobalPool.Flushing.{flush_all-Served, flush_each, async_inj, sync_ne_async, Served}
use structlog.Registry.Apply.{true_ne_false}
use structlog.Common.{
  ◌==◌, refl, none_ne_some, ap, [], ◌&&◌, ◌∙◌, ◌∷◌, inr, false, true, sym, subst, Bool, inl, none,
  Bool-cases, List, arith, ℕ, Option, some, ◌≡◌,
}
use structlog.BlockingQ.Order.{OverflowPolicy}
use structlog.GlobalPool.{
  flush_all, Flushes, set_tp, shutdown, flush_every, ensure_tp, create_async, create, initialize,
  make_logger, lock, Kind, Globals,
}

-- Every async logger's pool is the registry's.
record AttachedTo (kinds : ℕ → Kind) (tp : Option ℕ) : Type 0 where
  pub attached :
      (r p : ℕ) (policy : OverflowPolicy) → kinds r ≡ Kind.asynchronous p policy → tp ≡ some p

-- No logger is an async logger.
pub record NoneAsync (kinds : ℕ → Kind) : Type 0 where
  pub each : (r : ℕ) → kinds r ≡ Kind.synchronous

module _ {F H : Type 0} where
  abbrev Attached : Globals F H → Type 0
  Attached s = AttachedTo s.kinds s.tp

  Attached-Served : (s : Globals F H) → Attached s → (r : ℕ) → Served s r
  unfolding lock
  Attached-Served s h r p policy e = rw (lock, h.attached r p policy e) (ground arith)

  -- A call that makes no async logger.
  abbrev pub plain : Call F H → Bool
  plain (Call.create_async_op policy logger_name sink) = false
  plain c = true

  -- A call that does not take the pool from the registry.
  abbrev pub calm : Call F H → Bool
  calm (Call.init_thread_pool_op q_size thread_count) = false
  calm Call.shutdown_op = false
  calm c = true

  abbrev pub every : (Call F H → Bool) → List (Call F H) → Bool
  every f [] = true
  every f (c ∷ calls) = f c && every f calls

  NoneAsync-create :
      (logger_name : List ℕ) (sink : Option F) (s : Globals F H)
      → NoneAsync s.kinds
      → NoneAsync (create logger_name sink s).1.kinds
  unfolding create initialize make_logger
  NoneAsync-create logger_name none s h = h
  NoneAsync-create logger_name (some f) s h = record {
    each =
        λ r. elim (Bool-cases (r == s.next_logger)) [ inl e ↦ rw e refl | inr e ↦ rw e (h.each r) ];
  }

  NoneAsync-step :
      (c : Call F H) (s : Globals F H)
      → plain c ≡ true
      → NoneAsync s.kinds
      → NoneAsync (step c s).kinds
  unfolding step release_tp flush_every shutdown set_tp
  NoneAsync-step (Call.registry_op op) s e h = h
  NoneAsync-step (Call.init_thread_pool_op q_size thread_count) s e h =
      elim (init_thread_pool-cases q_size thread_count s) [
        | inl c ↦ subst (λ (t : Globals F H). NoneAsync t.kinds) (sym c) h
        | inr c ↦ subst (λ (t : Globals F H). NoneAsync t.kinds) (sym c) h
      ]
  NoneAsync-step (Call.create_op logger_name sink) s e h = NoneAsync-create logger_name sink s h
  NoneAsync-step (Call.create_async_op policy logger_name sink) s e h =
      absurd (true_ne_false (sym e))
  NoneAsync-step Call.keep_op s e h = elim (keep_tp-cases s) [
    | inl c ↦ subst (λ (t : Globals F H). NoneAsync t.kinds) (sym c) h
    | inr (tp, _, c) ↦ subst (λ (t : Globals F H). NoneAsync t.kinds) (sym c) h
  ]
  NoneAsync-step (Call.release_op tp) s e h = h
  NoneAsync-step (Call.flush_every_op interval) s e h = h
  NoneAsync-step Call.shutdown_op s e h = h

  Attached-make_logger :
      (logger_name : List ℕ) (f : F) (kind : Kind) (s : Globals F H)
      → ((p : ℕ) (policy : OverflowPolicy) → kind ≡ Kind.asynchronous p policy → s.tp ≡ some p)
      → Attached s
      → Attached (make_logger logger_name f kind s)
  unfolding make_logger
  Attached-make_logger logger_name f kind s new h = record {
    attached = λ r p policy. elim (Bool-cases (r == s.next_logger)) [
      | inl e ↦ rw e (new p policy)
      | inr e ↦ rw e (h.attached r p policy)
    ];
  }

  Attached-create :
      (logger_name : List ℕ) (sink : Option F) (s : Globals F H)
      → Attached s
      → Attached (create logger_name sink s).1
  unfolding create initialize
  Attached-create logger_name none s h = h
  Attached-create logger_name (some f) s h =
      Attached-make_logger logger_name f Kind.synchronous s (λ p policy e. absurd (sync_ne_async e))
        h

  Attached-create_async :
      (policy : OverflowPolicy) (logger_name : List ℕ) (sink : Option F) (s : Globals F H)
      → Attached s
      → Attached (create_async policy logger_name sink s).1
  unfolding initialize
  Attached-create_async policy logger_name sink s h = elim (ensure_tp-cases s) [
    | inl (tp, e, e1) ↦ go s tp e1 e h
    | inr (e, e1) ↦ go (renewed 8192 1 s) s.next_pool e1 refl (record {
      attached = λ r p policy' k. absurd (none_ne_some (sym e ∙ h.attached r p policy' k));
    })
  ]
    where
      go :
          (s1 : Globals F H) (tp : ℕ)
          → ensure_tp s ≡ some (tp, s1)
          → s1.tp ≡ some tp
          → Attached s1
          → Attached (create_async policy logger_name sink s).1
      go s1 tp e et h1 = elim (create_async-cases policy logger_name sink s s1 tp e) [
        | inl c ↦ subst Attached (sym c) h1
        | inr (f, c) ↦ subst Attached (sym c) (
            Attached-make_logger logger_name f (Kind.asynchronous tp policy) s1
              (λ p policy' k. et ∙ ap (λ n. some n) (async_inj k)) h1)
      ]

  Attached-step :
      (c : Call F H) (s : Globals F H) → calm c ≡ true → Attached s → Attached (step c s)
  unfolding step release_tp flush_every
  Attached-step (Call.registry_op op) s e h = h
  Attached-step (Call.init_thread_pool_op q_size thread_count) s e h =
      absurd (true_ne_false (sym e))
  Attached-step (Call.create_op logger_name sink) s e h = Attached-create logger_name sink s h
  Attached-step (Call.create_async_op policy logger_name sink) s e h =
      Attached-create_async policy logger_name sink s h
  Attached-step Call.keep_op s e h = elim (keep_tp-cases s) [
    | inl c ↦ subst Attached (sym c) h
    | inr (tp, _, c) ↦ subst Attached (sym c) h
  ]
  Attached-step (Call.release_op tp) s e h = h
  Attached-step (Call.flush_every_op interval) s e h = h
  Attached-step Call.shutdown_op s e h = absurd (true_ne_false (sym e))

  NoneAsync-run :
      (calls : List (Call F H)) (s : Globals F H)
      → every plain calls ≡ true
      → NoneAsync s.kinds
      → NoneAsync (run calls s).kinds
  unfolding run
  NoneAsync-run [] s e h = h
  NoneAsync-run (c ∷ calls) s e h =
      NoneAsync-run calls (step c s) (ground (arith, e)) (NoneAsync-step c s (ground (arith, e)) h)

  Attached-run :
      (calls : List (Call F H)) (s : Globals F H)
      → every calm calls ≡ true
      → Attached s
      → Attached (run calls s)
  unfolding run
  Attached-run [] s e h = h
  Attached-run (c ∷ calls) s e h =
      Attached-run calls (step c s) (ground (arith, e)) (Attached-step c s (ground (arith, e)) h)

  -- A program that has no async logger makes calls that make none, then calls that do not replace
  -- or shut down the thread pool. Then every async logger's pool is there: `flush_all` flushes
  -- the registered loggers once each, in the order of the map, and it throws only where the
  -- flush of a plain logger does, and ends there.
  pub flush_all-run :
      {W : Type 0} (flushes : Flushes W) (first next : List (Call F H)) (s : Globals F H) (w : W)
      → NoneAsync s.kinds
      → every plain first ≡ true
      → every calm next ≡ true
      → flush_all flushes (run next (run first s)) w
        ≡ flush_each flushes (run next (run first s)) (run next (run first s)).registry.loggers w
  flush_all-run flushes first next s w none_async ep ec =
      flush_all-Served flushes (run next (run first s)) w (
        Attached-Served (run next (run first s)) (
          Attached-run next (run first s) ec (record {
            attached = λ r p policy e.
                absurd (sync_ne_async (sym ((NoneAsync-run first s ep none_async).each r) ∙ e));
          })))
