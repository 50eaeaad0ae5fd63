-- ===== src/GlobalPool/Gone.antt =====
-- An async logger whose pool is gone stays without one.
use structlog.GlobalPool.Flushing.{flush_logger-Orphan}
use structlog.Common.{
  [], ◌∷◌, ◌<◌, Bool, arith, ℕ, false, Option, some, none, subst, sym, ne→==false, inl, inr, List,
  ◌≡◌, refl,
}
use structlog.BlockingQ.Order.{OverflowPolicy}
use structlog.GlobalPool.{
  set_tp, shutdown, flush_every, flush_logger, Flushes, create, points_at, make_logger, initialize,
  lock, Kind, Globals, ensure_tp, create_async,
}
use structlog.GlobalPool.Runs.{
  keep_tp, init_thread_pool-cases, release_tp, keep_tp-cases, Call, run, step, renewed,
  ensure_tp-cases, create_async-cases,
}

-- A logger with a pool that is gone, and that nobody can get again.
record GoneFrom (kinds : ℕ → Kind) (next_logger : ℕ) (tp : Option ℕ) (next_pool : ℕ)
    (kept : ℕ → Bool) (r p : ℕ) (policy : OverflowPolicy) : Type 0 where
  pub made : r < next_logger
  pub kind : kinds r ≡ Kind.asynchronous p policy
  pub old : p < next_pool
  pub replaced : points_at tp p ≡ false
  pub dropped : kept p ≡ false

module _ {F H : Type 0} where
  abbrev Gone : Globals F H → ℕ → ℕ → OverflowPolicy → Type 0
  Gone s r p policy = GoneFrom s.kinds s.next_logger s.tp s.next_pool s.kept r p policy

  Gone-lock :
      (s : Globals F H) (r p : ℕ) (policy : OverflowPolicy) → Gone s r p policy → lock p s ≡ none
  unfolding lock
  Gone-lock s r p policy h = rw (lock, h.replaced, h.dropped) refl

  Gone-renewed :
      (q_size thread_count : ℕ) (s : Globals F H) (r p : ℕ) (policy : OverflowPolicy)
      → Gone s r p policy
      → Gone (renewed q_size thread_count s) r p policy
  Gone-renewed q_size thread_count s r p policy h = record {
    made = h.made;
    kind = h.kind;
    old = omega (arith, h.old);
    replaced = ground (arith, h.old);
    dropped = h.dropped;
  }

  Gone-make_logger :
      (logger_name : List ℕ) (f : F) (kind : Kind) (s : Globals F H) (r p : ℕ)
      (policy : OverflowPolicy)
      → Gone s r p policy
      → Gone (make_logger logger_name f kind s) r p policy
  unfolding make_logger
  Gone-make_logger logger_name f kind s r p policy h = record {
    made = omega (arith, h.made);
    kind = rw (ne→==false r s.next_logger (λ e. absurd (omega (arith, h.made, e)))) h.kind;
    old = h.old;
    replaced = h.replaced;
    dropped = h.dropped;
  }

  Gone-create_async :
      (policy' : OverflowPolicy) (logger_name : List ℕ) (sink : Option F) (s : Globals F H)
      (r p : ℕ) (policy : OverflowPolicy)
      → Gone s r p policy
      → Gone (create_async policy' logger_name sink s).1 r p policy
  unfolding initialize
  Gone-create_async policy' logger_name sink s r p policy h = elim (ensure_tp-cases s) [
    | inl (tp, e, e1) ↦ go s tp e1 h
    | inr (e, e1) ↦ go (renewed 8192 1 s) s.next_pool e1 (Gone-renewed 8192 1 s r p policy h)
  ]
    where
      go :
          (s1 : Globals F H) (tp : ℕ)
          → ensure_tp s ≡ some (tp, s1)
          → Gone s1 r p policy
          → Gone (create_async policy' logger_name sink s).1 r p policy
      go s1 tp e h1 = elim (create_async-cases policy' logger_name sink s s1 tp e) [
        | inl c ↦ subst (λ t. Gone t r p policy) (sym c) h1
        | inr (f, c) ↦
            subst (λ t. Gone t r p policy) (sym c)
              (Gone-make_logger logger_name f (Kind.asynchronous tp policy') s1 r p policy h1)
      ]

  Gone-create :
      (logger_name : List ℕ) (sink : Option F) (s : Globals F H) (r p : ℕ) (policy : OverflowPolicy)
      → Gone s r p policy
      → Gone (create logger_name sink s).1 r p policy
  unfolding create initialize
  Gone-create logger_name none s r p policy h = h
  Gone-create logger_name (some f) s r p policy h =
      Gone-make_logger logger_name f Kind.synchronous s r p policy h

  Gone-keep_tp :
      (s : Globals F H) (r p : ℕ) (policy : OverflowPolicy)
      → Gone s r p policy
      → Gone (keep_tp s) r p policy
  Gone-keep_tp s r p policy h = elim (keep_tp-cases s) [
    | inl e ↦ subst (λ t. Gone t r p policy) (sym e) h
    | inr (tp, e, k) ↦
        subst (λ t. Gone t r p policy) (sym k)
          (record {
            made = h.made;
            kind = h.kind;
            old = h.old;
            replaced = h.replaced;
            dropped = ground (arith, subst (λ o. points_at o p ≡ false) e h.replaced, h.dropped);
          })
  ]

  Gone-step :
      (c : Call F H) (s : Globals F H) (r p : ℕ) (policy : OverflowPolicy)
      → Gone s r p policy
      → Gone (step c s) r p policy
  unfolding step release_tp flush_every shutdown set_tp
  Gone-step (Call.registry_op op) s r p policy h = h
  Gone-step (Call.init_thread_pool_op q_size thread_count) s r p policy h =
      elim (init_thread_pool-cases q_size thread_count s) [
        | inl e ↦ subst (λ t. Gone t r p policy) (sym e) h
        | inr e ↦
            subst (λ t. Gone t r p policy) (sym e) (Gone-renewed q_size thread_count s r p policy h)
      ]
  Gone-step (Call.create_op logger_name sink) s r p policy h =
      Gone-create logger_name sink s r p policy h
  Gone-step (Call.create_async_op policy' logger_name sink) s r p policy h =
      Gone-create_async policy' logger_name sink s r p policy h
  Gone-step Call.keep_op s r p policy h = Gone-keep_tp s r p policy h
  Gone-step (Call.release_op tp) s r p policy h = record {
    made = h.made;
    kind = h.kind;
    old = h.old;
    replaced = h.replaced;
    dropped = ground (arith, h.dropped);
  }
  Gone-step (Call.flush_every_op interval) s r p policy h = h
  Gone-step Call.shutdown_op s r p policy h = record {
    made = h.made;
    kind = h.kind;
    old = h.old;
    replaced = refl;
    dropped = h.dropped;
  }

  Gone-run :
      (calls : List (Call F H)) (s : Globals F H) (r p : ℕ) (policy : OverflowPolicy)
      → Gone s r p policy
      → Gone (run calls s) r p policy
  unfolding run
  Gone-run [] s r p policy h = h
  Gone-run (c ∷ calls) s r p policy h =
      Gone-run calls (step c s) r p policy (Gone-step c s r p policy h)

  lock-replaced : (s : Globals F H) (p : ℕ) → lock p s ≡ none → points_at s.tp p ≡ false
  unfolding lock
  lock-replaced s p e = ground (arith, e)

  lock-dropped : (s : Globals F H) (p : ℕ) → lock p s ≡ none → s.kept p ≡ false
  unfolding lock
  lock-dropped s p e = ground (arith, e)

  -- An async logger whose pool is gone never has one again: whatever the program calls then, new
  -- pools and new loggers included, the pool is not there, and a flush of the logger throws and
  -- does nothing. The logger and its pool have been made.
  pub flush_logger-run :
      {W : Type 0} (flushes : Flushes W) (calls : List (Call F H)) (s : Globals F H) (r p : ℕ)
      (policy : OverflowPolicy) (w : W)
      → r < s.next_logger
      → p < s.next_pool
      → s.kinds r ≡ Kind.asynchronous p policy
      → lock p s ≡ none
      → (lock p (run calls s) ≡ none) × (flush_logger flushes r (run calls s) w ≡ (false, w))
  flush_logger-run flushes calls s r p policy w made old kind gone =
      let g = Gone-run calls s r p policy (record {
        made = made;
        kind = kind;
        old = old;
        replaced = lock-replaced s p gone;
        dropped = lock-dropped s p gone;
      }) in
      let l = Gone-lock (run calls s) r p policy g in
      (
        l,
        flush_logger-Orphan flushes (run calls s) r w
            (record { thread_pool = p; policy = policy; kind = g.kind; gone = l }),
      )
