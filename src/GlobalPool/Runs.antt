-- ===== src/GlobalPool/Runs.antt =====
-- Runs of the operations of the registry and the factories: which pools are there.
use structlog.Common.{
  ◌==◌, if◌then◌else◌, ℕ, true, false, Option, some, none, Option-cases, Bool-cases, ◌⊎◌, inl, inr,
  ◌+◌, ◌==◌, ◌||◌, ltb, if◌then◌else◌, List, [], ◌∷◌, ◌≡◌, refl,
}
use structlog.Common.Int.{ℤ}
use structlog.BlockingQ.Order.{OverflowPolicy}
use structlog.Registry.Default.{Op, perform}
use structlog.GlobalPool.{
  make_logger, initialize, Kind, set_at, Globals, set_tp, make_thread_pool, init_thread_pool,
  create, ensure_tp, create_async, flush_every, shutdown,
}

-- The program's calls. `keep_op` stores what `thread_pool()` returns in a pointer of the
-- program, and `release_op` drops it.
pub data Call (F H : Type 0) : Type 0 where
  registry_op : Op F H → Call F H
  init_thread_pool_op : ℕ → ℕ → Call F H
  create_op : List ℕ → Option F → Call F H
  create_async_op : OverflowPolicy → List ℕ → Option F → Call F H
  keep_op : Call F H
  release_op : ℕ → Call F H
  flush_every_op : ℤ → Call F H
  shutdown_op : Call F H

module _ {F H : Type 0} where
  unfoldable pub keep_tp : Globals F H → Globals F H
  keep_tp s = elim s.tp [
    | none ↦ s
    | some tp ↦ record s { kept = λ p. if p == tp then true else s.kept p }
  ]

  unfoldable pub release_tp : ℕ → Globals F H → Globals F H
  release_tp tp s = record s { kept = λ p. if p == tp then false else s.kept p }

  unfoldable pub step : Call F H → Globals F H → Globals F H
  step (registry_op op) s =
      let (registry, store) = perform op s.registry s.store in
      record s { registry = registry; store = store }
  step (init_thread_pool_op q_size thread_count) s = (init_thread_pool q_size thread_count s).1
  step (create_op logger_name sink) s = (create logger_name sink s).1
  step (create_async_op policy logger_name sink) s = (create_async policy logger_name sink s).1
  step keep_op s = keep_tp s
  step (release_op tp) s = release_tp tp s
  step (flush_every_op interval) s = flush_every interval s
  step shutdown_op s = shutdown s

  unfoldable pub run : List (Call F H) → Globals F H → Globals F H
  unfolding step
  run [] s = s
  run (c ∷ calls) s = run calls (step c s)

  -- The registry with a new pool.
  abbrev pub renewed : ℕ → ℕ → Globals F H → Globals F H
  renewed q_size thread_count s = record s {
    tp = some s.next_pool;
    pools = set_at s.next_pool (record { q_max_items = q_size; threads_n = thread_count }) s.pools;
    next_pool = s.next_pool + 1;
  }

  -- `ensure_tp` finds a pool or makes one.
  pub ensure_tp-cases :
      (s : Globals F H)
      → ((tp : ℕ) × (s.tp ≡ some tp) × (ensure_tp s ≡ some (tp, s)))
        ⊎ ((s.tp ≡ none) × (ensure_tp s ≡ some (s.next_pool, renewed 8192 1 s)))
  unfolding ensure_tp make_thread_pool set_tp
  ensure_tp-cases s = elim (Option-cases s.tp) [
    | inl e ↦ inr (e, rw (ensure_tp, e) refl)
    | inr (tp, e) ↦ inl (tp, e, simp (ensure_tp, e))
  ]

  pub init_thread_pool-cases :
      (q_size thread_count : ℕ) (s : Globals F H)
      → ((init_thread_pool q_size thread_count s).1 ≡ s)
        ⊎ ((init_thread_pool q_size thread_count s).1 ≡ renewed q_size thread_count s)
  unfolding init_thread_pool make_thread_pool set_tp
  init_thread_pool-cases q_size thread_count s =
      elim (Bool-cases ((thread_count == 0) || ltb 1000 thread_count)) [
        | inl e ↦ inl (rw (init_thread_pool, e) refl)
        | inr e ↦ inr (rw (init_thread_pool, e) refl)
      ]

  -- `create_async` makes an async logger on the pool of the registry, or none, where the sink
  -- throws.
  pub create_async-cases :
      (policy : OverflowPolicy) (logger_name : List ℕ) (sink : Option F) (s s1 : Globals F H)
      (tp : ℕ)
      → ensure_tp s ≡ some (tp, s1)
      → ((create_async policy logger_name sink s).1 ≡ s1)
        ⊎ ((f : F) × ((create_async policy logger_name sink s).1
              ≡ (initialize s1.next_logger
                  (make_logger logger_name f (Kind.asynchronous tp policy) s1)).1))
  unfolding create_async
  create_async-cases policy logger_name none s s1 tp e = inl (rw (create_async, e) refl)
  create_async-cases policy logger_name (some f) s s1 tp e = inr (f, rw (create_async, e) refl)

  pub keep_tp-cases :
      (s : Globals F H)
      → (keep_tp s ≡ s)
        ⊎ ((tp : ℕ) × (s.tp ≡ some tp)
            × (keep_tp s ≡ record s { kept = λ p. if p == tp then true else s.kept p }))
  unfolding keep_tp
  keep_tp-cases s = elim (Option-cases s.tp) [
    | inl e ↦ inl (simp (keep_tp, e))
    | inr (tp, e) ↦ inr (tp, e, simp (keep_tp, e))
  ]
