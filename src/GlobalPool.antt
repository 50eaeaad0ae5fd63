-- ===== src/GlobalPool.antt =====
-- include/spdlog/async.h, include/spdlog/details/synchronous_factory.h, and the thread pool, the
-- flushes and shutdown of include/spdlog/details/registry-inl.h. Pools are numbers, as the loggers
-- are; the mutexes of the registry make each operation one step.
pub mod Flushing
pub mod Runs
pub mod Attached
pub mod Gone
mod Tests
use structlog.Common.{
  ℕ, Bool, true, false, Option, some, none, List, [], ◌∷◌, ◌+◌, ◌==◌, ◌||◌, ◌>>=◌, ltb,
  if◌then◌else◌,
}
use structlog.Common.Int.{ℤ, pos, ltb_ℤ}
use structlog.Level.{Level}
use structlog.BlockingQ.Order.{OverflowPolicy}
use structlog.Registry.{Map, Store, Registry, update, initialize_logger, drop_all}

-- The arguments of a pool's constructor.
pub record Pool : Type 0 where
  pub q_max_items : ℕ
  pub threads_n : ℕ

-- The class of a logger; an `async_logger` has a weak pointer to its pool.
pub data Kind : Type 0 where
  synchronous : Kind
  asynchronous : ℕ → OverflowPolicy → Kind

-- The registry with its thread pool and its flusher, given by the interval, the objects of the
-- loggers, and the pools that have been made. `kept` are the pools that pointers of the program
-- itself keep, which `thread_pool()` has given it.
pub record Globals (F H : Type 0) : Type 0 where
  pub registry : Registry F H
  pub store : Store F H
  pub kinds : ℕ → Kind
  pub next_logger : ℕ
  pub tp : Option ℕ
  pub pools : ℕ → Pool
  pub next_pool : ℕ
  pub kept : ℕ → Bool
  pub periodic_flusher : Option ℤ

-- The flush of a logger on its sinks, false where it throws, as it does for what a sink throws that
-- is no `std::exception` and for an error handler that throws; and the message that an async logger
-- leaves in the queue of its pool.
pub record Flushes (W : Type 0) : Type 0 where
  pub flush_sinks : ℕ → W → Bool × W
  pub post_flush : ℕ → ℕ → OverflowPolicy → W → W

abbrev pub set_at : {A : Type 0} → ℕ → A → (ℕ → A) → ℕ → A
set_at n a f i = if i == n then a else f i

abbrev pub points_at : Option ℕ → ℕ → Bool
points_at none p = false
points_at (some q) p = q == p

module _ {F H : Type 0} where
  pub set_tp : Option ℕ → Globals F H → Globals F H
  set_tp tp s = record s { tp = tp }

  -- `make_shared<thread_pool>`, whose constructor may throw.
  pub make_thread_pool : ℕ → ℕ → Globals F H → Option (ℕ × Globals F H)
  make_thread_pool q_size thread_count s =
      if (thread_count == 0) || ltb 1000 thread_count
      then none
      else some (
        s.next_pool,
        record s {
          pools =
              set_at s.next_pool (record { q_max_items = q_size; threads_n = thread_count })
                s.pools;
          next_pool = s.next_pool + 1;
        },
      )

  -- `init_thread_pool`; false is a throw.
  pub init_thread_pool : ℕ → ℕ → Globals F H → Bool × Globals F H
  unfolding make_thread_pool set_tp
  init_thread_pool q_size thread_count s = elim (make_thread_pool q_size thread_count s) [
    | none ↦ (false, s)
    | some (tp, s') ↦ (true, set_tp (some tp) s')
  ]

  -- `make_shared` of a logger on one sink with a formatter.
  pub make_logger : List ℕ → F → Kind → Globals F H → Globals F H
  make_logger logger_name sink_formatter kind s = record s {
    store = update s.store s.next_logger (record {
      name = logger_name;
      formatter = sink_formatter;
      err_handler = none;
      level = Level.info;
      flush_level = Level.off;
      backtrace = none;
    });
    kinds = set_at s.next_logger kind s.kinds;
    next_logger = s.next_logger + 1;
  }

  -- The last steps of the factories: the new logger, or `none` where the registry throws.
  pub initialize : ℕ → Globals F H → Option ℕ × Globals F H
  initialize r s =
      let (ok, registry, store) = initialize_logger r s.registry s.store in
      (if ok then some r else none, record s { registry = registry; store = store })

  -- `synchronous_factory::create`, given the formatter of the new sink, or none where the sink's
  -- constructor throws.
  pub create : List ℕ → Option F → Globals F H → Option ℕ × Globals F H
  unfolding make_logger initialize
  create logger_name sink s = elim sink [
    | none ↦ (none, s)
    | some f ↦ initialize s.next_logger (make_logger logger_name f Kind.synchronous s)
  ]

  -- The pool of the registry, which is made where there is none.
  pub ensure_tp : Globals F H → Option (ℕ × Globals F H)
  unfolding make_thread_pool set_tp
  ensure_tp s = elim s.tp [
    | some tp ↦ some (tp, s)
    | none ↦
        make_thread_pool 8192 1 s >>= λ (r : ℕ × Globals F H). some (r.0, set_tp (some r.0) r.1)
  ]

  -- `async_factory_impl::create`
  pub create_async : OverflowPolicy → List ℕ → Option F → Globals F H → Option ℕ × Globals F H
  unfolding ensure_tp make_logger initialize
  create_async overflow_policy logger_name sink s = elim (ensure_tp s) [
    | none ↦ (none, s)
    | some (tp, s1) ↦ elim sink [
      | none ↦ (none, s1)
      | some f ↦
          initialize s1.next_logger
            (make_logger logger_name f (Kind.asynchronous tp overflow_policy) s1)
    ]
  ]

  -- `thread_pool_.lock()`: a pool lives as long as the registry or the program keeps it.
  unfoldable pub lock : ℕ → Globals F H → Option ℕ
  lock p s = if points_at s.tp p || s.kept p then some p else none

  pub flush_every : ℤ → Globals F H → Globals F H
  flush_every interval s = record s { periodic_flusher = some interval }

  pub shutdown : Globals F H → Globals F H
  unfolding set_tp
  shutdown s = set_tp none (record s { periodic_flusher = none; registry = drop_all s.registry })

  module _ {W : Type 0} (flushes : Flushes W) where
    -- `flush()` of a logger; false where it throws.
    pub flush_logger : ℕ → Globals F H → W → Bool × W
    unfolding lock
    flush_logger r s w = elim (s.kinds r) [
      | synchronous ↦ flushes.flush_sinks r w
      | asynchronous p policy ↦ elim (lock p s) [
        | none ↦ (false, w)
        | some tp ↦ (true, flushes.post_flush tp r policy w)
      ]
    ]

    pub flush_loop : Map ℕ → Globals F H → W → Bool × W
    unfolding flush_logger
    flush_loop [] s w = (true, w)
    flush_loop ((k, r) ∷ m) s w =
        let (ok, w') = flush_logger r s w in
        let rest = flush_loop m s w' in if ok then rest else (false, w')

    -- `registry::flush_all`; a throw ends the loop.
    pub flush_all : Globals F H → W → Bool × W
    unfolding flush_loop
    flush_all s w = flush_loop s.registry.loggers s w

    -- What the flusher's thread does when its interval is over; false where an exception leaves
    -- the thread, which ends the program.
    pub flusher_callback : Globals F H → W → Bool × W
    unfolding flush_all
    flusher_callback s w = elim s.periodic_flusher [
      | none ↦ (true, w)
      | some interval ↦ if ltb_ℤ (pos 0) interval then flush_all s w else (true, w)
    ]
