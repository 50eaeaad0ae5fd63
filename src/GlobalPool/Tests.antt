-- ===== src/GlobalPool/Tests.antt =====
-- A program with one async logger, whose pool is replaced.
use structlog.Common.{
  ℕ, true, false, Option, some, none, List, [], ◌∷◌, ◌++◌, ◌≡◌, refl, codes, arith,
}
use structlog.Common.Int.{pos}
use structlog.BlockingQ.Order.{OverflowPolicy}
use structlog.Registry.{initialize_logger, register_logger}
use structlog.GlobalPool.{
  Level, Kind, Globals, Flushes, lock, set_tp, make_thread_pool, init_thread_pool, make_logger,
  initialize, ensure_tp, create_async, flush_every, shutdown, flush_logger, flush_loop, flush_all,
  flusher_callback,
}
use structlog.GlobalPool.Flushing.{flush_each, flush_all-Orphan}
use structlog.GlobalPool.Runs.{Call, step, run}
use structlog.GlobalPool.Attached.{flush_all-run}
use structlog.GlobalPool.Gone.{flush_logger-run}

abbrev start : Globals ℕ ℕ
start = record {
  registry = record {
    loggers = ([], 0) ∷ [];
    log_levels = [];
    formatter = 0;
    global_log_level = Level.info;
    flush_level = Level.off;
    err_handler = none;
    automatic_registration = true;
    backtrace_n_messages = 0;
    default_logger = some 0;
  };
  store = λ r. record {
    name = [];
    formatter = 0;
    err_handler = none;
    level = Level.info;
    flush_level = Level.off;
    backtrace = none;
  };
  kinds = λ r. Kind.synchronous;
  next_logger = 1;
  tp = none;
  pools = λ p. record { q_max_items = 0; threads_n = 0 };
  next_pool = 0;
  kept = λ p. false;
  periodic_flusher = none;
}

-- The flushes that have been made: of the sinks of a logger, or by a message to a pool.
abbrev flushes : Flushes (List (ℕ × Option ℕ))
flushes = record {
  flush_sinks = λ r w. (true, w ++ (r, none) ∷ []);
  post_flush = λ p r policy w. w ++ (r, some p) ∷ [];
}

abbrev before : List (Call ℕ ℕ)
before = Call.init_thread_pool_op 16 2 ∷ Call.init_thread_pool_op 16 2000 ∷ []

abbrev after : List (Call ℕ ℕ)
after =
    Call.create_async_op OverflowPolicy.block (codes "net") (some 0)
    ∷ Call.flush_every_op (pos 3)
    ∷ []

flushed :
    flusher_callback flushes (run after (run before start)) []
    ≡ (true, (1, some 0) ∷ (0, none) ∷ [])
unfolding flusher_callback flush_all flush_loop flush_logger lock run step init_thread_pool
    create_async ensure_tp make_thread_pool set_tp make_logger initialize initialize_logger
    register_logger flush_every
flushed = refl

-- A second pool replaces the first one, and the flusher's thread throws.
replaced :
    flusher_callback flushes
      (run (Call.init_thread_pool_op 32 1 ∷ []) (run after (run before start)))
      []
    ≡ (false, [])
unfolding flusher_callback flush_all flush_loop flush_logger lock run step init_thread_pool
    create_async ensure_tp make_thread_pool set_tp make_logger initialize initialize_logger
    register_logger flush_every
replaced = refl

-- After the end of the pool a factory makes a new one, for its own logger.
made_again :
    (run
      (Call.create_async_op OverflowPolicy.block (codes "disk") (some 0) ∷ [])
      (run (Call.shutdown_op ∷ []) (run after start))).tp
    ≡ some 1
unfolding run step create_async ensure_tp make_thread_pool set_tp make_logger initialize
    initialize_logger register_logger flush_every shutdown
made_again = refl

flush_all-run_example :
    flush_all flushes (run after (run before start)) []
    ≡ flush_each flushes
        (run after (run before start))
        (run after (run before start)).registry.loggers
        []
flush_all-run_example =
    flush_all-run flushes before after start [] (record { each = λ r. refl }) refl refl

abbrev ended : Globals ℕ ℕ
ended = record start {
  kinds = λ r. Kind.asynchronous 0 OverflowPolicy.block;
  next_logger = 2;
  next_pool = 1;
}

no_pool : lock 0 ended ≡ none
unfolding lock
no_pool = refl

flush_logger-run_example :
    (lock 0 (run (Call.init_thread_pool_op 16 2 ∷ []) ended) ≡ none)
    × (flush_logger flushes 1 (run (Call.init_thread_pool_op 16 2 ∷ []) ended) [] ≡ (false, []))
flush_logger-run_example =
    flush_logger-run flushes (Call.init_thread_pool_op 16 2 ∷ []) ended 1 0 OverflowPolicy.block []
      (omega arith) (omega arith) refl no_pool

flush_all-Orphan_example : flush_all flushes ended [] ≡ (false, (flush_loop flushes [] ended []).1)
flush_all-Orphan_example =
    flush_all-Orphan flushes ended [] [] [] 0 0 OverflowPolicy.block [] refl refl no_pool
