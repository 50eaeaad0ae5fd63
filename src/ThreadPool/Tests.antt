-- ===== src/ThreadPool/Tests.antt =====
-- Pools of one thread and of two at concrete runs.
use structlog.Common.{none, List, ◌≡◌, ◌∷◌, [], ℕ, refl, some, arith}
use structlog.CircularQ.{CircularQ, create, push_back, overrun, front, pop_front, empty, full, size}
use structlog.CircularQ.Refine.{contents}
use structlog.BlockingQ.{enqueue, dequeue_for}
use structlog.BlockingQ.Fifo.{Ready}
use structlog.BlockingQ.Order.{OverflowPolicy}
use mathlib.Core.List.{Perm}
use structlog.ThreadPool.{
  Backend, AsyncMsg, Request, new_log, new_terminate, create_pool, post_async_msg, post_log, handle,
  process_next_msg,
}
use structlog.ThreadPool.Run.{Pool, Step, Reach}
use structlog.ThreadPool.Shutdown.{started, shutdown_drains}
use structlog.ThreadPool.Ends.{shutdown_ends}

-- A backend that writes the logger and the message down; a flush writes 0.
abbrev recorder : Backend ℕ ℕ (List ℕ)
recorder = record { backend_sink_it = λ w m b. w ∷ m ∷ b; backend_flush = λ w b. 0 ∷ b; no_msg = 0 }

abbrev idle : CircularQ (AsyncMsg ℕ ℕ)
idle = record {
  max_items = 2;
  head = 0;
  tail = 0;
  overrun_counter = 0;
  v = new_terminate recorder ∷ new_terminate recorder ∷ [];
}

sizes :
    (create_pool recorder 1 0 ≡ none)
    × (create_pool recorder 1 1001 ≡ none)
    × (create_pool recorder 1 1 ≡ some idle)
unfolding create_pool create
sizes = (refl, refl, refl)

idle-Ready : Ready 1 idle
idle-Ready = omega arith

abbrev ended : Pool ℕ ℕ
ended = record {
  q = record idle { v = new_log recorder 3 8 ∷ new_terminate recorder ∷ [] };
  running = 0;
  terminates = 1;
  held = [];
  served = Request.log 3 8 ∷ [];
}

-- A message, served; then the destructor's message, and the thread ends.
full_run :
    Reach recorder 1 OverflowPolicy.block (started recorder 1 1 idle) (Request.log 3 8 ∷ []) ended
unfolding post_log post_async_msg process_next_msg handle enqueue dequeue_for push_back overrun
    front pop_front empty full new_log new_terminate
full_run =
    Reach.next
      (Reach.next
        (Reach.next
          (Reach.next (Reach.next Reach.start (Step.posted {r = Request.log 3 8} refl refl))
            (Step.taken (omega arith) refl))
          (Step.returned [] [] (Request.log 3 8) refl))
        (Step.told (omega arith) refl))
      (Step.taken (omega arith) refl)

-- Two workers: the call for the second message returns before that for the first one.
abbrev roomy : CircularQ (AsyncMsg ℕ ℕ)
roomy = record {
  max_items = 3;
  head = 0;
  tail = 0;
  overrun_counter = 0;
  v = new_terminate recorder ∷ new_terminate recorder ∷ new_terminate recorder ∷ [];
}

overtaken :
    Reach recorder 2 OverflowPolicy.block
      (started recorder 2 2 roomy)
      (Request.log 3 8 ∷ Request.log 3 9 ∷ [])
      (record {
        q = record roomy {
          head = 2;
          tail = 2;
          v = new_log recorder 3 8 ∷ new_log recorder 3 9 ∷ new_terminate recorder ∷ [];
        };
        running = 2;
        held = Request.log 3 8 ∷ [];
        served = Request.log 3 9 ∷ [];
        terminates = 0;
      })
unfolding post_log post_async_msg process_next_msg handle enqueue dequeue_for push_back overrun
    front pop_front empty full new_log new_terminate
overtaken =
    Reach.next
      (Reach.next
        (Reach.next
          (Reach.next (Reach.next Reach.start (Step.posted {r = Request.log 3 8} refl refl))
            (Step.posted {r = Request.log 3 9} refl refl))
          (Step.taken (omega arith) refl))
        (Step.taken (omega arith) refl))
      (Step.returned (Request.log 3 8 ∷ []) [] (Request.log 3 9) refl)

shutdown_drains_example :
    (contents (new_terminate recorder) ended.q ≡ [])
    × (ended.held ≡ [])
    × (OverflowPolicy.block ≡ OverflowPolicy.block → Perm ended.served (Request.log 3 8 ∷ []))
unfolding size
shutdown_drains_example =
    shutdown_drains recorder 1 1 idle (omega arith) (omega arith) idle-Ready refl full_run refl

shutdown_ends_example :
    (s' : Pool ℕ ℕ) × Reach recorder 1 OverflowPolicy.block (started recorder 1 1 idle) [] s'
    × (s'.running ≡ 0)
unfolding size
shutdown_ends_example = shutdown_ends recorder 1 1 idle (omega arith) idle-Ready refl Reach.start
