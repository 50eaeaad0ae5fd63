-- ===== src/BlockingQ/Tests.antt =====
-- Blocking queues at concrete runs.
use structlog.CircularQ.Refine.{contents}
use structlog.Common.{◌++◌, ◌≡◌, ◌∷◌, [], ℕ, refl, arith, add_size}
use structlog.CircularQ.{CircularQ, push_back, overrun, front, pop_front, empty, full, size}
use structlog.BlockingQ.{enqueue, enqueue_nowait, dequeue_for}
use structlog.BlockingQ.Fifo.{Ready}
use structlog.BlockingQ.Order.{OverflowPolicy, Run, Step, Kept, Run-block, Run-Kept}

abbrev empty_two : CircularQ ℕ
empty_two = record { max_items = 3; head = 0; tail = 0; overrun_counter = 0; v = 0 ∷ 0 ∷ 0 ∷ [] }

-- After 5 and 6 have been written.
abbrev filled : CircularQ ℕ
filled = record { max_items = 3; head = 0; tail = 2; overrun_counter = 0; v = 5 ∷ 6 ∷ 0 ∷ [] }

empty_two-Ready : Ready 2 empty_two
empty_two-Ready = omega arith

-- Two items in, the first of them out.
block-Run : Run OverflowPolicy.block empty_two (5 ∷ 6 ∷ []) (5 ∷ []) (record filled { head = 1 })
unfolding enqueue dequeue_for push_back overrun front pop_front empty full
block-Run =
    Run.next
      (Run.next (Run.next Run.start (Step.enqueued {x = 5} refl)) (Step.enqueued {x = 6} refl))
      (Step.dequeued {x = 5} refl)

-- A third item overruns the first.
overrun-Run :
    Run OverflowPolicy.overrun_oldest filled
      (7 ∷ [])
      (6 ∷ [])
      (record { max_items = 3; head = 2; tail = 0; overrun_counter = 1; v = 5 ∷ 6 ∷ 7 ∷ [] })
unfolding enqueue_nowait dequeue_for push_back overrun front pop_front empty full
overrun-Run = Run.next (Run.next Run.start Step.enqueued_nowait) (Step.dequeued {x = 6} refl)

Run-block_example : contents 0 empty_two ++ 5 ∷ 6 ∷ [] ≡ 5 ∷ contents 0 (record filled { head = 1 })
unfolding size
Run-block_example = Run-block 0 2 empty_two-Ready (omega arith) block-Run

Run-Kept_example : (n : ℕ) × Kept {A = ℕ} (5 ∷ 6 ∷ 7 ∷ []) (6 ∷ 7 ∷ []) n × (1 ≡ add_size 0 n)
unfolding size
Run-Kept_example = Run-Kept 0 2 (omega arith) (omega arith) (omega arith) overrun-Run
