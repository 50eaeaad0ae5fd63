-- ===== src/BlockingQ.antt =====
-- include/spdlog/details/mpmc_blocking_q.h. Each operation runs under the queue's mutex, so it
-- is one step on the queue; a wait on a condition variable ends when its condition holds, or
-- times out.
pub mod Fifo
pub mod Order
mod Tests
use structlog.Common.{◌>>=◌, Option, none, some, if◌then◌else◌}
use structlog.CircularQ.{CircularQ, push_back, front, pop_front, empty, full}

module _ {ℓ} {A : Type ℓ} where
  -- `none`: the queue is full, and the caller waits.
  unfoldable pub enqueue : CircularQ A → A → Option (CircularQ A)
  enqueue q item = if full q then none else some (push_back q item)

  unfoldable pub enqueue_nowait : CircularQ A → A → CircularQ A
  enqueue_nowait q item = push_back q item

  -- What the last wake-up finds: no item is a return of false, after the timeout.
  unfoldable pub dequeue_for : CircularQ A → Option (Option A × CircularQ A)
  dequeue_for q =
      if empty q
      then some (none, q)
      else front q >>= λ item. pop_front q >>= λ q'. some (some item, q')
