-- ===== src/ThreadPool.antt =====
-- include/spdlog/details/thread_pool.h and thread_pool-inl.h. The loggers' backend functions,
-- with the state that they change, are parameters here; a null `worker_ptr` is undefined where
-- it is used.
pub mod Run
pub mod Drains
pub mod Shutdown
pub mod Ends
mod Tests
use structlog.Common.{
  ltb, ◌||◌, false, true, ◌>>=◌, ◌==◌, if◌then◌else◌, Bool, Option, none, ℕ, some, List, [], ◌∷◌,
}
use structlog.CircularQ.{CircularQ, create}
use structlog.BlockingQ.{enqueue, enqueue_nowait, dequeue_for}
use structlog.BlockingQ.Order.{OverflowPolicy}

pub data AsyncMsgType : Type 0 where
  log flush terminate : AsyncMsgType

-- `W` is a shared pointer to an `async_logger` that is not null, `M` a `log_msg_buffer`.
pub record AsyncMsg (W M : Type 0) : Type 0 where
  pub msg : M
  pub msg_type : AsyncMsgType
  pub worker_ptr : Option W

-- The backend of the loggers, and the default message of `log_msg_buffer{}`.
pub record Backend (W M B : Type 0) : Type 0 where
  pub backend_sink_it : W → M → B → B
  pub backend_flush : W → B → B
  pub no_msg : M

module _ {W M B : Type 0} (backend : Backend W M B) where
  unfoldable pub new_log : W → M → AsyncMsg W M
  new_log w m = record { msg = m; msg_type = AsyncMsgType.log; worker_ptr = some w }

  unfoldable pub new_flush : W → AsyncMsg W M
  new_flush w = record { msg = backend.no_msg; msg_type = AsyncMsgType.flush; worker_ptr = some w }

  unfoldable pub new_terminate : AsyncMsg W M
  new_terminate = record {
    msg = backend.no_msg;
    msg_type = AsyncMsgType.terminate;
    worker_ptr = none;
  }

  -- The queue of a new pool; `none` where the constructor throws, for the number of threads.
  pub create_pool : ℕ → ℕ → Option (CircularQ (AsyncMsg W M))
  unfolding new_terminate
  create_pool q_max_items threads_n =
      if (threads_n == 0) || ltb 1000 threads_n
      then none
      else some (create new_terminate q_max_items)

  -- `none`: the caller waits for room.
  unfoldable pub post_async_msg :
      CircularQ (AsyncMsg W M) → AsyncMsg W M → OverflowPolicy → Option (CircularQ (AsyncMsg W M))
  post_async_msg q new_msg OverflowPolicy.block = enqueue q new_msg
  post_async_msg q new_msg OverflowPolicy.overrun_oldest = some (enqueue_nowait q new_msg)

  unfoldable pub post_log :
      CircularQ (AsyncMsg W M) → W → M → OverflowPolicy → Option (CircularQ (AsyncMsg W M))
  post_log q worker_ptr msg overflow_policy =
      post_async_msg q (new_log worker_ptr msg) overflow_policy

  unfoldable pub post_flush :
      CircularQ (AsyncMsg W M) → W → OverflowPolicy → Option (CircularQ (AsyncMsg W M))
  post_flush q worker_ptr overflow_policy = post_async_msg q (new_flush worker_ptr) overflow_policy

-- The call of a logger's backend that a message asks for; it is also what a logger asks of the
-- pool.
pub data Request (W M : Type 0) : Type 0 where
  log : W → M → Request W M
  flush : W → Request W M

module _ {W M : Type 0} where
  -- The switch over the type: whether the worker stays active, and the call of the backend that
  -- it makes before it returns.
  unfoldable pub handle : AsyncMsg W M → Option (Bool × List (Request W M))
  handle m = elim m.msg_type [
    | AsyncMsgType.log ↦ m.worker_ptr >>= λ w. some (true, Request.log w m.msg ∷ [])
    | AsyncMsgType.flush ↦ m.worker_ptr >>= λ w. some (true, Request.flush w ∷ [])
    | AsyncMsgType.terminate ↦ some (false, [])
  ]

  -- `process_next_msg_` up to the call of the backend, which is outside of the queue's mutex: what
  -- it returns in the end, the call, if there is one, and the queue.
  unfoldable pub process_next_msg :
      CircularQ (AsyncMsg W M) → Option (Bool × List (Request W M) × CircularQ (AsyncMsg W M))
  unfolding handle
  process_next_msg q = dequeue_for q >>= λ r. elim r.0 [
    | none ↦ some (true, [], r.1)
    | some m ↦ handle m >>= λ c. some (c.0, c.1, r.1)
  ]
