-- ===== src/AsyncLogger/Tests.antt =====
-- An asynchronous logger on a pool of one thread.
use structlog.Common.{false, none, ◌≡◌, ◌∷◌, [], refl, some, arith, codes, ◌++◌, ◌==◌}
use structlog.Level.{Level}
use structlog.LogMsg.{LogMsg}
use structlog.CircularQ.{
  CircularQ, disabled, push_back, overrun, front, pop_front, empty, full, size,
}
use structlog.BlockingQ.{enqueue, dequeue_for}
use structlog.BlockingQ.Fifo.{Ready}
use structlog.BlockingQ.Order.{OverflowPolicy}
use structlog.Logger
use structlog.Logger.{Sinks, Logger}
use structlog.DistSink.Recorder.{World, recorder, recorder-Observed, text_message}
use structlog.ThreadPool.{
  AsyncMsg, Request, new_log, new_terminate, post_log, post_async_msg, handle, process_next_msg,
}
use structlog.ThreadPool.Run.{serve_all, Pool, Step, Reach}
use structlog.ThreadPool.Shutdown.{started}
use structlog.AsyncLogger.{
  backend_flush, AsyncLogger, Posted, sink_it, flush, backend, backend_sink_it,
}
use structlog.AsyncLogger.Deliver.{delivered, shutdown-delivered, backend_sink_it-sink_it}

-- The sink 7 throws.
abbrev api : Sinks World
api = recorder (λ s. s == 7)

abbrev logger : AsyncLogger
logger = record {
  logger = record {
    name = codes "app";
    sinks = 7 ∷ 2 ∷ [];
    level = Level.info;
    flush_level = Level.err;
    tracer = record { enabled = false; messages = disabled };
  };
  overflow_policy = OverflowPolicy.block;
}

abbrev hello : LogMsg
hello = text_message (codes "hello")

abbrev idle : CircularQ (AsyncMsg AsyncLogger LogMsg)
idle = record {
  max_items = 2;
  head = 0;
  tail = 0;
  overrun_counter = 0;
  v = new_terminate (backend api) ∷ new_terminate (backend api) ∷ [];
}

abbrev start : World
start = record { got = [] }

-- Without a pool a message is a throw, and in a full queue it waits.
posts :
    (sink_it api logger hello none ≡ Posted.throws)
    × (flush api logger none ≡ Posted.throws)
    × (sink_it api logger hello (some (record idle { tail = 1 })) ≡ Posted.waits)
unfolding sink_it flush post_log post_async_msg enqueue full
posts = (refl, refl, refl)

abbrev ended : Pool AsyncLogger LogMsg
ended = record {
  q = record idle { v = new_log (backend api) logger hello ∷ new_terminate (backend api) ∷ [] };
  running = 0;
  terminates = 1;
  held = [];
  served = Request.log logger hello ∷ [];
}

full_run :
    Reach
      (backend api)
      1
      OverflowPolicy.block
      (started (backend api) 1 1 idle)
      (Request.log logger hello ∷ [])
      ended
unfolding post_log post_async_msg process_next_msg handle enqueue dequeue_for push_back overrun
    front pop_front empty full new_log new_terminate
full_run =
    Reach.next
      (Reach.next
        (Reach.next
          (Reach.next
            (Reach.next Reach.start (Step.posted {r = Request.log logger hello} refl refl))
            (Step.taken (omega arith) refl))
          (Step.returned [] [] (Request.log logger hello) refl))
        (Step.told (omega arith) refl))
      (Step.taken (omega arith) refl)

idle-Ready : Ready 1 idle
idle-Ready = omega arith

shutdown-delivered_example :
    (recorder-Observed (λ s. s == 7)).attempts (serve_all (backend api) ended.served start)
    ≡ []
      ++ delivered api
          (recorder-Observed (λ s. s == 7))
          (λ t. Level.trace)
          (Request.log logger hello ∷ [])
unfolding size
shutdown-delivered_example =
    shutdown-delivered api (recorder-Observed (λ s. s == 7)) 1 start idle
      (Request.log logger hello ∷ []) ended (omega arith) idle-Ready refl full_run refl

backend_sink_it-sink_it_example :
    (backend_sink_it api logger hello start ≡ Logger.sink_it api logger.logger hello start)
    × (backend_flush api logger start ≡ Logger.flush api logger.logger start)
backend_sink_it-sink_it_example = backend_sink_it-sink_it api logger hello start
