-- ===== src/PeriodicWorker.antt =====
-- include/spdlog/details/periodic_worker.h and periodic_worker-inl.h: a thread that calls a
-- function at intervals, and the end of it. The mutex is held from a wake-up to the next wait,
-- through the call too, and for the destructor's write, so each of these is one step. `W` is
-- what the function changes.
pub mod Ends
mod Tests
use structlog.Common.{
  Bool, true, false, not, Option, none, some, List, [], ◌∷◌, ◌>>=◌, if◌then◌else◌,
}
use structlog.Common.Int.{ℤ, pos, ltb_ℤ}

-- Where the thread is, if there is one.
pub data Thread : Type 0 where
  no_thread waiting returned : Thread

-- Where the owner is: before the destructor, at its `join`, or behind it.
pub data Owner : Type 0 where
  using joining done : Owner

-- What ends a wait: the interval, or a notification, also one that nobody sent.
pub data Wake : Type 0 where
  timed_out notified : Wake

pub record PeriodicWorker (W : Type 0) : Type 0 where
  pub active : Bool
  pub worker_thread : Thread
  pub owner : Owner
  pub world : W

module _ {W : Type 0} where
  -- The constructor.
  unfoldable pub create : ℤ → W → PeriodicWorker W
  create interval w =
      let active = ltb_ℤ (pos 0) interval in
      record {
        active = active;
        worker_thread = if active then Thread.waiting else Thread.no_thread;
        owner = Owner.using;
        world = w;
      }

  -- The destructor up to `join`.
  unfoldable pub stop : PeriodicWorker W → Option (PeriodicWorker W)
  stop p = elim p.owner [
    | using ↦ elim p.worker_thread [
      | no_thread ↦ some (record p { owner = Owner.done })
      | waiting ↦ some (record p { active = false; owner = Owner.joining })
      | returned ↦ some (record p { active = false; owner = Owner.joining })
    ]
    | joining ↦ none
    | done ↦ none
  ]

  -- `join`, which waits for the thread to return.
  unfoldable pub join : PeriodicWorker W → Option (PeriodicWorker W)
  join p = elim p.owner [
    | using ↦ none
    | joining ↦ elim p.worker_thread [
      | no_thread ↦ none
      | waiting ↦ none
      | returned ↦ some (record p { owner = Owner.done })
    ]
    | done ↦ none
  ]

  module _ (callback_fun : W → W) where
    -- `wait_for` and what follows it in the round.
    unfoldable pub wake : Wake → PeriodicWorker W → Option (PeriodicWorker W)
    wake reason p = elim p.worker_thread [
      | no_thread ↦ none
      | waiting ↦
          if not p.active
          then some (record p { worker_thread = Thread.returned })
          else some
              (elim reason [ timed_out ↦ record p { world = callback_fun p.world } | notified ↦ p ])
      | returned ↦ none
    ]
