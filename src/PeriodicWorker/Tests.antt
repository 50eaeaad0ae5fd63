-- ===== src/PeriodicWorker/Tests.antt =====
-- A worker that counts its calls.
use structlog.Common.{false, ℕ, suc, ◌≡◌, refl, some, List, [], ◌∷◌}
use structlog.Common.Int.{pos}
use structlog.PeriodicWorker.{PeriodicWorker, Thread, Owner, Wake, create, stop, wake}
use structlog.PeriodicWorker.Ends.{Move, run, step, Ends, run-create}

-- Two intervals end, with a notification in between; a third one ends behind the destructor's
-- start.
abbrev moves : List Move
moves =
    Move.wakes Wake.timed_out
    ∷ Move.wakes Wake.notified
    ∷ Move.wakes Wake.timed_out
    ∷ Move.stops
    ∷ Move.wakes Wake.timed_out
    ∷ []

abbrev after : PeriodicWorker ℕ
after = record { active = false; worker_thread = Thread.returned; owner = Owner.joining; world = 2 }

run-create_example : (after.world ≡ 2) × Ends suc after
unfolding run step wake stop create
run-create_example = run-create suc (pos 5) moves 0 after reached
  where
    reached : run suc moves (create (pos 5) 0) ≡ some after
    reached = refl
