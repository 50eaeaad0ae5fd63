-- ===== src/Executor/Tests.antt =====
-- A call that is given params, moved and ended.
use structlog.Common.{refl, ◌≡◌, ◌∷◌, false, ◌+◌, true, [], ℕ, List, codes}
use structlog.Executor.{create, move, apply, destroy}
use structlog.JsonFormatter.{empty_object, assign}
use structlog.DistSink.Recorder.{text_message}
use structlog.Executor.Once.{
  logged, use_all-once, made, called, at_place, use_one, living, use_all, Use,
}

abbrev uses : List (Use ℕ ℕ)
uses =
    Use.make 5 (text_message (codes "hi")) true false
    ∷ Use.add_params 0 ((codes "k", 1) ∷ (codes "k", 2) ∷ [])
    ∷ Use.move_from 0
    ∷ Use.end_life 1
    ∷ Use.end_life 0
    ∷ []

logs_once : use_all uses ([], []) ≡ (
  [],
  record {
    lgr = 5;
    msg = text_message (codes "hi");
    params_buffer = assign (codes "k") 2 (assign (codes "k") 1 empty_object);
    log_enabled = true;
    traceback_enabled = false;
  }
      ∷ [],
)
unfolding use_all use_one at_place create move apply logged destroy
logs_once = refl

use_all-once_example :
    living (λ lgr msg le te. le) (use_all uses ([], [])).0
      + called (λ lgr msg le te. le) (use_all uses ([], [])).1
    ≡ made (λ lgr msg le te. le) uses + 0
use_all-once_example = use_all-once (λ lgr msg le te. le) uses ([], [])
