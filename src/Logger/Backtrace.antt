-- ===== src/Logger/Backtrace.antt =====
-- What a call of the logger does, and what the dump of its backtrace does.
use structlog.Common.{append_assoc, refl, ◌∙◌, append-nil, ap, [], sym, true, ◌∷◌, ◌++◌, ◌≡◌}
use structlog.Level.{Level}
use structlog.LogMsg.{LogMsg}
use structlog.CircularQ.Valid.{IsValid}
use structlog.CircularQ.Refine.{contents}
use mathlib.Core.Path.{fun_ext}
use structlog.Backtracer.Replay.{foreach_pop-fold, fold}
use structlog.Logger.{some, List, ℕ, Sinks, Logger, sink_it, dump_backtrace}
use structlog.Logger.Deliver.{Observed, admitted, levels, sink_it-attempts, sink_it-level}

module _ {W : Type 0} (api : Sinks W) (obs : Observed api) (d : LogMsg) where
  -- The attempts that a list of messages leads to, one message after the other.
  abbrev pub each : (ℕ → Level) → List ℕ → List LogMsg → List (ℕ × LogMsg)
  each lv ss [] = []
  each lv ss (m ∷ ms) = admitted lv ss m ++ each lv ss ms

  fold-attempts :
      (l : Logger) (ms : List LogMsg) (w : W) (lv : ℕ → Level)
      → ((t : ℕ) → api.level_of t w ≡ lv t)
      → (obs.attempts (fold (λ v m. sink_it api l m v) w ms) ≡ obs.attempts w ++ each lv l.sinks ms)
        × ((t : ℕ) → api.level_of t (fold (λ v m. sink_it api l m v) w ms) ≡ lv t)
  fold-attempts l [] w lv h = (sym (append-nil (obs.attempts w)), h)
  fold-attempts l (m ∷ ms) w lv h =
      let (ea, el) =
        fold-attempts l ms (sink_it api l m w) lv (λ t. sink_it-level api obs l m w t ∙ h t) in
      (
        ea
            ∙ ap (λ a. a ++ each lv l.sinks ms) (one l m w lv h)
            ∙ append_assoc (obs.attempts w) (admitted lv l.sinks m) (each lv l.sinks ms),
        el,
      )
    where
      one :
          (l : Logger) (m : LogMsg) (w : W) (lv : ℕ → Level)
          → ((t : ℕ) → api.level_of t w ≡ lv t)
          → obs.attempts (sink_it api l m w) ≡ obs.attempts w ++ admitted lv l.sinks m
      one l m w lv h =
          sink_it-attempts api obs l m w
          ∙ ap (λ f. obs.attempts w ++ admitted f l.sinks m) (fun_ext h)

  -- With sinks as `Observed` describes them, the dump of a backtrace that is on ends; it hands
  -- over the opening message, the messages that were kept, oldest first, and the closing one,
  -- and keeps none of them.
  pub dump_backtrace_lem :
      (l : Logger) (begin_msg end_msg : LogMsg) (w : W)
      → IsValid l.tracer.messages
      → l.tracer.enabled ≡ true
      → (l' : Logger) × (w' : W) × (dump_backtrace api l begin_msg end_msg w ≡ some (l', w'))
        × (obs.attempts w'
            ≡ obs.attempts w
              ++ each
                  (levels api obs w)
                  l.sinks
                  (begin_msg ∷ (contents d l.tracer.messages ++ end_msg ∷ [])))
        × (contents d l'.tracer.messages ≡ [])
  unfolding dump_backtrace
  dump_backtrace_lem l begin_msg end_msg w h e =
      let (t', ef, hv, en) =
        foreach_pop-fold (λ v m. sink_it api l m v) d l.tracer (sink_it api l begin_msg w) h in
      (
        record l { tracer = t' },
        sink_it api l end_msg (
            fold (λ v m. sink_it api l m v) (sink_it api l begin_msg w)
              (contents d l.tracer.messages)),
        simp (e, ef),
        sym (
              ap obs.attempts
                (fold-append (contents d l.tracer.messages) (sink_it api l begin_msg w)))
            ∙ (fold-attempts l (begin_msg ∷ (contents d l.tracer.messages ++ end_msg ∷ [])) w
                (levels api obs w) (λ t. refl)).0,
        en,
      )
    where
      fold-append :
          (ms : List LogMsg) (v : W)
          → fold (λ v m. sink_it api l m v) v (ms ++ end_msg ∷ [])
            ≡ sink_it api l end_msg (fold (λ v m. sink_it api l m v) v ms)
      fold-append [] v = refl
      fold-append (m ∷ ms) v = fold-append ms (sink_it api l m v)
