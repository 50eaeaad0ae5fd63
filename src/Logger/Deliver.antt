-- ===== src/Logger/Deliver.antt =====
-- Which sinks a message reaches.
use structlog.Common.{
  append_assoc, ap, true, append-nil, inr, refl, inl, [], if◌then◌else◌, ◌∙◌, sym, Bool-cases, ◌++◌,
  ◌∷◌, ◌≡◌,
}
use structlog.Common.{true, false}
use structlog.Level.{Level, ge}
use structlog.LogMsg.{LogMsg}
use structlog.Logger.{
  Bool, List, ℕ, Sinks, Logger, should_flush, guarded, log_loop, flush_loop, flush, sink_it,
}

-- What is relied on of the sinks, beside what their interface leaves out (they throw nothing
-- but a `std::exception`, and the handler of errors returns): `attempts` records the messages
-- handed to each sink, in order; the calls change nobody's level, and neither flushing nor the
-- handler of errors logs.
pub record Observed {W : Type 0} (api : Sinks W) : Type 0 where
  pub attempts : W → List (ℕ × LogMsg)
  pub log_attempts :
      (s : ℕ) (m : LogMsg) (w : W) → attempts (api.log s m w).1 ≡ attempts w ++ (s, m) ∷ []
  pub flush_attempts : (s : ℕ) (w : W) → attempts (api.flush s w).1 ≡ attempts w
  pub handler_attempts : (w : W) → attempts (api.err_handler w) ≡ attempts w
  pub log_level :
      (s t : ℕ) (m : LogMsg) (w : W) → api.level_of t (api.log s m w).1 ≡ api.level_of t w
  pub flush_level : (s t : ℕ) (w : W) → api.level_of t (api.flush s w).1 ≡ api.level_of t w
  pub handler_level : (t : ℕ) (w : W) → api.level_of t (api.err_handler w) ≡ api.level_of t w

-- The sinks whose level admits the message, each with the message.
abbrev pub admitted : (ℕ → Level) → List ℕ → LogMsg → List (ℕ × LogMsg)
admitted levels [] m = []
admitted levels (s ∷ ss) m =
    if ge m.level (levels s) then (s, m) ∷ admitted levels ss m else admitted levels ss m

module _ {W : Type 0} (api : Sinks W) (obs : Observed api) where
  abbrev pub levels : W → ℕ → Level
  levels w s = api.level_of s w

  -- Neither a throw nor its handler is a message or changes a level.
  guarded-attempts : (r : Bool × W) → obs.attempts (guarded api r) ≡ obs.attempts r.1
  unfolding guarded
  guarded-attempts (true, w) = refl
  guarded-attempts (false, w) = obs.handler_attempts w

  guarded-level : (r : Bool × W) (t : ℕ) → api.level_of t (guarded api r) ≡ api.level_of t r.1
  unfolding guarded
  guarded-level (true, w) t = refl
  guarded-level (false, w) t = obs.handler_level t w

  log_loop-level :
      (ss : List ℕ) (m : LogMsg) (w : W) (t : ℕ)
      → api.level_of t (log_loop api ss m w) ≡ api.level_of t w
  unfolding log_loop
  log_loop-level [] m w t = refl
  log_loop-level (s ∷ ss) m w t = elim (Bool-cases (ge m.level (api.level_of s w))) [
    | inl e ↦ rw e (
        log_loop-level ss m (guarded api (api.log s m w)) t
        ∙ guarded-level (api.log s m w) t
        ∙ obs.log_level s t m w)
    | inr e ↦ rw e (log_loop-level ss m w t)
  ]

  log_loop-attempts :
      (ss : List ℕ) (m : LogMsg) (w : W) (lv : ℕ → Level)
      → ((t : ℕ) → api.level_of t w ≡ lv t)
      → obs.attempts (log_loop api ss m w) ≡ obs.attempts w ++ admitted lv ss m
  unfolding log_loop
  log_loop-attempts [] m w lv h = sym (append-nil (obs.attempts w))
  log_loop-attempts (s ∷ ss) m w lv h = elim (Bool-cases (ge m.level (lv s))) [
    | inl e ↦
        rw (h s, e)
          (log_loop-attempts ss m (guarded api (api.log s m w)) lv
              (λ t. guarded-level (api.log s m w) t ∙ obs.log_level s t m w ∙ h t)
            ∙ ap (λ a. a ++ admitted lv ss m)
                (guarded-attempts (api.log s m w) ∙ obs.log_attempts s m w)
            ∙ append_assoc (obs.attempts w) ((s, m) ∷ []) (admitted lv ss m))
    | inr e ↦ rw (h s, e) (log_loop-attempts ss m w lv h)
  ]

  flush_loop-attempts : (ss : List ℕ) (w : W) → obs.attempts (flush_loop api ss w) ≡ obs.attempts w
  unfolding flush_loop
  flush_loop-attempts [] w = refl
  flush_loop-attempts (s ∷ ss) w =
      flush_loop-attempts ss (guarded api (api.flush s w))
      ∙ guarded-attempts (api.flush s w)
      ∙ obs.flush_attempts s w

  flush_loop-level :
      (ss : List ℕ) (w : W) (t : ℕ) → api.level_of t (flush_loop api ss w) ≡ api.level_of t w
  unfolding flush_loop
  flush_loop-level [] w t = refl
  flush_loop-level (s ∷ ss) w t =
      flush_loop-level ss (guarded api (api.flush s w)) t
      ∙ guarded-level (api.flush s w) t
      ∙ obs.flush_level s t w

  -- The sinks are as `Observed` describes them, throw nothing but a `std::exception`, and the
  -- handler of errors returns. Then a message is handed to every sink of the logger whose level
  -- admits it, once for each place in its list and in order, whichever of the sinks throw.
  pub sink_it-attempts :
      (l : Logger) (m : LogMsg) (w : W)
      → obs.attempts (sink_it api l m w) ≡ obs.attempts w ++ admitted (levels w) l.sinks m
  unfolding sink_it flush
  sink_it-attempts l m w = elim (Bool-cases (should_flush l m)) [
    | inl e ↦
        rw e (flush_loop-attempts l.sinks _ ∙ log_loop-attempts l.sinks m w (levels w) (λ t. refl))
    | inr e ↦ rw e (log_loop-attempts l.sinks m w (levels w) (λ t. refl))
  ]

  pub sink_it-level :
      (l : Logger) (m : LogMsg) (w : W) (t : ℕ)
      → api.level_of t (sink_it api l m w) ≡ api.level_of t w
  unfolding sink_it flush
  sink_it-level l m w t = elim (Bool-cases (should_flush l m)) [
    | inl e ↦ rw e (flush_loop-level l.sinks _ t ∙ log_loop-level l.sinks m w t)
    | inr e ↦ rw e (log_loop-level l.sinks m w t)
  ]

  pub flush-attempts : (l : Logger) (w : W) → obs.attempts (flush api l w) ≡ obs.attempts w
  unfolding flush
  flush-attempts l w = flush_loop-attempts l.sinks w

  pub flush-level : (l : Logger) (w : W) (t : ℕ) → api.level_of t (flush api l w) ≡ api.level_of t w
  unfolding flush
  flush-level l w t = flush_loop-level l.sinks w t
