-- ===== src/DistSink/Deliver.antt =====
-- Which sinks a message reaches through a distribution sink.
use structlog.Common.{
  arith, ℕ, Bool, true, false, List, [], ◌∷◌, ◌++◌, ◌≡◌, ◌⊎◌, inl, inr, ap, sym, ◌∙◌, refl,
  Bool-cases, append-nil, append_assoc,
}
use structlog.Level.{Level, ge}
use structlog.LogMsg.{LogMsg}
use structlog.Logger.{Sinks}
use structlog.Logger.Deliver.{Observed, admitted, levels}
use structlog.DistSink.{dist_loop}

module _ {W : Type 0} (api : Sinks W) (obs : Observed api) (m : LogMsg) where
  -- The sinks of the list get the message one after the other, and none of them throws.
  pub data AllTook : List (ℕ × LogMsg) → W → W → Type 0 where
    nil : {w : W} → AllTook [] w w
    cons :
        {s : ℕ} {rest : List (ℕ × LogMsg)} {w w1 w2 : W}
        → api.log s m w ≡ (true, w1)
        → AllTook rest w1 w2
        → AllTook ((s, m) ∷ rest) w w2

  -- What a pass over the sinks of `all` does from `w`: either all get the message and none throws,
  -- or those before one of them do, that one throws, the pass throws, and it ends there.
  abbrev pub Passes : List (ℕ × LogMsg) → W → Bool × W → Type 0
  Passes all w (ok, w') =
      ((ok ≡ true) × AllTook all w w')
      ⊎ ((before after : List (ℕ × LogMsg)) × (s : ℕ) × (v : W) × (ok ≡ false)
          × (all ≡ before ++ (s, m) ∷ after)
          × AllTook before w v
          × (api.log s m v ≡ (false, w')))

  AllTook-attempts :
      {all : List (ℕ × LogMsg)} {w w' : W}
      → AllTook all w w'
      → obs.attempts w' ≡ obs.attempts w ++ all
  AllTook-attempts {w = w} AllTook.nil = sym (append-nil (obs.attempts w))
  AllTook-attempts {w = w} (AllTook.cons {s = s} {rest = rest} e h) =
      AllTook-attempts h
      ∙ ap (λ a. a ++ rest)
          (ap (λ (r : Bool × W). obs.attempts r.1) (sym e) ∙ obs.log_attempts s m w)
      ∙ append_assoc (obs.attempts w) ((s, m) ∷ []) rest

  -- What the sinks have been handed after a pass: all of them, or those up to the one that threw.
  pub Passes-attempts :
      (all : List (ℕ × LogMsg)) (w : W) (r : Bool × W)
      → Passes all w r
      → (obs.attempts r.1 ≡ obs.attempts w ++ all)
        ⊎ ((before after : List (ℕ × LogMsg)) × (s : ℕ) × (all ≡ before ++ (s, m) ∷ after)
            × (obs.attempts r.1 ≡ obs.attempts w ++ (before ++ (s, m) ∷ [])))
  Passes-attempts all w r (inl p) = inl (AllTook-attempts p.1)
  Passes-attempts all w r (inr p) =
      let (before, after, s, v, failed, ea, took, er) = p in
      inr (
        before,
        after,
        s,
        ea,
        ap (λ (x : Bool × W). obs.attempts x.1) (sym er)
            ∙ obs.log_attempts s m v
            ∙ ap (λ a. a ++ (s, m) ∷ []) (AllTook-attempts took)
            ∙ append_assoc (obs.attempts w) before ((s, m) ∷ []),
      )

  Passes-cons :
      (s : ℕ) (all : List (ℕ × LogMsg)) (w w1 : W) (r : Bool × W)
      → api.log s m w ≡ (true, w1)
      → Passes all w1 r
      → Passes ((s, m) ∷ all) w r
  Passes-cons s all w w1 r e (inl p) = inl (p.0, AllTook.cons e p.1)
  Passes-cons s all w w1 r e (inr p) =
      let (before, after, t, v, failed, ea, took, er) = p in
      inr ((s, m) ∷ before, after, t, v, failed, ap (◌∷◌ (s, m)) ea, AllTook.cons e took, er)

  -- The same, of the sinks that admit the message by `lv`.
  dist_loop-Passes :
      (ss : List ℕ) (w : W) (lv : ℕ → Level)
      → ((t : ℕ) → api.level_of t w ≡ lv t)
      → Passes (admitted lv ss m) w (dist_loop api ss m w)
  unfolding dist_loop
  dist_loop-Passes [] w lv h = inl (refl, AllTook.nil)
  dist_loop-Passes (s ∷ ss) w lv h = elim (Bool-cases (ge m.level (lv s))) [
    | inr e ↦ rw (h s, e) (dist_loop-Passes ss w lv h)
    | inl e ↦ elim (Bool-cases (api.log s m w).0) [
      | inr t ↦
          rw (h s, e, t)
            (inr (
              [],
              admitted lv ss m,
              s,
              w,
              refl,
              refl,
              AllTook.nil,
              ap (λ b. (b, (api.log s m w).1)) t,
            ))
      | inl t ↦
          rw (h s, e, t)
            (Passes-cons s (admitted lv ss m) w _ _ (ap (λ b. (b, (api.log s m w).1)) t)
              (dist_loop-Passes ss (api.log s m w).1 lv (λ u. obs.log_level s u m w ∙ h u)))
    ]
  ]

  -- A message is logged by the sinks that admit it, in order: either each of them gets it, none
  -- throws, and the operation does not throw; or one of them throws, those before it have got the
  -- message without a throw, and the operation throws and ends there. The sinks change no levels.
  pub dist_loop-attempts :
      (ss : List ℕ) (w : W) → Passes (admitted (levels api obs w) ss m) w (dist_loop api ss m w)
  dist_loop-attempts ss w = dist_loop-Passes ss w (levels api obs w) (λ t. refl)

  pub dist_loop-level :
      (ss : List ℕ) (w : W) (t : ℕ) → api.level_of t (dist_loop api ss m w).1 ≡ api.level_of t w
  unfolding dist_loop
  dist_loop-level [] w t = refl
  dist_loop-level (s ∷ ss) w t = elim (Bool-cases (ge m.level (api.level_of s w))) [
    | inr e ↦ rw e (dist_loop-level ss w t)
    | inl e ↦ elim (Bool-cases (api.log s m w).0) [
      | inr f ↦ rw (e, f) (obs.log_level s t m w)
      | inl f ↦ rw (e, f) (dist_loop-level ss (api.log s m w).1 t ∙ obs.log_level s t m w)
    ]
  ]

  -- Sinks that do not throw all get the message.
  pub dist_loop-all :
      ((s : ℕ) (v : W) → (api.log s m v).0 ≡ true)
      → (ss : List ℕ) (w : W) (lv : ℕ → Level) → ((t : ℕ) → api.level_of t w ≡ lv t)
      → ((dist_loop api ss m w).0 ≡ true)
        × (obs.attempts (dist_loop api ss m w).1 ≡ obs.attempts w ++ admitted lv ss m)
  dist_loop-all accepts ss w lv h = elim (dist_loop-Passes ss w lv h) [
    | inl p ↦ (p.0, AllTook-attempts p.1)
    | inr p ↦
        let (before, after, t, v, failed, ea, took, er) = p in
        absurd (ground (arith, accepts t v, ap (λ r. r.0) er))
  ]
