-- ===== src/GlobalPool/Flushing.antt =====
-- What `flush_all` flushes, and where it stops.
use structlog.Common.{
  Bool, if◌then◌else◌, Bool-cases, Bool-cases, arith, ℕ, true, false, some, none, List, [], ◌∷◌,
  ◌++◌, ◌≡◌, ◌≢◌, ◌∙◌, arith, refl, ◌⊎◌, inl, inr, ap,
}
use structlog.BlockingQ.Order.{OverflowPolicy}
use structlog.Registry.{Map}
use structlog.GlobalPool.{Kind, Globals, Flushes, lock, flush_logger, flush_loop, flush_all}

Kind-cases :
    (k : Kind)
    → (k ≡ Kind.synchronous)
      ⊎ ((p : ℕ) × (policy : OverflowPolicy) × (k ≡ Kind.asynchronous p policy))
Kind-cases Kind.synchronous = inl refl
Kind-cases (Kind.asynchronous p policy) = inr (p, policy, refl)

pub sync_ne_async :
    {p : ℕ} {policy : OverflowPolicy} → Kind.synchronous ≢ Kind.asynchronous p policy
sync_ne_async e = cc

pub async_inj :
    {p q : ℕ} {a b : OverflowPolicy} → Kind.asynchronous p a ≡ Kind.asynchronous q b → p ≡ q
async_inj e = cc

module _ {F H : Type 0} where
  -- A logger whose pool is gone.
  pub record Orphan (s : Globals F H) (r : ℕ) : Type 0 where
    pub thread_pool : ℕ
    pub policy : OverflowPolicy
    pub kind : s.kinds r ≡ Kind.asynchronous thread_pool policy
    pub gone : lock thread_pool s ≡ none

  -- A logger whose pool is there, if it needs one.
  abbrev pub Served : Globals F H → ℕ → Type 0
  Served s r =
      (p : ℕ) (policy : OverflowPolicy) → s.kinds r ≡ Kind.asynchronous p policy → lock p s ≡ some p

  lock_self : (s : Globals F H) (p q : ℕ) → lock p s ≡ some q → q ≡ p
  unfolding lock
  lock_self s p q e = ground (arith, e)

  module _ {W : Type 0} (flushes : Flushes W) where
    -- One logger's flush, as if its pool were there.
    abbrev flush_one : Globals F H → ℕ → W → Bool × W
    flush_one s r w = elim (s.kinds r) [
      | Kind.synchronous ↦ flushes.flush_sinks r w
      | Kind.asynchronous p policy ↦ (true, flushes.post_flush p r policy w)
    ]

    -- The loggers are flushed once each, in the order of the map, up to a plain logger that throws.
    abbrev pub flush_each : Globals F H → Map ℕ → W → Bool × W
    flush_each s [] w = (true, w)
    flush_each s ((k, r) ∷ m) w =
        let (ok, w') = flush_one s r w in
        let rest = flush_each s m w' in if ok then rest else (false, w')

    pub flush_logger-Orphan :
        (s : Globals F H) (r : ℕ) (w : W) → Orphan s r → flush_logger flushes r s w ≡ (false, w)
    unfolding flush_logger
    flush_logger-Orphan s r w o = rw (flush_logger, o.kind, o.gone) refl

    flush_logger-Served :
        (s : Globals F H) (r : ℕ) (w : W)
        → Served s r
        → flush_logger flushes r s w ≡ flush_one s r w
    unfolding flush_logger
    flush_logger-Served s r w h = elim (Kind-cases (s.kinds r)) [
      | inl e ↦ rw (flush_logger, flush_one, e) refl
      | inr (p, policy, e) ↦ rw (flush_logger, flush_one, e, h p policy e) refl
    ]

    flush_loop-Served :
        (s : Globals F H) (m : Map ℕ) (w : W)
        → ((r : ℕ) → Served s r)
        → flush_loop flushes m s w ≡ flush_each s m w
    unfolding flush_loop
    flush_loop-Served s [] w h = refl
    flush_loop-Served s ((k, r) ∷ m) w h =
        rw (flush_loop, flush_logger-Served s r w (h r))
          (ap (λ rest. if (flush_one s r w).0 then rest else (false, (flush_one s r w).1))
            (flush_loop-Served s m (flush_one s r w).1 h))

    pub flush_all-Served :
        (s : Globals F H) (w : W)
        → ((r : ℕ) → Served s r)
        → flush_all flushes s w ≡ flush_each s s.registry.loggers w
    unfolding flush_all
    flush_all-Served s w h = flush_loop-Served s s.registry.loggers w h

    flush_loop-Orphan :
        (s : Globals F H) (before after : Map ℕ) (k : List ℕ) (r : ℕ) (w : W)
        → Orphan s r
        → flush_loop flushes (before ++ (k, r) ∷ after) s w
          ≡ (false, (flush_loop flushes before s w).1)
    unfolding flush_loop
    flush_loop-Orphan s [] after k r w o = rw (flush_loop, flush_logger-Orphan s r w o) refl
    flush_loop-Orphan s ((j, q) ∷ before) after k r w o =
        elim (Bool-cases (flush_logger flushes q s w).0) [
          | inl e ↦
              rw (flush_loop, e)
                (flush_loop-Orphan s before after k r (flush_logger flushes q s w).1 o)
          | inr e ↦ rw (flush_loop, e) refl
        ]

    -- Where a registered logger is an async logger whose pool is gone, `flush_all` throws; it has
    -- done then what flushing the loggers before that one does, and those behind it are not
    -- flushed.
    pub flush_all-Orphan :
        (s : Globals F H) (before after : Map ℕ) (k : List ℕ) (r p : ℕ) (policy : OverflowPolicy)
        (w : W)
        → s.registry.loggers ≡ before ++ (k, r) ∷ after
        → s.kinds r ≡ Kind.asynchronous p policy
        → lock p s ≡ none
        → flush_all flushes s w ≡ (false, (flush_loop flushes before s w).1)
    unfolding flush_all
    flush_all-Orphan s before after k r p policy w e kind gone =
        ap (λ m. flush_loop flushes m s w) e
        ∙ flush_loop-Orphan s before after k r w
            (record { thread_pool = p; policy = policy; kind = kind; gone = gone })
