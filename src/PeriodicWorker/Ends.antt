-- ===== src/PeriodicWorker/Ends.antt =====
-- The calls that a periodic worker makes, and the end of its destructor.
use structlog.Common.{
  ◌∙◌, ap, none_ne_some, Option-cases, sym, inr, some_inj, inl, none, refl, subst, Bool-cases, ◌≡◌,
  ℕ, zero, suc, Bool, true, false, Option, some, List, [], ◌∷◌, ◌>>=◌,
}
use structlog.PeriodicWorker.{
  pos, ltb_ℤ, ℤ, create, PeriodicWorker, Thread, Owner, Wake, stop, join, wake,
}

-- A step of the thread or of the owner.
pub data Move : Type 0 where
  wakes : Wake → Move
  stops joins : Move

-- How many intervals end before the destructor, for a worker that is active or not.
abbrev pub intervals : Bool → List Move → ℕ
intervals false ms = 0
intervals true [] = 0
intervals true (Move.wakes Wake.timed_out ∷ ms) = suc (intervals true ms)
intervals true (Move.wakes Wake.notified ∷ ms) = intervals true ms
intervals true (Move.stops ∷ ms) = intervals false ms
intervals true (Move.joins ∷ ms) = intervals true ms

module _ {W : Type 0} (callback_fun : W → W) where
  abbrev pub calls : ℕ → W → W
  calls zero w = w
  calls (suc n) w = calls n (callback_fun w)

  unfoldable pub step : Move → PeriodicWorker W → Option (PeriodicWorker W)
  step (Move.wakes reason) p = wake callback_fun reason p
  step Move.stops p = stop p
  step Move.joins p = join p

  unfoldable pub run : List Move → PeriodicWorker W → Option (PeriodicWorker W)
  run [] p = some p
  run (m ∷ ms) p = step m p >>= run ms

  -- A worker that is active has a thread that waits and an owner that uses it; at its `join`
  -- the owner has made it inactive.
  pub data Sound : PeriodicWorker W → Type 0 where
    idle :
        {w : W}
        → Sound (record {
          active = false;
          worker_thread = Thread.no_thread;
          owner = Owner.using;
          world = w;
        })
    gone :
        {w : W}
        → Sound (record {
          active = false;
          worker_thread = Thread.no_thread;
          owner = Owner.done;
          world = w;
        })
    busy :
        {w : W}
        → Sound (record {
          active = true;
          worker_thread = Thread.waiting;
          owner = Owner.using;
          world = w;
        })
    told :
        {w : W}
        → Sound (record {
          active = false;
          worker_thread = Thread.waiting;
          owner = Owner.joining;
          world = w;
        })
    left :
        {w : W}
        → Sound (record {
          active = false;
          worker_thread = Thread.returned;
          owner = Owner.joining;
          world = w;
        })
    over :
        {w : W}
        → Sound (record {
          active = false;
          worker_thread = Thread.returned;
          owner = Owner.done;
          world = w;
        })

  -- A step that can be made keeps a worker sound, and makes the call of an interval that ends.
  abbrev Good : Move → PeriodicWorker W → Option (PeriodicWorker W) → Type 0
  Good m p none = Unit
  Good m p (some q) =
      Sound q
      × ((ms : List Move)
          → calls (intervals p.active (m ∷ ms)) p.world ≡ calls (intervals q.active ms) q.world)

  step-Good : (m : Move) (p : PeriodicWorker W) → Sound p → Good m p (step m p)
  unfolding step wake stop join
  step-Good (Move.wakes reason) p Sound.idle = tt
  step-Good (Move.wakes reason) p Sound.gone = tt
  step-Good (Move.wakes Wake.timed_out) p Sound.busy = (Sound.busy, λ ms. refl)
  step-Good (Move.wakes Wake.notified) p Sound.busy = (Sound.busy, λ ms. refl)
  step-Good (Move.wakes reason) p Sound.told = (Sound.left, λ ms. refl)
  step-Good (Move.wakes reason) p Sound.left = tt
  step-Good (Move.wakes reason) p Sound.over = tt
  step-Good Move.stops p Sound.idle = (Sound.gone, λ ms. refl)
  step-Good Move.stops p Sound.gone = tt
  step-Good Move.stops p Sound.busy = (Sound.told, λ ms. refl)
  step-Good Move.stops p Sound.told = tt
  step-Good Move.stops p Sound.left = tt
  step-Good Move.stops p Sound.over = tt
  step-Good Move.joins p Sound.idle = tt
  step-Good Move.joins p Sound.gone = tt
  step-Good Move.joins p Sound.busy = tt
  step-Good Move.joins p Sound.told = tt
  step-Good Move.joins p Sound.left = (Sound.over, λ ms. refl)
  step-Good Move.joins p Sound.over = tt

  inactive-intervals : (p : PeriodicWorker W) → calls (intervals p.active []) p.world ≡ p.world
  inactive-intervals p = elim (Bool-cases p.active) [ inl e ↦ rw e refl | inr e ↦ rw e refl ]

  run-Sound :
      (ms : List Move) (p p' : PeriodicWorker W)
      → Sound p
      → run ms p ≡ some p'
      → Sound p' × (p'.world ≡ calls (intervals p.active ms) p.world)
  unfolding run
  run-Sound [] p p' h e =
      subst (λ q. Sound q × (q.world ≡ calls (intervals p.active []) p.world)) (some_inj e)
        (h, sym (inactive-intervals p))
  run-Sound (m ∷ ms) p p' h e = elim (Option-cases (step m p)) [
    | inl f ↦ absurd (none_ne_some (sym (ap (λ o. o >>= run ms) f) ∙ e))
    | inr (q, f) ↦
        let (hq, same) = subst (Good m p) f (step-Good m p h) in
        let (h', out) = run-Sound ms q p' hq (sym (ap (λ o. o >>= run ms) f) ∙ e) in
        (h', out ∙ sym (same ms))
  ]

  -- The destructor's way to its end.
  pub record Ends (p : PeriodicWorker W) : Type 0 where
    pub rest : List Move
    pub ended : PeriodicWorker W
    pub reached : run rest p ≡ some ended
    pub is_done : ended.owner ≡ Owner.done
    pub no_call : ended.world ≡ p.world

  Sound-Ends : (p : PeriodicWorker W) → Sound p → Ends p
  unfolding run step wake stop join
  Sound-Ends p Sound.idle = record {
    rest = Move.stops ∷ [];
    ended = _;
    reached = refl;
    is_done = refl;
    no_call = refl;
  }
  Sound-Ends p Sound.gone = record {
    rest = [];
    ended = _;
    reached = refl;
    is_done = refl;
    no_call = refl;
  }
  Sound-Ends p Sound.busy = record {
    rest = Move.stops ∷ Move.wakes Wake.notified ∷ Move.joins ∷ [];
    ended = _;
    reached = refl;
    is_done = refl;
    no_call = refl;
  }
  Sound-Ends p Sound.told = record {
    rest = Move.wakes Wake.notified ∷ Move.joins ∷ [];
    ended = _;
    reached = refl;
    is_done = refl;
    no_call = refl;
  }
  Sound-Ends p Sound.left = record {
    rest = Move.joins ∷ [];
    ended = _;
    reached = refl;
    is_done = refl;
    no_call = refl;
  }
  Sound-Ends p Sound.over = record {
    rest = [];
    ended = _;
    reached = refl;
    is_done = refl;
    no_call = refl;
  }

  create-Sound : (interval : ℤ) (w : W) → Sound (create interval w)
  unfolding create
  create-Sound interval w = elim (Bool-cases (ltb_ℤ (pos 0) interval)) [
    | inl e ↦ rw e Sound.busy
    | inr e ↦ rw e Sound.idle
  ]

  -- Whatever steps have been made since a worker was created, it has made one call for each
  -- interval that ended before the destructor began, and none where the interval is not
  -- positive; and the destructor can go on to its end from there, without another call.
  pub run-create :
      (interval : ℤ) (ms : List Move) (w : W) (p : PeriodicWorker W)
      → run ms (create interval w) ≡ some p
      → (p.world ≡ calls (intervals (ltb_ℤ (pos 0) interval) ms) w) × Ends p
  unfolding create
  run-create interval ms w p e =
      let (h, out) = run-Sound ms (create interval w) p (create-Sound interval w) e in
      (out, Sound-Ends p h)
