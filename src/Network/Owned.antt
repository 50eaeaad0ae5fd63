-- ===== src/Network/Owned.antt =====
-- The descriptors that a process has open, apart from the one of a client.
use structlog.Registry.Apply.{true_ne_false}
use structlog.Common.{
  ==_iff, ℕ, Bool, true, false, Option, none, some, ◌≡◌, ◌∙◌, ◌==◌, ◌||◌, ◌&&◌, not, refl, sym, ap,
  inl, inr, Bool-cases,
}
use structlog.Network.{Net, Descriptors}

abbrev pub owns : Option ℕ → ℕ → Bool
owns none t = false
owns (some s) t = t == s

module _ {W : Type 0} (net : Net W) (d : Descriptors net) where
  open d use {is_open}

  -- The process has open what the client has, if it is connected, and the others.
  pub record Owned (others : ℕ → Bool) (client : Option ℕ) (w : W) : Type 0 where
    pub held : (t : ℕ) → is_open w t ≡ (owns client t || others t)
    pub apart : (t : ℕ) → owns client t ≡ true → others t ≡ false

  -- Before there is a client.
  pub nothing-Owned : (w : W) → Owned (is_open w) none w
  nothing-Owned w = record { held = λ t. refl; apart = λ t e. absurd (true_ne_false (sym e)) }

  module _ {others : ℕ → Bool} where
    -- A call that opens and closes nothing.
    pub Owned-same :
        (client : Option ℕ) (w w' : W)
        → ((t : ℕ) → is_open w' t ≡ is_open w t)
        → Owned others client w
        → Owned others client w'
    Owned-same client w w' same h = record { held = λ t. same t ∙ h.held t; apart = h.apart }

    pub close-Owned : (s : ℕ) (w : W) → Owned others (some s) w → Owned others none (net.close s w)
    close-Owned s w h = record {
      held = λ t. d.close_open s w t ∙ ap (λ b. not (t == s) && b) (h.held t) ∙ left t;
      apart = λ t e. absurd (true_ne_false (sym e));
    }
      where
        left : (t : ℕ) → (not (t == s) && (t == s || others t)) ≡ others t
        left t = elim (Bool-cases (t == s)) [ inl e ↦ rw e (sym (h.apart t e)) | inr e ↦ rw e refl ]

    pub socket-Owned :
        (w : W) (s : ℕ)
        → (net.socket w).0 ≡ some s
        → Owned others none w
        → Owned others (some s) (net.socket w).1
    socket-Owned w s e h = record {
      held = λ t. d.socket_open w s t e ∙ ap (λ b. t == s || b) (h.held t);
      apart = λ t u. sym (h.held t) ∙ ap (is_open w) ((==_iff t s).0 u) ∙ d.socket_new w s e;
    }
