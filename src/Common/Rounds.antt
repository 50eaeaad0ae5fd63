-- ===== src/Common/Rounds.antt =====
-- Indices that go round at `n`, where a sum makes less than two turns.
use Prim.Native.Nat.{ℕ, ◌+◌, ◌-◌, ◌%◌, ◌≤◌, ◌<◌}
use mathlib.Core.Path.{◌≡◌, ap, ◌∙◌}
use mathlib.Core.Logic.{◌≢◌, ◌⊎◌, inl, inr}
use native.Mathlib.Decide.{dec_lt}
use native.Mathlib.Nat.{mod-add-mod, mod-eq_of_lt, mod-eq-sub-mod}
use native.Mathlib.Omega.{arith}

-- A sum below two turns goes round at most once.
pub round-cases :
    (h k n : ℕ)
    → h < n
    → k < n
    → ((h + k < n) × ((h + k) % n ≡ h + k)) ⊎ ((n ≤ h + k) × ((h + k) % n ≡ h + k - n))
round-cases h k n hh hk = elim (dec_lt (h + k) n) [
  | yes p ↦ inl (p, mod-eq_of_lt p)
  | no p ↦
      inr
        (omega arith, mod-eq-sub-mod {n = h + k} {m = n} (omega arith) ∙ mod-eq_of_lt (omega arith))
]

-- Two indices less than a turn apart name two slots.
pub slot-ne : (n h j l : ℕ) → h < n → j < l → l < n → (h + j) % n ≢ (h + l) % n
slot-ne n h j l hh hj hl =
    omega (arith, round-cases h j n hh (omega arith), round-cases h l n hh hl)

-- Counting from the next slot is counting one place further.
pub rotate-slot : (n h i : ℕ) → ((h + 1) % n + i) % n ≡ (h + (i + 1)) % n
rotate-slot n h i = mod-add-mod (h + 1) n i ∙ ap (λ a. a % n) (omega arith)
