-- ===== src/Backtracer/Tests.antt =====
-- Backtracers and ring buffers at concrete messages.
use structlog.Common.{refl, ◌≡◌, ◌∷◌, [], ℕ, some}
use structlog.CircularQ.{CircularQ, at, size}
use structlog.Backtracer.{last_raw}

-- Room for three messages; it holds 5, 6 and 7 and goes round the vector's end.
abbrev recent : CircularQ ℕ
recent = record { max_items = 4; head = 2; tail = 1; overrun_counter = 1; v = 7 ∷ 0 ∷ 5 ∷ 6 ∷ [] }

last_two : last_raw recent 2 ≡ some (6 ∷ 7 ∷ [])
unfolding size last_raw at
last_two = refl
