-- ===== src/CircularQ/Tests.antt =====
-- Runs of `circular_q`, and its theorems at concrete queues.
use structlog.Common.{◌-◌, ◌^◌, ℕ, ◌≡◌, refl, [], ◌∷◌, true, some, arith, keep_last}
use structlog.CircularQ.{CircularQ, create, push_back, pop_front, front, at, size, empty, full}
use structlog.CircularQ.Valid.{IsValid}
use structlog.CircularQ.Refine.{contents, contents-push_back, contents-pop_front}

-- Two slots for items, one of them used, the other reserved: 7 at index 2 and 8 at index 0.
abbrev wrapped : CircularQ ℕ
wrapped = record { max_items = 3; head = 2; tail = 1; overrun_counter = 0; v = 8 ∷ 0 ∷ 7 ∷ [] }

wrapped-IsValid : IsValid wrapped
wrapped-IsValid = omega arith

push_four :
    push_back (push_back (push_back (push_back (create {A = ℕ} 0 2) 1) 2) 3) 4
    ≡ record { max_items = 3; head = 2; tail = 1; overrun_counter = 2; v = 4 ∷ 2 ∷ 3 ∷ [] }
unfolding push_back create
push_four = refl

-- A queue made for SIZE_MAX items wraps to a disabled one.
create_wraps : (create {A = ℕ} 0 (2 ^ 64 - 1)).max_items ≡ 0
unfolding create
create_wraps = refl

reads :
    (size wrapped ≡ 2) × (front wrapped ≡ some 7) × (at wrapped 1 ≡ some 8) × (full wrapped ≡ true)
unfolding size front at full
reads = (refl, refl, refl, refl)

contents-push_back_example : contents 0 (push_back wrapped 9) ≡ keep_last 2 (7 ∷ 8 ∷ 9 ∷ [])
unfolding size
contents-push_back_example = contents-push_back 0 wrapped 9 wrapped-IsValid

contents-pop_front_example :
    (x : ℕ) × (q' : CircularQ ℕ) × (front wrapped ≡ some x)
    × (pop_front wrapped ≡ some q')
    × (contents 0 wrapped ≡ x ∷ contents 0 q')
unfolding empty
contents-pop_front_example = contents-pop_front 0 wrapped wrapped-IsValid refl
