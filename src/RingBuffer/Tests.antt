-- ===== src/RingBuffer/Tests.antt =====
-- A ring buffer of two places that prints the number of a message and counts what it has printed.
use structlog.Common.{codes, ◌>>=◌, ℕ, some, List, [], ◌∷◌, ◌≡◌, ◌+◌, refl, map, arith}
use structlog.Backtracer.{last_raw, read_from}
use structlog.CircularQ.Valid.{IsValid}
use structlog.CircularQ.{size, push_back, at, overrun}
use structlog.RingBuffer.{sink_it, put, format_from, RingBufferSink, last_formatted}
use structlog.RingBuffer.Kept.{step, Op, run, run-printed}
use structlog.RingBuffer.Formatted.{texts}

-- A message is a number and the end of its color range.
abbrev format : ℕ → ℕ × ℕ → List ℕ × (ℕ × ℕ) × ℕ
format printed m = ((48 + m.0) ∷ (48 + printed) ∷ [], (m.0, 2), printed + 1)

abbrev small : RingBufferSink (ℕ × ℕ) ℕ
small = record {
  q = record {
    max_items = 3;
    head = 0;
    tail = 0;
    overrun_counter = 0;
    v = (0, 0) ∷ (0, 0) ∷ (0, 0) ∷ [];
  };
  formatter = 0;
}

small-IsValid : IsValid small.q
small-IsValid = record {
  storage = refl;
  fits = omega arith;
  head_in = omega arith;
  tail_in = omega arith;
}

abbrev ops : List (Op (ℕ × ℕ))
ops = Op.log (5, 0) ∷ Op.log (6, 0) ∷ Op.read_formatted 1 ∷ Op.log (7, 0) ∷ Op.read_raw 0 ∷ []

-- The first read has printed a message already.
prints :
    (run format ops small >>= λ s. last_formatted format s 0 >>= λ r. some r.0)
    ≡ some (codes "61" ∷ codes "72" ∷ [])
unfolding run step last_formatted format_from put sink_it last_raw push_back at size read_from
    overrun
prints = refl

run-printed_example :
    (s1 : RingBufferSink (ℕ × ℕ) ℕ) × (s2 : RingBufferSink (ℕ × ℕ) ℕ) × (ms : List (ℕ × ℕ)) × (run
        format ops small
      ≡ some s1)
    × (last_formatted format s1 0 ≡ some (texts format s1.formatter ms, s2))
    × (map (λ m. m.0) ms ≡ 6 ∷ 7 ∷ [])
unfolding size
run-printed_example = run-printed format (λ m. m.0) (λ n m. refl) (0, 0) ops 0 small small-IsValid
