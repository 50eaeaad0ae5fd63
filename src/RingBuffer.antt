-- ===== src/RingBuffer.antt =====
-- include/spdlog/sinks/ringbuffer_sink.h: a sink that keeps the last messages, over
-- `circular_q`. A formatter changes its own state and the color range of the message that it
-- prints, which is the one in the queue.
pub mod Put
pub mod Formatted
pub mod Kept
mod Tests
use structlog.Common.{
  ℕ, Option, some, List, [], ◌∷◌, ◌>>=◌, ◌-◌, ◌+◌, ◌%◌, zero, suc, set, add_size, sub_size, min,
  ltb, if◌then◌else◌,
}
use structlog.CircularQ.{CircularQ, at, size, push_back, create}

pub record RingBufferSink (A Fm : Type 0) : Type 0 where
  pub q : CircularQ A
  pub formatter : Fm

-- The message that `at` refers to, after the formatter has written to it.
unfoldable pub put : {A : Type 0} → CircularQ A → ℕ → A → CircularQ A
put q i msg = record q { v = set q.v (add_size q.head i % q.max_items) msg }

module _ {A Fm : Type 0} where
  -- The constructor; `default_formatter` is that of `base_sink`.
  pub create_sink : A → Fm → ℕ → RingBufferSink A Fm
  create_sink d default_formatter n_items = record {
    q = create d n_items;
    formatter = default_formatter;
  }

  unfoldable pub sink_it : A → RingBufferSink A Fm → RingBufferSink A Fm
  sink_it msg s = record s { q = push_back s.q msg }

module _ {A Fm : Type 0} (format : Fm → A → List ℕ × A × Fm) where
  -- The loop of `last_formatted` from index `i` on, for `k` items.
  unfoldable pub format_from : CircularQ A → Fm → ℕ → ℕ → Option (List (List ℕ) × CircularQ A × Fm)
  unfolding put
  format_from q formatter i zero = some ([], q, formatter)
  format_from q formatter i (suc k) = at q i >>= λ msg.
      let (formatted, msg', formatter') = format formatter msg in
      format_from (put q i msg') formatter' (i + 1) k >>= λ r. some (formatted ∷ r.0, r.1, r.2)

  -- `ringbuffer_sink::last_formatted`
  unfoldable pub last_formatted :
      RingBufferSink A Fm → ℕ → Option (List (List ℕ) × RingBufferSink A Fm)
  unfolding format_from
  last_formatted s lim =
      let items_available = size s.q in
      let n_items = if ltb 0 lim then min lim items_available else items_available in
      let i = sub_size items_available n_items in
      format_from s.q s.formatter i (items_available - i) >>= λ r.
      some (r.0, record { q = r.1; formatter = r.2 })
