-- ===== src/Backtracer.antt =====
-- include/spdlog/details/backtracer-inl.h and include/spdlog/sinks/ringbuffer_sink.h: the two
-- users of `circular_q` that keep the last messages of a program. Their mutexes make each
-- operation one step.
pub mod Replay
mod Tests
use structlog.Common.{
  ◌∷◌, ◌-◌, sub_size, min, ltb, zero, [], suc, if◌then◌else◌, some, List, ◌+◌, none, true, ℕ,
  Option, false, Bool,
}
use structlog.Common.{◌>>=◌}
use structlog.CircularQ.{
  CircularQ, disabled, create, push_back, front, pop_front, empty, size, at, copy_moveable,
}

-- `log_msg_buffer` is a message with its own copy of the texts.
pub record Backtracer {ℓ} (A : Type ℓ) : Type ℓ where
  pub enabled : Bool
  pub messages : CircularQ A

module _ {ℓ} {A : Type ℓ} where
  pub copy : Backtracer A → Backtracer A
  copy other = record { enabled = other.enabled; messages = other.messages }

  -- The move constructor: the new backtracer, and what is left in `other`.
  pub move : Backtracer A → Backtracer A × Backtracer A
  move other =
      let (mine, left) = copy_moveable other.messages in
      (record { enabled = other.enabled; messages = mine }, record other { messages = left })

  -- The assignment, whose parameter is by value: a copy or what a move made of the argument.
  pub assign : Backtracer A → Backtracer A → Backtracer A × Backtracer A
  assign b other =
      let (mine, left) = copy_moveable other.messages in
      (record b { enabled = other.enabled; messages = mine }, record other { messages = left })

  pub enable : A → Backtracer A → ℕ → Backtracer A
  enable d b n = record b { enabled = true; messages = create d n }

  pub disable : Backtracer A → Backtracer A
  disable b = record b { enabled = false }

  pub push : Backtracer A → A → Backtracer A
  push b msg = record b { messages = push_back b.messages msg }

-- The loop of `foreach_pop`, on fuel: `none` when the fuel ends or a read is undefined.
module _ {ℓ ℓ'} {A : Type ℓ} {B : Type ℓ'} (fun : B → A → B) where
  pop_loop : ℕ → CircularQ A → B → Option (B × CircularQ A)
  pop_loop zero q b = none
  pop_loop (suc n) q b =
      if empty q
      then some (b, q)
      else front q >>= λ x. pop_front q >>= λ q'. pop_loop n q' (fun b x)

  -- A round for each item, and the last test.
  pub foreach_pop : Backtracer A → B → Option (B × Backtracer A)
  unfolding pop_loop
  foreach_pop t b =
      pop_loop (size t.messages + 1) t.messages b >>= λ r. some (r.0, record t { messages = r.1 })

module _ {ℓ} {A : Type ℓ} where
  -- The loop of `last_raw` from index `i` on, for `k` items.
  unfoldable pub read_from : CircularQ A → ℕ → ℕ → Option (List A)
  read_from q i zero = some []
  read_from q i (suc k) = do x ← at q i; xs ← read_from q (i + 1) k; some (x ∷ xs)

  -- `ringbuffer_sink::last_raw`
  unfoldable pub last_raw : CircularQ A → ℕ → Option (List A)
  unfolding read_from
  last_raw q lim =
      let items_available = size q in
      let n_items = if ltb 0 lim then min lim items_available else items_available in
      let i = sub_size items_available n_items in read_from q i (items_available - i)
