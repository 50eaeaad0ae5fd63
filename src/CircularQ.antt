-- ===== src/CircularQ.antt =====
-- include/spdlog/details/circular_q.h: a bounded queue over a vector with one reserved slot.
-- An index out of the vector's range and a remainder by 0 are undefined there, and `none` here.
pub mod Valid
pub mod Window
pub mod Moves
pub mod Refine
pub mod Counts
mod Tests
use structlog.Common.{
  ℕ, ◌-◌, ◌%◌, ◌+◌, Bool, true, false, Option, none, some, List, [], ltb, leb, ◌==◌, ◌&&◌,
  if◌then◌else◌, get_elem?, set, replicate, size_mod, add_size, sub_size,
}

pub record CircularQ {ℓ} (A : Type ℓ) : Type ℓ where
  pub max_items : ℕ
  pub head : ℕ
  pub tail : ℕ
  pub overrun_counter : ℕ
  pub v : List A

module _ {ℓ} {A : Type ℓ} where
  -- `circular_q()`: a disabled queue.
  pub disabled : CircularQ A
  disabled = record { max_items = 0; head = 0; tail = 0; overrun_counter = 0; v = [] }

  -- `circular_q(max_items)`. The vector's elements are value-initialised, here to `d`.
  unfoldable pub create : A → ℕ → CircularQ A
  create d n = record {
    max_items = add_size n 1;
    head = 0;
    tail = 0;
    overrun_counter = 0;
    v = replicate (add_size n 1) d;
  }

  -- The second half of `push_back`: the oldest item is overrun if the queue is full.
  unfoldable pub overrun : CircularQ A → CircularQ A
  overrun q =
      if q.tail == q.head
      then record q {
        head = add_size q.head 1 % q.max_items;
        overrun_counter = add_size q.overrun_counter 1;
      }
      else q

  unfoldable pub push_back : CircularQ A → A → CircularQ A
  unfolding overrun
  push_back q item =
      if ltb 0 q.max_items
      then overrun (record q { v = set q.v q.tail item; tail = add_size q.tail 1 % q.max_items })
      else q

  unfoldable pub front : CircularQ A → Option A
  front q = get_elem? q.v q.head

  unfoldable pub size : CircularQ A → ℕ
  size q =
      if leb q.head q.tail
      then sub_size q.tail q.head
      else sub_size q.max_items (sub_size q.head q.tail)

  unfoldable pub at : CircularQ A → ℕ → Option A
  unfolding size
  at q i =
      if ltb i (size q) && ltb 0 q.max_items
      then get_elem? q.v (add_size q.head i % q.max_items)
      else none

  unfoldable pub pop_front : CircularQ A → Option (CircularQ A)
  pop_front q =
      if q.max_items == 0 then none else some (record q { head = add_size q.head 1 % q.max_items })

  unfoldable pub empty : CircularQ A → Bool
  empty q = q.tail == q.head

  unfoldable pub full : CircularQ A → Bool
  full q = if ltb 0 q.max_items then add_size q.tail 1 % q.max_items == q.head else false

  -- The new queue, and what the move leaves in `other` (a moved-from vector is empty).
  pub copy_moveable : CircularQ A → CircularQ A × CircularQ A
  copy_moveable other =
      (other, record other { max_items = 0; head = 0; tail = 0; overrun_counter = 0; v = [] })
