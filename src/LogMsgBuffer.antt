-- ===== src/LogMsgBuffer.antt =====
-- include/spdlog/details/log_msg_buffer.h and log_msg_buffer-inl.h, without SPDLOG_JSON_LOGGER:
-- a message that keeps its texts in a buffer of its own. The buffers of the program are a
-- store, by their addresses, and a string view is a place in one of them.
pub mod Texts
mod Tests
use structlog.Common.{ℕ, List, [], ◌++◌, ◌==◌, take, drop, if◌then◌else◌}

pub record View : Type 0 where
  pub base : ℕ
  pub offset : ℕ
  pub size : ℕ

abbrev pub Store : Type 0
Store = ℕ → List ℕ

abbrev pub read : Store → View → List ℕ
read st v = take v.size (drop v.offset (st v.base))

abbrev pub write : ℕ → List ℕ → Store → Store
write a text st = λ b. if b == a then text else st b

-- The string views of a `log_msg`; `A` are its other fields.
pub record Msg (A : Type 0) : Type 0 where
  pub logger_name : View
  pub payload : View
  pub fields : A

module _ {A : Type 0} where
  -- `a` is the address of the message's buffer.
  unfoldable pub update_string_views : ℕ → Msg A → Msg A
  update_string_views a m = record m {
    logger_name = record { base = a; offset = 0; size = m.logger_name.size };
    payload = record { base = a; offset = m.logger_name.size; size = m.payload.size };
  }

  -- The constructor of a `log_msg`, and the copy constructor, whose code is the same.
  unfoldable pub of_msg : ℕ → Msg A → Store → Msg A × Store
  unfolding update_string_views
  of_msg a orig_msg st = (
    update_string_views a orig_msg,
    write a (read st orig_msg.logger_name ++ read st orig_msg.payload) st,
  )

  -- The move constructor; `b` is the address of the other's buffer. What the move of fmt's
  -- memory_buffer leaves there is a parameter.
  unfoldable pub move : ℕ → ℕ → List ℕ → Msg A → Store → Msg A × Store
  unfolding update_string_views
  move a b moved_from other st =
      (update_string_views a other, write b moved_from (write a (st b) st))

  -- The copy assignment: the buffer is cleared, and then gets what is in the other.
  unfoldable pub assign_copy : ℕ → ℕ → Msg A → Store → Msg A × Store
  unfolding update_string_views
  assign_copy a b other st =
      let cleared = write a [] st in
      (update_string_views a other, write a (cleared a ++ cleared b) cleared)

  unfoldable pub assign_move : ℕ → ℕ → List ℕ → Msg A → Store → Msg A × Store
  unfolding update_string_views
  assign_move a b moved_from other st =
      (update_string_views a other, write b moved_from (write a (st b) st))
