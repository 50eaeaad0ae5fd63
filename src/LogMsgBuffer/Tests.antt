-- ===== src/LogMsgBuffer/Tests.antt =====
-- Messages whose texts are in a buffer of the program.
use structlog.Common.{ℕ, [], ◌≡◌, refl, codes, ◌==◌, if◌then◌else◌, arith}
use structlog.LogMsgBuffer.{Store, Msg, of_msg, assign_copy, update_string_views, move, assign_move}
use structlog.LogMsgBuffer.Texts.{texts, Valid, Owns, Keeps, log_msg_buffer-Keeps}

-- The program's text at the address 0, and the buffer of a message at 1.
abbrev store : Store
store = λ b. if b == 0 then codes "log: hello" else if b == 1 then codes "apphi" else []

abbrev orig : Msg ℕ
orig = record {
  logger_name = record { base = 0; offset = 0; size = 3 };
  payload = record { base = 0; offset = 5; size = 5 };
  fields = 7;
}

abbrev other : Msg ℕ
other = record {
  logger_name = record { base = 1; offset = 0; size = 3 };
  payload = record { base = 1; offset = 3; size = 2 };
  fields = 8;
}

-- A copy has its texts, and an assignment of a message to itself loses them.
copies :
    (texts (of_msg 2 orig store).0 (of_msg 2 orig store).1 ≡ (codes "log", codes "hello"))
    × ((assign_copy 1 1 other store).1 1 ≡ [])
unfolding of_msg assign_copy update_string_views
copies = (refl, refl)

orig-Valid : Valid orig store
orig-Valid = record { name_in = refl; payload_in = refl }

other-Owns : Owns 1 other store
other-Owns = record {
  name_text = codes "app";
  payload_text = codes "hi";
  buffer = refl;
  name_view = refl;
  payload_view = refl;
}

log_msg_buffer-Keeps_example :
    Keeps 2 orig store (of_msg 2 orig store)
    × Keeps 2 other store (move 2 1 (codes "apphi") other store)
    × Keeps 2 other store (assign_copy 2 1 other store)
    × Keeps 2 other store (assign_move 2 1 (codes "apphi") other store)
log_msg_buffer-Keeps_example =
    log_msg_buffer-Keeps 2 1 (codes "apphi") orig other store orig-Valid other-Owns (omega arith)
