-- ===== src/LogMsg.antt =====
-- include/spdlog/details/log_msg.h and `source_loc` of common.h. A C string or a string view is
-- the list of its bytes; a time is the number of nanoseconds since the epoch.
use structlog.Common.{ℕ, zero, suc, Bool, true, false, List, []}
use structlog.Common.Int.{ℤ, pos, negsuc}
use structlog.Level.{Level}

pub record SourceLoc : Type 0 where
  pub filename : List ℕ
  pub line : ℤ
  pub funcname : List ℕ

abbrev is_zero : ℤ → Bool
is_zero (pos zero) = true
is_zero (pos (suc n)) = false
is_zero (negsuc n) = false

-- `source_loc::empty`
abbrev pub no_source : SourceLoc → Bool
no_source loc = is_zero loc.line

pub record LogMsg : Type 0 where
  pub logger_name : List ℕ
  pub level : Level
  pub time : ℤ
  pub thread_id : ℕ
  pub source : SourceLoc
  pub payload : List ℕ
  pub color_range_start : ℕ
  pub color_range_end : ℕ

-- The constructors. `thread_id` and `now` are what the operating system says.
module _ (thread_id : ℕ) where
  pub at_time : ℤ → SourceLoc → List ℕ → Level → List ℕ → LogMsg
  at_time log_time loc a_logger_name lvl msg = record {
    logger_name = a_logger_name;
    level = lvl;
    time = log_time;
    thread_id = thread_id;
    source = loc;
    payload = msg;
    color_range_start = 0;
    color_range_end = 0;
  }

  pub at_source : ℤ → SourceLoc → List ℕ → Level → List ℕ → LogMsg
  unfolding at_time
  at_source now loc a_logger_name lvl msg = at_time now loc a_logger_name lvl msg

  pub without_source : ℤ → List ℕ → Level → List ℕ → LogMsg
  unfolding at_time
  without_source now a_logger_name lvl msg =
      at_time now (record { filename = []; line = pos 0; funcname = [] }) a_logger_name lvl msg
