-- ===== src/DupFilter.antt =====
-- include/spdlog/sinks/dup_filter_sink.h. Durations are numbers of microseconds, time points
-- numbers of nanoseconds; what the constructor of a message reads of the clock and the thread
-- is an argument.
pub mod Blocks
pub mod Run
mod Tests
use structlog.Common.{
  [], ℕ, Bool, true, false, not, List, ◌++◌, ◌||◌, ◌&&◌, ltb, length, text_eq, codes, add_size, ◌%◌,
  ◌^◌, if◌then◌else◌,
}
use structlog.Common.Int.{ℤ, pos, ◌-ℤ◌, ltb_ℤ, scale_ℤ}
use structlog.Level
use structlog.LogMsg.{LogMsg, SourceLoc}
use structlog.FmtHelper.Printer.{printer}
use structlog.Logger.{Sinks}
use structlog.DistSink.{dist_loop}

pub record DupFilterSink : Type 0 where
  pub sinks : List ℕ
  pub max_skip_duration : ℤ
  pub last_msg_time : ℤ
  pub last_msg_payload : List ℕ
  pub skip_counter : ℕ

pub create : ℤ → DupFilterSink
create max_skip_duration = record {
  sinks = [];
  max_skip_duration = max_skip_duration;
  last_msg_time = pos 0;
  last_msg_payload = [];
  skip_counter = 0;
}

-- `filter_`: whether the message should be displayed. The source compares two counts of 64 bits;
-- the numbers here have no bound, which is the same where neither count overflows.
pub filter : DupFilterSink → LogMsg → Bool
filter s msg =
    let filter_duration = msg.time -ℤ s.last_msg_time in
    ltb_ℤ (scale_ℤ s.max_skip_duration 1000) filter_duration
    || not (text_eq msg.payload s.last_msg_payload)

-- "Skipped %u duplicate messages..", of the counter cast to `unsigned`.
unfoldable pub skipped_text : ℕ → List ℕ
skipped_text skip_counter =
    codes "Skipped "
    ++ (printer.format_int (pos (skip_counter % 2 ^ 32)) ++ codes " duplicate messages..")

-- The message that `log_msg` makes of three arguments, with the clock's reading and the thread.
pub skipped_msg : LogMsg → ℕ → ℤ → ℕ → LogMsg
unfolding skipped_text
skipped_msg msg skip_counter now thread_id = record {
  logger_name = msg.logger_name;
  level = Level.info;
  time = now;
  thread_id = thread_id;
  source = record { filename = []; line = pos 0; funcname = [] };
  payload = skipped_text skip_counter;
  color_range_start = 0;
  color_range_end = 0;
}

module _ {W : Type 0} (api : Sinks W) where
  -- The message on the skipped ones, if there are any and it fits the buffer.
  pub log_skipped : DupFilterSink → LogMsg → ℤ → ℕ → W → Bool × W
  unfolding skipped_msg
  log_skipped s msg now thread_id w =
      let msg_size = length (skipped_text s.skip_counter) in
      if ltb 0 s.skip_counter && (ltb 0 msg_size && ltb msg_size 64)
      then dist_loop api s.sinks (skipped_msg msg s.skip_counter now thread_id) w
      else (true, w)

  -- False is a throw of one of the sinks.
  pub sink_it : DupFilterSink → LogMsg → ℤ → ℕ → W → Bool × DupFilterSink × W
  unfolding filter log_skipped
  sink_it s msg now thread_id w =
      let (told, w1) = log_skipped s msg now thread_id w in
      let (logged, w2) = dist_loop api s.sinks msg w1 in
      if not (filter s msg)
      then (true, record s { skip_counter = add_size s.skip_counter 1 }, w)
      else if not told
      then (false, s, w1)
      else if not logged
      then (false, s, w2)
      else (
        true,
        record s { last_msg_time = msg.time; skip_counter = 0; last_msg_payload = msg.payload },
        w2,
      )
