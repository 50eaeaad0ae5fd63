-- ===== src/Pattern/Full.antt =====
-- `full_formatter` of pattern_formatter-inl.h, the format behind the flag `%+`, with its cache
-- of the date's text.
use structlog.Pattern.Source.{basename}
use structlog.Common.{◌==◌, ◌||◌, length, ltb, not, [], ◌^◌, List, if◌then◌else◌, ℕ}
use structlog.Common.Int.{eq_ℤ, ◌+ℤ◌, to_unsigned, ℤ, pos}
use structlog.Level.{to_string_view}
use structlog.LogMsg.{LogMsg, no_source}
use structlog.FmtHelper.{
  seconds, Fmt, Buf, append_string_view, append_int, push_back, pad2, pad3, time_fraction,
}
use structlog.Pattern.Time.{Tm}

-- `full_formatter`'s cache: the second that it was filled at, and the text.
pub record DateCache : Type 0 where
  pub timestamp : ℤ
  pub datetime : Buf

module _ (f : Fmt) where
  -- The text from `[` to the dot before the milliseconds.
  unfoldable pub date_text : Tm → Buf
  date_text tm = push_back b'.' (
      pad2 f tm.tm_sec (
        push_back b':' (
          pad2 f tm.tm_min (
            push_back b':' (
              pad2 f tm.tm_hour (
                push_back b' ' (
                  pad2 f tm.tm_mday (
                    push_back b'-' (
                      pad2 f (tm.tm_mon +ℤ pos 1) (
                        push_back b'-'
                          (append_int f (tm.tm_year +ℤ pos 1900) (push_back b'[' []))))))))))))

  unfoldable pub cache_date : DateCache → LogMsg → Tm → DateCache
  unfolding date_text
  cache_date cache msg tm =
      if not (eq_ℤ cache.timestamp (seconds msg.time)) || length cache.datetime == 0
      then record { timestamp = seconds msg.time; datetime = date_text tm }
      else cache

  -- A text between brackets, and a space.
  bracketed : List ℕ → Buf → Buf
  bracketed text dest =
      push_back b' ' (push_back b']' (append_string_view text (push_back b'[' dest)))

  -- What `full_formatter::format` appends behind the date.
  full_rest : LogMsg → Buf → Buf × LogMsg
  unfolding bracketed
  full_rest msg dest =
      let millis = to_unsigned (2 ^ 32) (time_fraction 1000000 msg.time) in
      let timed = push_back b' ' (push_back b']' (pad3 f millis dest)) in
      let named =
        if ltb 0 (length msg.logger_name) then bracketed msg.logger_name timed else timed in
      let opened = push_back b'[' named in
      let level = append_string_view (to_string_view msg.level) opened in
      let closed = push_back b' ' (push_back b']' level) in
      let loc = msg.source in
      let located =
        if no_source loc
        then closed
        else push_back b' ' (
            push_back b']' (
              append_int f loc.line (
                push_back b':'
                  (append_string_view (basename loc.filename) (push_back b'[' closed))))) in
      (
        append_string_view msg.payload located,
        record msg { color_range_start = length opened; color_range_end = length level },
      )

  unfoldable pub format_full : DateCache → LogMsg → Tm → Buf → Buf × LogMsg × DateCache
  unfolding cache_date full_rest
  format_full cache msg tm dest =
      let cache' = cache_date cache msg tm in
      let (out, msg') = full_rest msg (append_string_view cache'.datetime dest) in
      (out, msg', cache')
