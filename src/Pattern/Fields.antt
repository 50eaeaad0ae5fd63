-- ===== src/Pattern/Fields.antt =====
-- The flags of pattern_formatter-inl.h that print a part of the message, or a time as a number.
use structlog.Common.{◌^◌, size_mod, Option, ℕ}
use structlog.Common.Int.{◌-ℤ◌, quot_ℤ, to_unsigned, pos_part, ℤ, pos}
use structlog.Level.{to_string_view, to_short_c_str}
use structlog.LogMsg.{LogMsg}
use structlog.FmtHelper.{Fmt, Buf, append_int, pad3, pad6, pad9, time_fraction}
use structlog.Padding.{Padder, PaddingInfo, with_padder}
use structlog.Pattern.Time.{padded_text}

unfoldable pub format_n : Padder → PaddingInfo → LogMsg → Buf → Option Buf
format_n p info msg = padded_text p info msg.logger_name

unfoldable pub format_l : Padder → PaddingInfo → LogMsg → Buf → Option Buf
format_l p info msg = padded_text p info (to_string_view msg.level)

unfoldable pub format_cap_l : Padder → PaddingInfo → LogMsg → Buf → Option Buf
format_cap_l p info msg = padded_text p info (to_short_c_str msg.level)

unfoldable pub format_v : Padder → PaddingInfo → LogMsg → Buf → Option Buf
format_v p info msg = padded_text p info msg.payload

-- `ScopedPadder::count_digits`
unfoldable pub padder_count_digits : Fmt → Padder → ℕ → ℕ
padder_count_digits f Padder.scoped_padder n = f.count_digits n
padder_count_digits f Padder.null_scoped_padder n = 0

module _ (f : Fmt) where
  unfoldable pub format_e : Padder → PaddingInfo → LogMsg → Buf → Option Buf
  format_e p info msg =
      with_padder p 3 info (pad3 f (to_unsigned (2 ^ 32) (time_fraction 1000000 msg.time)))

  unfoldable pub format_f : Padder → PaddingInfo → LogMsg → Buf → Option Buf
  format_f p info msg =
      with_padder p 6 info (pad6 f (to_unsigned size_mod (time_fraction 1000 msg.time)))

  unfoldable pub format_cap_f : Padder → PaddingInfo → LogMsg → Buf → Option Buf
  format_cap_f p info msg =
      with_padder p 9 info (pad9 f (to_unsigned size_mod (time_fraction 1 msg.time)))

  unfoldable pub format_cap_e : Padder → PaddingInfo → LogMsg → Buf → Option Buf
  format_cap_e p info msg = with_padder p 10 info (append_int f (quot_ℤ msg.time 1000000000))

  unfoldable pub format_t : Padder → PaddingInfo → LogMsg → Buf → Option Buf
  unfolding padder_count_digits
  format_t p info msg =
      with_padder p (padder_count_digits f p msg.thread_id) info (append_int f (pos msg.thread_id))

  -- `pid` is the process's number from the operating system, cast to `uint32_t`.
  unfoldable pub format_pid : ℕ → Padder → PaddingInfo → Buf → Option Buf
  unfolding padder_count_digits
  format_pid pid p info = with_padder p (padder_count_digits f p pid) info (append_int f (pos pid))

  -- `elapsed_formatter::format`, where `last` is the time of the message before.
  unfoldable pub format_elapsed : ℕ → Padder → PaddingInfo → ℤ → LogMsg → Buf → Option Buf
  unfolding padder_count_digits
  format_elapsed unit p info last msg =
      let delta = pos (pos_part (msg.time -ℤ last)) in
      let count = to_unsigned size_mod (quot_ℤ delta unit) in
      with_padder p (padder_count_digits f p count) info (append_int f (pos count))
