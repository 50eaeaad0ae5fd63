-- ===== src/Pattern/Formatter.antt =====
-- `flag_formatter` of include/spdlog/pattern_formatter.h: the formatters behind the flags, with
-- the state that three of them keep from one message to the next.
use structlog.Pattern.Full.{format_full, DateCache}
use structlog.Pattern.Source.{format_funcname, format_linenum, format_g, format_s, format_location}
use structlog.Pattern.Fields.{
  format_pid, format_cap_e, format_cap_f, format_f, format_e, format_elapsed, format_v, format_t,
  format_cap_l, format_l, format_n,
}
use structlog.Common.{◌%◌, none, some, length, ◌^◌, List, Option, if◌then◌else◌, ℕ}
use structlog.Common.Int.{ℤ, pos, ◌-ℤ◌, ltb_ℤ}
use structlog.LogMsg.{LogMsg}
use structlog.FmtHelper.{Fmt, Buf, append_string_view, push_back}
use structlog.Padding.{Padder, PaddingInfo}
use structlog.Pattern.Time.{
  format_cap_t, format_cap_r, format_r, format_p, format_cap_s, format_cap_m, format_cap_i,
  format_cap_h, format_d, format_m, format_cap_d, format_offset, utc_minutes_offset, format_cap_y,
  format_cap_c, format_c, format_cap_b, format_b, format_cap_a, format_a, Tm,
}

-- The classes whose objects keep nothing but their padding.
pub data Field : Type 0 where
  name_formatter level_formatter short_level_formatter t_formatter v_formatter : Field
  a_formatter cap_a_formatter b_formatter cap_b_formatter c_formatter : Field
  cap_c_formatter cap_y_formatter cap_d_formatter m_formatter d_formatter : Field
  cap_h_formatter cap_i_formatter cap_m_formatter cap_s_formatter e_formatter : Field
  f_formatter cap_f_formatter cap_e_formatter p_formatter r_formatter : Field
  cap_r_formatter cap_t_formatter pid_formatter source_location_formatter short_filename_formatter :
      Field
  source_filename_formatter source_linenum_formatter source_funcname_formatter : Field

-- What the user's own flags provide (`custom_flag_formatter`).
pub record Custom : Type 1 where
  pub Handler : Type 0
  pub clone : Handler → Handler
  pub set_padding_info : PaddingInfo → Handler → Handler
  pub format : Handler → LogMsg → Tm → Buf → Option (Buf × LogMsg × Handler)

-- What the process's environment provides.
pub record Env : Type 0 where
  pub fmt : Fmt
  pub pid : ℕ

module _ (env : Env) where
  open env use {fmt}

  unfoldable pub format_field : Field → Padder → PaddingInfo → LogMsg → Tm → Buf → Option Buf
  format_field Field.name_formatter pad info msg tm = format_n pad info msg
  format_field Field.level_formatter pad info msg tm = format_l pad info msg
  format_field Field.short_level_formatter pad info msg tm = format_cap_l pad info msg
  format_field Field.t_formatter pad info msg tm = format_t fmt pad info msg
  format_field Field.v_formatter pad info msg tm = format_v pad info msg
  format_field Field.a_formatter pad info msg tm = format_a pad info tm
  format_field Field.cap_a_formatter pad info msg tm = format_cap_a pad info tm
  format_field Field.b_formatter pad info msg tm = format_b pad info tm
  format_field Field.cap_b_formatter pad info msg tm = format_cap_b pad info tm
  format_field Field.c_formatter pad info msg tm = format_c fmt pad info tm
  format_field Field.cap_c_formatter pad info msg tm = format_cap_c fmt pad info tm
  format_field Field.cap_y_formatter pad info msg tm = format_cap_y fmt pad info tm
  format_field Field.cap_d_formatter pad info msg tm = format_cap_d fmt pad info tm
  format_field Field.m_formatter pad info msg tm = format_m fmt pad info tm
  format_field Field.d_formatter pad info msg tm = format_d fmt pad info tm
  format_field Field.cap_h_formatter pad info msg tm = format_cap_h fmt pad info tm
  format_field Field.cap_i_formatter pad info msg tm = format_cap_i fmt pad info tm
  format_field Field.cap_m_formatter pad info msg tm = format_cap_m fmt pad info tm
  format_field Field.cap_s_formatter pad info msg tm = format_cap_s fmt pad info tm
  format_field Field.e_formatter pad info msg tm = format_e fmt pad info msg
  format_field Field.f_formatter pad info msg tm = format_f fmt pad info msg
  format_field Field.cap_f_formatter pad info msg tm = format_cap_f fmt pad info msg
  format_field Field.cap_e_formatter pad info msg tm = format_cap_e fmt pad info msg
  format_field Field.p_formatter pad info msg tm = format_p pad info tm
  format_field Field.r_formatter pad info msg tm = format_r fmt pad info tm
  format_field Field.cap_r_formatter pad info msg tm = format_cap_r fmt pad info tm
  format_field Field.cap_t_formatter pad info msg tm = format_cap_t fmt pad info tm
  format_field Field.pid_formatter pad info msg tm = format_pid fmt (env.pid % 2 ^ 32) pad info
  format_field Field.source_location_formatter pad info msg tm = format_location fmt pad info msg
  format_field Field.short_filename_formatter pad info msg tm = format_s pad info msg
  format_field Field.source_filename_formatter pad info msg tm = format_g pad info msg
  format_field Field.source_linenum_formatter pad info msg tm = format_linenum fmt pad info msg
  format_field Field.source_funcname_formatter pad info msg tm = format_funcname pad info msg

-- `z_formatter`'s cache: when the offset was read, and the offset in minutes.
pub record OffsetCache : Type 0 where
  pub last_update : ℤ
  pub offset_minutes : ℤ

-- `z_formatter::get_cached_offset`: the offset is read again after ten seconds.
unfoldable pub get_cached_offset : OffsetCache → LogMsg → Tm → OffsetCache
unfolding utc_minutes_offset
get_cached_offset cache msg tm =
    if ltb_ℤ (msg.time -ℤ cache.last_update) (pos 10000000000)
    then cache
    else record { last_update = msg.time; offset_minutes = utc_minutes_offset tm }

module _ (custom : Custom) where
  open custom use {Handler}

  pub data FlagFormatter : Type 0 where
    field : Field → Padder → PaddingInfo → FlagFormatter
    ch_formatter : ℕ → FlagFormatter
    aggregate_formatter : List ℕ → FlagFormatter
    color_start_formatter : PaddingInfo → FlagFormatter
    color_stop_formatter : PaddingInfo → FlagFormatter
    z_formatter : Padder → PaddingInfo → OffsetCache → FlagFormatter
    elapsed_formatter : ℕ → Padder → PaddingInfo → ℤ → FlagFormatter
    full_formatter : PaddingInfo → DateCache → FlagFormatter
    custom_formatter : Handler → FlagFormatter

  abbrev pub Formatted : Type 0
  Formatted = Option (Buf × LogMsg × FlagFormatter)

  -- What a formatter that leaves the message alone returns.
  abbrev pub keeping : FlagFormatter → LogMsg → Option Buf → Formatted
  keeping next msg none = none
  keeping next msg (some out) = some (out, msg, next)

  module _ (env : Env) where
    open env use {fmt}

    -- `flag_formatter::format` by class.
    unfoldable pub format_flag : FlagFormatter → LogMsg → Tm → Buf → Formatted
    format_flag (field k pad info) msg tm dest =
        keeping (field k pad info) msg (format_field env k pad info msg tm dest)
    format_flag (ch_formatter ch) msg tm dest = some (push_back ch dest, msg, ch_formatter ch)
    format_flag (aggregate_formatter str) msg tm dest =
        some (append_string_view str dest, msg, aggregate_formatter str)
    format_flag (color_start_formatter info) msg tm dest =
        some (dest, record msg { color_range_start = length dest }, color_start_formatter info)
    format_flag (color_stop_formatter info) msg tm dest =
        some (dest, record msg { color_range_end = length dest }, color_stop_formatter info)
    format_flag (z_formatter pad info cache) msg tm dest =
        let cache' = get_cached_offset cache msg tm in
        keeping (z_formatter pad info cache') msg
          (format_offset fmt pad info cache'.offset_minutes dest)
    format_flag (elapsed_formatter unit pad info last) msg tm dest =
        keeping (elapsed_formatter unit pad info msg.time) msg
          (format_elapsed fmt unit pad info last msg dest)
    format_flag (full_formatter info cache) msg tm dest =
        let (out, msg', cache') = format_full fmt cache msg tm dest in
        some (out, msg', full_formatter info cache')
    format_flag (custom_formatter handler) msg tm dest = elim (custom.format handler msg tm dest) [
      | none ↦ none
      | some (out, msg', handler') ↦ some (out, msg', custom_formatter handler')
    ]
