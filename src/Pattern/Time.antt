-- ===== src/Pattern/Time.antt =====
-- The flags of pattern_formatter-inl.h that print a date or a time of day. `std::tm` comes from the
-- C library; an `int` is an integer with no bound.
use structlog.Common.{[], size_mod, ◌∷◌, length, map, codes, get_or, Option, List, if◌then◌else◌, ℕ}
use structlog.Common.Int.{to_unsigned, rem_ℤ, quot_ℤ, ℤ, pos, ◌+ℤ◌, ◌-ℤ◌, ltb_ℤ}
use structlog.FmtHelper.{Fmt, Buf, append_string_view, push_back, append_int, pad2}
use structlog.Padding.{Padder, PaddingInfo, with_padder}

pub record Tm : Type 0 where
  pub tm_sec : ℤ
  pub tm_min : ℤ
  pub tm_hour : ℤ
  pub tm_mday : ℤ
  pub tm_mon : ℤ
  pub tm_year : ℤ
  pub tm_wday : ℤ
  pub tm_gmtoff : ℤ

-- A `std::tm` cleared by `memset`.
abbrev pub zero_tm : Tm
zero_tm = record {
  tm_sec = pos 0;
  tm_min = pos 0;
  tm_hour = pos 0;
  tm_mday = pos 0;
  tm_mon = pos 0;
  tm_year = pos 0;
  tm_wday = pos 0;
  tm_gmtoff = pos 0;
}

-- An array read at an index cast to `size_t`; out of range it is undefined, and gives nothing here.
abbrev name_at : List (List ℕ) → ℤ → List ℕ
name_at names i = get_or names (to_unsigned size_mod i) []

unfoldable pub ampm : Tm → List ℕ
ampm t = if ltb_ℤ t.tm_hour (pos 12) then codes "AM" else codes "PM"

unfoldable pub to12h : Tm → ℤ
to12h t = if ltb_ℤ (pos 12) t.tm_hour then t.tm_hour -ℤ pos 12 else t.tm_hour

abbrev pub days : List (List ℕ)
days = map codes ("Sun" ∷ "Mon" ∷ "Tue" ∷ "Wed" ∷ "Thu" ∷ "Fri" ∷ "Sat" ∷ [])

abbrev pub full_days : List (List ℕ)
full_days =
    map codes
      ("Sunday" ∷ "Monday" ∷ "Tuesday" ∷ "Wednesday" ∷ "Thursday" ∷ "Friday" ∷ "Saturday" ∷ [])

abbrev pub months : List (List ℕ)
months = map codes (
    "Jan" ∷ "Feb" ∷ "Mar" ∷ "Apr" ∷ "May" ∷ "Jun" ∷ "Jul" ∷ "Aug" ∷ "Sept" ∷ "Oct" ∷ "Nov" ∷ "Dec"
    ∷ [])

abbrev pub full_months : List (List ℕ)
full_months = map codes (
    "January" ∷ "February" ∷ "March" ∷ "April" ∷ "May" ∷ "June" ∷ "July" ∷ "August" ∷ "September"
    ∷ "October" ∷ "November" ∷ "December" ∷ [])

-- What a class with a fixed text does: the text, padded to its own size.
abbrev pub padded_text : Padder → PaddingInfo → List ℕ → Buf → Option Buf
padded_text p info t = with_padder p (length t) info (append_string_view t)

unfoldable pub format_a : Padder → PaddingInfo → Tm → Buf → Option Buf
format_a p info tm = padded_text p info (name_at days tm.tm_wday)

unfoldable pub format_cap_a : Padder → PaddingInfo → Tm → Buf → Option Buf
format_cap_a p info tm = padded_text p info (name_at full_days tm.tm_wday)

unfoldable pub format_b : Padder → PaddingInfo → Tm → Buf → Option Buf
format_b p info tm = padded_text p info (name_at months tm.tm_mon)

unfoldable pub format_cap_b : Padder → PaddingInfo → Tm → Buf → Option Buf
format_cap_b p info tm = padded_text p info (name_at full_months tm.tm_mon)

unfoldable pub format_p : Padder → PaddingInfo → Tm → Buf → Option Buf
unfolding ampm
format_p p info tm = with_padder p 2 info (append_string_view (ampm tm))

-- `utc_minutes_offset` of os-inl.h, where `std::tm` has the offset.
unfoldable pub utc_minutes_offset : Tm → ℤ
utc_minutes_offset tm = quot_ℤ tm.tm_gmtoff 60

module _ (f : Fmt) where
  -- `a:b:c` with two digits each, as several flags print it.
  hms : ℤ → ℤ → ℤ → Buf → Buf
  hms h m s dest = pad2 f s (push_back b':' (pad2 f m (push_back b':' (pad2 f h dest))))

  unfoldable pub format_c : Padder → PaddingInfo → Tm → Buf → Option Buf
  unfolding hms
  format_c p info tm = with_padder p 24 info λ dest.
      let date = push_back b' ' (
        append_int f tm.tm_mday (
          push_back b' ' (
            append_string_view (name_at months tm.tm_mon)
              (push_back b' ' (append_string_view (name_at days tm.tm_wday) dest))))) in
      append_int f (tm.tm_year +ℤ pos 1900)
        (push_back b' ' (hms tm.tm_hour tm.tm_min tm.tm_sec date))

  -- The year's last two digits.
  unfoldable pub format_cap_c : Padder → PaddingInfo → Tm → Buf → Option Buf
  format_cap_c p info tm = with_padder p 2 info (pad2 f (rem_ℤ tm.tm_year 100))

  unfoldable pub format_cap_d : Padder → PaddingInfo → Tm → Buf → Option Buf
  format_cap_d p info tm = with_padder p 10 info λ dest.
      pad2 f (rem_ℤ tm.tm_year 100)
        (push_back b'/' (pad2 f tm.tm_mday (push_back b'/' (pad2 f (tm.tm_mon +ℤ pos 1) dest))))

  unfoldable pub format_cap_y : Padder → PaddingInfo → Tm → Buf → Option Buf
  format_cap_y p info tm = with_padder p 4 info (append_int f (tm.tm_year +ℤ pos 1900))

  unfoldable pub format_m : Padder → PaddingInfo → Tm → Buf → Option Buf
  format_m p info tm = with_padder p 2 info (pad2 f (tm.tm_mon +ℤ pos 1))

  unfoldable pub format_d : Padder → PaddingInfo → Tm → Buf → Option Buf
  format_d p info tm = with_padder p 2 info (pad2 f tm.tm_mday)

  unfoldable pub format_cap_h : Padder → PaddingInfo → Tm → Buf → Option Buf
  format_cap_h p info tm = with_padder p 2 info (pad2 f tm.tm_hour)

  unfoldable pub format_cap_i : Padder → PaddingInfo → Tm → Buf → Option Buf
  unfolding to12h
  format_cap_i p info tm = with_padder p 2 info (pad2 f (to12h tm))

  unfoldable pub format_cap_m : Padder → PaddingInfo → Tm → Buf → Option Buf
  format_cap_m p info tm = with_padder p 2 info (pad2 f tm.tm_min)

  unfoldable pub format_cap_s : Padder → PaddingInfo → Tm → Buf → Option Buf
  format_cap_s p info tm = with_padder p 2 info (pad2 f tm.tm_sec)

  unfoldable pub format_r : Padder → PaddingInfo → Tm → Buf → Option Buf
  unfolding hms to12h ampm
  format_r p info tm = with_padder p 11 info λ dest.
      append_string_view (ampm tm) (push_back b' ' (hms (to12h tm) tm.tm_min tm.tm_sec dest))

  unfoldable pub format_cap_r : Padder → PaddingInfo → Tm → Buf → Option Buf
  format_cap_r p info tm =
      with_padder p 5 info λ dest. pad2 f tm.tm_min (push_back b':' (pad2 f tm.tm_hour dest))

  unfoldable pub format_cap_t : Padder → PaddingInfo → Tm → Buf → Option Buf
  unfolding hms
  format_cap_t p info tm = with_padder p 8 info (hms tm.tm_hour tm.tm_min tm.tm_sec)

  -- The offset from UTC, given in minutes: its sign, hours and minutes.
  unfoldable pub format_offset : Padder → PaddingInfo → ℤ → Buf → Option Buf
  format_offset p info total_minutes = with_padder p 6 info λ dest.
      let negative = ltb_ℤ total_minutes (pos 0) in
      let minutes = if negative then pos 0 -ℤ total_minutes else total_minutes in
      let signed = push_back (if negative then b'-' else b'+') dest in
      pad2 f (rem_ℤ minutes 60) (push_back b':' (pad2 f (quot_ℤ minutes 60) signed))
