-- ===== src/DatedFile/NextTime.antt =====
-- The time of the next rotation.
use structlog.Pattern.Time.{Tm}
use structlog.Common.{
  refl, inr, inl, ◌⊎◌, Bool, List, if◌then◌else◌, ℕ, true, false, ◌≡◌, ◌<◌, ◌+◌, ◌*◌, arith,
}
use structlog.Common.Int.{ℤ, pos, ◌+ℤ◌, ltb_ℤ}
use structlog.FmtHelper.{seconds}
use structlog.DatedFile.Daily
use structlog.DatedFile.Hourly
use structlog.DatedFile.Daily.{now_tm, Calendar, hours, from_time_t}

-- A local time in which a day has 24 hours and starts at midnight.
pub record Days (c : Calendar) : Type 0 where
  pub midnight : ℤ → ℤ
  pub started : (t : ℤ) → ltb_ℤ t (midnight t) ≡ false
  pub not_over : (t : ℤ) → ltb_ℤ t (midnight t +ℤ pos 86400) ≡ true
  pub makes :
      (t : ℤ) (h m : ℕ)
      → h < 24
      → m < 60
      → c.mktime (record (c.localtime t) { tm_hour = pos h; tm_min = pos m; tm_sec = pos 0 })
        ≡ midnight t +ℤ pos (h * 3600 + m * 60)

-- One in which an hour has 3600 seconds and starts where the minutes and seconds are 0.
pub record Hours (c : Calendar) : Type 0 where
  pub hour : ℤ → ℤ
  pub hour_started : (t : ℤ) → ltb_ℤ t (hour t) ≡ false
  pub hour_not_over : (t : ℤ) → ltb_ℤ t (hour t +ℤ pos 3600) ≡ true
  pub makes_hour :
      (t : ℤ) → c.mktime (record (c.localtime t) { tm_min = pos 0; tm_sec = pos 0 }) ≡ hour t

-- `r` comes after `now`, and at most `period` later.
abbrev pub Follows : ℤ → ℕ → ℤ → Type 0
Follows now period r = (ltb_ℤ now r ≡ true) × (ltb_ℤ (now +ℤ pos period) r ≡ false)

if-either {ℓ} :
    {A : Type ℓ} (b : Bool) (x y : A) → ((if b then x else y) ≡ x) ⊎ ((if b then x else y) ≡ y)
if-either true x y = inl refl
if-either false x y = inr refl

-- A time of the day, or the same one on the day after.
time_of_day_lem :
    (midnight : ℤ) (o n : ℕ)
    → o < 86400
    → ltb_ℤ (seconds (pos n)) midnight ≡ false
    → ltb_ℤ (seconds (pos n)) (midnight +ℤ pos 86400) ≡ true
    → Follows (pos n) (hours 24) (
        if ltb_ℤ (pos n) (from_time_t (midnight +ℤ pos o))
        then from_time_t (midnight +ℤ pos o)
        else from_time_t (midnight +ℤ pos o) +ℤ pos (hours 24))
unfolding seconds from_time_t
time_of_day_lem midnight o n small a b = ground arith

hour_lem :
    (hour : ℤ) (n : ℕ)
    → ltb_ℤ (seconds (pos n)) hour ≡ false
    → ltb_ℤ (seconds (pos n)) (hour +ℤ pos 3600) ≡ true
    → Follows (pos n) (hours 1) (
        if ltb_ℤ (pos n) (from_time_t hour)
        then from_time_t hour
        else from_time_t hour +ℤ pos (hours 1))
unfolding seconds from_time_t
hour_lem hour n a b = ground arith

-- A daily sink's next rotation comes after the clock's reading, at most 24 hours later, at the
-- hour and minute asked for on that day or the day after. The reading is not before the epoch,
-- the hour and the minute are of a day, and each day has 24 hours.
pub daily-next_rotation_tp :
    (c : Calendar) (d : Days c) (calc : List ℕ → Tm → List ℕ) (h m n : ℕ)
    → h < 24
    → m < 60
    → let r = Daily.next_rotation_tp c calc (pos h) (pos m) (pos n) in
      let t = from_time_t (d.midnight (seconds (pos n)) +ℤ pos (h * 3600 + m * 60)) in
      Follows (pos n) (hours 24) r × ((r ≡ t) ⊎ (r ≡ t +ℤ pos (hours 24)))
unfolding Daily.next_rotation_tp now_tm
daily-next_rotation_tp c d calc h m n lh lm = rw (d.makes (seconds (pos n)) h m lh lm) (
  time_of_day_lem (d.midnight (seconds (pos n))) (h * 3600 + m * 60) n (omega arith)
      (d.started (seconds (pos n))) (d.not_over (seconds (pos n))),
  if-either _ _ _,
)

-- An hourly sink's next rotation comes after the clock's reading, at the start of the next
-- hour. The reading is not before the epoch, and each hour has 3600 seconds.
pub hourly-next_rotation_tp :
    (c : Calendar) (d : Hours c) (calc : List ℕ → Tm → List ℕ) (n : ℕ)
    → Follows (pos n) (hours 1) (Hourly.next_rotation_tp c calc (pos n))
unfolding Hourly.next_rotation_tp now_tm
hourly-next_rotation_tp c d calc n = rw (d.makes_hour (seconds (pos n))) (
    hour_lem (d.hour (seconds (pos n))) n (d.hour_started (seconds (pos n)))
      (d.hour_not_over (seconds (pos n))))
