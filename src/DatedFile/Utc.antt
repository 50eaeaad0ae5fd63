-- ===== src/DatedFile/Utc.antt =====
-- A calendar without months or changes of the clock, which meets what is asked of the local time.
use structlog.Common.{◌∙◌, ap₂, ap, ℕ, true, false, ◌≡◌, ◌+◌, ◌*◌, ◌/◌, ◌%◌, ◌-◌, arith}
use structlog.Common.Int.{ℤ, pos, negsuc, ◌+ℤ◌, ltb_ℤ, scale_ℤ}
use structlog.Pattern.Time.{zero_tm}
use structlog.DatedFile.Daily.{Calendar}
use structlog.DatedFile.NextTime.{Days, Hours}

-- The day of a time, and the seconds since it began.
abbrev day : ℤ → ℤ
day (pos n) = pos (n / 86400)
day (negsuc n) = negsuc (n / 86400)

abbrev second_of_day : ℤ → ℕ
second_of_day (pos n) = n % 86400
second_of_day (negsuc n) = 86399 - n % 86400

unfoldable pub utc : Calendar
utc = record {
  localtime = λ t. record zero_tm {
    tm_mday = day t;
    tm_hour = pos (second_of_day t / 3600);
    tm_min = pos (second_of_day t % 3600 / 60);
    tm_sec = pos (second_of_day t % 60);
  };
  mktime = λ tm.
      scale_ℤ tm.tm_mday 86400 +ℤ (scale_ℤ tm.tm_hour 3600 +ℤ (scale_ℤ tm.tm_min 60 +ℤ tm.tm_sec));
}

midnight-started : (t : ℤ) → ltb_ℤ t (scale_ℤ (day t) 86400) ≡ false
midnight-started (pos n) = ground arith
midnight-started (negsuc n) = ground arith

midnight-not_over : (t : ℤ) → ltb_ℤ t (scale_ℤ (day t) 86400 +ℤ pos 86400) ≡ true
midnight-not_over (pos n) = ground arith
midnight-not_over (negsuc n) = ground arith

scale-pos : (a k : ℕ) → scale_ℤ (pos a) k ≡ pos (a * k)
scale-pos a k = ground arith

add-pos : (a b : ℕ) → pos a +ℤ pos b ≡ pos (a + b)
add-pos a b = ground arith

time_of_day :
    (d : ℤ) (h m : ℕ)
    → d +ℤ (scale_ℤ (pos h) 3600 +ℤ (scale_ℤ (pos m) 60 +ℤ pos 0)) ≡ d +ℤ pos (h * 3600 + m * 60)
time_of_day d h m =
    ap (λ e. d +ℤ e)
      (ap₂ (λ a b. a +ℤ (b +ℤ pos 0)) (scale-pos h 3600) (scale-pos m 60)
        ∙ ap (λ b. pos (h * 3600) +ℤ b) (add-pos (m * 60) 0 ∙ ap pos (omega arith))
        ∙ add-pos (h * 3600) (m * 60))

hour_of : ℤ → ℤ
hour_of t = scale_ℤ (day t) 86400 +ℤ pos (second_of_day t / 3600 * 3600)

hour-started : (t : ℤ) → ltb_ℤ t (hour_of t) ≡ false
unfolding hour_of
hour-started (pos n) = ground arith
hour-started (negsuc n) = ground arith

hour-not_over : (t : ℤ) → ltb_ℤ t (hour_of t +ℤ pos 3600) ≡ true
unfolding hour_of
hour-not_over (pos n) = ground arith
hour-not_over (negsuc n) = ground arith

pub utc-Days : Days utc
unfolding utc
utc-Days = record {
  midnight = λ t. scale_ℤ (day t) 86400;
  started = midnight-started;
  not_over = midnight-not_over;
  makes = λ t h m lh lm. time_of_day (scale_ℤ (day t) 86400) h m;
}

pub utc-Hours : Hours utc
unfolding utc hour_of
utc-Hours = record {
  hour = hour_of;
  hour_started = hour-started;
  hour_not_over = hour-not_over;
  makes_hour = λ t.
      ap (λ e. scale_ℤ (day t) 86400 +ℤ e)
        (ap (λ a. a +ℤ pos 0) (scale-pos (second_of_day t / 3600) 3600)
          ∙ add-pos (second_of_day t / 3600 * 3600) 0
          ∙ ap pos (omega arith));
}
