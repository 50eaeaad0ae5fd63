-- ===== src/Pattern/Caches.antt =====
-- The three caches of the pattern formatters never show: what is printed from a cache is what would
-- be computed for the message, but for the first second of the epoch.
use structlog.Common.{
  false, ◌==◌, length, inr, sym, ◌||◌, ◌∙◌, not, inl, Bool-cases, refl, ==_iff, arith, ap, ◌⊎◌, [],
  true, ◌≢◌, ◌≡◌,
}
use structlog.Common.Int.{negsuc, ◌-ℤ◌, ltb_ℤ, eq_ℤ, ℤ, pos}
use structlog.LogMsg.{LogMsg}
use structlog.FmtHelper.{Fmt, seconds}
use structlog.Pattern.Time.{Tm, zero_tm}
use structlog.Pattern.Full.{DateCache, cache_date, date_text}
use structlog.Pattern.Formatter.{OffsetCache, get_cached_offset}
use structlog.Pattern.Format.{Calendar, TimeCache, PatternTimeType, new_cache, get_time, refresh}

eq_ℤ→eq : (a b : ℤ) → eq_ℤ a b ≡ true → a ≡ b
eq_ℤ→eq (pos a) (pos b) h = ap pos (omega (arith, (==_iff a b).0 h))
eq_ℤ→eq (pos a) (negsuc b) h = cc
eq_ℤ→eq (negsuc a) (pos b) h = cc
eq_ℤ→eq (negsuc a) (negsuc b) h = ap negsuc (omega (arith, (==_iff a b).0 h))

-- The broken-down time is that of the second it was filled for, or nothing was shown yet but
-- messages of the epoch's first second.
abbrev pub IsCurrent : (ℤ → Tm) → TimeCache → Type 0
IsCurrent broken c = (c.cached_tm ≡ broken c.last_log_secs) ⊎ (c.last_log_secs ≡ pos 0)

-- `get_time_` as a function of the second.
abbrev pub time_of : Calendar → PatternTimeType → ℤ → Tm
time_of cal PatternTimeType.local = cal.localtime
time_of cal PatternTimeType.utc = cal.gmtime

get_time_lem :
    (cal : Calendar) (t : PatternTimeType) (time : ℤ)
    → get_time cal t time ≡ time_of cal t (seconds time)
unfolding get_time
get_time_lem cal PatternTimeType.local time = refl
get_time_lem cal PatternTimeType.utc time = refl

-- From a new formatter on, every message outside the epoch's first second is shown with the
-- broken-down time of its own second, and the cache stays as it should be.
pub refresh-IsCurrent :
    (cal : Calendar) (c : TimeCache) (msg : LogMsg)
    → IsCurrent (time_of cal c.time_type) c
    → IsCurrent (time_of cal c.time_type) (refresh cal c msg)
      × (seconds msg.time ≢ pos 0
          → (refresh cal c msg).cached_tm ≡ time_of cal c.time_type (seconds msg.time))
unfolding refresh
refresh-IsCurrent cal c msg h = elim (Bool-cases (eq_ℤ (seconds msg.time) c.last_log_secs)) [
  | inl e ↦ rw e (h, λ ne. shown (eq_ℤ→eq _ _ e) ne h)
  | inr e ↦
      rw e (inl (get_time_lem cal c.time_type msg.time), λ _. get_time_lem cal c.time_type msg.time)
]
  where
    shown :
        seconds msg.time ≡ c.last_log_secs
        → seconds msg.time ≢ pos 0
        → IsCurrent (time_of cal c.time_type) c
        → c.cached_tm ≡ time_of cal c.time_type (seconds msg.time)
    shown e ne (inl t) = t ∙ ap (time_of cal c.time_type) (sym e)
    shown e ne (inr z) = absurd (ne (e ∙ z))

-- A new formatter shows a message of the epoch's first second with a cleared time.
pub refresh-epoch :
    (cal : Calendar) (t : PatternTimeType) (msg : LogMsg)
    → seconds msg.time ≡ pos 0
    → (refresh cal (new_cache t) msg).cached_tm ≡ zero_tm
unfolding refresh new_cache
refresh-epoch cal t msg h = rw (h, refresh)

-- `full_formatter`'s text is that of its second, or empty before the first message.
abbrev pub IsDated : Fmt → (ℤ → Tm) → DateCache → Type 0
IsDated f broken c = (c.datetime ≡ []) ⊎ (c.datetime ≡ date_text f (broken c.timestamp))

-- The text that is shown is that of the message's own second, in every second.
pub cache_date-IsDated :
    (f : Fmt) (broken : ℤ → Tm) (c : DateCache) (msg : LogMsg)
    → IsDated f broken c
    → let c' = cache_date f c msg (broken (seconds msg.time)) in
      IsDated f broken c' × (c'.datetime ≡ date_text f (broken (seconds msg.time)))
unfolding cache_date
cache_date-IsDated f broken c msg h =
    elim (Bool-cases (not (eq_ℤ c.timestamp (seconds msg.time)) || length c.datetime == 0)) [
      | inl e ↦ rw e (inr refl, refl)
      | inr e ↦ rw e (h, shown (parts e) h)
    ]
  where
    parts :
        (not (eq_ℤ c.timestamp (seconds msg.time)) || length c.datetime == 0) ≡ false
        → (eq_ℤ c.timestamp (seconds msg.time) ≡ true) × (length c.datetime ≢ 0)
    parts e = ground arith

    shown :
        (eq_ℤ c.timestamp (seconds msg.time) ≡ true) × (length c.datetime ≢ 0)
        → IsDated f broken c
        → c.datetime ≡ date_text f (broken (seconds msg.time))
    shown p (inl z) = absurd (p.1 (ap length z))
    shown p (inr t) = t ∙ ap (λ s. date_text f (broken s)) (eq_ℤ→eq _ _ p.0)

-- The offset from UTC that is shown was read less than ten seconds before the message's time.
pub get_cached_offset_fresh :
    (c : OffsetCache) (msg : LogMsg) (tm : Tm)
    → ltb_ℤ (msg.time -ℤ (get_cached_offset c msg tm).last_update) (pos 10000000000) ≡ true
unfolding get_cached_offset
get_cached_offset_fresh c msg tm = ground arith
