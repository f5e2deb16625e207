-- ===== src/TimerQueue/Alarm.antt =====
-- net/TimerQueue.cc, `howMuchTimeFromNow` and `resetTimerfd`: the time for which the timerfd is set.
use dserver.Prelude.{
  ℕ, ◌+◌, ◌-◌, ◌*◌, ◌/◌, ◌%◌, ◌≤◌, ◌<◌, ◌≡◌, ◌≢◌, refl, inl, inr, Option, none, some, ltb,
  if◌then◌else◌, arith, Bool-cases,
}

pub record Timespec : Type 0 where
  pub tv_sec : ℕ
  pub tv_nsec : ℕ

-- `timerfd_settime` with a relative time and no interval: an error, or the nanoseconds after which
-- the descriptor becomes readable, or `none` for a timer that is disarmed.
pub record Timerfd : Type 0 where
  pub settime : Timespec → Option (Option ℕ)
  -- Its manual page has EINVAL for nanoseconds that are not below 999,999,999 + 1, and lets a time
  -- of zero disarm the timer.
  pub armed :
      (t : Timespec)
      → t.tv_nsec < 1000000000
      → t.tv_sec + t.tv_nsec ≢ 0
      → settime t ≡ some (some (t.tv_sec * 1000000000 + t.tv_nsec))

abbrev timespec_of : ℕ → Timespec
timespec_of microseconds = record {
  tv_sec = microseconds / 1000000;
  tv_nsec = microseconds % 1000000 * 1000;
}

unfoldable pub how_much_time_from_now : ℕ → ℕ → Timespec
how_much_time_from_now now when = timespec_of (if ltb (when - now) 100 then 100 else when - now)

-- After an error the timer is as it was.
abbrev set_or_kept : Option ℕ → Option (Option ℕ) → Option ℕ
set_or_kept before none = before
set_or_kept before (some after) = after

unfoldable pub reset_timerfd : Timerfd → Option ℕ → ℕ → ℕ → Option ℕ
reset_timerfd fd before now expiration =
    set_or_kept before (fd.settime (how_much_time_from_now now expiration))

-- The time that is asked for: a time less than 100 microseconds away, or in the past, is moved.
abbrev pub alarm_time : ℕ → ℕ → ℕ
alarm_time now expiration = if ltb expiration (now + 100) then now + 100 else expiration

armed_for :
    (fd : Timerfd) (m : ℕ)
    → 100 ≤ m
    → (delay : ℕ) × (fd.settime (timespec_of m) ≡ some (some delay)) × (delay ≡ m * 1000)
armed_for fd m h =
    let valid : m % 1000000 * 1000 < 1000000000 = omega arith in
    let asked : m / 1000000 + m % 1000000 * 1000 ≢ 0 = (λ e. omega (arith, e, h)) in
    (_, fd.armed (timespec_of m) valid asked, omega arith)

-- resetTimerfd never asks for a time that the timerfd refuses, or that would disarm it: whatever
-- the timer was set to before, it is set to run out exactly when the expiration is reached, or
-- 100 microseconds from now if that is later.
pub reset_timerfd_lem :
    (fd : Timerfd) (before : Option ℕ) (now expiration : ℕ)
    → (delay : ℕ) × (reset_timerfd fd before now expiration ≡ some delay)
      × (now * 1000 + delay ≡ alarm_time now expiration * 1000)
unfolding reset_timerfd how_much_time_from_now
reset_timerfd_lem fd before now expiration = elim (Bool-cases (ltb (expiration - now) 100)) [
  | inl b ↦
      let (delay, e, d) = armed_for fd 100 (omega arith) in
      (delay, rw (b, e) refl, ground (arith, b, d))
  | inr b ↦
      let late : 100 ≤ expiration - now = ground (arith, b) in
      let (delay, e, d) = armed_for fd (expiration - now) late in
      (delay, rw (b, e) refl, ground (arith, b, d))
]
