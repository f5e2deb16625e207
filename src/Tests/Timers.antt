-- ===== src/Tests/Timers.antt =====
-- A queue of two timers, and callbacks that cancel one of them.
use dserver.Prelude.{
  ℕ, ap, ◌≢◌, ◌+◌, ◌*◌, ◌≡◌, ◌<◌, ◌≤◌, if◌then◌else◌, refl, inl, inr, true, false, Option, none,
  some, [], ◌∷◌, ◌==◌, arith, Bool-cases,
}
use dserver.TimerQueue.{
  Timer, TimerQueue, write_timer, max_address, add_timer, cancel_in_loop, handle_read,
}
use dserver.TimerQueue.Sets.{has}
use dserver.TimerQueue.Invariant.{IsConsistent}
use dserver.TimerQueue.Due.{AreHeld}
use dserver.TimerQueue.Restart.{Covers}
use dserver.TimerQueue.Calls.{Keeps, cancel_in_loop_lem}
use dserver.TimerQueue.Adding.{IsArmed, Gains, new_timer, add_timer_lem}
use dserver.TimerQueue.HandleRead.{Behaves, handle_read_lem}
use dserver.TimerQueue.Alarm.{Timespec, Timerfd, reset_timerfd, reset_timerfd_lem}

-- A repeating timer at 16 and one that fires once at 32.
abbrev ticking : Timer
ticking = record { callback = 0; expiration = 100; interval = 50; repeat = true; sequence = 1 }

abbrev single : Timer
single = record { callback = 1; expiration = 200; interval = 0; repeat = false; sequence = 2 }

abbrev two_timers : TimerQueue
two_timers = record {
  timers = (100, 16) ∷ (200, 32) ∷ [];
  active_timers = (16, 1) ∷ (32, 2) ∷ [];
  calling_expired_timers = false;
  canceling_timers = [];
  heap = write_timer (write_timer (λ p. none) 16 (some ticking)) 32 (some single);
  wakes_at = some 100;
}

two_timers_timed :
    (w p : ℕ)
    → has two_timers.timers w p ≡ true
    → (t : Timer) × (two_timers.heap p ≡ some t)
      × (t.expiration ≡ w)
      × (has two_timers.active_timers p t.sequence ≡ true)
unfolding has
two_timers_timed w p h = elim (Bool-cases (p == 16)) [
  | inl e ↦ (ticking, ground (arith, e), ground (arith, e, h), ground (arith, e))
  | inr e ↦ (single, ground (arith, e, h), ground (arith, e, h), ground (arith, e, h))
]

two_timers_known :
    (p s : ℕ)
    → has two_timers.active_timers p s ≡ true
    → (t : Timer) × (two_timers.heap p ≡ some t)
      × (t.sequence ≡ s)
      × (has two_timers.timers t.expiration p ≡ true)
unfolding has
two_timers_known p s h = elim (Bool-cases (p == 16)) [
  | inl e ↦ (ticking, ground (arith, e), ground (arith, e, h), ground (arith, e))
  | inr e ↦ (single, ground (arith, e, h), ground (arith, e, h), ground (arith, e, h))
]

two_timers-IsConsistent : IsConsistent two_timers
unfolding has
two_timers-IsConsistent = record {
  ordered = (λ c d h. ground (arith, h), (λ c d h. ground (arith, h), tt));
  active_ordered = (λ c d h. ground (arith, h), (λ c d h. ground (arith, h), tt));
  same_size = refl;
  timed = two_timers_timed;
  known = two_timers_known;
}

two_timers-Covers : Covers two_timers []
unfolding has
two_timers-Covers p t e = ground (arith, e)

two_timers-IsArmed : IsArmed 0 two_timers
unfolding has
two_timers-IsArmed w p h = let le : 100 ≤ w = ground (arith, h) in (100, refl, omega (arith, le))

two_timers-low : (w p : ℕ) → has two_timers.timers w p ≡ true → p < max_address
unfolding has
two_timers-low w p h = ground (arith, h)

none-AreHeld : (q : TimerQueue) → AreHeld q []
unfolding has
none-AreHeld q w p h = cc

-- Each callback cancels the repeating timer.
abbrev cancelling : ℕ → TimerQueue → Option TimerQueue
cancelling cb q = cancel_in_loop q 16 1

cancelling-Behaves : Behaves cancelling
cancelling-Behaves cb q xs v c h =
    let (q', e, (k, n, d)) = cancel_in_loop_lem q xs v c h 16 1 in (q', e, k)

handle_read_example :
    (q' : TimerQueue) × (handle_read cancelling two_timers 150 155 ≡ some q')
    × IsConsistent q'
    × Covers q' []
handle_read_example =
    handle_read_lem cancelling cancelling-Behaves two_timers 150 155 two_timers-IsConsistent
      two_timers-Covers

-- The time of the new timer is past when the timerfd is set: it runs out at 220.
add_timer_example :
    (q' : TimerQueue) × (add_timer two_timers 48 7 90 0 false 3 120 ≡ some q')
    × Keeps two_timers [] q'
    × (q'.heap 48 ≡ some (new_timer 7 90 0 false 3))
    × Gains two_timers 48 (new_timer 7 90 0 false 3) q'
    × IsArmed 220 q'
add_timer_example =
    add_timer_lem two_timers [] two_timers-IsConsistent two_timers-Covers (none-AreHeld two_timers)
      48 refl 7 90 0 false 3 120 0 (omega arith) two_timers-IsArmed

-- What a clock that takes every time is set to; zero disarms it.
abbrev set_clock : Timespec → Option ℕ
set_clock t = if t.tv_sec + t.tv_nsec == 0 then none else some (t.tv_sec * 1000000000 + t.tv_nsec)

set_clock-armed :
    (t : Timespec)
    → t.tv_sec + t.tv_nsec ≢ 0
    → set_clock t ≡ some (t.tv_sec * 1000000000 + t.tv_nsec)
set_clock-armed t n = ground (arith, n)

abbrev clock : Timerfd
clock = record { settime = λ t. some (set_clock t); armed = λ t v n. ap some (set_clock-armed t n) }

-- A timer whose time passed 50 microseconds ago.
reset_timerfd_example :
    (delay : ℕ) × (reset_timerfd clock (some 7) 150 100 ≡ some delay)
    × (150 * 1000 + delay ≡ 250 * 1000)
reset_timerfd_example = reset_timerfd_lem clock (some 7) 150 100
