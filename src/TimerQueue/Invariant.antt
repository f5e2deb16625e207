-- ===== src/TimerQueue/Invariant.antt =====
-- The two sets of net/TimerQueue.h hold the same timers, none of them deleted.
use dserver.Prelude.{ℕ, ◌≡◌, true, false, Option, some, length, arith}
use dserver.TimerQueue.{Timer, TimerQueue, write_timer}
use dserver.TimerQueue.Sets.{has, IsOrdered}

pub record IsConsistent (q : TimerQueue) : Type 0 where
  pub ordered : IsOrdered q.timers
  pub active_ordered : IsOrdered q.active_timers
  pub same_size : length q.timers ≡ length q.active_timers
  -- An entry of `timers_` is a live timer under its expiration, which the other set knows.
  pub timed :
      (w p : ℕ)
      → has q.timers w p ≡ true
      → (t : Timer) × (q.heap p ≡ some t)
        × (t.expiration ≡ w)
        × (has q.active_timers p t.sequence ≡ true)
  -- An entry of `activeTimers_` is a live timer under its sequence, which the other set knows.
  pub known :
      (p s : ℕ)
      → has q.active_timers p s ≡ true
      → (t : Timer) × (q.heap p ≡ some t) × (t.sequence ≡ s) × (has q.timers t.expiration p ≡ true)

-- The timer is in neither set.
abbrev pub IsIdle : TimerQueue → ℕ → Type 0
IsIdle q p = (s : ℕ) → has q.active_timers p s ≡ false

-- A timer that is in neither set may change or go.
module _ (q : TimerQueue) (p : ℕ) (v : IsConsistent q) (i : IsIdle q p) where
  idle_timed :
      (o : Option Timer) (w r : ℕ)
      → has q.timers w r ≡ true
      → (t : Timer) × (write_timer q.heap p o r ≡ some t)
        × (t.expiration ≡ w)
        × (has q.active_timers r t.sequence ≡ true)
  idle_timed o w r h = let (t, e, f, g) = v.timed w r h in (t, ground (arith, i t.sequence), f, g)

  idle_known :
      (o : Option Timer) (r s : ℕ)
      → has q.active_timers r s ≡ true
      → (t : Timer) × (write_timer q.heap p o r ≡ some t)
        × (t.sequence ≡ s)
        × (has q.timers t.expiration r ≡ true)
  idle_known o r s h = let (t, e, f, g) = v.known r s h in (t, ground (arith, i s), f, g)

  pub write_timer-IsConsistent :
      (o : Option Timer) → IsConsistent (record q { heap = write_timer q.heap p o })
  write_timer-IsConsistent o = record {
    ordered = v.ordered;
    active_ordered = v.active_ordered;
    same_size = v.same_size;
    timed = idle_timed o;
    known = idle_known o;
  }
