-- ===== src/TimerQueue.antt =====
-- net/TimerQueue.cc, net/TimerQueue.h, net/Timer.h and net/TimerId.h: the timers of a loop.
-- A `Timer*` is an address. The heap has the timers that are not deleted, and reading a deleted
-- one is `none`, as a failed assert is.
pub mod Restart
pub mod Sets
pub mod Invariant
pub mod Adding
pub mod Alarm
pub mod Calls
pub mod Due
pub mod Expiry
pub mod HandleRead
pub mod Insertion
use dserver.Prelude.{
  ℕ, ◌+◌, Bool, true, false, not, ◌&&◌, Option, none, some, List, [], ◌∷◌, ◌==◌, ltb, if◌then◌else◌,
  ◌>>=◌, ◌>>◌, assert, length,
}
use dserver.TimerQueue.Alarm.{alarm_time}
use dserver.TimerQueue.Sets.{has, insert_pair, erase_pair, before, from}

-- Times are microseconds since the epoch, and `interval` is in them too.
pub record Timer : Type 0 where
  pub callback : ℕ
  pub expiration : ℕ
  pub interval : ℕ
  pub repeat : Bool
  pub sequence : ℕ

pub record TimerQueue : Type 0 where
  pub timers : List (ℕ × ℕ)
  pub active_timers : List (ℕ × ℕ)
  pub calling_expired_timers : Bool
  pub canceling_timers : List (ℕ × ℕ)
  -- The timers that the pointers lead to.
  pub heap : ℕ → Option Timer
  -- The time that the timerfd was last set to run out at.
  pub wakes_at : Option ℕ

-- UINTPTR_MAX.
abbrev pub max_address : ℕ
max_address = 18446744073709551615

abbrev pub write_timer : (ℕ → Option Timer) → ℕ → Option Timer → ℕ → Option Timer
write_timer heap p t q = if p == q then t else heap q

unfoldable pub restart : Timer → ℕ → Timer
restart t now =
    if t.repeat then record t { expiration = now + t.interval } else record t { expiration = 0 }

-- Whether the set is empty, or the time is before its first entry.
unfoldable pub is_earliest : ℕ → List (ℕ × ℕ) → Bool
is_earliest when [] = true
is_earliest when ((w, p) ∷ timers) = ltb when w

unfoldable pub insert : TimerQueue → ℕ → Option (Bool × TimerQueue)
insert q p = do
  assert (length q.timers == length q.active_timers)
  t ← q.heap p
  let earliest_changed = is_earliest t.expiration q.timers
  assert (not (has q.timers t.expiration p))
  assert (not (has q.active_timers p t.sequence))
  let q' : TimerQueue = record q {
    timers = insert_pair q.timers t.expiration p;
    active_timers = insert_pair q.active_timers p t.sequence;
  }
  assert (length q'.timers == length q'.active_timers)
  some (earliest_changed, q')

-- `resetTimerfd`, as it leaves the timerfd: `clock` is the time that it reads itself.
abbrev pub set_timerfd : TimerQueue → ℕ → ℕ → TimerQueue
set_timerfd q clock expiration = record q { wakes_at = some (alarm_time clock expiration) }

unfoldable pub add_timer_in_loop : TimerQueue → ℕ → ℕ → Option TimerQueue
add_timer_in_loop q p clock = do
  done ← insert q p
  t ← done.1.heap p
  some (if done.0 then set_timerfd done.1 clock t.expiration else done.1)

-- `addTimer`, called in the loop's thread: `p` is the address that `new` gives, and `sequence`
-- the number that the counter of the process, `Timer::s_numCreated_`, reaches.
unfoldable pub add_timer : TimerQueue → ℕ → ℕ → ℕ → ℕ → Bool → ℕ → ℕ → Option TimerQueue
add_timer q p cb when interval repeat sequence clock =
    add_timer_in_loop
      (record q {
        heap = write_timer q.heap p (
            some (record {
              callback = cb;
              expiration = when;
              interval = interval;
              repeat = repeat;
              sequence = sequence;
            }));
      })
      p clock

unfoldable pub cancel_in_loop : TimerQueue → ℕ → ℕ → Option TimerQueue
cancel_in_loop q p sequence = do
  assert (length q.timers == length q.active_timers)
  q' ←
      if has q.active_timers p sequence
      then (do
        t ← q.heap p
        assert (has q.timers t.expiration p)
        some (record q {
          timers = erase_pair q.timers t.expiration p;
          active_timers = erase_pair q.active_timers p sequence;
          heap = write_timer q.heap p none;
        }))
      else some (
          if q.calling_expired_timers && not (has q.canceling_timers p sequence)
          then record q { canceling_timers = insert_pair q.canceling_timers p sequence }
          else q)
  assert (length q'.timers == length q'.active_timers)
  some q'

-- The loop of `getExpired` over the expired entries.
unfoldable pub erase_active :
    (ℕ → Option Timer) → List (ℕ × ℕ) → List (ℕ × ℕ) → Option (List (ℕ × ℕ))
erase_active heap [] active = some active
erase_active heap ((w, p) ∷ expired) active = do
  t ← heap p
  assert (has active p t.sequence)
  erase_active heap expired (erase_pair active p t.sequence)

unfoldable pub get_expired : TimerQueue → ℕ → Option (List (ℕ × ℕ) × TimerQueue)
get_expired q now = do
  assert (length q.timers == length q.active_timers)
  let expired = before q.timers now max_address
  let rest = from q.timers now max_address
  active ← erase_active q.heap expired q.active_timers
  assert (length rest == length active)
  some (expired, record q { timers = rest; active_timers = active })

-- The loop of `reset`.
unfoldable pub reset_timers : TimerQueue → List (ℕ × ℕ) → ℕ → Option TimerQueue
reset_timers q [] now = some q
reset_timers q ((w, p) ∷ expired) now = do
  t ← q.heap p
  q' ←
      if t.repeat && not (has q.canceling_timers p t.sequence)
      then (do
        done ← insert (record q { heap = write_timer q.heap p (some (restart t now)) }) p
        some done.1)
      else some (record q { heap = write_timer q.heap p none })
  reset_timers q' expired now

-- The end of `reset`: the timerfd is set to the first timer, if its time is valid.
unfoldable pub wake_next : TimerQueue → List (ℕ × ℕ) → ℕ → Option TimerQueue
wake_next q [] clock = some q
wake_next q ((w, p) ∷ timers) clock = do
  t ← q.heap p
  some (if ltb 0 t.expiration then set_timerfd q clock t.expiration else q)

unfoldable pub reset : TimerQueue → List (ℕ × ℕ) → ℕ → ℕ → Option TimerQueue
reset q expired now clock = do q' ← reset_timers q expired now; wake_next q' q'.timers clock

-- The loop of the callbacks: `run` is what a timer's callback does to the queue.
unfoldable pub run_expired :
    (ℕ → TimerQueue → Option TimerQueue) → TimerQueue → List (ℕ × ℕ) → Option TimerQueue
run_expired run q [] = some q
run_expired run q ((w, p) ∷ expired) = do
  t ← q.heap p
  q' ← run t.callback q
  run_expired run q' expired

-- `handleRead` begins at the time `now`, and its `reset` sets the timerfd at the time `clock`.
unfoldable pub handle_read :
    (ℕ → TimerQueue → Option TimerQueue) → TimerQueue → ℕ → ℕ → Option TimerQueue
handle_read run q now clock = do
  due ← get_expired q now
  q' ← run_expired run (record due.1 { calling_expired_timers = true; canceling_timers = [] }) due.0
  reset (record q' { calling_expired_timers = false }) due.0 now clock
