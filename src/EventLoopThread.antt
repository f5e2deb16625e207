-- ===== src/EventLoopThread.antt =====
-- net/EventLoopThread.cc over base/Thread.cc and base/CountDownLatch.cc: a thread is started, makes
-- its loop, and hands it to its owner. A step is a section under a lock, or what lies between two.
-- `none` is a failed assert or a step that a thread which sleeps or has ended cannot make.
pub mod Starting
use dserver.Prelude.{
  ℕ, ◌-◌, Bool, true, false, not, Option, none, some, ltb, ◌==◌, if◌then◌else◌, ◌>>=◌, ◌>>◌, assert,
}

-- Where the owner is in `startLoop`: at its call of `start`, in `latch_.wait()` awake or asleep, in
-- the loop that waits for `loop_` awake or asleep, or behind it with the loop.
pub data OwnerPlace : Type 0 where
  at_start at_latch asleep_at_latch at_loop asleep_at_loop : OwnerPlace
  has_loop : ℕ → OwnerPlace

-- Where the new thread is: in `runInThread`, in `threadFunc` before its lock, or in `loop()`.
pub data ThreadPlace : Type 0 where
  not_created in_start in_func in_loop : ThreadPlace

pub record EventLoopThread : Type 0 where
  -- `count_` of the latch.
  pub count : ℕ
  -- `loop_`, an address.
  pub loop : Option ℕ
  pub thread_started : Bool
  pub tid : ℕ
  pub owner : OwnerPlace
  pub thread : ThreadPlace

-- The constructors.
abbrev pub new_event_loop_thread : EventLoopThread
new_event_loop_thread = record {
  count = 1;
  loop = none;
  thread_started = false;
  tid = 0;
  owner = at_start;
  thread = not_created;
}

-- The two conditions.
abbrev pub wake_at_latch : OwnerPlace → OwnerPlace
wake_at_latch asleep_at_latch = at_latch
wake_at_latch o = o

abbrev pub wake_at_loop : OwnerPlace → OwnerPlace
wake_at_loop asleep_at_loop = at_loop
wake_at_loop o = o

-- `Thread::start`, up to its wait: `created` is whether `pthread_create` succeeds.
unfoldable pub start_thread : Bool → EventLoopThread → Option EventLoopThread
start_thread created s = do
  assert (not s.thread_started)
  some (
      if created
      then record s { thread_started = true; owner = at_latch; thread = in_start }
      else record s { thread_started = true; owner = at_loop })

-- A turn of `CountDownLatch::wait`.
unfoldable pub wait_latch : EventLoopThread → EventLoopThread
wait_latch s = record s { owner = if ltb 0 s.count then asleep_at_latch else at_loop }

abbrev loop_or_sleep : Option ℕ → OwnerPlace
loop_or_sleep none = asleep_at_loop
loop_or_sleep (some loop) = has_loop loop

-- A turn of the wait for `loop_`.
unfoldable pub wait_loop : EventLoopThread → EventLoopThread
wait_loop s = record s { owner = loop_or_sleep s.loop }

-- `countDown`.
unfoldable pub count_down : EventLoopThread → EventLoopThread
count_down s = record s {
  count = s.count - 1;
  owner = if s.count - 1 == 0 then wake_at_latch s.owner else s.owner;
}

-- `runInThread`, up to the function.
unfoldable pub run_in_thread : ℕ → EventLoopThread → EventLoopThread
run_in_thread gettid s = record (count_down (record s { tid = gettid })) { thread = in_func }

-- `threadFunc`, up to `loop()`: `address` is where its loop lies.
unfoldable pub thread_func : ℕ → EventLoopThread → EventLoopThread
thread_func address s = record s {
  loop = some address;
  owner = wake_at_loop s.owner;
  thread = in_loop;
}

unfoldable pub owner_step_at : OwnerPlace → Bool → EventLoopThread → Option EventLoopThread
owner_step_at at_start created s = start_thread created s
owner_step_at at_latch created s = some (wait_latch s)
owner_step_at asleep_at_latch created s = none
owner_step_at at_loop created s = some (wait_loop s)
owner_step_at asleep_at_loop created s = none
owner_step_at (has_loop loop) created s = none

unfoldable pub owner_step : Bool → EventLoopThread → Option EventLoopThread
owner_step created s = owner_step_at s.owner created s

unfoldable pub new_thread_step_at : ThreadPlace → ℕ → ℕ → EventLoopThread → Option EventLoopThread
new_thread_step_at not_created gettid address s = none
new_thread_step_at in_start gettid address s = some (run_in_thread gettid s)
new_thread_step_at in_func gettid address s = some (thread_func address s)
new_thread_step_at in_loop gettid address s = none

unfoldable pub new_thread_step : ℕ → ℕ → EventLoopThread → Option EventLoopThread
new_thread_step gettid address s = new_thread_step_at s.thread gettid address s

-- A wakeup without cause.
unfoldable pub wake_owner : EventLoopThread → EventLoopThread
wake_owner s = record s { owner = wake_at_loop (wake_at_latch s.owner) }
