-- ===== src/Tests/Starters.antt =====
-- A thread of a loop that is started.
use dserver.Prelude.{◌<◌, ◌≤◌, ◌⊎◌, refl, true, none}
use dserver.EventLoopThread.{
  EventLoopThread, asleep_at_latch, in_start, new_event_loop_thread, start_thread, wait_latch,
  owner_step_at, owner_step,
}
use dserver.EventLoopThread.Starting.{
  Move, owner_moves, Reach, here, moves, moves_left, IsStarted, start_loop_lem,
}

-- The owner sleeps until the new thread counts down.
abbrev asleep : EventLoopThread
asleep = record {
  count = 1;
  loop = none;
  thread_started = true;
  tid = 0;
  owner = asleep_at_latch;
  thread = in_start;
}

asleep-Reach : Reach 42 4096 new_event_loop_thread asleep
unfolding owner_step owner_step_at start_thread wait_latch
asleep-Reach = moves (moves here (owner_moves refl)) (owner_moves refl)

start_loop_lem_example :
    (IsStarted 42 4096 asleep ⊎ ((t : EventLoopThread) × Move 42 4096 asleep t))
    × ((t : EventLoopThread) → Move 42 4096 asleep t → moves_left t < 10)
    × (10 ≤ 20)
start_loop_lem_example = start_loop_lem 42 4096 asleep asleep-Reach
