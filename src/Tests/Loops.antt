-- ===== src/Tests/Loops.antt =====
-- A loop of numbered functors over an eventfd that is a counter.
use dserver.Prelude.{
  ℕ, ◌+◌, ◌≡◌, refl, true, false, some, none, [], ◌∷◌, ◌++◌, ltb, if◌then◌else◌, arith,
}
use dserver.Channel.{create, Channel, Events, added, switched}
use dserver.Poller.{
  Poller, set_at, switch_channel, update_channel, update_by, update_add, set_index,
}
use dserver.TimerQueue.{TimerQueue}
use dserver.EventLoop.{
  Eventfd, Point, idle, testing, polling, running, EventLoop, begin, thread_step, thread_step_at,
  test_quit, poll_returns, handle_next, swap_functors, run_next, queue_in_loop, push_functor,
  wakeup, set_quit, quit,
}
use dserver.EventLoop.Steps.{
  World, queues, queues_outside, pushes, begins, loops, calls, Reach, start, also, Steps, here,
  loop_step, call_step, new_world, advance,
}
use dserver.EventLoop.Wakeup.{is_woken, IsWoken, create-IsWoken}
use dserver.EventLoop.Order.{IsInOrder, create-IsInOrder}
use dserver.EventLoop.Stopping.{batch_ends, quit_ends}
use dserver.Tests.Pollers.{table_epoll, table_add}

-- UINT64_MAX - 1.
abbrev pub max_counter : ℕ
max_counter = 18446744073709551614

unfoldable pub count_one : ℕ → ℕ
count_one n = if ltb n max_counter then n + 1 else n

pub count_one_lem : (n : ℕ) → ltb 0 (count_one n) ≡ true
unfolding count_one
count_one_lem n = ground arith

abbrev pub counting_eventfd : Eventfd
counting_eventfd = record {
  Counter = ℕ;
  is_readable = ltb 0;
  write_one = count_one;
  read_all = λ n. 0;
  write_one_lem = count_one_lem;
}

abbrev Loop : Type 0
Loop = EventLoop table_epoll counting_eventfd ℕ

abbrev no_timers : TimerQueue
no_timers = record {
  timers = [];
  active_timers = [];
  calling_expired_timers = false;
  canceling_timers = [];
  heap = λ p. none;
  wakes_at = none;
}

abbrev read_mask : Events
read_mask = record { reads = true; writes = false }

abbrev wakeup_channel : Channel
wakeup_channel = record (create 5) { has_read = true }

abbrev enabled_channel : Channel
enabled_channel = record wakeup_channel { events = read_mask; added_to_loop = true }

abbrev timers_channel : Channel
timers_channel = record (create 4) { has_read = true }

abbrev enabled_timers_channel : Channel
enabled_timers_channel = record timers_channel { events = read_mask; added_to_loop = true }

abbrev first_poller : Poller table_epoll
first_poller = record {
  kernel = set_at (set_at (λ j. none) 4 (some (2, read_mask))) 5 (some (3, read_mask));
  channels = set_at (set_at (λ j. none) 4 (some 2)) 5 (some 3);
  heap =
      set_at
        (set_at
          (set_at
            (set_at (set_at (set_at (λ q. create 8) 2 timers_channel) 2 enabled_timers_channel) 2
              (record enabled_timers_channel { index = added }))
            3 wakeup_channel)
          3 enabled_channel)
        3 (record enabled_channel { index = added });
}

abbrev new_loop : Loop
new_loop = record {
  point = idle;
  looping = false;
  quit_set = false;
  event_handling = false;
  calling_pending_functors = false;
  main = true;
  poller = first_poller;
  timer_queue = no_timers;
  counter = 0;
  wakeup_channel = 3;
  active_channels = [];
  current_active_channel = none;
  pending_functors = [];
  connections = λ c. false;
}

-- What the constructor gives, with the channel of the timers at address 2 and its own at address 3.
pub new_loop_lem :
    dserver.EventLoop.create table_epoll counting_eventfd ℕ true false
      (λ j. none)
      (λ q. create 8)
      no_timers
      4
      2
      5
      0
      3
    ≡ some new_loop
unfolding dserver.EventLoop.create switch_channel update_channel update_by update_add set_index
    create table_add switched
new_loop_lem = refl

abbrev LoopWorld : Type 0
LoopWorld = World table_epoll counting_eventfd ℕ

abbrev started_world : LoopWorld
started_world = new_world table_epoll counting_eventfd ℕ new_loop

abbrev begun : LoopWorld
begun = record started_world { loop = record new_loop { looping = true; point = testing } }

abbrev waiting : LoopWorld
waiting = advance table_epoll counting_eventfd ℕ begun [] true

-- Another thread has queued 7 while the loop waits, and has not yet woken it.
abbrev queued : LoopWorld
queued = record waiting {
  loop = push_functor table_epoll counting_eventfd ℕ waiting.loop 7;
  owed = waiting.owed + 1;
  posted = waiting.posted ++ (7 ∷ []);
}

Reach-queued : Reach table_epoll counting_eventfd ℕ started_world queued
unfolding begin
Reach-queued =
    also
      (also (also start (begins started_world begun.loop refl refl))
        (loops begun [] true (λ e. ground (arith, e))))
      (calls (pushes waiting 7))

create-IsWoken_example : IsWoken table_epoll counting_eventfd ℕ queued
create-IsWoken_example =
    create-IsWoken table_epoll counting_eventfd ℕ true false (λ j. none) (λ q. create 8) no_timers 4
      2 5 0 3 new_loop queued new_loop_lem Reach-queued

-- Before `loop()`, the loop's own thread queues 7; then it waits in `poll`, where nothing wakes it.
abbrev early : LoopWorld
early = record started_world {
  loop = queue_in_loop table_epoll counting_eventfd ℕ new_loop true 7;
  posted = 7 ∷ [];
  outside = true;
}

abbrev early_begun : LoopWorld
early_begun = record early { loop = record early.loop { looping = true; point = testing } }

abbrev asleep : LoopWorld
asleep = advance table_epoll counting_eventfd ℕ early_begun [] true

Reach-asleep : Reach table_epoll counting_eventfd ℕ started_world asleep
unfolding begin queue_in_loop push_functor
Reach-asleep =
    also
      (also (also start (calls (queues_outside started_world 7 refl)))
        (begins early early_begun.loop refl refl))
      (loops early_begun [] true (λ e. ground (arith, e)))

asleep_lem :
    (asleep.loop.point ≡ polling)
    × (asleep.loop.pending_functors ≡ 7 ∷ [])
    × (is_woken table_epoll counting_eventfd ℕ asleep ≡ false)
unfolding thread_step thread_step_at test_quit queue_in_loop push_functor
asleep_lem = (refl, refl, refl)

create-IsInOrder_example : IsInOrder table_epoll counting_eventfd ℕ queued
create-IsInOrder_example =
    create-IsInOrder table_epoll counting_eventfd ℕ true false (λ j. none) (λ q. create 8) no_timers
      4 2 5 0 3 new_loop queued new_loop_lem Reach-queued

-- The loop runs 4, which queues 6; another thread queues 9; `quit_` is set.
abbrev in_batch : LoopWorld
in_batch = record started_world {
  loop = record new_loop {
    point = running (4 ∷ []);
    looping = true;
    quit_set = true;
    calling_pending_functors = true;
  };
  posted = 4 ∷ [];
}

abbrev ran_four : LoopWorld
ran_four = advance table_epoll counting_eventfd ℕ in_batch [] true

abbrev queued_six : LoopWorld
queued_six = record ran_four {
  loop = queue_in_loop table_epoll counting_eventfd ℕ ran_four.loop true 6;
  posted = ran_four.posted ++ (6 ∷ []);
}

abbrev ran_all : LoopWorld
ran_all = advance table_epoll counting_eventfd ℕ queued_six [] true

abbrev stopped : LoopWorld
stopped = advance table_epoll counting_eventfd ℕ ran_all [] true

Steps-to_test : Steps table_epoll counting_eventfd ℕ 2 in_batch ran_all
unfolding thread_step thread_step_at run_next queue_in_loop push_functor
Steps-to_test =
    loop_step [] true (λ e. ground (arith, e))
      (call_step (queues ran_four 6 refl)
        (loop_step [] true (λ e. ground (arith, e)) (here ran_all)))

batch_ends_example : (ran_all.loop.point ≡ testing) × (ran_all.ran ≡ 4 ∷ [])
batch_ends_example = batch_ends table_epoll counting_eventfd ℕ (4 ∷ []) Steps-to_test refl refl

Steps-to_stop : Steps table_epoll counting_eventfd ℕ 3 in_batch stopped
unfolding thread_step thread_step_at run_next queue_in_loop push_functor
Steps-to_stop =
    loop_step [] true (λ e. ground (arith, e))
      (call_step (queues ran_four 6 refl) (
        loop_step [] true (λ e. ground (arith, e))
          (loop_step [] true (λ e. ground (arith, e)) (here stopped))))

quit_ends_example :
    (stopped.loop.point ≡ idle) × (stopped.loop.looping ≡ false) × (stopped.ran ≡ 4 ∷ [])
quit_ends_example = quit_ends table_epoll counting_eventfd ℕ (4 ∷ []) Steps-to_stop refl refl refl
