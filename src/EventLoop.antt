-- ===== src/EventLoop.antt =====
-- net/EventLoop.h and net/EventLoop.cc: the loop of a thread, its queue of tasks and its wakeup.
-- The thread of the loop is at a `Point` of `loop()` or of `doPendingFunctors()`, and `thread_step` takes
-- it to the following one.
pub mod Order
pub mod Steps
pub mod Stopping
pub mod Wakeup
use dserver.Prelude.{
  ℕ, ◌+◌, ◌≡◌, Bool, true, false, not, ◌||◌, ◌&&◌, Option, none, some, List, [], ◌∷◌, ◌++◌, ltb,
  ◌==◌, if◌then◌else◌, ◌>>=◌, ◌>>◌, assert,
}
use dserver.Channel.{Channel, Revents, Callback, on_read, enable_reading, handle_event}
use dserver.Poller.{Epoll, Poller, set_at, switch_channel, fill_active_channels}
use dserver.TimerQueue.{TimerQueue, add_timer, cancel_in_loop}

-- eventfd(2): a counter that one can wait for. After a write of 1 it is readable, also when the
-- write failed because the counter is at its maximum.
pub record Eventfd : Type 1 where
  pub Counter : Type 0
  pub is_readable : Counter → Bool
  pub write_one : Counter → Counter
  pub read_all : Counter → Counter
  pub write_one_lem : (c : Counter) → is_readable (write_one c) ≡ true

-- Where the thread of the loop is, with the channels still to handle and the functors still to run.
pub data Point (F : Type 0) : Type 0 where
  -- Before `loop()` or after it.
  idle : Point F
  -- At `while (!quit_)`.
  testing : Point F
  -- In `poller_->poll`.
  polling : Point F
  handling : List ℕ → Point F
  -- Before `doPendingFunctors()`, and in it before the lock is taken.
  draining : Point F
  swapping : Point F
  running : List F → Point F

-- Whether the callbacks of a channel's event include its reading one.
abbrev pub reads : List Callback → Bool
reads [] = false
reads (on_read ∷ calls) = true
reads (_ ∷ calls) = reads calls

abbrev is_member : ℕ → List ℕ → Bool
is_member p [] = false
is_member p (q ∷ ps) = q == p || is_member p ps

abbrev is_pointer_to : Option ℕ → ℕ → Bool
is_pointer_to none p = false
is_pointer_to (some q) p = q == p

module _ (ep : Epoll) (fd : Eventfd) (F : Type 0) where
  open ep use {Kernel}
  open fd use {Counter, write_one, read_all}

  pub record EventLoop : Type 0 where
    pub point : Point F
    pub looping : Bool
    pub quit_set : Bool
    pub event_handling : Bool
    pub calling_pending_functors : Bool
    pub main : Bool
    pub poller : Poller ep
    pub timer_queue : TimerQueue
    -- The counter of `wakeupFd_`, and the address of its channel.
    pub counter : Counter
    pub wakeup_channel : ℕ
    pub active_channels : List ℕ
    pub current_active_channel : Option ℕ
    pub pending_functors : List F
    -- Which connections `connections_` has.
    pub connections : ℕ → Bool

  -- The constructor, with what `new` and the system calls give: the interest set and the memory of
  -- the poller, the timers, the timerfd and the address of its channel, the descriptor and the
  -- counter of the eventfd, and the address of its channel. TimerQueue's constructor registers the
  -- first channel, and this one the second. LOG_FATAL aborts when the thread has a loop.
  unfoldable pub create :
      Bool → Bool → Kernel → (ℕ → Channel) → TimerQueue → ℕ → ℕ → ℕ → Counter → ℕ → Option EventLoop
  create main has_loop kernel heap timers timerfd t wakeup_fd counter p = do
    assert (not has_loop)
    let timers_channel : Channel = record (dserver.Channel.create timerfd) { has_read = true }
    let channel : Channel = record (dserver.Channel.create wakeup_fd) { has_read = true }
    let empty : Poller ep = record {
      kernel = kernel;
      channels = λ _. none;
      heap = set_at heap t timers_channel;
    }
    first ← switch_channel ep empty t enable_reading
    poller ←
        switch_channel ep (record first { heap = set_at first.heap p channel }) p enable_reading
    some (record {
      point = idle;
      looping = false;
      quit_set = false;
      event_handling = false;
      calling_pending_functors = false;
      main = main;
      poller = poller;
      timer_queue = timers;
      counter = counter;
      wakeup_channel = p;
      active_channels = [];
      current_active_channel = none;
      pending_functors = [];
      connections = λ _. false;
    })

  -- The start of `loop()`.
  unfoldable pub begin : EventLoop → Option EventLoop
  begin e = do
    assert (not e.looping)
    some (record e { looping = true; quit_set = false; point = testing })

  unfoldable pub wakeup : EventLoop → EventLoop
  wakeup e = record e { counter = write_one e.counter }

  -- `if (b) wakeup();`
  abbrev wakeup_if : Bool → EventLoop → EventLoop
  wakeup_if b e = record e { counter = if b then write_one e.counter else e.counter }

  -- The callback of the wakeup channel.
  unfoldable pub handle_read : EventLoop → EventLoop
  handle_read e = record e { counter = read_all e.counter }

  abbrev handle_read_if : Bool → EventLoop → EventLoop
  handle_read_if b e = record e { counter = if b then read_all e.counter else e.counter }

  -- What `handleEvent` of a channel does to the loop before the callbacks call it back. The owners
  -- of the other channels are alive or not as `alive` says.
  unfoldable pub handle_channel : EventLoop → ℕ → Bool → EventLoop
  handle_channel e p alive =
      handle_read_if (p == e.wakeup_channel && reads (handle_event (e.poller.heap p) alive)) e

  -- `while (!quit_)`: the way into `poll`, or out of `loop()`.
  unfoldable pub test_quit : EventLoop → EventLoop
  test_quit e =
      if e.quit_set
      then record e { looping = false; point = idle }
      else record e { active_channels = []; point = polling }

  -- `poll` returns with what epoll_wait reports.
  unfoldable pub poll_returns : EventLoop → List (ℕ × Revents) → EventLoop
  poll_returns e events =
      let filled = fill_active_channels ep e.poller events in
      record e {
        active_channels = filled.0;
        poller = filled.1;
        event_handling = true;
        point = handling filled.0;
      }

  -- One turn of `for (Channel* channel : activeChannels_)`, or its end.
  unfoldable pub handle_next : EventLoop → List ℕ → Bool → EventLoop
  handle_next e [] alive = record e {
    current_active_channel = none;
    event_handling = false;
    point = draining;
  }
  handle_next e (p ∷ ps) alive =
      handle_channel (record e { current_active_channel = some p; point = handling ps }) p alive

  -- `functors.swap(pendingFunctors_)`.
  unfoldable pub swap_functors : EventLoop → EventLoop
  swap_functors e = record e { pending_functors = []; point = running e.pending_functors }

  -- One turn of `for (const Functor& functor : functors)`, or its end.
  unfoldable pub run_next : EventLoop → List F → EventLoop
  run_next e [] = record e { calling_pending_functors = false; point = testing }
  run_next e (f ∷ fs) = record e { point = running fs }

  -- The next step of the loop's thread: `events` and `alive` matter in `poll` and in `handleEvent`.
  unfoldable pub thread_step_at : EventLoop → Point F → List (ℕ × Revents) → Bool → EventLoop
  thread_step_at e idle events alive = e
  thread_step_at e testing events alive = test_quit e
  thread_step_at e polling events alive = poll_returns e events
  thread_step_at e (handling ps) events alive = handle_next e ps alive
  thread_step_at e draining events alive = record e {
    calling_pending_functors = true;
    point = swapping;
  }
  thread_step_at e swapping events alive = swap_functors e
  thread_step_at e (running fs) events alive = run_next e fs

  unfoldable pub thread_step : EventLoop → List (ℕ × Revents) → Bool → EventLoop
  thread_step e events alive = thread_step_at e e.point events alive

  -- The part of `queueInLoop` under the lock.
  unfoldable pub push_functor : EventLoop → F → EventLoop
  push_functor e f = record e { pending_functors = e.pending_functors ++ (f ∷ []) }

  -- `in_loop` is `isInLoopThread()`.
  unfoldable pub queue_in_loop : EventLoop → Bool → F → EventLoop
  queue_in_loop e in_loop f =
      let pushed = push_functor e f in
      wakeup_if (not in_loop || pushed.calling_pending_functors) pushed

  -- `call` is what the functor does to the loop when it runs at once.
  unfoldable pub run_in_loop :
      (F → EventLoop → Option EventLoop) → EventLoop → Bool → F → Option EventLoop
  run_in_loop call e in_loop f = if in_loop then call f e else some (queue_in_loop e in_loop f)

  unfoldable pub set_quit : EventLoop → EventLoop
  set_quit e = record e { quit_set = true }

  unfoldable pub quit : EventLoop → Bool → EventLoop
  quit e in_loop = wakeup_if (not in_loop) (set_quit e)

  unfoldable pub update_channel : EventLoop → ℕ → Option EventLoop
  update_channel e p = do
    s ← dserver.Poller.update_channel ep e.poller p
    some (record e { poller = s })

  unfoldable pub remove_channel : EventLoop → ℕ → Option EventLoop
  remove_channel e p = do
    assert (
        not e.event_handling
        || (is_pointer_to e.current_active_channel p || not (is_member p e.active_channels)))
    s ← dserver.Poller.remove_channel ep e.poller p
    some (record e { poller = s })

  unfoldable pub has_channel : EventLoop → ℕ → Bool
  has_channel e p = dserver.Poller.has_channel ep e.poller p

  unfoldable pub add_connection : EventLoop → ℕ → EventLoop
  add_connection e conn = record e { connections = set_at e.connections conn true }

  unfoldable pub remove_connection : EventLoop → ℕ → Option EventLoop
  remove_connection e conn = do
    assert (e.connections conn)
    some (record e { connections = set_at e.connections conn false })

  -- The timers, in the loop's thread: `p` is the address of the new timer, `sequence` its number, and
  -- `clock` the time when the timerfd is set, if it is.
  unfoldable pub run_at : EventLoop → ℕ → ℕ → ℕ → ℕ → ℕ → Option EventLoop
  run_at e p time cb sequence clock = do
    q ← add_timer e.timer_queue p cb time 0 false sequence clock
    some (record e { timer_queue = q })

  unfoldable pub run_after : EventLoop → ℕ → ℕ → ℕ → ℕ → ℕ → ℕ → Option EventLoop
  run_after e p now delay cb sequence clock = run_at e p (now + delay) cb sequence clock

  -- A timer repeats when its interval is above 0.
  unfoldable pub run_every : EventLoop → ℕ → ℕ → ℕ → ℕ → ℕ → ℕ → Option EventLoop
  run_every e p now interval cb sequence clock = do
    q ← add_timer e.timer_queue p cb (now + interval) interval (ltb 0 interval) sequence clock
    some (record e { timer_queue = q })

  unfoldable pub cancel : EventLoop → ℕ → ℕ → Option EventLoop
  cancel e p sequence = do
    q ← cancel_in_loop e.timer_queue p sequence
    some (record e { timer_queue = q })
