-- ===== src/ThreadPool.antt =====
-- base/ThreadPool.h and base/ThreadPool.cc: the bounded queue of tasks, as a monitor, and its pool.
-- Each pass through the critical section of a thread that puts or takes is a function: it ends in a
-- wait or with a result, and a thread that was woken makes the pass again. A pass through `pool_`
-- before `start()` has set it is `none`.
pub mod Passes
pub mod Waking
use dserver.Prelude.{
  ℕ, ◌+◌, ◌-◌, Bool, true, false, not, ◌&&◌, Option, none, some, List, [], ◌∷◌, ◌++◌, ltb, leb,
  ◌==◌, if◌then◌else◌, ◌>>=◌, ◌>>◌, assert, length,
}

module _ (T : Type 0) where
  pub record ThreadPool : Type 0 where
    pub running : Bool
    -- Whether `bind` has set `pool_`.
    pub bound : Bool
    pub num_thread : ℕ
    pub max_queue_size : ℕ
    pub queue : List T
    -- The threads asleep on `notEmpty_` and on `notFull_`, and those that were woken there and have
    -- still to take the lock.
    pub takers_asleep : ℕ
    pub takers_woken : ℕ
    pub putters_asleep : ℕ
    pub putters_woken : ℕ

  -- The constructor.
  unfoldable pub create : ℕ → ℕ → ThreadPool
  create num_thread max_size = record {
    running = false;
    bound = false;
    num_thread = num_thread;
    max_queue_size = max_size;
    queue = [];
    takers_asleep = 0;
    takers_woken = 0;
    putters_asleep = 0;
    putters_woken = 0;
  }

  -- `start()`; the threads that it starts run `run_in_thread`.
  unfoldable pub start : ThreadPool → Option ThreadPool
  start p = do assert (not p.running); some (record p { running = true; bound = true })

  -- `notEmpty_.notify()`: one thread, if any is asleep.
  unfoldable pub notify_not_empty : ThreadPool → ThreadPool
  notify_not_empty p = record p {
    takers_asleep = p.takers_asleep - 1;
    takers_woken = if ltb 0 p.takers_asleep then p.takers_woken + 1 else p.takers_woken;
  }

  unfoldable pub notify_not_full : ThreadPool → ThreadPool
  notify_not_full p = record p {
    putters_asleep = p.putters_asleep - 1;
    putters_woken = if ltb 0 p.putters_asleep then p.putters_woken + 1 else p.putters_woken;
  }

  -- `notifyAll(stop)`.
  unfoldable pub notify_all : ThreadPool → Bool → ThreadPool
  notify_all p stop = record p {
    running = if stop then false else p.running;
    takers_asleep = 0;
    takers_woken = p.takers_woken + p.takers_asleep;
    putters_asleep = 0;
    putters_woken = p.putters_woken + p.putters_asleep;
  }

  -- `stop()`, before it joins the threads.
  unfoldable pub stop : ThreadPool → ThreadPool
  stop p = notify_all p true

  unfoldable pub is_full : ThreadPool → Bool
  is_full p = leb p.max_queue_size (length p.queue)

  -- How a pass of `put` ends.
  pub data PutResult : Type 0 where
    put_waits put_rejected put_done : PutResult

  -- A pass of `put`: the test of the loop, the test behind it, and the rest.
  unfoldable pub put_pass : ThreadPool → T → Option (PutResult × ThreadPool)
  put_pass p x = do
    assert p.bound
    some (
        if is_full p && p.running
        then (put_waits, record p { putters_asleep = p.putters_asleep + 1 })
        else if not p.running
        then (put_rejected, p)
        else (put_done, notify_not_empty (record p { queue = p.queue ++ (x ∷ []) })))

  -- How a pass of `take` ends; the null task is `take_stopped`.
  pub data TakeResult : Type 0 where
    take_waits take_stopped : TakeResult
    took : T → TakeResult

  -- `front` and `pop_front`; the front of an empty deque is `none`.
  unfoldable pub take_front : ThreadPool → List T → Option (TakeResult × ThreadPool)
  take_front p [] = none
  take_front p (x ∷ xs) = some (took x, notify_not_full (record p { queue = xs }))

  unfoldable pub take_pass : ThreadPool → Option (TakeResult × ThreadPool)
  take_pass p = do
    assert p.bound
    (if length p.queue == 0 && p.running
        then some (take_waits, record p { takers_asleep = p.takers_asleep + 1 })
        else if not p.running
        then some (take_stopped, p)
        else take_front p p.queue)

  -- A thread that was woken and has the lock again.
  unfoldable pub put_again : ThreadPool → T → Option (PutResult × ThreadPool)
  put_again p x = do
    assert (ltb 0 p.putters_woken)
    put_pass (record p { putters_woken = p.putters_woken - 1 }) x

  unfoldable pub take_again : ThreadPool → Option (TakeResult × ThreadPool)
  take_again p = do
    assert (ltb 0 p.takers_woken)
    take_pass (record p { takers_woken = p.takers_woken - 1 })

  -- A turn of `while (running_)` of `runInThread` ends in the test, in a wait, or with the task that
  -- it runs, if there is one.
  unfoldable pub run_in_thread : ThreadPool → Option (TakeResult × ThreadPool)
  run_in_thread p = if p.running then take_pass p else some (take_stopped, p)
