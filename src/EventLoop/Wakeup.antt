-- ===== src/EventLoop/Wakeup.antt =====
-- net/EventLoop.cc: the eventfd and a loop that waits in `poll` while there is work, with the calls of
-- the loop's thread outside `loop()`, which do not write to it.
use dserver.Prelude.{
  ℕ, ◌+◌, ◌≡◌, refl, Bool, true, false, not, ◌&&◌, ◌||◌, some, List, [], ◌∷◌, ◌++◌, ltb, arith,
}
use dserver.Channel.{Channel, Revents}
use dserver.Poller.{Epoll}
use dserver.TimerQueue.{TimerQueue}
use dserver.EventLoop.{
  Eventfd, Point, idle, testing, polling, handling, draining, swapping, running, EventLoop, create,
  begin, thread_step, thread_step_at, push_functor, queue_in_loop, set_quit, quit, wakeup,
  test_quit, poll_returns, handle_next, handle_channel, handle_read, swap_functors, run_next,
}
use dserver.EventLoop.Steps.{
  World, Call, Step, begins, loops, calls, queues, quits, queues_outside, quits_outside, takes_up,
  new_world, pushes, sets_quit, wakes, Reach, start, also, calls_out, started,
}

abbrev is_empty : {A : Type 0} → List A → Bool
is_empty [] = true
is_empty (x ∷ xs) = false

-- The points from which the thread reaches `poll` without emptying the queue first.
abbrev pub is_before_poll : {F : Type 0} → Point F → Bool
is_before_poll (handling ps) = false
is_before_poll draining = false
is_before_poll swapping = false
is_before_poll _ = true

abbrev pub is_polling : {F : Type 0} → Point F → Bool
is_polling polling = true
is_polling _ = false

abbrev pub is_calling : {F : Type 0} → Point F → Bool
is_calling swapping = true
is_calling (running fs) = true
is_calling _ = false

abbrev pub is_handling : {F : Type 0} → Point F → Bool
is_handling (handling ps) = true
is_handling _ = false

abbrev pub is_idle : {F : Type 0} → Point F → Bool
is_idle idle = true
is_idle _ = false

module _ (ep : Epoll) (fd : Eventfd) (F : Type 0) where
  open ep use {Kernel}
  open fd use {Counter, is_readable}

  -- The eventfd is readable, or a thread is about to write to it.
  abbrev pub is_woken : World ep fd F → Bool
  is_woken w = is_readable w.loop.counter || ltb 0 w.owed

  pub record IsWoken (w : World ep fd F) : Type 0 where
    pub looping_lem : w.loop.looping ≡ not (is_idle w.loop.point)
    pub handling_lem : w.loop.event_handling ≡ is_handling w.loop.point
    pub calling_lem : is_calling w.loop.point ≡ true → w.loop.calling_pending_functors ≡ true
    pub pending_lem :
        w.outside ≡ false
        → is_before_poll w.loop.point ≡ true
        → is_empty w.loop.pending_functors ≡ false
        → is_woken w ≡ true
    pub quit_lem : is_polling w.loop.point ≡ true → w.loop.quit_set ≡ true → is_woken w ≡ true

  begins-IsWoken :
      (w : World ep fd F) (e : EventLoop ep fd F)
      → w.loop.point ≡ idle
      → begin ep fd F w.loop ≡ some e
      → IsWoken w
      → IsWoken (record w { loop = e })
  unfolding begin
  begins-IsWoken w e i b k = record {
    looping_lem = ground (arith, b);
    handling_lem = ground (arith, b, i, k.handling_lem);
    calling_lem = ground (arith, b);
    pending_lem = ground (arith, b, i, k.pending_lem);
    quit_lem = ground (arith, b);
  }

  queues-IsWoken :
      (w : World ep fd F) (f : F) (posted : List F)
      → calls_out w.loop.point ≡ true
      → IsWoken w
      → IsWoken (record w { loop = queue_in_loop ep fd F w.loop true f; posted = posted })
  unfolding queue_in_loop push_functor wakeup
  queues-IsWoken w f posted c k = record {
    looping_lem = ground (arith, k.looping_lem);
    handling_lem = ground (arith, k.handling_lem);
    calling_lem = ground (arith, k.calling_lem);
    pending_lem = λ o b n. ground (arith, c, b, k.calling_lem, fd.write_one_lem w.loop.counter);
    quit_lem = λ b q. ground (arith, c, b);
  }

  quits-IsWoken :
      (w : World ep fd F)
      → calls_out w.loop.point ≡ true
      → IsWoken w
      → IsWoken (record w { loop = quit ep fd F w.loop true })
  unfolding quit set_quit wakeup
  quits-IsWoken w c k = record {
    looping_lem = k.looping_lem;
    handling_lem = k.handling_lem;
    calling_lem = k.calling_lem;
    pending_lem = k.pending_lem;
    quit_lem = λ b q. ground (arith, c, b);
  }

  queues_outside-IsWoken :
      (w : World ep fd F) (f : F) (posted : List F)
      → w.loop.point ≡ idle
      → IsWoken w
      → IsWoken
          (record w { loop = queue_in_loop ep fd F w.loop true f; posted = posted; outside = true })
  unfolding queue_in_loop push_functor wakeup
  queues_outside-IsWoken w f posted i k = record {
    looping_lem = k.looping_lem;
    handling_lem = k.handling_lem;
    calling_lem = k.calling_lem;
    pending_lem = λ o b n. cc;
    quit_lem = λ b q. ground (arith, i, b);
  }

  quits_outside-IsWoken :
      (w : World ep fd F)
      → w.loop.point ≡ idle
      → IsWoken w
      → IsWoken (record w { loop = quit ep fd F w.loop true })
  unfolding quit set_quit wakeup
  quits_outside-IsWoken w i k = record {
    looping_lem = k.looping_lem;
    handling_lem = k.handling_lem;
    calling_lem = k.calling_lem;
    pending_lem = k.pending_lem;
    quit_lem = λ b q. ground (arith, i, b);
  }

  pushes-IsWoken :
      (w : World ep fd F) (f : F) (posted : List F)
      → IsWoken w
      → IsWoken
          (record w { loop = push_functor ep fd F w.loop f; owed = w.owed + 1; posted = posted })
  unfolding push_functor
  pushes-IsWoken w f posted k = record {
    looping_lem = k.looping_lem;
    handling_lem = k.handling_lem;
    calling_lem = k.calling_lem;
    pending_lem = λ o b n. ground arith;
    quit_lem = λ b q. ground arith;
  }

  sets_quit-IsWoken :
      (w : World ep fd F)
      → IsWoken w
      → IsWoken (record w { loop = set_quit ep fd F w.loop; owed = w.owed + 1 })
  unfolding set_quit
  sets_quit-IsWoken w k = record {
    looping_lem = k.looping_lem;
    handling_lem = k.handling_lem;
    calling_lem = k.calling_lem;
    pending_lem = λ o b n. ground arith;
    quit_lem = λ b q. ground arith;
  }

  wakes-IsWoken :
      (w : World ep fd F) (n : ℕ)
      → IsWoken w
      → IsWoken (record w { loop = wakeup ep fd F w.loop; owed = n })
  unfolding wakeup
  wakes-IsWoken w n k = record {
    looping_lem = k.looping_lem;
    handling_lem = k.handling_lem;
    calling_lem = k.calling_lem;
    pending_lem = λ b m. ground (arith, fd.write_one_lem w.loop.counter);
    quit_lem = λ b q. ground (arith, fd.write_one_lem w.loop.counter);
  }

  -- A step of the loop's thread, by its point.
  thread_step-IsWoken :
      (w : World ep fd F) (p : Point F) (events : List (ℕ × Revents)) (alive : Bool) (ran : List F)
      → w.loop.point ≡ p
      → IsWoken w
      → IsWoken (record w {
        loop = thread_step_at ep fd F w.loop p events alive;
        ran = ran;
        outside = w.outside && not (takes_up p);
      })
  unfolding thread_step_at test_quit poll_returns handle_next handle_channel handle_read
      swap_functors run_next
  thread_step-IsWoken w idle events alive ran i k = record {
    looping_lem = k.looping_lem;
    handling_lem = k.handling_lem;
    calling_lem = k.calling_lem;
    pending_lem = λ o b n. ground (arith, i, b, n, o, k.pending_lem);
    quit_lem = k.quit_lem;
  }
  thread_step-IsWoken w testing events alive ran i k = record {
    looping_lem = ground (arith, i);
    handling_lem = ground (arith, i, k.handling_lem);
    calling_lem = ground (arith, i);
    pending_lem = λ o b n. ground (arith, i, k.pending_lem, n, o);
    quit_lem = λ b q. ground (arith, i, b, q);
  }
  thread_step-IsWoken w polling events alive ran i k = record {
    looping_lem = ground (arith, i, k.looping_lem);
    handling_lem = refl;
    calling_lem = ground (arith, i);
    pending_lem = λ o b n. ground (arith, b);
    quit_lem = λ b q. ground (arith, b);
  }
  thread_step-IsWoken w (handling []) events alive ran i k = record {
    looping_lem = ground (arith, i, k.looping_lem);
    handling_lem = refl;
    calling_lem = ground (arith, i);
    pending_lem = λ o b n. ground (arith, b);
    quit_lem = λ b q. ground (arith, b);
  }
  thread_step-IsWoken w (handling (p ∷ ps)) events alive ran i k = record {
    looping_lem = ground (arith, i, k.looping_lem);
    handling_lem = ground (arith, i, k.handling_lem);
    calling_lem = λ b. ground (arith, b);
    pending_lem = λ o b n. ground (arith, b);
    quit_lem = λ b q. ground (arith, b);
  }
  thread_step-IsWoken w draining events alive ran i k = record {
    looping_lem = ground (arith, i, k.looping_lem);
    handling_lem = ground (arith, i, k.handling_lem);
    calling_lem = λ b. ground (arith, b);
    pending_lem = λ o b n. ground (arith, b);
    quit_lem = λ b q. ground (arith, b);
  }
  thread_step-IsWoken w swapping events alive ran i k = record {
    looping_lem = ground (arith, i, k.looping_lem);
    handling_lem = ground (arith, i, k.handling_lem);
    calling_lem = λ b. ground (arith, i, k.calling_lem);
    pending_lem = λ o b n. ground (arith, n);
    quit_lem = λ b q. ground (arith, b);
  }
  thread_step-IsWoken w (running []) events alive ran i k = record {
    looping_lem = ground (arith, i, k.looping_lem);
    handling_lem = ground (arith, i, k.handling_lem);
    calling_lem = λ b. ground (arith, b);
    pending_lem = λ o b n. ground (arith, n, i, k.pending_lem, o);
    quit_lem = λ b q. ground (arith, b);
  }
  thread_step-IsWoken w (running (f ∷ fs)) events alive ran i k = record {
    looping_lem = ground (arith, i, k.looping_lem);
    handling_lem = ground (arith, i, k.handling_lem);
    calling_lem = λ b. ground (arith, i, k.calling_lem);
    pending_lem = λ o b n. ground (arith, n, i, k.pending_lem, o);
    quit_lem = λ b q. ground (arith, b);
  }

  Call-IsWoken : {w w' : World ep fd F} → Call ep fd F w w' → IsWoken w → IsWoken w'
  Call-IsWoken (queues w f c) k = queues-IsWoken w f (w.posted ++ (f ∷ [])) c k
  Call-IsWoken (quits w c) k = quits-IsWoken w c k
  Call-IsWoken (queues_outside w f i) k = queues_outside-IsWoken w f (w.posted ++ (f ∷ [])) i k
  Call-IsWoken (quits_outside w i) k = quits_outside-IsWoken w i k
  Call-IsWoken (pushes w f) k = pushes-IsWoken w f (w.posted ++ (f ∷ [])) k
  Call-IsWoken (sets_quit w) k = sets_quit-IsWoken w k
  Call-IsWoken (wakes w n o) k = wakes-IsWoken w n k

  Step-IsWoken : {w w' : World ep fd F} → Step ep fd F w w' → IsWoken w → IsWoken w'
  unfolding thread_step
  Step-IsWoken (begins w e i b) k = begins-IsWoken w e i b k
  Step-IsWoken (loops w events alive i) k =
      thread_step-IsWoken w w.loop.point events alive (w.ran ++ started w.loop.point) refl k
  Step-IsWoken (calls c) k = Call-IsWoken c k

  Reach-IsWoken : {w w' : World ep fd F} → IsWoken w → Reach ep fd F w w' → IsWoken w'
  Reach-IsWoken k start = k
  Reach-IsWoken k (also r s) = Step-IsWoken s (Reach-IsWoken k r)

  new-IsWoken :
      (main has_loop : Bool) (kernel : Kernel) (heap : ℕ → Channel) (timers : TimerQueue)
      (timerfd t wakeup_fd : ℕ) (counter : Counter) (p : ℕ) (e : EventLoop ep fd F)
      → create ep fd F main has_loop kernel heap timers timerfd t wakeup_fd counter p ≡ some e
      → IsWoken (new_world ep fd F e)
  unfolding create
  new-IsWoken main has_loop kernel heap timers timerfd t wakeup_fd counter p e h = record {
    looping_lem = ground (arith, h);
    handling_lem = ground (arith, h);
    calling_lem = ground (arith, h);
    pending_lem = ground (arith, h);
    quit_lem = ground (arith, h);
  }

  -- From a loop that the constructor gives, through any sequence of steps of its thread and of
  -- the others: the two flags tell where the loop's thread is; and while it is in `poll` with `quit_`
  -- set, or in `poll` or on a way there that does not take up the queue with a functor in the queue,
  -- the eventfd is readable or another thread is about to write to it. Of the functors in the queue
  -- this is said only if the loop's own thread has queued none outside `loop()` since it last took
  -- up the queue: such a call does not wake the loop.
  pub create-IsWoken :
      (main has_loop : Bool) (kernel : Kernel) (heap : ℕ → Channel) (timers : TimerQueue)
      (timerfd t wakeup_fd : ℕ) (counter : Counter) (p : ℕ) (e : EventLoop ep fd F)
      (w : World ep fd F)
      → create ep fd F main has_loop kernel heap timers timerfd t wakeup_fd counter p ≡ some e
      → Reach ep fd F (new_world ep fd F e) w
      → IsWoken w
  create-IsWoken main has_loop kernel heap timers timerfd t wakeup_fd counter p e w h r =
      Reach-IsWoken (new-IsWoken main has_loop kernel heap timers timerfd t wakeup_fd counter p e h)
        r
