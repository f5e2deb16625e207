-- ===== src/EventLoop/Order.antt =====
-- net/EventLoop.cc: the functors run in the order in which they were queued, each once.
use dserver.Prelude.{
  ℕ, ◌≡◌, some, refl, sym, ap, ◌∙◌, Bool, List, [], ◌∷◌, ◌++◌, arith, append_assoc, append-nil,
}
use dserver.Channel.{Channel, Revents}
use dserver.Poller.{Epoll}
use dserver.TimerQueue.{TimerQueue}
use dserver.EventLoop.{
  Eventfd, Point, idle, testing, polling, handling, draining, swapping, running, EventLoop, begin,
  create, thread_step, thread_step_at, push_functor, queue_in_loop, set_quit, quit, wakeup,
  test_quit, poll_returns, handle_next, handle_channel, handle_read, swap_functors, run_next,
}
use dserver.EventLoop.Steps.{
  World, Call, Step, begins, loops, calls, queues, quits, queues_outside, quits_outside, pushes,
  sets_quit, wakes, Reach, start, also, started, new_world,
}

-- The functors that were taken off the queue and wait to run.
abbrev pub batch : {F : Type 0} → Point F → List F
batch (running fs) = fs
batch _ = []

module _ (ep : Epoll) (fd : Eventfd) (F : Type 0) where
  open ep use {Kernel}
  open fd use {Counter}

  abbrev pub IsInOrder : World ep fd F → Type 0
  IsInOrder w = w.posted ≡ w.ran ++ (batch w.loop.point ++ w.loop.pending_functors)

  pub Call-IsInOrder : {w w' : World ep fd F} → Call ep fd F w w' → IsInOrder w → IsInOrder w'
  unfolding queue_in_loop push_functor quit set_quit wakeup
  Call-IsInOrder (queues w f c) k = ap (λ l. l ++ (f ∷ [])) k ∙ simp append_assoc
  Call-IsInOrder (quits w c) k = k
  Call-IsInOrder (queues_outside w f c) k = ap (λ l. l ++ (f ∷ [])) k ∙ simp append_assoc
  Call-IsInOrder (quits_outside w c) k = k
  Call-IsInOrder (pushes w f) k = ap (λ l. l ++ (f ∷ [])) k ∙ simp append_assoc
  Call-IsInOrder (sets_quit w) k = k
  Call-IsInOrder (wakes w n o) k = k

  thread_step-IsInOrder :
      (w : World ep fd F) (p : Point F) (events : List (ℕ × Revents)) (alive : Bool)
      → w.loop.point ≡ p
      → w.posted ≡ w.ran ++ (batch p ++ w.loop.pending_functors)
      → IsInOrder (record w {
        loop = thread_step_at ep fd F w.loop p events alive;
        ran = w.ran ++ started p;
      })
  unfolding thread_step_at test_quit poll_returns handle_next handle_channel handle_read
      swap_functors run_next
  thread_step-IsInOrder w idle events alive i k = simp (k, i, append-nil)
  thread_step-IsInOrder w testing events alive i k = ground (arith, k, i, append-nil w.ran)
  thread_step-IsInOrder w polling events alive i k = simp (k, append-nil)
  thread_step-IsInOrder w (handling []) events alive i k = simp (k, append-nil)
  thread_step-IsInOrder w (handling (p ∷ ps)) events alive i k = simp (k, append-nil)
  thread_step-IsInOrder w draining events alive i k = simp (k, append-nil)
  thread_step-IsInOrder w swapping events alive i k = simp (k, append-nil)
  thread_step-IsInOrder w (running []) events alive i k = simp (k, append-nil)
  thread_step-IsInOrder w (running (f ∷ fs)) events alive i k =
      k ∙ sym (append_assoc w.ran (f ∷ []) (fs ++ w.loop.pending_functors))

  Step-IsInOrder : {w w' : World ep fd F} → Step ep fd F w w' → IsInOrder w → IsInOrder w'
  unfolding thread_step begin
  Step-IsInOrder (begins w e i b) k = ground (arith, b, i, k)
  Step-IsInOrder (loops w events alive i) k =
      thread_step-IsInOrder w w.loop.point events alive refl k
  Step-IsInOrder (calls c) k = Call-IsInOrder c k

  Reach-IsInOrder : {w w' : World ep fd F} → IsInOrder w → Reach ep fd F w w' → IsInOrder w'
  Reach-IsInOrder k start = k
  Reach-IsInOrder k (also r s) = Step-IsInOrder s (Reach-IsInOrder k r)

  new-IsInOrder :
      (main has_loop : Bool) (kernel : Kernel) (heap : ℕ → Channel) (timers : TimerQueue)
      (timerfd t wakeup_fd : ℕ) (counter : Counter) (p : ℕ) (e : EventLoop ep fd F)
      → create ep fd F main has_loop kernel heap timers timerfd t wakeup_fd counter p ≡ some e
      → IsInOrder (new_world ep fd F e)
  unfolding create
  new-IsInOrder main has_loop kernel heap timers timerfd t wakeup_fd counter p e h =
      ground (arith, h)

  -- From a loop that the constructor gives, through any sequence of steps of its thread and of
  -- the others: the functors queued so far are, in this order, those that were started, those that
  -- the loop has taken off the queue to run, and those in the queue.
  pub create-IsInOrder :
      (main has_loop : Bool) (kernel : Kernel) (heap : ℕ → Channel) (timers : TimerQueue)
      (timerfd t wakeup_fd : ℕ) (counter : Counter) (p : ℕ) (e : EventLoop ep fd F)
      (w : World ep fd F)
      → create ep fd F main has_loop kernel heap timers timerfd t wakeup_fd counter p ≡ some e
      → Reach ep fd F (new_world ep fd F e) w
      → IsInOrder w
  create-IsInOrder main has_loop kernel heap timers timerfd t wakeup_fd counter p e w h r =
      Reach-IsInOrder
        (new-IsInOrder main has_loop kernel heap timers timerfd t wakeup_fd counter p e h) r
