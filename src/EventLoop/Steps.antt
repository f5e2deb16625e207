-- ===== src/EventLoop/Steps.antt =====
-- net/EventLoop.cc: the steps of the loop's thread and of the other threads, in any order.
use dserver.Prelude.{ℕ, suc, ◌+◌, ◌≡◌, ◌≢◌, Bool, true, false, not, ◌&&◌, some, List, [], ◌∷◌, ◌++◌}
use dserver.Channel.{Revents}
use dserver.Poller.{Epoll}
use dserver.EventLoop.{
  Eventfd, Point, idle, handling, swapping, running, EventLoop, begin, thread_step, push_functor,
  queue_in_loop, set_quit, quit, wakeup,
}

-- The functor that a step of the loop's thread starts.
abbrev pub started : {F : Type 0} → Point F → List F
started (running (f ∷ fs)) = f ∷ []
started _ = []

-- Whether the loop's thread is in a callback of a channel or in a functor.
abbrev pub calls_out : {F : Type 0} → Point F → Bool
calls_out (handling ps) = true
calls_out (running fs) = true
calls_out _ = false

-- Whether the next step of the loop's thread takes up the queue.
abbrev pub takes_up : {F : Type 0} → Point F → Bool
takes_up swapping = true
takes_up _ = false

module _ (ep : Epoll) (fd : Eventfd) (F : Type 0) where
  pub record World : Type 0 where
    pub loop : EventLoop ep fd F
    -- The writes to the eventfd that other threads have still to do.
    pub owed : ℕ
    -- All functors that were queued, and those that were started, in order.
    pub posted : List F
    pub ran : List F
    -- Whether the loop's thread has queued a functor outside `loop()` since it last took up the queue.
    pub outside : Bool

  abbrev pub advance : World → List (ℕ × Revents) → Bool → World
  advance w events alive = record w {
    loop = thread_step ep fd F w.loop events alive;
    ran = w.ran ++ started w.loop.point;
    outside = w.outside && not (takes_up w.loop.point);
  }

  -- A call of `queueInLoop` or `quit`. The loop's thread calls them from a callback or a functor, or
  -- while it is outside `loop()`, where neither call wakes the loop. That of another thread takes two steps: the change of the
  -- queue or of the flag, and later the write that wakes the loop.
  pub data Call : World → World → Type 0 where
    queues :
        (w : World) (f : F)
        → calls_out w.loop.point ≡ true
        → Call w
            (record w { loop = queue_in_loop ep fd F w.loop true f; posted = w.posted ++ (f ∷ []) })
    quits :
        (w : World)
        → calls_out w.loop.point ≡ true
        → Call w (record w { loop = quit ep fd F w.loop true })
    queues_outside :
        (w : World) (f : F)
        → w.loop.point ≡ idle
        → Call w (record w {
          loop = queue_in_loop ep fd F w.loop true f;
          posted = w.posted ++ (f ∷ []);
          outside = true;
        })
    quits_outside :
        (w : World) → w.loop.point ≡ idle → Call w (record w { loop = quit ep fd F w.loop true })
    pushes :
        (w : World) (f : F)
        → Call w (record w {
          loop = push_functor ep fd F w.loop f;
          owed = w.owed + 1;
          posted = w.posted ++ (f ∷ []);
        })
    sets_quit :
        (w : World) → Call w (record w { loop = set_quit ep fd F w.loop; owed = w.owed + 1 })
    wakes :
        (w : World) (n : ℕ)
        → w.owed ≡ n + 1
        → Call w (record w { loop = wakeup ep fd F w.loop; owed = n })

  pub data Step : World → World → Type 0 where
    begins :
        (w : World) (e : EventLoop ep fd F)
        → w.loop.point ≡ idle
        → begin ep fd F w.loop ≡ some e
        → Step w (record w { loop = e })
    loops :
        (w : World) (events : List (ℕ × Revents)) (alive : Bool)
        → w.loop.point ≢ idle
        → Step w (advance w events alive)
    calls : {w u : World} → Call w u → Step w u

  pub data Reach (w : World) : World → Type 0 where
    start : Reach w w
    also : {u v : World} → Reach w u → Step u v → Reach w v

  -- Calls and `n` steps of the loop's thread within one `loop()`.
  pub data Steps : ℕ → World → World → Type 0 where
    here : (w : World) → Steps 0 w w
    loop_step :
        {n : ℕ} {w v : World} (events : List (ℕ × Revents)) (alive : Bool)
        → w.loop.point ≢ idle
        → Steps n (advance w events alive) v
        → Steps (suc n) w v
    call_step : {n : ℕ} {w u v : World} → Call w u → Steps n u v → Steps n w v

  -- A new loop, before anything is queued.
  abbrev pub new_world : EventLoop ep fd F → World
  new_world e = record { loop = e; owed = 0; posted = []; ran = []; outside = false }
