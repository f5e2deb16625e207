-- ===== src/EventLoop/Stopping.antt =====
-- net/EventLoop.cc: a batch of functors ends, and `quit()` ends the loop, whatever is queued meanwhile.
use dserver.Prelude.{
  ℕ, ◌+◌, ◌≡◌, refl, sym, ap, ◌∙◌, Bool, true, false, List, [], ◌∷◌, ◌++◌, length, arith,
  append_assoc, append-nil,
}
use dserver.Channel.{Revents}
use dserver.Poller.{Epoll}
use dserver.EventLoop.{
  Eventfd, idle, testing, running, thread_step, thread_step_at, push_functor, queue_in_loop,
  set_quit, quit, wakeup, test_quit, run_next,
}
use dserver.EventLoop.Steps.{
  World, Call, queues, quits, queues_outside, quits_outside, pushes, sets_quit, wakes, Steps, here,
  loop_step, call_step, advance,
}

module _ (ep : Epoll) (fd : Eventfd) (F : Type 0) where
  -- What calls leave of the state of the loop's thread.
  record Leaves (w u : World ep fd F) : Type 0 where
    same_point : u.loop.point ≡ w.loop.point
    same_ran : u.ran ≡ w.ran
    still_quit : w.loop.quit_set ≡ true → u.loop.quit_set ≡ true
    same_looping : u.loop.looping ≡ w.loop.looping

  Call-Leaves : {w u : World ep fd F} → Call ep fd F w u → Leaves w u
  unfolding queue_in_loop push_functor quit set_quit wakeup
  Call-Leaves (queues w f c) = record {
    same_point = refl;
    same_ran = refl;
    still_quit = λ q. q;
    same_looping = refl;
  }
  Call-Leaves (quits w c) = record {
    same_point = refl;
    same_ran = refl;
    still_quit = λ q. refl;
    same_looping = refl;
  }
  Call-Leaves (queues_outside w f c) = record {
    same_point = refl;
    same_ran = refl;
    still_quit = λ q. q;
    same_looping = refl;
  }
  Call-Leaves (quits_outside w c) = record {
    same_point = refl;
    same_ran = refl;
    still_quit = λ q. refl;
    same_looping = refl;
  }
  Call-Leaves (pushes w f) = record {
    same_point = refl;
    same_ran = refl;
    still_quit = λ q. q;
    same_looping = refl;
  }
  Call-Leaves (sets_quit w) = record {
    same_point = refl;
    same_ran = refl;
    still_quit = λ q. refl;
    same_looping = refl;
  }
  Call-Leaves (wakes w n o) = record {
    same_point = refl;
    same_ran = refl;
    still_quit = λ q. q;
    same_looping = refl;
  }

  -- Where the thread is after a turn of the loop over the functors.
  run_step :
      (w : World ep fd F) (f : F) (fs : List F) (events : List (ℕ × Revents)) (alive : Bool)
      → w.loop.point ≡ running (f ∷ fs)
      → let u = advance ep fd F w events alive in
        (u.loop.point ≡ running fs)
        × (u.ran ≡ w.ran ++ (f ∷ []))
        × (u.loop.quit_set ≡ w.loop.quit_set)
  unfolding thread_step thread_step_at run_next
  run_step w f fs events alive i = (ground (arith, i), ground (arith, i), ground (arith, i))

  end_step :
      (w : World ep fd F) (events : List (ℕ × Revents)) (alive : Bool)
      → w.loop.point ≡ running []
      → let u = advance ep fd F w events alive in
        (u.loop.point ≡ testing) × (u.ran ≡ w.ran) × (u.loop.quit_set ≡ w.loop.quit_set)
  unfolding thread_step thread_step_at run_next
  end_step w events alive i =
      (ground (arith, i), ground (arith, i, append-nil w.ran), ground (arith, i))

  quit_step :
      (w : World ep fd F) (events : List (ℕ × Revents)) (alive : Bool)
      → w.loop.point ≡ testing
      → w.loop.quit_set ≡ true
      → let u = advance ep fd F w events alive in
        (u.loop.point ≡ idle) × (u.ran ≡ w.ran) × (u.loop.looping ≡ false)
  unfolding thread_step thread_step_at test_quit
  quit_step w events alive i q =
      (ground (arith, i, q), ground (arith, i, append-nil w.ran), ground (arith, i, q))

  Leaves-trans : {w u v : World ep fd F} → Leaves w u → Leaves u v → Leaves w v
  Leaves-trans a b = record {
    same_point = b.same_point ∙ a.same_point;
    same_ran = b.same_ran ∙ a.same_ran;
    still_quit = λ q. b.still_quit (a.still_quit q);
    same_looping = b.same_looping ∙ a.same_looping;
  }

  Steps-Leaves : {n : ℕ} {w v : World ep fd F} → Steps ep fd F n w v → n ≡ 0 → Leaves w v
  Steps-Leaves (here w) z = record {
    same_point = refl;
    same_ran = refl;
    still_quit = λ q. q;
    same_looping = refl;
  }
  Steps-Leaves (loop_step events alive i s) z = absurd (omega arith)
  Steps-Leaves (call_step c s) z = Leaves-trans (Call-Leaves c) (Steps-Leaves s z)

  -- While the loop's thread runs a batch of functors, whatever these functors and the other threads
  -- queue meanwhile and however the steps are ordered, as many steps of the thread as there are
  -- functors, and one more, have started just these functors, in order, and are back at the test
  -- of `quit_`.
  pub batch_ends :
      (fs : List F) {n : ℕ} {w v : World ep fd F}
      → Steps ep fd F n w v
      → n ≡ length fs + 1
      → w.loop.point ≡ running fs
      → (v.loop.point ≡ testing) × (v.ran ≡ w.ran ++ fs)
  batch_ends fs (here w) e i = absurd (omega arith)
  batch_ends fs (call_step c s) e i =
      let l = Call-Leaves c in
      let (a, b) = batch_ends fs s e (l.same_point ∙ i) in (a, b ∙ ap (λ xs. xs ++ fs) l.same_ran)
  batch_ends [] {w = w} (loop_step events alive j s) e i =
      let (a, b, c) = end_step w events alive i in
      let l = Steps-Leaves s (omega (arith, e)) in
      (l.same_point ∙ a, l.same_ran ∙ b ∙ sym (append-nil w.ran))
  batch_ends (f ∷ fs) {w = w} (loop_step events alive j s) e i =
      let (a, b, c) = run_step w f fs events alive i in
      let (g, h) = batch_ends fs s (omega (arith, e)) a in
      (g, h ∙ ap (λ xs. xs ++ fs) b ∙ append_assoc w.ran (f ∷ []) fs)

  test_ends :
      {n : ℕ} {w v : World ep fd F}
      → Steps ep fd F n w v
      → n ≡ 1
      → w.loop.point ≡ testing
      → w.loop.quit_set ≡ true
      → (v.loop.point ≡ idle) × (v.loop.looping ≡ false) × (v.ran ≡ w.ran)
  test_ends (here w) e i q = absurd (omega arith)
  test_ends (call_step c s) e i q =
      let l = Call-Leaves c in
      let (a, b, d) = test_ends s e (l.same_point ∙ i) (l.still_quit q) in (a, b, d ∙ l.same_ran)
  test_ends {w = w} (loop_step events alive j s) e i q =
      let (a, b, c) = quit_step w events alive i q in
      let l = Steps-Leaves s (omega (arith, e)) in
      (l.same_point ∙ a, l.same_looping ∙ c, l.same_ran ∙ b)

  -- When `quit_` is set while the loop's thread runs a batch of functors, whatever is queued
  -- meanwhile and however the steps are ordered, as many steps of the thread as there are functors,
  -- and two more, have started just these functors and left `loop()`.
  pub quit_ends :
      (fs : List F) {n : ℕ} {w v : World ep fd F}
      → Steps ep fd F n w v
      → n ≡ length fs + 2
      → w.loop.point ≡ running fs
      → w.loop.quit_set ≡ true
      → (v.loop.point ≡ idle) × (v.loop.looping ≡ false) × (v.ran ≡ w.ran ++ fs)
  quit_ends fs (here w) e i q = absurd (omega arith)
  quit_ends fs (call_step c s) e i q =
      let l = Call-Leaves c in
      let (a, b, d) = quit_ends fs s e (l.same_point ∙ i) (l.still_quit q) in
      (a, b, d ∙ ap (λ xs. xs ++ fs) l.same_ran)
  quit_ends [] {w = w} (loop_step events alive j s) e i q =
      let (a, b, c) = end_step w events alive i in
      let (g, h, k) = test_ends s (omega (arith, e)) a (c ∙ q) in
      (g, h, k ∙ b ∙ sym (append-nil w.ran))
  quit_ends (f ∷ fs) {w = w} (loop_step events alive j s) e i q =
      let (a, b, c) = run_step w f fs events alive i in
      let (g, h, k) = quit_ends fs s (omega (arith, e)) a (c ∙ q) in
      (g, h, k ∙ ap (λ xs. xs ++ fs) b ∙ append_assoc w.ran (f ∷ []) fs)
