-- ===== src/TimerQueue/HandleRead.antt =====
-- `handleRead` and `reset` of net/TimerQueue.cc, with any callbacks that keep to the queue's calls.
use dserver.Prelude.{
  ℕ, ◌≡◌, refl, ◌∙◌, true, false, Option, some, List, [], ◌∷◌, arith, inl, inr, Bool-cases, ltb,
}
use dserver.TimerQueue.{TimerQueue, max_address, reset, wake_next, run_expired, handle_read}
use dserver.TimerQueue.Alarm.{alarm_time}
use dserver.TimerQueue.Sets.{has, has-before, has-from, IsOrdered, before-IsOrdered}
use dserver.TimerQueue.Invariant.{IsConsistent}
use dserver.TimerQueue.Expiry.{has-has_address}
use dserver.TimerQueue.Due.{AreHeld, due, left, get_expired-left}
use dserver.TimerQueue.Restart.{Covers, Resets, reset_timers_lem}
use dserver.TimerQueue.Calls.{Keeps}

-- What the callbacks of timers are to do: they return, and leave the queue by its own calls.
abbrev pub Behaves : (ℕ → TimerQueue → Option TimerQueue) → Type 0
Behaves run =
    (cb : ℕ) (q : TimerQueue) (xs : List (ℕ × ℕ))
    → IsConsistent q
    → Covers q xs
    → AreHeld q xs
    → (q' : TimerQueue) × (run cb q ≡ some q') × Keeps q xs q'

wakes-IsConsistent :
    (q : TimerQueue) (o : Option ℕ) → IsConsistent q → IsConsistent (record q { wakes_at = o })
wakes-IsConsistent q o v = record {
  ordered = v.ordered;
  active_ordered = v.active_ordered;
  same_size = v.same_size;
  timed = v.timed;
  known = v.known;
}

-- `q` is `q'` but for the time that the timerfd is set to.
abbrev SameTimers : TimerQueue → TimerQueue → Type 0
SameTimers q q' = (q'.timers ≡ q.timers) × (q'.heap ≡ q.heap) × (IsConsistent q')

wake_next_lem :
    (q : TimerQueue) (xs : List (ℕ × ℕ)) (clock : ℕ)
    → IsConsistent q
    → q.timers ≡ xs
    → (o : Option ℕ) × (wake_next q xs clock ≡ some (record q { wakes_at = o }))
unfolding wake_next has
wake_next_lem q [] clock v e = (q.wakes_at, refl)
wake_next_lem q ((w, p) ∷ xs) clock v e =
    let (t, l, f, g) = v.timed w p (rw e (ground arith)) in
    elim (Bool-cases (ltb 0 t.expiration)) [
      | inl b ↦ (some (alarm_time clock t.expiration), rw (l, b) refl)
      | inr b ↦ (q.wakes_at, rw (l, b) refl)
    ]

module _ (run : ℕ → TimerQueue → Option TimerQueue) (b : Behaves run) where
  run_expired_lem :
      (q : TimerQueue) (xs ys : List (ℕ × ℕ))
      → IsConsistent q
      → Covers q xs
      → AreHeld q xs
      → ((w p : ℕ) → has ys w p ≡ true → has xs w p ≡ true)
      → (q' : TimerQueue) × (run_expired run q ys ≡ some q') × Keeps q xs q'
  unfolding run_expired has
  run_expired_lem q xs [] v c h i =
      (q, refl, record { consistent = v; covers = c; held = h; same = λ p m. refl })
  run_expired_lem q xs ((w, p) ∷ ys) v c h i =
      let ((t, l, f), j) = h w p (i w p (ground arith)) in
      let (q1, e, k) = b t.callback q xs v c h in
      let (q2, d, k') =
        run_expired_lem q1 xs ys k.consistent k.covers k.held
          (λ x r m. i x r (ground (arith, m))) in
      (
        q2,
        rw (l, e) d,
        record {
          consistent = k'.consistent;
          covers = k'.covers;
          held = k'.held;
          same = λ r m. k'.same r m ∙ k.same r m;
        },
      )

-- A live timer that getExpired does not leave in the queue is among those it gives.
left-Covers :
    (q : TimerQueue) (now : ℕ) (v : IsConsistent q) (active : List (ℕ × ℕ))
    → Covers q []
    → Covers (left q now v active) (due q now v)
left-Covers q now v active c p t e = ground (
  arith,
  c p t e,
  has-before q.timers now max_address t.expiration p v.ordered,
  has-from q.timers now max_address t.expiration p v.ordered,
  has-has_address (due q now v) t.expiration p,
)

-- Given the timers that ran, out of the queue and in the order of their times, `reset` meets its
-- asserts and reads no deleted timer: those that repeat and were not cancelled start again one
-- interval after `now`, the others that ran are deleted, no other timer changes, and the queue is
-- consistent and has every live timer.
reset_lem :
    (q : TimerQueue) (xs : List (ℕ × ℕ)) (now clock : ℕ)
    → IsConsistent q
    → IsOrdered xs
    → AreHeld q xs
    → Covers q xs
    → (q' : TimerQueue) × (reset q xs now clock ≡ some q') × Resets q xs now q'
unfolding reset
reset_lem q xs now clock v o h c =
    let (q', e, (x, y, z)) = reset_timers_lem q xs now v o h c in
    let (w, d) = wake_next_lem q' q'.timers clock x refl in
    (record q' { wakes_at = w }, rw e d, (wakes-IsConsistent q' w x, y, z))

module _ (run : ℕ → TimerQueue → Option TimerQueue) (b : Behaves run) where
  -- With callbacks that use the queue by its calls and return, on a consistent queue that has
  -- every live timer, the whole of handleRead meets its asserts, reads no deleted timer, and
  -- leaves a consistent queue that has every live timer again.
  pub handle_read_lem :
      (q : TimerQueue) (now clock : ℕ)
      → IsConsistent q
      → Covers q []
      → (q' : TimerQueue) × (handle_read run q now clock ≡ some q') × IsConsistent q' × Covers q' []
  unfolding handle_read
  handle_read_lem q now clock v c =
      let (active, e, x, h) = get_expired-left q now v in
      let started : TimerQueue = record (left q now v active) {
        calling_expired_timers = true;
        canceling_timers = [];
      } in
      let (q1, d, k) =
        run_expired_lem run b started (due q now v) (due q now v)
          (record {
            ordered = x.ordered;
            active_ordered = x.active_ordered;
            same_size = x.same_size;
            timed = x.timed;
            known = x.known;
          })
          (left-Covers q now v active c) h (λ w p m. m) in
      let y = k.consistent in
      let (q2, f, (z, u, w)) =
        reset_lem (record q1 { calling_expired_timers = false }) (due q now v) now clock
          (record {
            ordered = y.ordered;
            active_ordered = y.active_ordered;
            same_size = y.same_size;
            timed = y.timed;
            known = y.known;
          })
          (before-IsOrdered q.timers now max_address v.ordered) k.held k.covers in
      (q2, rw (e, d) f, z, u)
