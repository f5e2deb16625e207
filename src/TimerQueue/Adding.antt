-- ===== src/TimerQueue/Adding.antt =====
-- `addTimer` of net/TimerQueue.cc, called at any time in the loop's thread.
use Prim.Native.Nat.{max}
use dserver.Prelude.{
  ℕ, ◌≡◌, refl, ◌∙◌, Bool, true, false, ◌||◌, Option, none, some, List, [], ◌∷◌, if◌then◌else◌, ltb,
  arith, ◌+◌, ◌≤◌, inl, inr, Bool-cases,
}
use dserver.TimerQueue.{Timer, TimerQueue, write_timer, add_timer, add_timer_in_loop, is_earliest}
use dserver.TimerQueue.Alarm.{alarm_time}
use dserver.TimerQueue.Sets.{has, eq_pair, IsOrdered, has-insert_pair}
use dserver.TimerQueue.Invariant.{IsConsistent, IsIdle, write_timer-IsConsistent}
use dserver.TimerQueue.Insertion.{inserted, insert-inserted, inserted-IsConsistent}
use dserver.TimerQueue.Due.{AreHeld}
use dserver.TimerQueue.Restart.{Covers}
use dserver.TimerQueue.Calls.{Keeps, held_live}

-- What `new Timer` makes.
abbrev pub new_timer : ℕ → ℕ → ℕ → Bool → ℕ → Timer
new_timer cb when interval repeat sequence = record {
  callback = cb;
  expiration = when;
  interval = interval;
  repeat = repeat;
  sequence = sequence;
}

-- The timerfd wakes the loop by the time of each timer of the queue, or by `late` if that is later.
abbrev pub IsArmed : ℕ → TimerQueue → Type 0
IsArmed late q =
    (w p : ℕ) → has q.timers w p ≡ true → (m : ℕ) × (q.wakes_at ≡ some m) × (m ≤ max w late)

-- What the timerfd is set to when a timer of that time has been added.
abbrev pub rearmed : TimerQueue → ℕ → ℕ → Option ℕ
rearmed q clock when =
    if is_earliest when q.timers then some (alarm_time clock when) else q.wakes_at

alarm_time_le : (clock when w : ℕ) → when ≤ w → alarm_time clock when ≤ max w (clock + 100)
alarm_time_le clock when w h = elim (Bool-cases (ltb when (clock + 100))) [
  | inl b ↦ rw b (omega arith)
  | inr b ↦ rw b (omega (arith, h))
]

earliest_le :
    (when : ℕ) (xs : List (ℕ × ℕ)) (w p : ℕ)
    → IsOrdered xs
    → is_earliest when xs ≡ true
    → has xs w p ≡ true
    → when ≤ w
unfolding is_earliest has
earliest_le when [] w p o e h = cc
earliest_le when ((x, y) ∷ xs) w p (a, o) e h = ground (arith, a w p)

not_earliest :
    (when : ℕ) (xs : List (ℕ × ℕ))
    → is_earliest when xs ≡ false
    → (w : ℕ) × (p : ℕ) × (has xs w p ≡ true) × (w ≤ when)
unfolding is_earliest has
not_earliest when [] e = cc
not_earliest when ((w, p) ∷ xs) e = (w, p, ground arith, ground (arith, e))

-- Both sets have the timer, and what they had.
abbrev pub Gains : TimerQueue → ℕ → Timer → TimerQueue → Type 0
Gains q p t q' =
    ((w r : ℕ) → has q'.timers w r ≡ (eq_pair t.expiration p w r || has q.timers w r))
    × ((r s : ℕ) → has q'.active_timers r s ≡ (eq_pair p t.sequence r s || has q.active_timers r s))

Gains-IsArmed :
    (q : TimerQueue) (p : ℕ) (t : Timer) (clock late : ℕ) (q' : TimerQueue)
    → IsOrdered q.timers
    → late ≤ clock + 100
    → IsArmed late q
    → Gains q p t q'
    → q'.wakes_at ≡ rearmed q clock t.expiration
    → IsArmed (clock + 100) q'
Gains-IsArmed q p t clock late q' o le m (g, _) k w r h =
    elim (Bool-cases (is_earliest t.expiration q.timers)) [
      | inl b ↦ (
        alarm_time clock t.expiration,
        k ∙ rw b refl,
        alarm_time_le clock t.expiration w
            (ground (arith, g w r, h, earliest_le t.expiration q.timers w r o b)),
      )
      | inr b ↦ elim (Bool-cases (eq_pair t.expiration p w r)) [
        | inl d ↦
            let (w0, r0, a, z) = not_earliest t.expiration q.timers b in
            let (u, e, y) = m w0 r0 a in
            let same : t.expiration ≡ w = ground (arith, d) in
            (u, k ∙ rw b e, omega (arith, same, z, y, le))
        | inr d ↦
            let (u, e, y) = m w r (ground (arith, g w r, h, d)) in
            (u, k ∙ rw b e, omega (arith, y, le))
      ]
    ]

module _ (q : TimerQueue) (xs : List (ℕ × ℕ)) (v : IsConsistent q) (c : Covers q xs)
    (h : AreHeld q xs) (p : ℕ) (n : q.heap p ≡ none) where
  new-IsIdle : IsIdle q p
  new-IsIdle s = elim (Bool-cases (has q.active_timers p s)) [
    | inl a ↦ (let (t, e, f, g) = v.known p s a in ground (arith, e, n))
    | inr a ↦ a
  ]

  -- The queue with the new timer, in neither set yet.
  abbrev created : Timer → TimerQueue
  created t = record q { heap = write_timer q.heap p (some t) }

  created-IsConsistent : (t : Timer) → IsConsistent (created t)
  created-IsConsistent t =
      let w = write_timer-IsConsistent q p v new-IsIdle (some t) in
      record {
        ordered = w.ordered;
        active_ordered = w.active_ordered;
        same_size = w.same_size;
        timed = w.timed;
        known = w.known;
      }

  abbrev queued : Timer → TimerQueue
  queued t = inserted (created t) p t

  module _ (t : Timer) (o : Option ℕ) where
    abbrev set : TimerQueue
    set = record (queued t) { wakes_at = o }

    set-IsConsistent : IsConsistent set
    set-IsConsistent =
        let w = inserted-IsConsistent {t = t} (created-IsConsistent t) (ground arith) new-IsIdle in
        record {
          ordered = w.ordered;
          active_ordered = w.active_ordered;
          same_size = w.same_size;
          timed = w.timed;
          known = w.known;
        }

    set-held : AreHeld set xs
    set-held w r m =
        let ((u, e, f), i) = h w r m in
        (
          (u, ground (arith, e, n), f),
          λ s. ground (arith, i s, e, n, has-insert_pair q.active_timers p t.sequence r s),
        )

    set-Keeps : Keeps q xs set
    set-Keeps = record {
      consistent = set-IsConsistent;
      covers =
          λ r u e. ground (arith, c r u, e, has-insert_pair q.timers t.expiration p u.expiration r);
      held = set-held;
      same = λ r m. ground (arith, held_live q xs h r m, n);
    }

  -- What `addTimer` leaves.
  abbrev pub Adds : Timer → ℕ → TimerQueue → Type 0
  Adds t clock q' =
      Keeps q xs q'
      × (q'.heap p ≡ some t)
      × Gains q p t q'
      × (q'.wakes_at ≡ rearmed q clock t.expiration)

  add_created :
      (t : Timer) (clock : ℕ)
      → (q' : TimerQueue) × (add_timer_in_loop (created t) p clock ≡ some q') × Adds t clock q'
  unfolding add_timer_in_loop
  add_created t clock =
      let e = insert-inserted {t = t} (created-IsConsistent t) (ground arith) new-IsIdle in
      let x = has-insert_pair q.timers t.expiration p in
      let y = has-insert_pair q.active_timers p t.sequence in
      let l : (queued t).heap p ≡ some t = ground arith in
      elim (Bool-cases (is_earliest t.expiration q.timers)) [
        | inl b ↦ (
          set t (some (alarm_time clock t.expiration)),
          rw (e, l, b) refl,
          (set-Keeps t (some (alarm_time clock t.expiration)), l, (x, y), rw b refl),
        )
        | inr b ↦
            (set t q.wakes_at, rw (e, l, b) refl, (set-Keeps t q.wakes_at, l, (x, y), rw b refl))
      ]

  -- At any time, on a consistent queue that has all live timers but those of a list that are out
  -- to run, `addTimer` of a timer at an address that `new` gives, where no timer is, meets its
  -- asserts: it keeps all of that, the new timer is live, and both sets gain just it. If the timerfd
  -- wakes the loop by the time of each timer, or by a time at most 100 microseconds after the one
  -- that resetTimerfd reads, it does so afterwards for the new timer too: for each timer, by its time
  -- or 100 microseconds after the time that resetTimerfd reads, whichever is later.
  pub add_timer_lem :
      (cb when interval : ℕ) (repeat : Bool) (sequence clock late : ℕ)
      → late ≤ clock + 100
      → IsArmed late q
      → (q' : TimerQueue) × (add_timer q p cb when interval repeat sequence clock ≡ some q')
        × Keeps q xs q'
        × (q'.heap p ≡ some (new_timer cb when interval repeat sequence))
        × Gains q p (new_timer cb when interval repeat sequence) q'
        × IsArmed (clock + 100) q'
  unfolding add_timer
  add_timer_lem cb when interval repeat sequence clock late le m =
      let (q', e, (k, l, i, w)) = add_created (new_timer cb when interval repeat sequence) clock in
      (
        q',
        e,
        k,
        l,
        i,
        Gains-IsArmed q p (new_timer cb when interval repeat sequence) clock late q' v.ordered le m
            i w,
      )
