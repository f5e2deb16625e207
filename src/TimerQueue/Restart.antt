-- ===== src/TimerQueue/Restart.antt =====
-- `reset` of net/TimerQueue.cc: the timers that ran start again, or go.
use dserver.Prelude.{
  ℕ, ◌≡◌, refl, ap, ◌∙◌, Bool, true, false, not, ◌&&◌, ◌||◌, Option, none, some, List, [], ◌∷◌,
  ◌==◌, if◌then◌else◌, arith, ◌+◌, inl, inr, Bool-cases,
}
use dserver.TimerQueue.{Timer, TimerQueue, write_timer, restart, reset_timers}
use dserver.TimerQueue.Sets.{has, Above, IsOrdered, has-insert_pair}
use dserver.TimerQueue.Invariant.{IsConsistent, IsIdle, write_timer-IsConsistent}
use dserver.TimerQueue.Insertion.{inserted, insert-inserted, inserted-IsConsistent}
use dserver.TimerQueue.Expiry.{has_address}
use dserver.TimerQueue.Due.{AreHeld}

-- A live timer is in the queue or in the list: none is leaked or forgotten.
abbrev pub Covers : TimerQueue → List (ℕ × ℕ) → Type 0
Covers q xs =
    (p : ℕ) (t : Timer)
    → q.heap p ≡ some t
    → (has q.timers t.expiration p || has_address xs p) ≡ true

-- What becomes of a timer that ran: it starts again if it repeats and was not cancelled.
abbrev pub restarted : List (ℕ × ℕ) → ℕ → ℕ → Timer → Option Timer
restarted canceling now p t =
    if t.repeat && not (has canceling p t.sequence)
    then some (record t { expiration = now + t.interval })
    else none

-- The same, for the timers that ran and for the others.
abbrev pub outcome : List (ℕ × ℕ) → ℕ → ℕ → Bool → Option Timer → Option Timer
outcome canceling now p false o = o
outcome canceling now p true none = none
outcome canceling now p true (some t) = restarted canceling now p t

abbrev pub reset_heap : TimerQueue → List (ℕ × ℕ) → ℕ → ℕ → Option Timer
reset_heap q xs now p = outcome q.canceling_timers now p (has_address xs p) (q.heap p)

-- The state after the first entry of the list.
record Steps (q : TimerQueue) (p : ℕ) (o : Option Timer) (xs : List (ℕ × ℕ)) (q' : TimerQueue)
    : Type 0 where
  changes : (r : ℕ) → q'.heap r ≡ write_timer q.heap p o r
  same_canceling : q'.canceling_timers ≡ q.canceling_timers
  consistent : IsConsistent q'
  held : AreHeld q' xs
  covers : Covers q' xs

restart_repeat :
    (t : Timer) (now : ℕ)
    → t.repeat ≡ true
    → restart t now ≡ record t { expiration = now + t.interval }
unfolding restart
restart_repeat t now e = rw e refl

module _ (q : TimerQueue) (w p : ℕ) (xs : List (ℕ × ℕ)) (v : IsConsistent q) (a : Above w p xs)
    (h : AreHeld q ((w, p) ∷ xs)) (c : Covers q ((w, p) ∷ xs)) where
  head_held : ((t : Timer) × (q.heap p ≡ some t) × (t.expiration ≡ w)) × IsIdle q p
  unfolding has
  head_held = h w p (ground arith)

  tail_held :
      (x r : ℕ)
      → has xs x r ≡ true
      → ((t : Timer) × (q.heap r ≡ some t) × (t.expiration ≡ x)) × IsIdle q r
  unfolding has
  tail_held x r m = h x r (ground (arith, m))

  tail_differs : (x r : ℕ) → has xs x r ≡ true → (p == r) ≡ false
  tail_differs x r m =
      let ((t1, e1, f1), i1) = head_held in
      let ((t2, e2, f2), i2) = tail_held x r m in ground (arith, a x r m, e1, e2, f1, f2)

  tail_distinct_in :
      (ys : List (ℕ × ℕ))
      → ((x r : ℕ) → has ys x r ≡ true → (p == r) ≡ false)
      → has_address ys p ≡ false
  unfolding has
  tail_distinct_in [] d = refl
  tail_distinct_in ((x, r) ∷ ys) d =
      ground (arith, d x r, tail_distinct_in ys (λ y s m. d y s (ground (arith, m))))

  tail_distinct : has_address xs p ≡ false
  tail_distinct = tail_distinct_in xs tail_differs

  module _ (t : Timer) (l : q.heap p ≡ some t) where
    drop-Steps : Steps q p none xs (record q { heap = write_timer q.heap p none })
    drop-Steps = record {
      changes = λ r. refl;
      same_canceling = refl;
      consistent = write_timer-IsConsistent q p v head_held.1 none;
      held = λ x r m.
          let ((u, e, f), i) = tail_held x r m in
          ((u, ground (arith, e, tail_differs x r m), f), i);
      covers = λ r u e. ground (arith, c r u, e);
    }

    abbrev put_back : ℕ → TimerQueue
    put_back now =
        inserted
          (record q {
            heap = write_timer q.heap p (some (record t { expiration = now + t.interval }));
          })
          p (record t { expiration = now + t.interval })

    put_back-Steps :
        (now : ℕ) → Steps q p (some (record t { expiration = now + t.interval })) xs (put_back now)
    put_back-Steps now =
        let t' : Timer = record t { expiration = now + t.interval } in
        record {
          changes = λ r. refl;
          same_canceling = refl;
          consistent =
              inserted-IsConsistent {t = t'} (write_timer-IsConsistent q p v head_held.1 (some t'))
                (ground arith) head_held.1;
          held = λ x r m.
              let ((u, e, f), i) = tail_held x r m in
              (
                (u, ground (arith, e, tail_differs x r m), f),
                λ s. ground (
                  arith,
                  tail_differs x r m,
                  i s,
                  has-insert_pair q.active_timers p t.sequence r s,
                ),
              );
          covers = λ r u e.
              ground
                (arith, c r u, e, has-insert_pair q.timers (now + t.interval) p u.expiration r);
        }

    -- The step that `reset_timers` takes at the head of its list.
    head-Steps :
        (now : ℕ)
        → (q' : TimerQueue) × (reset_timers q ((w, p) ∷ xs) now ≡ reset_timers q' xs now)
          × Steps q p (restarted q.canceling_timers now p t) xs q'
    unfolding reset_timers
    head-Steps now =
        let t' : Timer = record t { expiration = now + t.interval } in
        elim (Bool-cases (t.repeat && not (has q.canceling_timers p t.sequence))) [
          | inl b ↦ (
            put_back now,
            rw
                (
                  l,
                  b,
                  restart_repeat t now (ground (arith, b)),
                  insert-inserted {t = t'} (write_timer-IsConsistent q p v head_held.1 (some t'))
                      (ground arith) head_held.1,
                )
                refl,
            rw b (put_back-Steps now),
          )
          | inr b ↦ (record q { heap = write_timer q.heap p none }, rw (l, b) refl, rw b drop-Steps)
        ]

-- What `reset_timers` leaves.
abbrev pub Resets : TimerQueue → List (ℕ × ℕ) → ℕ → TimerQueue → Type 0
Resets q xs now q' = IsConsistent q' × Covers q' [] × ((r : ℕ) → q'.heap r ≡ reset_heap q xs now r)

-- The entries behind the first read what they would have read before it.
reset_heap_step :
    (q q' : TimerQueue) (w p : ℕ) (xs : List (ℕ × ℕ)) (t : Timer) (now r : ℕ)
    → q.heap p ≡ some t
    → has_address xs p ≡ false
    → q'.heap r ≡ write_timer q.heap p (restarted q.canceling_timers now p t) r
    → q'.canceling_timers ≡ q.canceling_timers
    → reset_heap q' xs now r ≡ reset_heap q ((w, p) ∷ xs) now r
reset_heap_step q q' w p xs t now r l n h c =
    ap (λ k. outcome k now r (has_address xs r) (q'.heap r)) c
    ∙ ap (outcome q.canceling_timers now r (has_address xs r)) h
    ∙ elim (Bool-cases (p == r)) [ inl e ↦ ground (arith, e, l, n) | inr e ↦ rw e refl ]

pub reset_timers_lem :
    (q : TimerQueue) (xs : List (ℕ × ℕ)) (now : ℕ)
    → IsConsistent q
    → IsOrdered xs
    → AreHeld q xs
    → Covers q xs
    → (q' : TimerQueue) × (reset_timers q xs now ≡ some q') × Resets q xs now q'
unfolding reset_timers
reset_timers_lem q [] now v o h c = (q, refl, (v, c, λ r. refl))
reset_timers_lem q ((w, p) ∷ xs) now v (a, o) h c =
    let ((t, l, f), i) = head_held q w p xs v a h c in
    let (q', e, s) = head-Steps q w p xs v a h c t l now in
    let (q'', d, (x, y, z)) = reset_timers_lem q' xs now s.consistent o s.held s.covers in
    (
      q'',
      e ∙ d,
      (
        x,
        y,
        λ r.
            z r
            ∙ reset_heap_step q q' w p xs t now r l (tail_distinct q w p xs v a h c) (s.changes r)
                s.same_canceling,
      ),
    )
