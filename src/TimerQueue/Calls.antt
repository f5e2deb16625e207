-- ===== src/TimerQueue/Calls.antt =====
-- `addTimer` and `cancel` of net/TimerQueue.cc, called at any time in the loop's thread.
use dserver.Prelude.{
  ℕ, ◌≡◌, ◌≢◌, refl, subst, true, false, not, ◌&&◌, ◌||◌, none, some, List, [], ◌∷◌, ◌==◌, length,
  arith, inl, inr, Bool-cases,
}
use dserver.TimerQueue.{Timer, TimerQueue, write_timer, cancel_in_loop}
use dserver.TimerQueue.Sets.{
  has, insert_pair, erase_pair, has-insert_pair, has-erase_pair, length-erase_pair,
  erase_pair-IsOrdered,
}
use dserver.TimerQueue.Invariant.{IsConsistent}
use dserver.TimerQueue.Expiry.{has_address}
use dserver.TimerQueue.Due.{AreHeld}
use dserver.TimerQueue.Restart.{Covers}

-- What a call keeps, while the timers of the list are out of the queue to run: the queue is
-- consistent, no live timer is lost, and the timers of the list are as they were.
pub record Keeps (q : TimerQueue) (xs : List (ℕ × ℕ)) (q' : TimerQueue) : Type 0 where
  pub consistent : IsConsistent q'
  pub covers : Covers q' xs
  pub held : AreHeld q' xs
  pub same : (p : ℕ) → has_address xs p ≡ true → q'.heap p ≡ q.heap p

-- What `cancel` leaves.
abbrev pub Cancels : TimerQueue → List (ℕ × ℕ) → ℕ → ℕ → TimerQueue → Type 0
Cancels q xs p s q' =
    Keeps q xs q'
    × (has q'.active_timers p s ≡ false)
    × (has q'.canceling_timers p s ≡ (
        has q.canceling_timers p s || (q.calling_expired_timers && not (has q.active_timers p s))))

-- A timer of the list is not one that is active.
held_differs :
    (q : TimerQueue) (p s : ℕ)
    → has q.active_timers p s ≡ true
    → (xs : List (ℕ × ℕ)) → AreHeld q xs
    → (r : ℕ) → has_address xs r ≡ true
    → (p == r) ≡ false
unfolding has
held_differs q p s a [] h r m = cc
held_differs q p s a ((w, y) ∷ xs) h r m =
    let (u, i) = h w y (ground arith) in
    ground (arith, a, i s, m, held_differs q p s a xs (λ x z n. h x z (ground (arith, n))) r)

-- A timer of the list is live.
pub held_live :
    (q : TimerQueue) (xs : List (ℕ × ℕ))
    → AreHeld q xs
    → (r : ℕ) → has_address xs r ≡ true
    → q.heap r ≢ none
unfolding has
held_live q [] h r m = λ b. cc
held_live q ((w, y) ∷ xs) h r m =
    let ((t, e, f), i) = h w y (ground arith) in
    λ b. ground (arith, e, b, m, held_live q xs (λ x z n. h x z (ground (arith, n))) r)

-- The queue without an active timer, which is deleted.
abbrev removed : TimerQueue → ℕ → Timer → TimerQueue
removed q p t = record q {
  timers = erase_pair q.timers t.expiration p;
  active_timers = erase_pair q.active_timers p t.sequence;
  heap = write_timer q.heap p none;
}

module _ (q : TimerQueue) (xs : List (ℕ × ℕ)) (v : IsConsistent q) (c : Covers q xs)
    (h : AreHeld q xs) where
  module _ (p : ℕ) (t : Timer) (l : q.heap p ≡ some t)
      (a : has q.active_timers p t.sequence ≡ true) where
    is_timed : has q.timers t.expiration p ≡ true
    is_timed = let (u, e, f, g) = v.known p t.sequence a in ground (arith, l, e, g)

    removed_timed :
        (w r : ℕ)
        → has (erase_pair q.timers t.expiration p) w r ≡ true
        → (u : Timer) × (write_timer q.heap p none r ≡ some u)
          × (u.expiration ≡ w)
          × (has (erase_pair q.active_timers p t.sequence) r u.sequence ≡ true)
    removed_timed w r m =
        let n = has-erase_pair q.timers t.expiration p w r v.ordered in
        let (u, e, f, g) = v.timed w r (ground (arith, n)) in
        (
          u,
          ground (arith, n, l, e, f),
          f,
          ground (
            arith,
            n,
            l,
            e,
            f,
            g,
            has-erase_pair q.active_timers p t.sequence r u.sequence v.active_ordered,
          ),
        )

    removed_known :
        (r s : ℕ)
        → has (erase_pair q.active_timers p t.sequence) r s ≡ true
        → (u : Timer) × (write_timer q.heap p none r ≡ some u)
          × (u.sequence ≡ s)
          × (has (erase_pair q.timers t.expiration p) u.expiration r ≡ true)
    removed_known r s m =
        let n = has-erase_pair q.active_timers p t.sequence r s v.active_ordered in
        let (u, e, f, g) = v.known r s (ground (arith, n)) in
        (
          u,
          ground (arith, n, l, e, f),
          f,
          ground (
            arith,
            n,
            l,
            e,
            f,
            g,
            has-erase_pair q.timers t.expiration p u.expiration r v.ordered,
          ),
        )

    removed_size :
        length (erase_pair q.timers t.expiration p)
        ≡ length (erase_pair q.active_timers p t.sequence)
    removed_size = ground (
      arith,
      v.same_size,
      length-erase_pair q.timers t.expiration p is_timed,
      length-erase_pair q.active_timers p t.sequence a,
    )

    removed-IsConsistent : IsConsistent (removed q p t)
    removed-IsConsistent = record {
      ordered = erase_pair-IsOrdered q.timers t.expiration p v.ordered;
      active_ordered = erase_pair-IsOrdered q.active_timers p t.sequence v.active_ordered;
      same_size = removed_size;
      timed = removed_timed;
      known = removed_known;
    }

    removed-held : AreHeld (removed q p t) xs
    removed-held w r m =
        let ((u, e, f), i) = h w r m in
        (
          (u, ground (arith, e, l, i t.sequence, a), f),
          λ s.
              ground (arith, i s, has-erase_pair q.active_timers p t.sequence r s v.active_ordered),
        )

    removed-Keeps : Keeps q xs (removed q p t)
    removed-Keeps = record {
      consistent = removed-IsConsistent;
      covers = λ r u e.
          ground
            (arith, c r u, e, l, has-erase_pair q.timers t.expiration p u.expiration r v.ordered);
      held = removed-held;
      same = λ r m. ground (arith, held_differs q p t.sequence a xs h r m);
    }

  noted-Keeps :
      (p s : ℕ) → Keeps q xs (record q { canceling_timers = insert_pair q.canceling_timers p s })
  noted-Keeps p s = record {
    consistent = record {
      ordered = v.ordered;
      active_ordered = v.active_ordered;
      same_size = v.same_size;
      timed = v.timed;
      known = v.known;
    };
    covers = c;
    held = h;
    same = λ r m. refl;
  }

  cancel_active :
      (p s : ℕ)
      → has q.active_timers p s ≡ true
      → (q' : TimerQueue) × (cancel_in_loop q p s ≡ some q') × Cancels q xs p s q'
  unfolding cancel_in_loop
  cancel_active p s a =
      let (t, l, f, g) = v.known p s a in
      let b : has q.active_timers p t.sequence ≡ true = rw f a in
      (
        record (removed q p t) { active_timers = erase_pair q.active_timers p s },
        ground (arith, l, a, g, v.same_size, removed_size p t l b, f),
        (
          subst
              (λ u.
                Keeps q xs
                  (record (removed q p t) { active_timers = erase_pair q.active_timers p u }))
              f (removed-Keeps p t l b),
          ground (arith, has-erase_pair q.active_timers p s p s v.active_ordered),
          ground (arith, a),
        ),
      )

  cancel_inactive :
      (p s : ℕ)
      → has q.active_timers p s ≡ false
      → (q' : TimerQueue) × (cancel_in_loop q p s ≡ some q') × Cancels q xs p s q'
  unfolding cancel_in_loop
  cancel_inactive p s a =
      elim (Bool-cases (q.calling_expired_timers && not (has q.canceling_timers p s))) [
        | inl b ↦ (
          record q { canceling_timers = insert_pair q.canceling_timers p s },
          ground (arith, a, b, v.same_size),
          (noted-Keeps p s, a, ground (arith, a, b, has-insert_pair q.canceling_timers p s p s)),
        )
        | inr b ↦ (
          q,
          ground (arith, a, b, v.same_size),
          (
            record { consistent = v; covers = c; held = h; same = λ r m. refl },
            a,
            ground (arith, a, b),
          ),
        )
      ]

  -- At any time, on a consistent queue that has all live timers but those of a list that are out
  -- to run, `cancel` meets its asserts and reads no deleted timer: it keeps all of that, the
  -- timer is not active after it, and while expired timers run it is noted as cancelled when it
  -- was not active.
  pub cancel_in_loop_lem :
      (p s : ℕ) → (q' : TimerQueue) × (cancel_in_loop q p s ≡ some q') × Cancels q xs p s q'
  cancel_in_loop_lem p s = elim (Bool-cases (has q.active_timers p s)) [
    | inl a ↦ cancel_active p s a
    | inr a ↦ cancel_inactive p s a
  ]
