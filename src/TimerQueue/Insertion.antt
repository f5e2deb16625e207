-- ===== src/TimerQueue/Insertion.antt =====
-- `insert` and `addTimer` of net/TimerQueue.cc, on a consistent queue.
use dserver.Prelude.{ℕ, suc, ◌≡◌, sym, ap, ◌∙◌, true, false, some, arith, inl, inr, Bool-cases}
use dserver.TimerQueue.{Timer, TimerQueue, insert, is_earliest}
use dserver.TimerQueue.Sets.{
  has, eq_pair, insert_pair, has-insert_pair, length-insert_pair, insert_pair-IsOrdered,
}
use dserver.TimerQueue.Invariant.{IsConsistent, IsIdle}

-- The queue with the timer in both sets.
abbrev pub inserted : TimerQueue → ℕ → Timer → TimerQueue
inserted q p t = record q {
  timers = insert_pair q.timers t.expiration p;
  active_timers = insert_pair q.active_timers p t.sequence;
}

module _ {q : TimerQueue} {p : ℕ} {t : Timer} (v : IsConsistent q) (l : q.heap p ≡ some t)
    (i : IsIdle q p) where
  not_timed : has q.timers t.expiration p ≡ false
  not_timed = elim (Bool-cases (has q.timers t.expiration p)) [
    | inl h ↦ (let (u, e, f, g) = v.timed t.expiration p h in ground (arith, i u.sequence))
    | inr h ↦ h
  ]

  pub insert-inserted : insert q p ≡ some (is_earliest t.expiration q.timers, inserted q p t)
  unfolding insert
  insert-inserted = ground (
    arith,
    l,
    not_timed,
    i t.sequence,
    v.same_size,
    length-insert_pair q.timers t.expiration p,
    length-insert_pair q.active_timers p t.sequence,
  )

  inserted_timed :
      (w r : ℕ)
      → has (insert_pair q.timers t.expiration p) w r ≡ true
      → (u : Timer) × (q.heap r ≡ some u)
        × (u.expiration ≡ w)
        × (has (insert_pair q.active_timers p t.sequence) r u.sequence ≡ true)
  inserted_timed w r h = elim (Bool-cases (eq_pair t.expiration p w r)) [
    | inl e ↦ (
      t,
      ground (arith, l),
      ground arith,
      ground (arith, has-insert_pair q.active_timers p t.sequence r t.sequence),
    )
    | inr n ↦
        let (u, e, f, g) =
          v.timed w r (ground (arith, has-insert_pair q.timers t.expiration p w r)) in
        (u, e, f, ground (arith, has-insert_pair q.active_timers p t.sequence r u.sequence))
  ]

  inserted_known :
      (r s : ℕ)
      → has (insert_pair q.active_timers p t.sequence) r s ≡ true
      → (u : Timer) × (q.heap r ≡ some u)
        × (u.sequence ≡ s)
        × (has (insert_pair q.timers t.expiration p) u.expiration r ≡ true)
  inserted_known r s h = elim (Bool-cases (eq_pair p t.sequence r s)) [
    | inl e ↦ (
      t,
      ground (arith, l),
      ground arith,
      ground (arith, has-insert_pair q.timers t.expiration p t.expiration r),
    )
    | inr n ↦
        let (u, e, f, g) =
          v.known r s (ground (arith, has-insert_pair q.active_timers p t.sequence r s)) in
        (u, e, f, ground (arith, has-insert_pair q.timers t.expiration p u.expiration r))
  ]

  pub inserted-IsConsistent : IsConsistent (inserted q p t)
  inserted-IsConsistent = record {
    ordered = insert_pair-IsOrdered q.timers t.expiration p v.ordered not_timed;
    active_ordered =
        insert_pair-IsOrdered q.active_timers p t.sequence v.active_ordered (i t.sequence);
    same_size =
        length-insert_pair q.timers t.expiration p
        ∙ ap suc v.same_size
        ∙ sym (length-insert_pair q.active_timers p t.sequence);
    timed = inserted_timed;
    known = inserted_known;
  }
