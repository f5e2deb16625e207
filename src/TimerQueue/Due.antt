-- ===== src/TimerQueue/Due.antt =====
-- `getExpired` of net/TimerQueue.cc takes out exactly the timers that are due.
use dserver.Prelude.{
  ℕ, ◌≡◌, sym, ap, ◌∙◌, true, not, ◌&&◌, some, List, length, arith, ◌+◌, length-append, ◌<◌, leb,
  ltb,
}
use dserver.TimerQueue.{Timer, TimerQueue, get_expired, max_address}
use dserver.TimerQueue.Sets.{
  has, IsOrdered, before, from, has-before, has-from, append-before-from, from-IsOrdered,
  before-IsOrdered,
}
use dserver.TimerQueue.Invariant.{IsConsistent, IsIdle}
use dserver.TimerQueue.Expiry.{
  has_address, has-has_address, address_has, AreActive, AreKnown, Erases, erase_active_lem,
  AreActive-IsDistinct, AreActive-of,
}

-- The entries of the list are live timers under their expirations, in neither set.
abbrev pub AreHeld : TimerQueue → List (ℕ × ℕ) → Type 0
AreHeld q xs =
    (w p : ℕ)
    → has xs w p ≡ true
    → ((t : Timer) × (q.heap p ≡ some t) × (t.expiration ≡ w)) × IsIdle q p

module _ (q : TimerQueue) (now : ℕ) (v : IsConsistent q) where
  abbrev pub due : List (ℕ × ℕ)
  due = before q.timers now max_address

  abbrev pub rest : List (ℕ × ℕ)
  rest = from q.timers now max_address

  due-AreActive : AreActive q.heap q.active_timers due
  due-AreActive =
      AreActive-of q.heap q.active_timers due
        (λ w p h. v.timed w p (ground (arith, has-before q.timers now max_address w p v.ordered)))

  all-AreKnown : AreKnown q.heap q.active_timers
  all-AreKnown p s h = let (t, e, f, g) = v.known p s h in (t, e, f)

  due-Erases : Erases q.heap due q.active_timers
  due-Erases =
      erase_active_lem q.heap due q.active_timers v.active_ordered
        (AreActive-IsDistinct q.heap q.active_timers due due-AreActive
          (before-IsOrdered q.timers now max_address v.ordered))
        due-AreActive all-AreKnown

  length-due : length due + length rest ≡ length q.timers
  length-due =
      sym (length-append due rest) ∙ ap length (append-before-from q.timers now max_address)

  module _ (active : List (ℕ × ℕ))
      (m : (r u : ℕ) → has active r u ≡ (not (has_address due r) && has q.active_timers r u)) where
    rest_timed :
        (w p : ℕ)
        → has rest w p ≡ true
        → (t : Timer) × (q.heap p ≡ some t) × (t.expiration ≡ w) × (has active p t.sequence ≡ true)
    rest_timed w p h =
        let (t, e, f, g) =
          v.timed w p (ground (arith, has-from q.timers now max_address w p v.ordered)) in
        (
          t,
          e,
          f,
          ground (
            arith,
            m p t.sequence,
            address_has q.heap q.active_timers due p t due-AreActive e,
            has-before q.timers now max_address t.expiration p v.ordered,
            has-from q.timers now max_address w p v.ordered,
          ),
        )

    rest_known :
        (p s : ℕ)
        → has active p s ≡ true
        → (t : Timer) × (q.heap p ≡ some t) × (t.sequence ≡ s) × (has rest t.expiration p ≡ true)
    rest_known p s h =
        let (t, e, f, g) = v.known p s (ground (arith, m p s)) in
        (
          t,
          e,
          f,
          ground (
            arith,
            m p s,
            has-has_address due t.expiration p,
            has-before q.timers now max_address t.expiration p v.ordered,
            has-from q.timers now max_address t.expiration p v.ordered,
          ),
        )

  -- The queue without the timers that are due.
  abbrev pub left : List (ℕ × ℕ) → TimerQueue
  left active = record q { timers = rest; active_timers = active }

  left-AreHeld :
      (active : List (ℕ × ℕ))
      → ((r u : ℕ) → has active r u ≡ (not (has_address due r) && has q.active_timers r u))
      → AreHeld (left active) due
  left-AreHeld active m w p h =
      let (t, e, f, g) =
        v.timed w p (ground (arith, has-before q.timers now max_address w p v.ordered)) in
      ((t, e, f), λ s. ground (arith, m p s, has-has_address due w p))

  pub get_expired-left :
      (active : List (ℕ × ℕ)) × (get_expired q now ≡ some (due, left active))
      × IsConsistent (left active)
      × AreHeld (left active) due
  unfolding get_expired
  get_expired-left =
      let (active, e, o, l, m) = due-Erases in
      let n : length rest ≡ length active = ground (arith, l, length-due, v.same_size) in
      (
        active,
        ground (arith, e, n, v.same_size),
        record {
          ordered = from-IsOrdered q.timers now max_address v.ordered;
          active_ordered = o;
          same_size = n;
          timed = rest_timed active m;
          known = rest_known active m;
        },
        left-AreHeld active m,
      )

  -- On a consistent queue whose timers are at addresses below UINTPTR_MAX, getExpired meets its
  -- asserts and gives, in the order of their times, exactly the entries whose time is not after
  -- `now`; they are still live, the queue keeps exactly the other entries, and is consistent.
  get_expired_lem :
      ((w p : ℕ) → has q.timers w p ≡ true → p < max_address)
      → (expired : List (ℕ × ℕ)) × (q' : TimerQueue) × (get_expired q now ≡ some (expired, q'))
        × IsConsistent q'
        × IsOrdered expired
        × AreHeld q' expired
        × ((w p : ℕ) → has expired w p ≡ (leb w now && has q.timers w p))
        × ((w p : ℕ) → has q'.timers w p ≡ (ltb now w && has q.timers w p))
  get_expired_lem b =
      let (active, e, c, h) = get_expired-left in
      (
        due,
        left active,
        e,
        c,
        before-IsOrdered q.timers now max_address v.ordered,
        h,
        λ w p. ground (arith, has-before q.timers now max_address w p v.ordered, b w p),
        λ w p. ground (arith, has-from q.timers now max_address w p v.ordered, b w p),
      )
