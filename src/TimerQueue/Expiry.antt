-- ===== src/TimerQueue/Expiry.antt =====
-- `getExpired` of net/TimerQueue.cc, on a consistent queue.
use dserver.Prelude.{
  ℕ, ◌≡◌, refl, Bool, true, false, not, ◌&&◌, ◌||◌, Option, some, List, [], ◌∷◌, ◌==◌, length,
  arith, ◌+◌,
}
use dserver.TimerQueue.{Timer, erase_active}
use dserver.TimerQueue.Sets.{
  has, IsOrdered, erase_pair, has-erase_pair, length-erase_pair, erase_pair-IsOrdered,
}

-- Some entry of the list has the address.
abbrev pub has_address : List (ℕ × ℕ) → ℕ → Bool
has_address [] p = false
has_address ((w, q) ∷ xs) p = q == p || has_address xs p

-- The entries are live timers under their expirations, each in the other set.
abbrev pub AreActive : (ℕ → Option Timer) → List (ℕ × ℕ) → List (ℕ × ℕ) → Type 0
AreActive heap active [] = Unit {0}
AreActive heap active ((w, p) ∷ xs) =
    ((t : Timer) × (heap p ≡ some t) × (t.expiration ≡ w) × (has active p t.sequence ≡ true))
    × AreActive heap active xs

-- No two entries have the same address.
abbrev pub IsDistinct : List (ℕ × ℕ) → Type 0
IsDistinct [] = Unit {0}
IsDistinct ((w, p) ∷ xs) = (has_address xs p ≡ false) × IsDistinct xs

-- Each active timer of the heap stands under its own sequence.
abbrev pub AreKnown : (ℕ → Option Timer) → List (ℕ × ℕ) → Type 0
AreKnown heap active =
    (p s : ℕ) → has active p s ≡ true → (t : Timer) × (heap p ≡ some t) × (t.sequence ≡ s)

erase_pair-AreActive :
    (heap : ℕ → Option Timer) (active xs : List (ℕ × ℕ)) (p s : ℕ)
    → IsOrdered active
    → has_address xs p ≡ false
    → AreActive heap active xs
    → AreActive heap (erase_pair active p s) xs
erase_pair-AreActive heap active [] p s o n v = tt
erase_pair-AreActive heap active ((w, q) ∷ xs) p s o n ((t, e, f, g), v) = (
  (t, e, f, ground (arith, has-erase_pair active p s q t.sequence o)),
  erase_pair-AreActive heap active xs p s o (ground (arith, n)) v,
)

erase_pair-AreKnown :
    (heap : ℕ → Option Timer) (active : List (ℕ × ℕ)) (p s : ℕ)
    → IsOrdered active
    → AreKnown heap active
    → AreKnown heap (erase_pair active p s)
erase_pair-AreKnown heap active p s o k r u h =
    k r u (ground (arith, has-erase_pair active p s r u o))

-- What the loop of `getExpired` leaves of `activeTimers_`.
abbrev pub Erases : (ℕ → Option Timer) → List (ℕ × ℕ) → List (ℕ × ℕ) → Type 0
Erases heap xs active =
    (active' : List (ℕ × ℕ)) × (erase_active heap xs active ≡ some active')
    × IsOrdered active'
    × (length xs + length active' ≡ length active)
    × ((r u : ℕ) → has active' r u ≡ (not (has_address xs r) && has active r u))

pub erase_active_lem :
    (heap : ℕ → Option Timer) (xs active : List (ℕ × ℕ))
    → IsOrdered active
    → IsDistinct xs
    → AreActive heap active xs
    → AreKnown heap active
    → Erases heap xs active
unfolding erase_active
erase_active_lem heap [] active o d v k = (active, refl, o, omega arith, λ r u. refl)
erase_active_lem heap ((w, p) ∷ xs) active o (n, d) ((t, e, f, g), v) k =
    let (rest, h, o', l, m) =
      erase_active_lem heap xs (erase_pair active p t.sequence)
        (erase_pair-IsOrdered active p t.sequence o) d
        (erase_pair-AreActive heap active xs p t.sequence o n v)
        (erase_pair-AreKnown heap active p t.sequence o k) in
    (
      rest,
      rw e (rw g h),
      o',
      ground (arith, l, length-erase_pair active p t.sequence),
      λ r u. ground (arith, m r u, has-erase_pair active p t.sequence r u o, k r u, e),
    )

-- A live timer whose address is in the list stands there under its expiration.
pub address_has :
    (heap : ℕ → Option Timer) (active xs : List (ℕ × ℕ)) (p : ℕ) (t : Timer)
    → AreActive heap active xs
    → heap p ≡ some t
    → has_address xs p ≡ true
    → has xs t.expiration p ≡ true
unfolding has
address_has heap active [] p t v e h = cc
address_has heap active ((w, q) ∷ xs) p t ((u, f, g, m), v) e h =
    ground (arith, e, f, g, address_has heap active xs p t v e)

pub has-has_address : (xs : List (ℕ × ℕ)) (w p : ℕ) → has xs w p ≡ true → has_address xs p ≡ true
unfolding has
has-has_address [] w p h = cc
has-has_address ((v, q) ∷ xs) w p h = ground (arith, has-has_address xs w p)

pub AreActive-IsDistinct :
    (heap : ℕ → Option Timer) (active xs : List (ℕ × ℕ))
    → AreActive heap active xs
    → IsOrdered xs
    → IsDistinct xs
AreActive-IsDistinct heap active [] v o = tt
AreActive-IsDistinct heap active ((w, p) ∷ xs) ((t, e, f, g), v) (a, o) = (
  ground (arith, address_has heap active xs p t v e, a t.expiration p, f),
  AreActive-IsDistinct heap active xs v o,
)

pub AreActive-of :
    (heap : ℕ → Option Timer) (active xs : List (ℕ × ℕ))
    → ((w p : ℕ)
        → has xs w p ≡ true
        → (t : Timer) × (heap p ≡ some t) × (t.expiration ≡ w) × (has active p t.sequence ≡ true))
    → AreActive heap active xs
unfolding has
AreActive-of heap active [] h = tt
AreActive-of heap active ((w, p) ∷ xs) h =
    (h w p (ground arith), AreActive-of heap active xs (λ v q m. h v q (ground (arith, m))))
