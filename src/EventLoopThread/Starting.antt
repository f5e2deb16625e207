-- ===== src/EventLoopThread/Starting.antt =====
-- net/EventLoopThread.cc, `startLoop`: it returns, and with the loop of the new thread.
use dserver.Prelude.{
  ℕ, ◌+◌, ◌<◌, ◌≤◌, ◌≡◌, refl, sym, subst, ◌⊎◌, inl, inr, Bool, true, false, Option, none, some,
  arith,
}
use dserver.EventLoopThread.{
  OwnerPlace, at_start, at_latch, asleep_at_latch, at_loop, asleep_at_loop, has_loop, ThreadPlace,
  not_created, in_start, in_func, in_loop, EventLoopThread, new_event_loop_thread, start_thread,
  wait_latch, wait_loop, count_down, run_in_thread, thread_func, owner_step_at, owner_step,
  new_thread_step_at, new_thread_step, wake_owner,
}

-- At most so many moves are left.
abbrev owner_left : OwnerPlace → ℕ
owner_left at_start = 20
owner_left at_latch = 5
owner_left asleep_at_latch = 4
owner_left at_loop = 3
owner_left asleep_at_loop = 2
owner_left (has_loop loop) = 0

abbrev thread_left : ThreadPlace → ℕ
thread_left not_created = 0
thread_left in_start = 6
thread_left in_func = 3
thread_left in_loop = 0

abbrev pub moves_left : EventLoopThread → ℕ
moves_left s = owner_left s.owner + thread_left s.thread

module _ (gettid address : ℕ) where
  -- A step of the owner, whose `pthread_create` succeeds, or of the new thread.
  pub data Move (s t : EventLoopThread) : Type 0 where
    owner_moves : owner_step true s ≡ some t → Move s t
    thread_moves : new_thread_step gettid address s ≡ some t → Move s t

  -- The moves of the two in any order, and wakeups without cause.
  pub data Reach (s : EventLoopThread) : EventLoopThread → Type 0 where
    here : Reach s s
    moves : {t u : EventLoopThread} → Reach s t → Move t u → Reach s u
    wakes : {t : EventLoopThread} → Reach s t → Reach s (wake_owner t)

  -- What the place of the new thread tells of the rest.
  abbrev count_at : ThreadPlace → ℕ
  count_at not_created = 1
  count_at in_start = 1
  count_at in_func = 0
  count_at in_loop = 0

  abbrev loop_at : ThreadPlace → Option ℕ
  loop_at in_loop = some address
  loop_at _ = none

  abbrev tid_at : ThreadPlace → ℕ
  tid_at not_created = 0
  tid_at in_start = 0
  tid_at in_func = gettid
  tid_at in_loop = gettid

  -- The places at which the two can be at once.
  data Beside : OwnerPlace → ThreadPlace → Type 0 where
    begins : Beside at_start not_created
    waits_early : Beside at_latch in_start
    waits_counted : Beside at_latch in_func
    waits_late : Beside at_latch in_loop
    sleeps_early : Beside asleep_at_latch in_start
    waits_for_loop : Beside at_loop in_func
    finds_loop : Beside at_loop in_loop
    sleeps_for_loop : Beside asleep_at_loop in_func
    returned : Beside (has_loop address) in_loop

  abbrev started_at : OwnerPlace → Bool
  started_at at_start = false
  started_at _ = true

  -- The whole state, by the places of the two.
  abbrev placed : OwnerPlace → ThreadPlace → EventLoopThread
  placed o t = record {
    count = count_at t;
    loop = loop_at t;
    thread_started = started_at o;
    tid = tid_at t;
    owner = o;
    thread = t;
  }

  record IsStarting (s : EventLoopThread) : Type 0 where
    owner_at : OwnerPlace
    thread_at : ThreadPlace
    beside : Beside owner_at thread_at
    is_placed : s ≡ placed owner_at thread_at

  abbrev at_places : (o : OwnerPlace) (t : ThreadPlace) → Beside o t → IsStarting (placed o t)
  at_places o t h = record { owner_at = o; thread_at = t; beside = h; is_placed = refl }

  -- A step, if it can be made, keeps the invariant and leaves fewer moves.
  abbrev IsGood : ℕ → Option EventLoopThread → Type 0
  IsGood n none = Unit {0}
  IsGood n (some t) = IsStarting t × (moves_left t < n)

  owner_step-IsGood :
      (o : OwnerPlace) (t : ThreadPlace)
      → Beside o t
      → IsGood (moves_left (placed o t)) (owner_step true (placed o t))
  unfolding owner_step owner_step_at start_thread wait_latch wait_loop
  owner_step-IsGood o t begins = (at_places at_latch in_start waits_early, omega arith)
  owner_step-IsGood o t waits_early = (at_places asleep_at_latch in_start sleeps_early, omega arith)
  owner_step-IsGood o t waits_counted = (at_places at_loop in_func waits_for_loop, omega arith)
  owner_step-IsGood o t waits_late = (at_places at_loop in_loop finds_loop, omega arith)
  owner_step-IsGood o t sleeps_early = tt
  owner_step-IsGood o t waits_for_loop =
      (at_places asleep_at_loop in_func sleeps_for_loop, omega arith)
  owner_step-IsGood o t finds_loop = (at_places (has_loop address) in_loop returned, omega arith)
  owner_step-IsGood o t sleeps_for_loop = tt
  owner_step-IsGood o t returned = tt

  new_thread_step-IsGood :
      (o : OwnerPlace) (t : ThreadPlace)
      → Beside o t
      → IsGood (moves_left (placed o t)) (new_thread_step gettid address (placed o t))
  unfolding new_thread_step new_thread_step_at run_in_thread count_down thread_func
  new_thread_step-IsGood o t begins = tt
  new_thread_step-IsGood o t waits_early = (at_places at_latch in_func waits_counted, omega arith)
  new_thread_step-IsGood o t waits_counted = (at_places at_latch in_loop waits_late, omega arith)
  new_thread_step-IsGood o t waits_late = tt
  new_thread_step-IsGood o t sleeps_early = (at_places at_latch in_func waits_counted, omega arith)
  new_thread_step-IsGood o t waits_for_loop = (at_places at_loop in_loop finds_loop, omega arith)
  new_thread_step-IsGood o t finds_loop = tt
  new_thread_step-IsGood o t sleeps_for_loop = (at_places at_loop in_loop finds_loop, omega arith)
  new_thread_step-IsGood o t returned = tt

  wake_owner-IsStarting :
      (o : OwnerPlace) (t : ThreadPlace) → Beside o t → IsStarting (wake_owner (placed o t))
  unfolding wake_owner
  wake_owner-IsStarting o t begins = at_places at_start not_created begins
  wake_owner-IsStarting o t waits_early = at_places at_latch in_start waits_early
  wake_owner-IsStarting o t waits_counted = at_places at_latch in_func waits_counted
  wake_owner-IsStarting o t waits_late = at_places at_latch in_loop waits_late
  wake_owner-IsStarting o t sleeps_early = at_places at_latch in_start waits_early
  wake_owner-IsStarting o t waits_for_loop = at_places at_loop in_func waits_for_loop
  wake_owner-IsStarting o t finds_loop = at_places at_loop in_loop finds_loop
  wake_owner-IsStarting o t sleeps_for_loop = at_places at_loop in_func waits_for_loop
  wake_owner-IsStarting o t returned = at_places (has_loop address) in_loop returned

  Move-IsStarting :
      {s t : EventLoopThread}
      → IsStarting s
      → Move s t
      → IsStarting t × (moves_left t < moves_left s)
  Move-IsStarting {s} {t} h (owner_moves e) = subst (IsGood (moves_left s)) e (
      subst (λ x. IsGood (moves_left x) (owner_step true x)) (sym h.is_placed)
        (owner_step-IsGood h.owner_at h.thread_at h.beside))
  Move-IsStarting {s} {t} h (thread_moves e) = subst (IsGood (moves_left s)) e (
      subst (λ x. IsGood (moves_left x) (new_thread_step gettid address x)) (sym h.is_placed)
        (new_thread_step-IsGood h.owner_at h.thread_at h.beside))

  Reach-IsStarting : {s : EventLoopThread} → Reach new_event_loop_thread s → IsStarting s
  Reach-IsStarting here = at_places at_start not_created begins
  Reach-IsStarting (moves r m) = (Move-IsStarting (Reach-IsStarting r) m).0
  Reach-IsStarting (wakes r) =
      let h = Reach-IsStarting r in
      subst (λ x. IsStarting (wake_owner x)) (sym h.is_placed)
        (wake_owner-IsStarting h.owner_at h.thread_at h.beside)

  -- What startLoop is to end with.
  pub record IsStarted (s : EventLoopThread) : Type 0 where
    pub returned_loop : s.owner ≡ has_loop address
    pub loop_lem : s.loop ≡ some address
    pub tid_lem : s.tid ≡ gettid
    pub running : s.thread ≡ in_loop

  abbrev Ends : EventLoopThread → Type 0
  Ends s = IsStarted s ⊎ ((t : EventLoopThread) × Move s t)

  placed-Ends : (o : OwnerPlace) (t : ThreadPlace) → Beside o t → Ends (placed o t)
  unfolding owner_step owner_step_at start_thread new_thread_step new_thread_step_at
  placed-Ends o t begins = inr (_, owner_moves refl)
  placed-Ends o t waits_early = inr (_, owner_moves refl)
  placed-Ends o t waits_counted = inr (_, owner_moves refl)
  placed-Ends o t waits_late = inr (_, owner_moves refl)
  placed-Ends o t sleeps_early = inr (_, thread_moves refl)
  placed-Ends o t waits_for_loop = inr (_, owner_moves refl)
  placed-Ends o t finds_loop = inr (_, owner_moves refl)
  placed-Ends o t sleeps_for_loop = inr (_, thread_moves refl)
  placed-Ends o t returned =
      inl (record { returned_loop = refl; loop_lem = refl; tid_lem = refl; running = refl })

  placed_left : (o : OwnerPlace) (t : ThreadPlace) → Beside o t → moves_left (placed o t) ≤ 20
  placed_left o t begins = omega arith
  placed_left o t waits_early = omega arith
  placed_left o t waits_counted = omega arith
  placed_left o t waits_late = omega arith
  placed_left o t sleeps_early = omega arith
  placed_left o t waits_for_loop = omega arith
  placed_left o t finds_loop = omega arith
  placed_left o t sleeps_for_loop = omega arith
  placed_left o t returned = omega arith

  -- When the new thread is created, startLoop and it never wait for each other in vain. However
  -- their steps and wakeups without cause have followed each other, either startLoop has returned
  -- with the loop of the thread, which runs and has its number, or one of the two can move on; and
  -- each move leaves fewer moves than before, of which there are never more than twenty.
  pub start_loop_lem :
      (s : EventLoopThread)
      → Reach new_event_loop_thread s
      → (IsStarted s ⊎ ((t : EventLoopThread) × Move s t))
        × ((t : EventLoopThread) → Move s t → moves_left t < moves_left s)
        × (moves_left s ≤ 20)
  start_loop_lem s r =
      let h = Reach-IsStarting r in
      (
        subst Ends (sym h.is_placed) (placed-Ends h.owner_at h.thread_at h.beside),
        λ t m. (Move-IsStarting h m).1,
        subst (λ x. moves_left x ≤ 20) (sym h.is_placed)
            (placed_left h.owner_at h.thread_at h.beside),
      )
