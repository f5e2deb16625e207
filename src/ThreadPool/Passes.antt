-- ===== src/ThreadPool/Passes.antt =====
-- base/ThreadPool.h: each pass through the critical section, and who is awake after it.
use dserver.Prelude.{
  ℕ, ◌+◌, ◌-◌, ◌≤◌, ◌<◌, ◌≡◌, ◌⊎◌, refl, sym, ap, true, false, some, List, [], ◌∷◌, ◌++◌, ltb, ◌==◌,
  length, arith, Bool-cases, inl, inr, append-nil, length-append,
}
use dserver.ThreadPool.{
  ThreadPool, notify_not_empty, notify_not_full, notify_all, stop, is_full, PutResult, put_waits,
  put_rejected, put_done, put_pass, TakeResult, take_waits, take_stopped, took, take_front,
  take_pass, put_again, take_again,
}

List-cases : {A : Type 0} (l : List A) → (l ≡ []) ⊎ ((x : A) × (xs : List A) × (l ≡ x ∷ xs))
List-cases [] = inl refl
List-cases (x ∷ xs) = inr (x, xs, refl)

module _ {T : Type 0} where
  abbrev pub put_of : PutResult T → T → List T
  put_of put_done x = x ∷ []
  put_of _ x = []

  abbrev pub taken_of : TakeResult T → List T
  taken_of (took x) = x ∷ []
  taken_of _ = []

  -- The queue is within its bound. While threads sleep that would take, the tasks are no more than
  -- the takers that are awake for them, but for `t`; while threads sleep that would put, the free
  -- places are no more than the putters that are awake for them, but for `d`. Nobody sleeps once
  -- the pool is stopped.
  pub record IsAwakeBut (t d : ℕ) (p : ThreadPool T) : Type 0 where
    pub bounded : length p.queue ≤ p.max_queue_size
    pub takers_lem : p.running ≡ true → 0 < p.takers_asleep → length p.queue ≤ p.takers_woken + t
    pub putters_lem :
        p.running ≡ true
        → 0 < p.putters_asleep
        → p.max_queue_size ≤ length p.queue + p.putters_woken + d
    pub takers_stopped : p.running ≡ false → p.takers_asleep ≡ 0
    pub putters_stopped : p.running ≡ false → p.putters_asleep ≡ 0

  abbrev pub IsAwake : ThreadPool T → Type 0
  IsAwake p = IsAwakeBut 0 0 p

  pub weaken : {t d : ℕ} {p : ThreadPool T} → IsAwake p → IsAwakeBut t d p
  weaken k = record {
    bounded = k.bounded;
    takers_lem = λ r s. omega (arith, k.takers_lem r s);
    putters_lem = λ r s. omega (arith, k.putters_lem r s);
    takers_stopped = k.takers_stopped;
    putters_stopped = k.putters_stopped;
  }

  module _ (p : ThreadPool T) (x : T) (k : IsAwakeBut 0 1 p) where
    put_waiting :
        is_full T p ≡ true
        → p.running ≡ true
        → IsAwake (record p { putters_asleep = p.putters_asleep + 1 })
    unfolding is_full
    put_waiting f run = record {
      bounded = k.bounded;
      takers_lem = k.takers_lem;
      putters_lem = λ r s. ground (arith, f);
      takers_stopped = k.takers_stopped;
      putters_stopped = λ r. ground (arith, r, run);
    }

    put_finished :
        is_full T p ≡ false
        → p.running ≡ true
        → IsAwake (notify_not_empty T (record p { queue = p.queue ++ (x ∷ []) }))
    unfolding is_full notify_not_empty
    put_finished f r =
        let l = length-append p.queue (x ∷ []) in
        record {
          bounded = ground (arith, f, l);
          takers_lem = λ q s. ground (arith, l, s, k.takers_lem r);
          putters_lem = λ q s. ground (arith, l, k.putters_lem r s);
          takers_stopped = λ q. ground (arith, q, r);
          putters_stopped = λ q. ground (arith, q, r);
        }

    rejected : p.running ≡ false → IsAwake p
    rejected run = record {
      bounded = k.bounded;
      takers_lem = λ r s. ground (arith, r, run);
      putters_lem = λ r s. ground (arith, r, run);
      takers_stopped = k.takers_stopped;
      putters_stopped = k.putters_stopped;
    }

    -- Every pass of a bound pool ends, and adds the task or leaves the queue as it was.
    pub put_pass_lem :
        p.bound ≡ true
        → (r : PutResult T) × (p' : ThreadPool T) × (put_pass T p x ≡ some (r, p'))
          × IsAwake p'
          × (p'.bound ≡ true)
          × (p'.queue ≡ p.queue ++ put_of r x)
    unfolding put_pass notify_not_empty
    put_pass_lem b = elim (Bool-cases p.running) [
      | inr run ↦
          (put_rejected, p, ground (arith, b, run), rejected run, b, sym (append-nil p.queue))
      | inl run ↦ elim (Bool-cases (is_full T p)) [
        | inl f ↦ (
          put_waits,
          record p { putters_asleep = p.putters_asleep + 1 },
          rw (f, b, run) refl,
          put_waiting f run,
          b,
          sym (append-nil p.queue),
        )
        | inr f ↦ (
          put_done,
          notify_not_empty T (record p { queue = p.queue ++ (x ∷ []) }),
          rw (f, b, run) refl,
          put_finished f run,
          b,
          refl,
        )
      ]
    ]

  module _ (p : ThreadPool T) (k : IsAwakeBut 1 0 p) where
    take_waiting :
        (length p.queue == 0) ≡ true
        → p.running ≡ true
        → IsAwake (record p { takers_asleep = p.takers_asleep + 1 })
    take_waiting f run = record {
      bounded = k.bounded;
      takers_lem = λ r s. ground (arith, f);
      putters_lem = λ r s. omega (arith, k.putters_lem r s);
      takers_stopped = λ r. ground (arith, r, run);
      putters_stopped = k.putters_stopped;
    }

    take_finished :
        (x : T) (xs : List T)
        → p.queue ≡ x ∷ xs
        → p.running ≡ true
        → IsAwake (notify_not_full T (record p { queue = xs }))
    unfolding notify_not_full
    take_finished x xs q run =
        let l = ap length q in
        record {
          bounded = omega (arith, l, k.bounded);
          takers_lem = λ r s. omega (arith, l, k.takers_lem run s);
          putters_lem = λ r s. ground (arith, l, s, k.putters_lem run);
          takers_stopped = λ r. ground (arith, r, run);
          putters_stopped = λ r. ground (arith, r, run);
        }

    take_rejected : p.running ≡ false → IsAwake p
    take_rejected run = record {
      bounded = k.bounded;
      takers_lem = λ r s. ground (arith, r, run);
      putters_lem = λ r s. ground (arith, r, run);
      takers_stopped = k.takers_stopped;
      putters_stopped = k.putters_stopped;
    }

    pub take_pass_lem :
        p.bound ≡ true
        → (r : TakeResult T) × (p' : ThreadPool T) × (take_pass T p ≡ some (r, p'))
          × IsAwake p'
          × (p'.bound ≡ true)
          × (taken_of r ++ p'.queue ≡ p.queue)
    unfolding take_pass take_front notify_not_full
    take_pass_lem b = elim (Bool-cases p.running) [
      | inr run ↦ (take_stopped, p, ground (arith, b, run), take_rejected run, b, refl)
      | inl run ↦ elim (List-cases p.queue) [
        | inl n ↦ (
          take_waits,
          record p { takers_asleep = p.takers_asleep + 1 },
          rw (n, b, run) refl,
          take_waiting (ground (arith, n)) run,
          b,
          refl,
        )
        | inr (x, xs, q) ↦ (
          took x,
          notify_not_full T (record p { queue = xs }),
          (let s : (length (x ∷ xs) == 0) ≡ false = ground arith in rw (q, b, run, s) refl),
          take_finished x xs q run,
          b,
          sym q,
        )
      ]
    ]

  -- A woken thread takes the lock again.
  abbrev pub with_putter : ThreadPool T → ThreadPool T
  with_putter p = record p { putters_woken = p.putters_woken - 1 }

  abbrev pub with_taker : ThreadPool T → ThreadPool T
  with_taker p = record p { takers_woken = p.takers_woken - 1 }

  pub again_putter :
      (p : ThreadPool T) → IsAwake p → ltb 0 p.putters_woken ≡ true → IsAwakeBut 0 1 (with_putter p)
  again_putter p k h = record {
    bounded = k.bounded;
    takers_lem = k.takers_lem;
    putters_lem = λ r s. ground (arith, h, k.putters_lem r s);
    takers_stopped = k.takers_stopped;
    putters_stopped = k.putters_stopped;
  }

  pub again_taker :
      (p : ThreadPool T) → IsAwake p → ltb 0 p.takers_woken ≡ true → IsAwakeBut 1 0 (with_taker p)
  again_taker p k h = record {
    bounded = k.bounded;
    takers_lem = λ r s. ground (arith, h, k.takers_lem r s);
    putters_lem = k.putters_lem;
    takers_stopped = k.takers_stopped;
    putters_stopped = k.putters_stopped;
  }

  pub put_again-eq :
      (p : ThreadPool T) (x : T) (v : PutResult T × ThreadPool T)
      → put_again T p x ≡ some v
      → (ltb 0 p.putters_woken ≡ true) × (put_pass T (with_putter p) x ≡ some v)
  unfolding put_again
  put_again-eq p x v e = elim (Bool-cases (ltb 0 p.putters_woken)) [
    | inl h ↦ (h, ground (arith, e, h))
    | inr h ↦ absurd (ground (arith, e, h))
  ]

  pub take_again-eq :
      (p : ThreadPool T) (v : TakeResult T × ThreadPool T)
      → take_again T p ≡ some v
      → (ltb 0 p.takers_woken ≡ true) × (take_pass T (with_taker p) ≡ some v)
  unfolding take_again
  take_again-eq p v e = elim (Bool-cases (ltb 0 p.takers_woken)) [
    | inl h ↦ (h, ground (arith, e, h))
    | inr h ↦ absurd (ground (arith, e, h))
  ]

  pub notify_not_empty-IsAwake : (p : ThreadPool T) → IsAwake p → IsAwake (notify_not_empty T p)
  unfolding notify_not_empty
  notify_not_empty-IsAwake p k = record {
    bounded = k.bounded;
    takers_lem = λ r s. ground (arith, s, k.takers_lem r);
    putters_lem = k.putters_lem;
    takers_stopped = λ r. ground (arith, r, k.takers_stopped r);
    putters_stopped = k.putters_stopped;
  }

  pub notify_not_full-IsAwake : (p : ThreadPool T) → IsAwake p → IsAwake (notify_not_full T p)
  unfolding notify_not_full
  notify_not_full-IsAwake p k = record {
    bounded = k.bounded;
    takers_lem = k.takers_lem;
    putters_lem = λ r s. ground (arith, s, k.putters_lem r);
    takers_stopped = k.takers_stopped;
    putters_stopped = λ r. ground (arith, r, k.putters_stopped r);
  }

  pub stop-IsAwake : (p : ThreadPool T) → IsAwake p → IsAwake (stop T p)
  unfolding stop notify_all
  stop-IsAwake p k = record {
    bounded = k.bounded;
    takers_lem = λ r s. ground (arith, r);
    putters_lem = λ r s. ground (arith, r);
    takers_stopped = λ r. refl;
    putters_stopped = λ r. refl;
  }
