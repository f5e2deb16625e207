-- ===== src/ThreadPool/Waking.antt =====
-- base/ThreadPool.h: tasks are taken in the order in which they were put, and no thread sleeps while
-- there is work for it.
use dserver.Prelude.{
  ℕ, ◌≡◌, refl, sym, ap, ◌∙◌, true, some, List, [], ◌++◌, arith, append_assoc, subst,
}
use dserver.ThreadPool.{
  ThreadPool, create, start, notify_not_empty, notify_not_full, notify_all, stop, PutResult,
  put_pass, TakeResult, take_pass, put_again, take_again,
}
use dserver.ThreadPool.Passes.{
  put_of, taken_of, IsAwakeBut, IsAwake, weaken, with_putter, with_taker, again_putter, again_taker,
  put_again-eq, take_again-eq, notify_not_empty-IsAwake, notify_not_full-IsAwake, stop-IsAwake,
  put_pass_lem, take_pass_lem,
}

module _ (T : Type 0) where
  -- The pool with what was put and what was taken.
  pub record World : Type 0 where
    pub pool : ThreadPool T
    pub accepted : List T
    pub taken : List T

  abbrev after_put : World → PutResult T → ThreadPool T → T → World
  after_put w r p x = record w { pool = p; accepted = w.accepted ++ put_of r x }

  abbrev after_take : World → TakeResult T → ThreadPool T → World
  after_take w r p = record w { pool = p; taken = w.taken ++ taken_of r }

  -- A pass of some thread, a wakeup without cause, or `stop()`. Which of the sleeping threads wakes,
  -- and with which task, is left open.
  pub data Step : World → World → Type 0 where
    puts :
        (w : World) (x : T) (r : PutResult T) (p : ThreadPool T)
        → put_pass T w.pool x ≡ some (r, p)
        → Step w (after_put w r p x)
    puts_again :
        (w : World) (x : T) (r : PutResult T) (p : ThreadPool T)
        → put_again T w.pool x ≡ some (r, p)
        → Step w (after_put w r p x)
    takes :
        (w : World) (r : TakeResult T) (p : ThreadPool T)
        → take_pass T w.pool ≡ some (r, p)
        → Step w (after_take w r p)
    takes_again :
        (w : World) (r : TakeResult T) (p : ThreadPool T)
        → take_again T w.pool ≡ some (r, p)
        → Step w (after_take w r p)
    wakes_taker : (w : World) → Step w (record w { pool = notify_not_empty T w.pool })
    wakes_putter : (w : World) → Step w (record w { pool = notify_not_full T w.pool })
    stops : (w : World) → Step w (record w { pool = stop T w.pool })

  pub data Reach (w : World) : World → Type 0 where
    here : Reach w w
    next : {u v : World} → Reach w u → Step u v → Reach w v

  -- What holds of a pool that has started, and of what was put and taken.
  pub record IsSteady (w : World) : Type 0 where
    pub bound_lem : w.pool.bound ≡ true
    pub awake : IsAwake w.pool
    pub order : w.accepted ≡ w.taken ++ w.pool.queue

  some_lem : {A : Type 0} {x y : A} → some x ≡ some y → x ≡ y
  some_lem e = ground (arith, e)

  puts-IsSteady :
      (w : World) (q : ThreadPool T) (x : T) (r : PutResult T) (p : ThreadPool T)
      → IsSteady w
      → q.bound ≡ true
      → q.queue ≡ w.pool.queue
      → IsAwakeBut 0 1 q
      → put_pass T q x ≡ some (r, p)
      → IsSteady (after_put w r p x)
  puts-IsSteady w q x r p s b c k e =
      let (r', p', e', a, b', g) = put_pass_lem q x k b in
      subst (λ v. IsSteady (after_put w v.0 v.1 x)) (some_lem (sym e' ∙ e))
        (record {
          bound_lem = b';
          awake = a;
          order =
              ap (λ l. l ++ put_of r' x) s.order
              ∙ append_assoc w.taken w.pool.queue (put_of r' x)
              ∙ ap (λ l. w.taken ++ (l ++ put_of r' x)) (sym c)
              ∙ ap (λ l. w.taken ++ l) (sym g);
        })

  takes-IsSteady :
      (w : World) (q : ThreadPool T) (r : TakeResult T) (p : ThreadPool T)
      → IsSteady w
      → q.bound ≡ true
      → q.queue ≡ w.pool.queue
      → IsAwakeBut 1 0 q
      → take_pass T q ≡ some (r, p)
      → IsSteady (after_take w r p)
  takes-IsSteady w q r p s b c k e =
      let (r', p', e', a, b', g) = take_pass_lem q k b in
      subst (λ v. IsSteady (after_take w v.0 v.1)) (some_lem (sym e' ∙ e))
        (record {
          bound_lem = b';
          awake = a;
          order =
              s.order
              ∙ ap (λ l. w.taken ++ l) (sym (g ∙ c))
              ∙ sym (append_assoc w.taken (taken_of r') p'.queue);
        })

  Step-IsSteady : {w w' : World} → Step w w' → IsSteady w → IsSteady w'
  unfolding notify_not_empty notify_not_full stop notify_all
  Step-IsSteady (puts w x r p e) s =
      puts-IsSteady w w.pool x r p s s.bound_lem refl (weaken s.awake) e
  Step-IsSteady (puts_again w x r p e) s =
      let (h, f) = put_again-eq w.pool x (r, p) e in
      puts-IsSteady w (with_putter w.pool) x r p s s.bound_lem refl (again_putter w.pool s.awake h)
        f
  Step-IsSteady (takes w r p e) s =
      takes-IsSteady w w.pool r p s s.bound_lem refl (weaken s.awake) e
  Step-IsSteady (takes_again w r p e) s =
      let (h, f) = take_again-eq w.pool (r, p) e in
      takes-IsSteady w (with_taker w.pool) r p s s.bound_lem refl (again_taker w.pool s.awake h) f
  Step-IsSteady (wakes_taker w) s = record {
    bound_lem = s.bound_lem;
    awake = notify_not_empty-IsAwake w.pool s.awake;
    order = s.order;
  }
  Step-IsSteady (wakes_putter w) s = record {
    bound_lem = s.bound_lem;
    awake = notify_not_full-IsAwake w.pool s.awake;
    order = s.order;
  }
  Step-IsSteady (stops w) s = record {
    bound_lem = s.bound_lem;
    awake = stop-IsAwake w.pool s.awake;
    order = s.order;
  }

  Reach-IsSteady : {w w' : World} → IsSteady w → Reach w w' → IsSteady w'
  Reach-IsSteady s here = s
  Reach-IsSteady s (next r t) = Step-IsSteady t (Reach-IsSteady s r)

  -- Nothing was put or taken yet.
  abbrev pub new_world : ThreadPool T → World
  new_world p = record { pool = p; accepted = []; taken = [] }

  new-IsSteady :
      (num max_size : ℕ) (p : ThreadPool T)
      → start T (create T num max_size) ≡ some p
      → IsSteady (new_world p)
  unfolding start create
  new-IsSteady num max_size p e =
      subst (λ q. IsSteady (new_world q)) (some_lem e)
        (record {
          bound_lem = refl;
          awake = record {
            bounded = omega arith;
            takers_lem = λ r s. omega arith;
            putters_lem = λ r s. absurd (omega arith);
            takers_stopped = λ r. refl;
            putters_stopped = λ r. refl;
          };
          order = refl;
        })

  -- In a pool that has started, through any sequence of passes of any threads, of wakeups, with a
  -- cause or without one, and of `stop()`: the tasks that were accepted are those that were taken,
  -- in this order, and then those in the queue, which is within its bound. While the pool runs and
  -- a thread sleeps that would take, there is a woken taker for each task in the queue, and while a
  -- thread sleeps that would put, there is a woken putter for each free place. In a pool that was
  -- stopped no thread sleeps.
  pub start-IsSteady :
      (num max_size : ℕ) (p : ThreadPool T) (w : World)
      → start T (create T num max_size) ≡ some p
      → Reach (new_world p) w
      → IsSteady w
  start-IsSteady num max_size p w e r = Reach-IsSteady (new-IsSteady num max_size p e) r
