-- ===== src/Tests/Pools.antt =====
-- A pool of base/ThreadPool.h whose queue has one place.
use dserver.Prelude.{ℕ, refl, true, [], ◌∷◌}
use dserver.ThreadPool.{
  ThreadPool, create, start, put_done, put_waits, put_pass, take_waits, take_pass, notify_not_empty,
  is_full,
}
use dserver.ThreadPool.Waking.{
  World, puts, takes, Reach, here, next, new_world, IsSteady, start-IsSteady,
}

abbrev started_pool : ThreadPool ℕ
started_pool = record {
  running = true;
  bound = true;
  num_thread = 2;
  max_queue_size = 1;
  queue = [];
  takers_asleep = 0;
  takers_woken = 0;
  putters_asleep = 0;
  putters_woken = 0;
}

-- A worker waits, task 5 is put and wakes it, and the thread that puts 6 has to wait.
abbrev waiting : World ℕ
waiting = record (new_world ℕ started_pool) { pool = record started_pool { takers_asleep = 1 } }

abbrev full : World ℕ
full = record (new_world ℕ started_pool) {
  pool = record started_pool { queue = 5 ∷ []; takers_woken = 1 };
  accepted = 5 ∷ [];
}

abbrev blocked : World ℕ
blocked = record full { pool = record full.pool { putters_asleep = 1 } }

Reach-blocked : Reach ℕ (new_world ℕ started_pool) blocked
unfolding take_pass put_pass is_full notify_not_empty
Reach-blocked =
    next
      (next (next here (takes (new_world ℕ started_pool) take_waits waiting.pool refl))
        (puts waiting 5 put_done full.pool refl))
      (puts full 6 put_waits blocked.pool refl)

start-IsSteady_example : IsSteady ℕ blocked
unfolding start create
start-IsSteady_example = start-IsSteady ℕ 2 1 started_pool blocked refl Reach-blocked
