-- ===== src/Tests/Logging.antt =====
-- Threads of base/AsyncLogging.h that log and write.
use dserver.Prelude.{◌≡◌, refl, some, List, [], ◌∷◌, codes, arith, map}
use dserver.LogStream.{append, reset}
use dserver.AsyncLogging.{
  AsyncLogging, Action, logs, turns, stop, new_buffer, started, act, act_all, append_line,
  thread_turn, thread_turn_at, test_running, swap_buffers, finish, write_buffers, recycle, refill,
}
use dserver.AsyncLogging.Invariant.{IsSound, Delivers, held}
use dserver.AsyncLogging.Delivery.{logged, act_all-Delivers}
use dserver.AsyncLogging.Stopping.{stop_lem}

started-IsSound : IsSound started
unfolding started
started-IsSound = record {
  current_lem = refl;
  next_lem = (refl, refl);
  buffers_lem = tt;
  to_write_lem = tt;
  place_lem = ((refl, refl), (refl, refl), refl);
}

abbrev actions : List Action
actions = logs (codes "a\n") ∷ turns [] ∷ turns [] ∷ logs (codes "b\n") ∷ turns [] ∷ []

act_all-Delivers_example :
    (a : AsyncLogging) × (act_all started actions ≡ some a) × Delivers started (logged actions) a
act_all-Delivers_example =
    act_all-Delivers started actions started-IsSound (omega arith, (omega arith, tt))

-- A line is in the buffer when the logging is stopped.
abbrev one_line : AsyncLogging
one_line = record started { current_buffer = some (record new_buffer { data_ = codes "a\n" }) }

stop_lem_example :
    (a : AsyncLogging) × (act_all (stop one_line) (map turns ([] ∷ [] ∷ [])) ≡ some a)
    × (a.output ≡ [])
    × (held a ≡ codes "a\n")
unfolding started
stop_lem_example = stop_lem one_line ([] ∷ [] ∷ []) refl

-- The second line is logged while the first is written.
act_all_example :
    (a : AsyncLogging) × (act_all started actions ≡ some a)
    × (a.output ≡ codes "a\n")
    × (held a ≡ codes "b\n")
unfolding started act_all act append_line append thread_turn thread_turn_at test_running
    swap_buffers finish write_buffers recycle refill reset
act_all_example = (
  record started {
    current_buffer = some (record new_buffer { data_ = codes "b\n" });
    output = codes "a\n";
  },
  refl,
  refl,
  refl,
)
