-- ===== src/AsyncLogging/Stopping.antt =====
-- base/AsyncLogging.cc: `stop()` while the thread that writes is between two turns.
use dserver.Prelude.{◌≡◌, refl, ap, false, some, List, [], ◌∷◌, map, ℕ}
use dserver.AsyncLogging.{
  Place, at_test, ended, AsyncLogging, stop, test_running, thread_turn, thread_turn_at, turns, act,
  act_all,
}
use dserver.AsyncLogging.Invariant.{held}

pub turn_at :
    (a : AsyncLogging) (p : Place) (message : List ℕ)
    → a.place ≡ p
    → thread_turn a message ≡ thread_turn_at a p message
unfolding thread_turn
turn_at a p message e = ap (λ q. thread_turn_at a q message) e

ended_lem :
    (a : AsyncLogging) (messages : List (List ℕ))
    → a.place ≡ ended
    → act_all a (map turns messages) ≡ some a
unfolding act_all act thread_turn_at
ended_lem a [] p = refl
ended_lem a (message ∷ messages) p = rw (turn_at a ended message p) (ended_lem a messages p)

-- When the logging is stopped while the thread that writes is at the test of `running_`, no number
-- of its steps brings to the file what the buffers hold.
pub stop_lem :
    (a : AsyncLogging) (messages : List (List ℕ))
    → a.place ≡ at_test
    → (a' : AsyncLogging) × (act_all (stop a) (map turns messages) ≡ some a')
      × (a'.output ≡ a.output)
      × (held a' ≡ held a)
unfolding act_all act thread_turn_at test_running stop
stop_lem a [] p = (stop a, refl, refl, refl)
stop_lem a (message ∷ messages) p =
    let finished : AsyncLogging = record a { running = false; place = ended } in
    (
      finished,
      rw (turn_at (stop a) at_test message p) (ended_lem finished messages refl),
      refl,
      refl,
    )
