-- ===== src/AsyncLogging/Delivery.antt =====
-- base/AsyncLogging.cc: every line reaches the file once and in order.
use dserver.Prelude.{
  ℕ, ◌<◌, ◌≡◌, refl, ap, ◌∙◌, some, List, [], ◌∷◌, ◌++◌, length, arith, append_assoc,
}
use dserver.LogStream.{large_buffer}
use dserver.AsyncLogging.{
  Place, at_test, in_section, behind_section, ended, AsyncLogging, stop, thread_turn,
  thread_turn_at, Action, logs, turns, stops, act, act_all,
}
use dserver.AsyncLogging.Invariant.{IsSound, held, Delivers, append_line-Delivers, same_stream}
use dserver.AsyncLogging.Turns.{test_running-Delivers, swap_buffers-Delivers}
use dserver.AsyncLogging.Recycling.{finish-Delivers}

-- The bytes that are logged.
abbrev pub logged : List Action → List ℕ
logged [] = []
logged (logs line ∷ actions) = line ++ logged actions
logged (_ ∷ actions) = logged actions

abbrev pub line_of : Action → List ℕ
line_of (logs line) = line
line_of _ = []

-- Every line fits in an empty buffer.
abbrev pub AreShort : List Action → Type 0
AreShort [] = Unit {0}
AreShort (logs line ∷ actions) = (length line < large_buffer) × AreShort actions
AreShort (_ ∷ actions) = AreShort actions

thread_turn_at-Delivers :
    (a : AsyncLogging) (p : Place) (message : List ℕ)
    → IsSound a
    → a.place ≡ p
    → (a' : AsyncLogging) × (thread_turn_at a p message ≡ some a') × Delivers a [] a'
unfolding thread_turn_at
thread_turn_at-Delivers a at_test message s e =
    let (b, d, f, _) = test_running-Delivers a s e in (b, d, f)
thread_turn_at-Delivers a in_section message s e =
    let (b, d, f, _) = swap_buffers-Delivers a s e in (b, d, f)
thread_turn_at-Delivers a behind_section message s e =
    let (b, d, f, _) = finish-Delivers a message s e in (b, d, f)
thread_turn_at-Delivers a ended message s e =
    (a, refl, record { sound = s; still_dropped = λ d. d; stream = λ d. same_stream a })

stop-Delivers : (a : AsyncLogging) → IsSound a → Delivers a [] (stop a)
unfolding stop
stop-Delivers a s = record {
  sound = record {
    current_lem = s.current_lem;
    next_lem = s.next_lem;
    buffers_lem = s.buffers_lem;
    to_write_lem = s.to_write_lem;
    place_lem = s.place_lem;
  };
  still_dropped = λ d. d;
  stream = λ d. same_stream a;
}

Delivers-trans :
    {a b c : AsyncLogging} {xs ys : List ℕ}
    → Delivers a xs b
    → Delivers b ys c
    → Delivers a (xs ++ ys) c
Delivers-trans {a} {b} {c} {xs} {ys} f g = record {
  sound = g.sound;
  still_dropped = λ d. g.still_dropped (f.still_dropped d);
  stream = λ d.
      g.stream d
      ∙ ap (λ l. l ++ ys) (f.stream (ground (arith, d, g.still_dropped)))
      ∙ append_assoc (a.output ++ held a) xs ys;
}

-- Whatever lines shorter than a buffer are logged, and however the steps of the threads are ordered,
-- no null pointer is read and no assert fails; and unless buffers were dropped, what is in the file,
-- in the buffers that are being written and in those that are in use is what was there before,
-- followed by the lines in the order in which they were logged.
pub act_all-Delivers :
    (a : AsyncLogging) (actions : List Action)
    → IsSound a
    → AreShort actions
    → (a' : AsyncLogging) × (act_all a actions ≡ some a') × Delivers a (logged actions) a'
unfolding act_all act thread_turn
act_all-Delivers a [] s h =
    (a, refl, record { sound = s; still_dropped = λ d. d; stream = λ d. same_stream a })
act_all-Delivers a (logs line ∷ actions) s (h, hs) =
    let (b, e, f) = append_line-Delivers a line s h in
    let (c, d, g) = act_all-Delivers b actions f.sound hs in (c, rw e d, Delivers-trans f g)
act_all-Delivers a (turns message ∷ actions) s hs =
    let (b, e, f) = thread_turn_at-Delivers a a.place message s refl in
    let (c, d, g) = act_all-Delivers b actions f.sound hs in (c, rw e d, Delivers-trans f g)
act_all-Delivers a (stops ∷ actions) s hs =
    let f = stop-Delivers a s in
    let (c, d, g) = act_all-Delivers (stop a) actions f.sound hs in (c, d, Delivers-trans f g)
