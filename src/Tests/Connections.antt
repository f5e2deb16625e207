-- ===== src/Tests/Connections.antt =====
-- A connection whose channel is one of a poller's two, and its theorems at that connection.
use dserver.Prelude.{
  ◌≡◌, refl, inr, true, false, none, some, List, [], ◌∷◌, arith, codes, length, ◌>>=◌,
}
use dserver.Buffer.{Buffer}
use dserver.Buffer.Contents.{IsValid, contents}
use dserver.Channel.{Events, added, create}
use dserver.Poller.Invariant.{IsConsistent}
use dserver.Poller.{Poller, set_at}
use dserver.Tests.Pollers.{table_epoll, two_channels, two_channels-IsConsistent}
use dserver.Tests.Buffers.{held, held-IsValid}
use dserver.TcpConnection.{
  TcpConnection, connected, disconnecting, handle_close, connect_destroyed, start_read_in_loop,
}
use dserver.TcpConnection.Invariant.{IsSound}
use dserver.TcpConnection.Lifecycle.{Left, handle_close-connect_destroyed, start_read_after_close}
use dserver.TcpConnection.Steps.{Call, sending, writing, shutting, takes, fails, IsOpenEnded}
use dserver.TcpConnection.Stream.{Runs, run, run-Runs}
use dserver.TcpConnection.Draining.{IsClosing, events, run-events}

abbrev empty_buffer : Buffer
empty_buffer = record { buffer = codes ".........."; reader_index = 8; writer_index = 8 }

empty_buffer-IsValid : IsValid empty_buffer
empty_buffer-IsValid = omega arith

-- The channel at 1 waits to read.
abbrev pub open_connection : TcpConnection table_epoll
open_connection = record {
  state = connected;
  reading = true;
  channel = 1;
  poller = two_channels;
  input_buffer = held;
  output_buffer = empty_buffer;
  high_water_mark = 67108864;
  has_write_complete = true;
  has_high_water_mark = false;
  wire = codes "ab";
  write_shut = false;
  queued = [];
  in_loop_table = true;
}

open_connection-IsSound : IsSound table_epoll open_connection
unfolding create
open_connection-IsSound = record {
  consistent = two_channels-IsConsistent;
  free = inr refl;
  registered = λ _. refl;
  input_valid = held-IsValid;
  output_valid = empty_buffer-IsValid;
  awaits = refl;
}

pub open_connection-IsOpenEnded : IsOpenEnded table_epoll open_connection
open_connection-IsOpenEnded = record {
  sound = open_connection-IsSound;
  ends = λ z. absurd (ground (arith, z));
}

handle_close-connect_destroyed_example :
    (c' : TcpConnection table_epoll) × ((handle_close table_epoll some open_connection
        >>= connect_destroyed table_epoll some)
      ≡ some c')
    × Left table_epoll 7 open_connection c'
unfolding create
handle_close-connect_destroyed_example =
    handle_close-connect_destroyed table_epoll some open_connection open_connection-IsSound refl
      refl

start_read_after_close_example :
    (handle_close table_epoll some open_connection >>= λ c1.
    start_read_in_loop table_epoll c1 >>= connect_destroyed table_epoll some)
    ≡ none
start_read_after_close_example =
    start_read_after_close table_epoll some open_connection open_connection-IsSound refl

abbrev two_sends : List Call
two_sends =
    sending (codes "hello") (takes 2)
    ∷ sending (codes "world") (fails 32)
    ∷ shutting
    ∷ writing (takes 100)
    ∷ []

run-Runs_example :
    (c' : TcpConnection table_epoll) × (run table_epoll open_connection two_sends ≡ some c')
    × Runs table_epoll open_connection two_sends c'
run-Runs_example =
    run-Runs table_epoll open_connection two_sends open_connection-IsOpenEnded (omega arith)

-- The channel of descriptor 7 at 1 waits to read and to write.
abbrev both_events : Events
both_events = record { reads = true; writes = true }

abbrev busy_poller : Poller table_epoll
busy_poller = record {
  kernel = set_at (λ j. none) 7 (some (1, both_events));
  channels = set_at (λ j. none) 7 (some 1);
  heap =
      set_at (λ q. create 8) 1
        (record (create 7) { events = both_events; index = added; added_to_loop = true });
}

busy_poller-IsConsistent : IsConsistent table_epoll busy_poller
unfolding create
busy_poller-IsConsistent = record {
  resources = tt;
  known = λ j q e. ground (arith, e);
  listed = λ j q e h. ground (arith, e, h);
  mapped = λ q h. ground (arith, h);
  follows = λ j q e. ground (arith, e);
  absent = λ j e. ground (arith, e);
}

-- It closes, and still holds the six bytes of `held`.
abbrev closing_connection : TcpConnection table_epoll
closing_connection = record open_connection {
  state = disconnecting;
  poller = busy_poller;
  output_buffer = held;
}

closing_connection-IsSound : IsSound table_epoll closing_connection
unfolding create
closing_connection-IsSound = record {
  consistent = busy_poller-IsConsistent;
  free = inr refl;
  registered = λ _. refl;
  input_valid = held-IsValid;
  output_valid = held-IsValid;
  awaits = refl;
}

closing_connection-IsClosing : IsClosing table_epoll closing_connection
closing_connection-IsClosing = record {
  sound = closing_connection-IsSound;
  closing = refl;
  shuts = λ z. absurd (ground (arith, z));
}

run-events_example :
    (c' : TcpConnection table_epoll) × (run table_epoll closing_connection
        (events (2 ∷ 0 ∷ 7 ∷ 0 ∷ 0 ∷ 0 ∷ []))
      ≡ some c')
    × (c'.wire ≡ codes "abab\r\ncd")
    × (length (contents c'.output_buffer) ≡ 0)
    × (c'.write_shut ≡ true)
run-events_example =
    run-events table_epoll closing_connection (2 ∷ 0 ∷ 7 ∷ 0 ∷ 0 ∷ 0 ∷ [])
      closing_connection-IsClosing (omega arith)
