-- ===== src/Tests/Acceptors.antt =====
-- The acceptor on bursts of connections, and the server on its threads.
use dserver.Prelude.{◌≡◌, refl, some, true, List, [], ◌∷◌, arith, replicate}
use dserver.Buffer.Contents.{contents}
use dserver.Channel.{fresh, is_reading}
use dserver.TcpConnection.{eagain, TcpConnection, connected, own_channel}
use dserver.TcpConnection.Steps.{IsOpenEnded}
use dserver.Acceptor.{
  emfile, failed, Acceptor, close, accepting, filling, returned, still_in, handle_read,
}
use dserver.Acceptor.Bursts.{
  Round, accepts, fails, exhausted, answers, handle_read-answers, handle_read_stuck,
}
use dserver.TcpServer.{new_connection}
use dserver.TcpServer.Connecting.{new_connection_lem}
use dserver.Tests.Pollers.{table_epoll, two_channels, two_channels-IsConsistent}

abbrev acceptor : Acceptor
acceptor = record {
  channel = 1;
  listening = true;
  has_callback = true;
  idle_fd = 5;
  delivered = 6 ∷ [];
  closed = [];
}

-- Two connections, one that a signal interrupts, and one for which no descriptor is left.
abbrev rounds : List Round
rounds =
    accepts 8
    ∷ fails 4 (omega arith) (omega arith)
    ∷ exhausted (emfile ∷ []) 5 (emfile ∷ emfile ∷ []) 9
    ∷ accepts 10
    ∷ []

handle_read-answers_example :
    handle_read accepting acceptor (answers rounds (failed eagain ∷ []))
    ≡ returned (record acceptor { delivered = 6 ∷ 8 ∷ 10 ∷ []; closed = 5 ∷ 5 ∷ []; idle_fd = 9 })
handle_read-answers_example = handle_read-answers acceptor rounds [] refl

handle_read_stuck_example :
    handle_read accepting acceptor (failed emfile ∷ replicate 100 (failed eagain))
    ≡ still_in filling (close acceptor 5)
handle_read_stuck_example = handle_read_stuck acceptor 100

new_connection_lem_example :
    (c : TcpConnection table_epoll) × (new_connection table_epoll some two_channels 12 6 true
      ≡ some c)
    × IsOpenEnded table_epoll c
    × (c.state ≡ connected)
    × (c.in_loop_table ≡ true)
    × (is_reading (own_channel table_epoll c) ≡ true)
    × (c.poller.channels (own_channel table_epoll c).fd ≡ some 6)
    × (contents c.input_buffer ≡ [])
    × (contents c.output_buffer ≡ [])
unfolding dserver.Channel.create
new_connection_lem_example =
    new_connection_lem table_epoll some two_channels 12 6 true two_channels-IsConsistent refl refl
