-- ===== src/TcpServer/Connecting.antt =====
-- net/TcpServer.cc, `newConnection`: a connection from its constructor to its callback.
use dserver.Prelude.{ℕ, ◌≡◌, refl, ap, ◌∙◌, inl, Bool, true, Option, none, some, [], length, arith}
use dserver.Buffer.{initial_size}
use dserver.Buffer.Contents.{contents, create-IsValid}
use dserver.Channel.{fresh, is_reading}
use dserver.Poller.{Epoll, Poller, set_at}
use dserver.Poller.Invariant.{IsConsistent}
use dserver.TcpConnection.{TcpConnection, connected, own_channel}
use dserver.TcpConnection.Invariant.{IsSound}
use dserver.TcpConnection.Lifecycle.{connect_established_lem}
use dserver.TcpConnection.Steps.{IsOpenEnded}
use dserver.TcpServer.{new_channel, create_connection, new_connection}

module _ (ep : Epoll) where
  open ep use {watched}

  -- A new channel at an address where the poller knows none.
  stored-IsConsistent :
      (s : Poller ep) (sockfd p : ℕ)
      → IsConsistent ep s
      → (s.heap p).index ≡ fresh
      → IsConsistent ep (record s { heap = set_at s.heap p (new_channel ep sockfd) })
  unfolding dserver.Channel.create
  stored-IsConsistent s sockfd p v n = record {
    resources = v.resources;
    known = λ j q e. ground (arith, n, e, v.known j q, v.listed j q);
    listed = λ j q e h. ground (arith, n, e, h, v.listed j q);
    mapped = λ q h. ground (arith, n, h, v.mapped q);
    follows = λ j q e. ground (arith, n, e, v.follows j q, v.listed j q);
    absent = v.absent;
  }

  created-IsSound :
      (s : Poller ep) (sockfd p : ℕ) (w : Bool)
      → IsConsistent ep s
      → (s.heap p).index ≡ fresh
      → s.channels sockfd ≡ none
      → IsSound ep (create_connection ep s sockfd p w)
  unfolding create_connection dserver.Channel.create
  created-IsSound s sockfd p w v n f =
      let (valid, holds) = create-IsValid initial_size (omega arith) in
      record {
        consistent = stored-IsConsistent s sockfd p v n;
        free = inl (ground (arith, f));
        registered = λ h. ground (arith, h);
        input_valid = valid;
        output_valid = valid;
        awaits = ground (arith, ap length holds);
      }

  -- For a new socket and a new channel in a consistent poller, newConnection meets the assert of
  -- connectEstablished: when the callback for a connection runs, the connection is up and sound,
  -- in the table of its loop, and waits to read; the poller finds its channel under the socket;
  -- and it has read nothing and has nothing to write.
  pub new_connection_lem :
      (on_connection : TcpConnection ep → Option (TcpConnection ep)) (s : Poller ep) (sockfd p : ℕ)
      (w : Bool)
      → IsConsistent ep s
      → (s.heap p).index ≡ fresh
      → s.channels sockfd ≡ none
      → (c : TcpConnection ep) × (new_connection ep on_connection s sockfd p w ≡ on_connection c)
        × IsOpenEnded ep c
        × (c.state ≡ connected)
        × (c.in_loop_table ≡ true)
        × (is_reading (own_channel ep c) ≡ true)
        × (c.poller.channels (own_channel ep c).fd ≡ some p)
        × (contents c.input_buffer ≡ [])
        × (contents c.output_buffer ≡ [])
  unfolding new_connection create_connection
  new_connection_lem on_connection s sockfd p w v n f =
      let (valid, holds) = create-IsValid initial_size (omega arith) in
      let (c, e, sound, up, table, reads, found, open_side, input, output) =
        connect_established_lem ep on_connection (create_connection ep s sockfd p w)
          (created-IsSound s sockfd p w v n f) refl in
      (
        c,
        e,
        record { sound = sound; ends = λ z. absurd (ground (arith, z, open_side)) },
        up,
        table,
        reads,
        found,
        ap contents input ∙ holds,
        ap contents output ∙ holds,
      )
