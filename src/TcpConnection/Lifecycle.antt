-- ===== src/TcpConnection/Lifecycle.antt =====
-- How a connection is established, closed and destroyed.
use dserver.Prelude.{
  ℕ, ◌≡◌, refl, sym, ap, ◌∙◌, inl, inr, true, false, not, ◌||◌, Option, none, some, ◌>>=◌, arith,
  Bool-cases,
}
use dserver.Channel.{enable_reading, disable_all, switched, is_reading, is_none_event}
use dserver.Poller.{Epoll, Poller, set_at, remove}
use dserver.Poller.Invariant.{IsConsistent, IsFree}
use dserver.Poller.Removal.{remove_lem}
use dserver.TcpConnection.{
  TcpConnection, connecting, connected, disconnected, own_channel, switch, is_disconnected,
  is_disconnecting, is_connecting, is_connected, tie, connect_established, handle_close, leave_loop,
  connect_destroyed, start_read_in_loop,
}
use dserver.TcpConnection.Invariant.{IsSound, Switches, switch_lem}

module _ (ep : Epoll) where
  open ep use {watched}

  abbrev tied_poller : Poller ep → ℕ → Poller ep
  tied_poller s p = record s { heap = set_at s.heap p (record (s.heap p) { tied = true }) }

  tied-IsConsistent :
      (s : Poller ep) (p : ℕ) → IsConsistent ep s → IsConsistent ep (tied_poller s p)
  tied-IsConsistent s p v = record {
    resources = v.resources;
    known = λ j q e. ground (arith, v.known j q);
    listed = λ j q e h. ground (arith, v.listed j q);
    mapped = λ q h. ground (arith, v.mapped q);
    follows = λ j q e. ground (arith, v.follows j q);
    absent = v.absent;
  }

  tied-IsFree : (s : Poller ep) (p : ℕ) → IsFree ep s p → IsFree ep (tied_poller s p) p
  tied-IsFree s p f = ground (arith, f)

  -- A closed connection: nothing is awaited.
  abbrev pub IsClosed : TcpConnection ep → Type 0
  IsClosed c = IsSound ep c × (c.state ≡ disconnected) × (is_none_event (own_channel ep c) ≡ true)

  closed_lem :
      (c : TcpConnection ep) (t : Poller ep)
      → IsSound ep c
      → Switches ep (record c { state = disconnected }) disable_all t
      → IsClosed (record c { state = disconnected; poller = t })
  unfolding switched
  closed_lem c t s (v, m, e, _) = (
    record {
      consistent = v;
      free = inr m;
      registered = λ _. m;
      input_valid = s.input_valid;
      output_valid = s.output_valid;
      awaits = ap (λ u. u.writes) e;
    },
    refl,
    ground (arith, ap (λ u. u.writes) e, ap (λ u. u.reads) e),
  )

  -- The connection is closed before the callback runs.
  handle_close_lem :
      (on_close : TcpConnection ep → Option (TcpConnection ep)) (c : TcpConnection ep)
      → IsSound ep c
      → (is_connected c.state || is_disconnecting c.state) ≡ true
      → (c' : TcpConnection ep) × (handle_close ep on_close c ≡ on_close c')
        × IsClosed c'
        × (c' ≡ record c { state = disconnected; poller = c'.poller })
        × ((own_channel ep c').fd ≡ (own_channel ep c).fd)
  unfolding handle_close
  handle_close_lem on_close c s a =
      let (t, e, w) =
        switch_lem ep (record c { state = disconnected }) disable_all s.consistent s.free in
      (record c { state = disconnected; poller = t }, rw (a, e) refl, closed_lem c t s w, refl, w.3)

  -- What is left of a connection that left its loop.
  pub record Left (fd : ℕ) (c : TcpConnection ep) (c' : TcpConnection ep) : Type 0 where
    pub consistent : IsConsistent ep c'.poller
    pub unmapped : c'.poller.channels fd ≡ none
    pub unwatched : watched c'.poller.kernel fd ≡ none
    pub out_of_table : c'.in_loop_table ≡ false
    pub same_wire : c'.wire ≡ c.wire

  leave_loop_lem :
      (c : TcpConnection ep)
      → IsClosed c
      → c.in_loop_table ≡ true
      → (c' : TcpConnection ep) × (leave_loop ep c ≡ some c') × Left (own_channel ep c).fd c c'
  unfolding leave_loop
  leave_loop_lem c (s, d, n) b =
      let m = s.registered (ap is_connecting d) in
      let (t, e, v, u, w, h) = remove_lem ep c.poller c.channel s.consistent m n in
      (
        record c { in_loop_table = false; poller = t },
        rw (b, e) refl,
        record {
          consistent = v;
          unmapped = u;
          unwatched = w;
          out_of_table = refl;
          same_wire = refl;
        },
      )

  -- A connection that is destroyed after it was closed takes the short way.
  closed_destroyed :
      (on_connection : TcpConnection ep → Option (TcpConnection ep)) (c : TcpConnection ep)
      → c.state ≡ disconnected
      → connect_destroyed ep on_connection c ≡ leave_loop ep c
  unfolding connect_destroyed
  closed_destroyed on_connection c d = rw (ap is_connected d) refl

  -- On a sound connection that is open, or closing, and in the table of its loop, handleClose and
  -- then connectDestroyed, which the server queues behind it, meet all their asserts: the poller
  -- is consistent, has forgotten the descriptor and watches it no more, the loop has dropped the
  -- connection, and nothing more was given to the socket.
  pub handle_close-connect_destroyed :
      (on_connection : TcpConnection ep → Option (TcpConnection ep)) (c : TcpConnection ep)
      → IsSound ep c
      → (is_connected c.state || is_disconnecting c.state) ≡ true
      → c.in_loop_table ≡ true
      → (c' : TcpConnection ep) × ((handle_close ep some c >>= connect_destroyed ep on_connection)
          ≡ some c')
        × Left (own_channel ep c).fd c c'
  handle_close-connect_destroyed on_connection c s o b =
      let (c1, e, x, r, f) = handle_close_lem some c s o in
      let (c2, d, l) = leave_loop_lem c1 x (ap (λ u. u.in_loop_table) r ∙ b) in
      (
        c2,
        ap (λ m. m >>= connect_destroyed ep on_connection) e
            ∙ closed_destroyed on_connection c1 x.1
            ∙ d,
        record {
          consistent = l.consistent;
          unmapped = ap c2.poller.channels (sym f) ∙ l.unmapped;
          unwatched = ap (watched c2.poller.kernel) (sym f) ∙ l.unwatched;
          out_of_table = l.out_of_table;
          same_wire = l.same_wire ∙ ap (λ u. u.wire) r;
        },
      )

  -- connectEstablished of a sound connection that is new meets its assert: before the callback
  -- runs the connection is open and sound, in the table of its loop, tied, and waits to read, with
  -- its writing side and its buffers as they were.
  pub connect_established_lem :
      (on_connection : TcpConnection ep → Option (TcpConnection ep)) (c : TcpConnection ep)
      → IsSound ep c
      → c.state ≡ connecting
      → (c' : TcpConnection ep) × (connect_established ep on_connection c ≡ on_connection c')
        × IsSound ep c'
        × (c'.state ≡ connected)
        × (c'.in_loop_table ≡ true)
        × (is_reading (own_channel ep c') ≡ true)
        × (c'.poller.channels (own_channel ep c').fd ≡ some c.channel)
        × (c'.write_shut ≡ c.write_shut)
        × (c'.input_buffer ≡ c.input_buffer)
        × (c'.output_buffer ≡ c.output_buffer)
  unfolding connect_established tie switched
  connect_established_lem on_connection c s d =
      let new : TcpConnection ep = record c {
        state = connected;
        in_loop_table = true;
        poller = tied_poller c.poller c.channel;
      } in
      let (t, e, (v, m, g, f)) =
        switch_lem ep new enable_reading (tied-IsConsistent c.poller c.channel s.consistent)
          (tied-IsFree c.poller c.channel s.free) in
      (
        record new { poller = t },
        rw (ap is_connecting d, e) refl,
        record {
          consistent = v;
          free = inr m;
          registered = λ _. m;
          input_valid = s.input_valid;
          output_valid = s.output_valid;
          awaits = ground (arith, ap (λ u. u.writes) g, s.awaits, ap is_disconnected d);
        },
        refl,
        refl,
        ap (λ u. u.reads) g,
        m,
        refl,
        refl,
        refl,
      )

  -- A destroyed connection fails the assert of `Channel::remove` when its channel waits.
  leave_waiting :
      (c : TcpConnection ep) → is_none_event (own_channel ep c) ≡ false → leave_loop ep c ≡ none
  unfolding leave_loop remove
  leave_waiting c n = elim (Bool-cases c.in_loop_table) [
    | inl b ↦ rw (b, n) refl
    | inr b ↦ rw b refl
  ]

  started :
      (c : TcpConnection ep) (t : Poller ep) (k : TcpConnection ep → Option (TcpConnection ep))
      → is_reading (own_channel ep c) ≡ false
      → switch ep c enable_reading ≡ some (record c { poller = t })
      → (start_read_in_loop ep c >>= connect_destroyed ep k)
        ≡ connect_destroyed ep k (record c { poller = t; reading = true })
  unfolding start_read_in_loop
  started c t k off e =
      let wanted : (not c.reading || not (is_reading (own_channel ep c))) ≡ true =
        ground (arith, off) in
      rw (wanted, e) refl

  -- A read that is started on a connection after it was closed, and before it is destroyed, makes
  -- connectDestroyed fail an assert, whatever the connection was before.
  pub start_read_after_close :
      (on_connection : TcpConnection ep → Option (TcpConnection ep)) (c : TcpConnection ep)
      → IsSound ep c
      → (is_connected c.state || is_disconnecting c.state) ≡ true
      → (handle_close ep some c >>= λ c1.
          start_read_in_loop ep c1 >>= connect_destroyed ep on_connection)
        ≡ none
  unfolding switched
  start_read_after_close on_connection c s o =
      let (c1, e, (v, d, n), r, f) = handle_close_lem some c s o in
      let (t, g, (w, m, h, _)) = switch_lem ep c1 enable_reading v.consistent v.free in
      let c2 : TcpConnection ep = record c1 { poller = t; reading = true } in
      let off : is_reading (own_channel ep c1) ≡ false = ground (arith, n) in
      let waits : is_none_event (own_channel ep c2) ≡ false = ground (arith, ap (λ u. u.reads) h) in
      ap (λ m. m >>= λ c1. start_read_in_loop ep c1 >>= connect_destroyed ep on_connection) e
      ∙ started c1 t on_connection off g
      ∙ closed_destroyed on_connection c2 d
      ∙ leave_waiting c2 waits
