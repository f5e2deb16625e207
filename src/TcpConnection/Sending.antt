-- ===== src/TcpConnection/Sending.antt =====
-- `sendInLoop`: every byte goes to the socket or to the output buffer, in order.
use dserver.Prelude.{
  ℕ, ◌+◌, ◌≤◌, ◌≡◌, refl, sym, ap, subst, ◌∙◌, inl, inr, Bool, true, false, not, ◌&&◌, ◌||◌, some,
  List, [], ◌++◌, ◌==◌, if◌then◌else◌, length, take, drop, sub_size, arith, Bool-cases,
  append_assoc, append-nil, length-drop, take-drop,
}
use dserver.Buffer.{readable_bytes, max_size}
use dserver.Buffer.Contents.{contents, length-contents}
use dserver.Channel.{is_writing}
use dserver.Poller.{Epoll}
use dserver.TcpConnection.{
  TcpConnection, WriteResult, wrote, write_failed, eagain, epipe, econnreset, own_channel, queue_if,
  write_complete, is_disconnected, write_now, try_write, send_rest, send_in_loop,
}
use dserver.TcpConnection.Invariant.{IsSound}
use dserver.TcpConnection.Saving.{Adds, Adds-nil, nil_of_length, send_rest_lem}

-- `write` does not take more than it is offered.
abbrev pub Fits : WriteResult → ℕ → Type 0
Fits (wrote n) size = n ≤ size
Fits (write_failed errno) size = Unit {0}

-- The errors after which the connection gives the bytes up.
abbrev pub breaks : WriteResult → Bool
breaks (wrote n) = false
breaks (write_failed errno) = errno == epipe || errno == econnreset

given_stream :
    (w bytes o : List ℕ) (n : ℕ)
    → o ≡ []
    → ((w ++ take n bytes) ++ o) ++ drop n bytes ≡ (w ++ o) ++ bytes
given_stream w bytes o n h = rw h (simp (append-nil, append_assoc, take-drop))

module _ (ep : Epoll) where
  -- The socket is given the first bytes at once.
  abbrev given : TcpConnection ep → List ℕ → ℕ → Bool → TcpConnection ep
  given c bytes n told =
      queue_if ep told (record c { wire = c.wire ++ take n bytes }) write_complete

  given-Adds :
      (c c' : TcpConnection ep) (bytes : List ℕ) (n : ℕ) (told : Bool)
      → contents c.output_buffer ≡ []
      → n ≤ length bytes
      → Adds ep (given c bytes n told) (drop n bytes) c'
      → Adds ep c bytes c'
  given-Adds c c' bytes n told o h a = record {
    sound = a.sound;
    same_state = a.same_state;
    same_shut = a.same_shut;
    same_input = a.same_input;
    stream = a.stream ∙ given_stream c.wire bytes (contents c.output_buffer) n o;
    no_further = omega (arith, a.no_further, length-drop n bytes);
  }

  given-IsSound :
      (c : TcpConnection ep) (bytes : List ℕ) (n : ℕ) (told : Bool)
      → IsSound ep c
      → IsSound ep (given c bytes n told)
  given-IsSound c bytes n told s = record {
    consistent = s.consistent;
    free = s.free;
    registered = s.registered;
    input_valid = s.input_valid;
    output_valid = s.output_valid;
    awaits = s.awaits;
  }

  -- Nothing waits to be written.
  abbrev pub is_idle : TcpConnection ep → Bool
  is_idle c = not (is_writing (own_channel ep c)) && readable_bytes c.output_buffer == 0

  -- The bytes of a call that are not given up: all, unless the connection is down or breaks.
  abbrev pub accepted : TcpConnection ep → List ℕ → WriteResult → List ℕ
  accepted c bytes result =
      if is_disconnected c.state || (is_idle c && breaks result) then [] else bytes

  idle_contents :
      (c : TcpConnection ep) → IsSound ep c → is_idle c ≡ true → contents c.output_buffer ≡ []
  idle_contents c s i =
      nil_of_length (contents c.output_buffer)
        (ground (arith, i, length-contents c.output_buffer s.output_valid))

  send_rest_fault :
      (bytes : List ℕ) (c : TcpConnection ep)
      → length bytes ≤ max_size
      → send_rest ep bytes c 0 true ≡ some c
  unfolding send_rest
  send_rest_fault bytes c k = ground arith

  fault_breaks :
      (errno : ℕ)
      → (not (errno == eagain) && (errno == epipe || errno == econnreset))
        ≡ breaks (write_failed errno)
  fault_breaks errno = ground arith

  send_failed :
      (c : TcpConnection ep) (bytes : List ℕ) (b : Bool)
      → IsSound ep c
      → is_disconnected c.state ≡ false
      → c.output_buffer.writer_index + length bytes ≤ max_size
      → (c' : TcpConnection ep) × (send_rest ep bytes c 0 b ≡ some c')
        × Adds ep c (if b then [] else bytes) c'
  send_failed c bytes true s d k = (c, send_rest_fault bytes c (omega arith), Adds-nil ep c s)
  send_failed c bytes false s d k = send_rest_lem ep bytes c 0 s d (omega arith) k

  send_idle :
      (c : TcpConnection ep) (bytes : List ℕ) (result : WriteResult)
      → IsSound ep c
      → is_disconnected c.state ≡ false
      → is_idle c ≡ true
      → Fits result (length bytes)
      → c.output_buffer.writer_index + length bytes ≤ max_size
      → (c' : TcpConnection ep) × (send_in_loop ep c bytes result ≡ some c')
        × Adds ep c (if breaks result then [] else bytes) c'
  unfolding send_in_loop try_write write_now
  send_idle c bytes (wrote n) s d i h k =
      let told = sub_size (length bytes) n == 0 && c.has_write_complete in
      let (c', e, a) =
        send_rest_lem ep bytes (given c bytes n told) n (given-IsSound c bytes n told s) d h k in
      (c', rw (d, i) e, given-Adds c c' bytes n told (idle_contents c s i) h a)
  send_idle c bytes (write_failed errno) s d i h k =
      let (c', e, a) = send_failed c bytes (breaks (write_failed errno)) s d k in
      (c', rw (d, i) (ap (send_rest ep bytes c 0) (fault_breaks errno) ∙ e), a)

  send_busy :
      (c : TcpConnection ep) (bytes : List ℕ) (result : WriteResult)
      → IsSound ep c
      → is_disconnected c.state ≡ false
      → is_idle c ≡ false
      → c.output_buffer.writer_index + length bytes ≤ max_size
      → (c' : TcpConnection ep) × (send_in_loop ep c bytes result ≡ some c') × Adds ep c bytes c'
  unfolding send_in_loop try_write
  send_busy c bytes result s d i k =
      let (c', e, a) = send_rest_lem ep bytes c 0 s d (omega arith) k in (c', rw (d, i) e, a)

  send_down :
      (c : TcpConnection ep) (bytes : List ℕ) (result : WriteResult)
      → is_disconnected c.state ≡ true
      → send_in_loop ep c bytes result ≡ some c
  unfolding send_in_loop
  send_down c bytes result d = rw d refl

  accepted_by :
      (c : TcpConnection ep) (bytes : List ℕ) (result : WriteResult)
      → is_disconnected c.state ≡ true
      → accepted c bytes result ≡ []
  accepted_by c bytes result d = rw d refl

  accepted_idle :
      (c : TcpConnection ep) (bytes : List ℕ) (result : WriteResult)
      → is_disconnected c.state ≡ false
      → is_idle c ≡ true
      → accepted c bytes result ≡ (if breaks result then [] else bytes)
  accepted_idle c bytes result d i = rw (d, i) refl

  accepted_busy :
      (c : TcpConnection ep) (bytes : List ℕ) (result : WriteResult)
      → is_disconnected c.state ≡ false
      → is_idle c ≡ false
      → accepted c bytes result ≡ bytes
  accepted_busy c bytes result d i = rw (d, i) refl

  -- On a sound connection with room for the bytes, and a socket that takes at most what it is
  -- offered, sendInLoop meets its asserts and keeps the connection sound, its state, its input
  -- buffer and whether its writing side is shut. The bytes given to the socket, followed by those
  -- in the output buffer, are the old ones followed by the bytes sent; only a connection that is
  -- down, or one with nothing to write whose socket answers EPIPE or ECONNRESET, gives the bytes
  -- up.
  pub send_in_loop_lem :
      (c : TcpConnection ep) (bytes : List ℕ) (result : WriteResult)
      → IsSound ep c
      → Fits result (length bytes)
      → c.output_buffer.writer_index + length bytes ≤ max_size
      → (c' : TcpConnection ep) × (send_in_loop ep c bytes result ≡ some c')
        × Adds ep c (accepted c bytes result) c'
  send_in_loop_lem c bytes result s h k = elim (Bool-cases (is_disconnected c.state)) [
    | inl d ↦ (
      c,
      send_down c bytes result d,
      subst (λ xs. Adds ep c xs c) (sym (accepted_by c bytes result d)) (Adds-nil ep c s),
    )
    | inr d ↦ elim (Bool-cases (is_idle c)) [
      | inl i ↦
          let (c', e, a) = send_idle c bytes result s d i h k in
          (c', e, subst (λ xs. Adds ep c xs c') (sym (accepted_idle c bytes result d i)) a)
      | inr i ↦
          let (c', e, a) = send_busy c bytes result s d i k in
          (c', e, subst (λ xs. Adds ep c xs c') (sym (accepted_busy c bytes result d i)) a)
    ]
  ]
