-- ===== src/TcpConnection/Writing.antt =====
-- `handleWrite` and `shutdown`: the output buffer drains, and the writing side closes behind it.
use Prim.Native.Nat.{max}
use dserver.Prelude.{
  ℕ, zero, suc, ◌≤◌, ◌<◌, ◌≡◌, refl, sym, ap, subst, inl, inr, Bool, true, false, ◌&&◌, ◌||◌, some,
  [], ◌∷◌, ◌++◌, ◌==◌, if◌then◌else◌, length, take, drop, arith, Bool-cases, lt→ltb, append-nil,
}
use dserver.Buffer.{Buffer, readable_bytes, cheap_prepend}
use dserver.Buffer.Contents.{IsValid, contents, length-contents, retrieve_lem}
use dserver.Channel.{disable_writing, switched, is_writing}
use dserver.Poller.{Epoll, Poller}
use dserver.TcpConnection.{
  TcpConnection, WriteResult, wrote, write_failed, own_channel, write_complete, switch,
  is_disconnected, is_disconnecting, shutdown_in_loop, write_done, written_out, handle_write,
}
use dserver.TcpConnection.Invariant.{IsSound, Switches, switch_lem}
use dserver.TcpConnection.Sending.{Fits}

-- The bytes that the socket takes.
abbrev pub taken : WriteResult → ℕ
taken (wrote n) = n
taken (write_failed errno) = 0

module _ (ep : Epoll) where
  -- What `handleWrite` keeps: the stream, and the close of the writing side behind it.
  pub record Drains (c : TcpConnection ep) (n : ℕ) (c' : TcpConnection ep) : Type 0 where
    pub sound : IsSound ep c'
    pub same_state : c'.state ≡ c.state
    pub gives : c'.wire ≡ c.wire ++ take n (contents c.output_buffer)
    pub holds : contents c'.output_buffer ≡ drop n (contents c.output_buffer)
    pub no_further : c'.output_buffer.writer_index ≤ max cheap_prepend c.output_buffer.writer_index
    -- The writing side is shut when it was, or when the last byte of a closing connection left.
    pub shuts : c'.write_shut ≡ (
        c.write_shut
        || (is_writing (own_channel ep c)
            && (is_disconnecting c.state && length (contents c'.output_buffer) == 0)))

  -- A channel that waits to write has bytes to write, on an open connection.
  open_of_writing :
      (c : TcpConnection ep)
      → IsSound ep c
      → is_writing (own_channel ep c) ≡ true
      → (is_disconnected c.state ≡ false) × (0 < length (contents c.output_buffer))
  open_of_writing c s x = (ground (arith, x, s.awaits), ground (arith, x, s.awaits))

  shut_if : TcpConnection ep → Poller ep → Bool → TcpConnection ep
  shut_if c t told = record c {
    poller = t;
    queued = if told then c.queued ++ (write_complete ∷ []) else c.queued;
    write_shut = c.write_shut || is_disconnecting c.state;
  }

  write_done_lem :
      (c : TcpConnection ep) (t : Poller ep)
      → switch ep c disable_writing ≡ some (record c { poller = t })
      → Switches ep c disable_writing t
      → write_done ep c ≡ some (shut_if c t c.has_write_complete)
  unfolding write_done shut_if shutdown_in_loop switched
  write_done_lem c t e (v, m, w, _) =
      let off : is_writing (t.heap c.channel) ≡ false = ap (λ u. u.writes) w in
      elim (Bool-cases (is_disconnecting c.state)) [
        | inl x ↦ rw (e, x, off) (ground (arith, x))
        | inr x ↦ rw (e, x) (ground (arith, x))
      ]

  -- The connection after the socket took some bytes.
  abbrev drained : TcpConnection ep → Buffer → ℕ → TcpConnection ep
  drained c b n = record c { output_buffer = b; wire = c.wire ++ take n (contents c.output_buffer) }

  unmoved_lem :
      (c : TcpConnection ep)
      → IsSound ep c
      → (is_writing (own_channel ep c) && length (contents c.output_buffer) == 0) ≡ false
      → Drains c 0 c
  unmoved_lem c s e = record {
    sound = s;
    same_state = refl;
    gives = sym (append-nil c.wire);
    holds = refl;
    no_further = omega arith;
    shuts = ground (arith, e);
  }

  emptied_lem :
      (c : TcpConnection ep) (n : ℕ) (b : Buffer) (t : Poller ep)
      → IsSound ep c
      → is_writing (own_channel ep c) ≡ true
      → IsValid b
      → contents b ≡ drop n (contents c.output_buffer)
      → b.writer_index ≤ max cheap_prepend c.output_buffer.writer_index
      → length (contents b) ≡ 0
      → Switches ep (drained c b n) disable_writing t
      → Drains c n (shut_if (drained c b n) t c.has_write_complete)
  unfolding shut_if switched
  emptied_lem c n b t s x v h y z (w, m, e, _) = record {
    sound = record {
      consistent = w;
      free = inr m;
      registered = λ _. m;
      input_valid = s.input_valid;
      output_valid = v;
      awaits = ground (arith, ap (λ u. u.writes) e, z);
    };
    same_state = refl;
    gives = refl;
    holds = h;
    no_further = y;
    shuts = ground (arith, x, z);
  }

  partly_lem :
      (c : TcpConnection ep) (n : ℕ) (b : Buffer)
      → IsSound ep c
      → is_writing (own_channel ep c) ≡ true
      → IsValid b
      → contents b ≡ drop n (contents c.output_buffer)
      → b.writer_index ≤ max cheap_prepend c.output_buffer.writer_index
      → 0 < length (contents b)
      → Drains c n (drained c b n)
  partly_lem c n b s x v h y z = record {
    sound = record {
      consistent = s.consistent;
      free = s.free;
      registered = s.registered;
      input_valid = s.input_valid;
      output_valid = v;
      awaits = ground (arith, x, s.awaits, z);
    };
    same_state = refl;
    gives = refl;
    holds = h;
    no_further = y;
    shuts = ground (arith, z);
  }

  written_out_lem :
      (c : TcpConnection ep) (n : ℕ)
      → IsSound ep c
      → is_writing (own_channel ep c) ≡ true
      → 0 < n
      → n ≤ length (contents c.output_buffer)
      → (c' : TcpConnection ep) × (written_out ep c n ≡ some c') × Drains c n c'
  unfolding written_out
  written_out_lem c n s x p h =
      let (b, e, v, k, y) = retrieve_lem c.output_buffer n s.output_valid h in
      let some_left = lt→ltb 0 n p in
      let size = length-contents b v in
      elim (Bool-cases (readable_bytes b == 0)) [
        | inl z ↦
            let (t, f, w) = switch_lem ep (drained c b n) disable_writing s.consistent s.free in
            (
              shut_if (drained c b n) t c.has_write_complete,
              rw (some_left, e, z) (write_done_lem (drained c b n) t f w),
              emptied_lem c n b t s x v k y (ground (arith, size, z)) w,
            )
        | inr z ↦ (
          drained c b n,
          rw (some_left, e, z) refl,
          partly_lem c n b s x v k y (ground (arith, size, z)),
        )
      ]

  not_writing :
      (c : TcpConnection ep) (result : WriteResult)
      → is_writing (own_channel ep c) ≡ false
      → handle_write ep c result ≡ some c
  unfolding handle_write
  not_writing c result x = rw x refl

  nothing_out : (c : TcpConnection ep) → written_out ep c 0 ≡ some c
  unfolding written_out
  nothing_out c = refl

  handle_writing :
      (c : TcpConnection ep) (result : WriteResult)
      → IsSound ep c
      → is_writing (own_channel ep c) ≡ true
      → Fits result (length (contents c.output_buffer))
      → (c' : TcpConnection ep) × (handle_write ep c result ≡ some c') × Drains c (taken result) c'
  unfolding handle_write
  handle_writing c (write_failed errno) s x h =
      (c, rw x refl, unmoved_lem c s (ground (arith, open_of_writing c s x)))
  handle_writing c (wrote zero) s x h =
      (c, rw x (nothing_out c), unmoved_lem c s (ground (arith, open_of_writing c s x)))
  handle_writing c (wrote (suc n)) s x h =
      let (c', e, d) = written_out_lem c (suc n) s x (omega arith) h in (c', rw x e, d)

  -- On a sound connection whose socket takes at most what it is offered, handleWrite meets its
  -- asserts and keeps the connection sound and its state. While the channel waits to write, the
  -- socket gets the first bytes of the output buffer, as many as it takes, and the buffer keeps
  -- the others; otherwise nothing moves. The writing side is shut by the call exactly when the
  -- last byte of a connection that is closing has left.
  pub handle_write_lem :
      (c : TcpConnection ep) (result : WriteResult)
      → IsSound ep c
      → Fits result (length (contents c.output_buffer))
      → (c' : TcpConnection ep) × (handle_write ep c result ≡ some c')
        × Drains c (if is_writing (own_channel ep c) then taken result else 0) c'
  handle_write_lem c result s h = elim (Bool-cases (is_writing (own_channel ep c))) [
    | inl x ↦
        let (c', e, d) = handle_writing c result s x h in
        (c', e, subst (λ k. Drains c k c') (sym (ap (λ b. if b then taken result else 0) x)) d)
    | inr x ↦ (
      c,
      not_writing c result x,
      subst (λ k. Drains c k c) (sym (ap (λ b. if b then taken result else 0) x))
          (unmoved_lem c s (rw x refl)),
    )
  ]
