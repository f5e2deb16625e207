-- ===== src/TcpConnection/Steps.antt =====
-- One `send`, `handleWrite` or `shutdown` in the loop's thread, whatever the socket does.
use Prim.Native.Nat.{min, max}
use dserver.Prelude.{
  ℕ, ◌+◌, ◌≤◌, ◌≡◌, refl, sym, ap, ◌∙◌, ◌⊎◌, inl, inr, Bool, true, false, Option, some, List, [],
  ◌∷◌, ◌++◌, if◌then◌else◌, length, take, drop, arith, Bool-cases, append_assoc, append-nil,
  length-drop, take-drop,
}
use dserver.Buffer.{cheap_prepend, max_size}
use dserver.Buffer.Contents.{contents}
use dserver.Channel.{is_writing}
use dserver.Poller.{Epoll}
use dserver.TcpConnection.{
  TcpConnection, WriteResult, wrote, write_failed, own_channel, is_connected, disconnecting, send,
  shutdown, shutdown_in_loop, handle_write,
}
use dserver.TcpConnection.Invariant.{IsSound}
use dserver.TcpConnection.Sending.{Fits, accepted, send_in_loop_lem}
use dserver.TcpConnection.Writing.{taken, Drains, handle_write_lem}

-- What the socket does with an offer: it takes up to a number of bytes, or fails.
pub data Answer : Type 0 where
  takes : ℕ → Answer
  fails : ℕ → Answer

abbrev pub answered : Answer → ℕ → WriteResult
answered (takes n) size = wrote (min n size)
answered (fails errno) size = write_failed errno

pub data Call : Type 0 where
  sending : List ℕ → Answer → Call
  writing : Answer → Call
  shutting : Call

-- The bytes that the calls ask for.
abbrev pub asked : List Call → ℕ
asked [] = 0
asked (sending bytes answer ∷ calls) = length bytes + asked calls
asked (writing answer ∷ calls) = asked calls
asked (shutting ∷ calls) = asked calls

pub answered-Fits : (answer : Answer) (size : ℕ) → Fits (answered answer size) size
answered-Fits (takes n) size = omega arith
answered-Fits (fails errno) size = tt

module _ (ep : Epoll) where
  unfoldable pub step : TcpConnection ep → Call → Option (TcpConnection ep)
  step c (sending bytes answer) = send ep c true bytes (answered answer (length bytes))
  step c (writing answer) = handle_write ep c (answered answer (length (contents c.output_buffer)))
  step c shutting = some (shutdown ep c true)

  -- How far the output buffer reaches into its block.
  abbrev pub reach : TcpConnection ep → ℕ
  reach c = max cheap_prepend c.output_buffer.writer_index

  -- A writing side that is shut has nothing left to give, and nothing more will come.
  pub record IsOpenEnded (c : TcpConnection ep) : Type 0 where
    pub sound : IsSound ep c
    pub ends :
        c.write_shut ≡ true
        → (is_connected c.state ≡ false) × (length (contents c.output_buffer) ≡ 0)

  -- One call: the stream grows by `bytes`.
  pub record Steps (c : TcpConnection ep) (bytes : List ℕ) (size : ℕ) (c' : TcpConnection ep)
      : Type 0 where
    pub open_ended : IsOpenEnded c'
    pub stream :
        c'.wire ++ contents c'.output_buffer ≡ (c.wire ++ contents c.output_buffer) ++ bytes
    pub no_further : reach c' ≤ reach c + size

  accepted_cases :
      (c : TcpConnection ep) (bytes : List ℕ) (result : WriteResult)
      → (accepted ep c bytes result ≡ []) ⊎ (accepted ep c bytes result ≡ bytes)
  accepted_cases c bytes result = ground arith

  length-accepted :
      (c : TcpConnection ep) (bytes : List ℕ) (result : WriteResult)
      → length (accepted ep c bytes result) ≤ length bytes
  length-accepted c bytes result = ground arith

  unmoved : (c : TcpConnection ep) (size : ℕ) → IsOpenEnded c → Steps c [] size c
  unmoved c size o = record {
    open_ended = o;
    stream = sym (append-nil (c.wire ++ contents c.output_buffer));
    no_further = omega arith;
  }

  pub sending_lem :
      (c : TcpConnection ep) (bytes : List ℕ) (answer : Answer)
      → IsOpenEnded c
      → reach c + length bytes ≤ max_size
      → (c' : TcpConnection ep) × (step c (sending bytes answer) ≡ some c')
        × ((kept : List ℕ) × ((kept ≡ []) ⊎ (kept ≡ bytes)) × Steps c kept (length bytes) c')
  unfolding step send
  sending_lem c bytes answer o k = elim (Bool-cases (is_connected c.state)) [
    | inl x ↦
        let (c', e, a) =
          send_in_loop_lem ep c bytes (answered answer (length bytes)) o.sound
            (answered-Fits answer (length bytes)) (omega arith) in
        (
          c',
          rw x e,
          (
            accepted ep c bytes (answered answer (length bytes)),
            accepted_cases c bytes (answered answer (length bytes)),
            record {
              open_ended = record {
                sound = a.sound;
                ends = λ z. absurd (ground (arith, x, z, a.same_shut, o.ends));
              };
              stream = a.stream;
              no_further =
                  omega
                    (arith, a.no_further, length-accepted c bytes (answered answer (length bytes)));
            },
          ),
        )
    | inr x ↦ (c, rw x refl, ([], inl refl, unmoved c (length bytes) o))
  ]

  drained_stream : (w o : List ℕ) (n : ℕ) → (w ++ take n o) ++ drop n o ≡ (w ++ o) ++ []
  drained_stream w o n = simp (append_assoc, append-nil, take-drop)

  drained_ends :
      (c c' : TcpConnection ep) (n : ℕ)
      → IsOpenEnded c
      → Drains ep c n c'
      → c'.write_shut ≡ true
      → (is_connected c'.state ≡ false) × (length (contents c'.output_buffer) ≡ 0)
  drained_ends c c' n o d z = (
    ground (arith, z, d.shuts, o.ends, d.same_state),
    ground (arith, z, d.shuts, o.ends, ap length d.holds, length-drop n (contents c.output_buffer)),
  )

  pub writing_lem :
      (c : TcpConnection ep) (answer : Answer)
      → IsOpenEnded c
      → (c' : TcpConnection ep) × (step c (writing answer) ≡ some c') × Steps c [] 0 c'
  unfolding step
  writing_lem c answer o =
      let held = contents c.output_buffer in
      let n = if is_writing (own_channel ep c) then taken (answered answer (length held)) else 0 in
      let (c', e, d) =
        handle_write_lem ep c (answered answer (length held)) o.sound
          (answered-Fits answer (length held)) in
      (
        c',
        e,
        record {
          open_ended = record { sound = d.sound; ends = λ z. drained_ends c c' n o d z };
          stream =
              ap (λ xs. xs ++ contents c'.output_buffer) d.gives
              ∙ ap (λ xs. (c.wire ++ take n held) ++ xs) d.holds
              ∙ drained_stream c.wire held n;
          no_further = omega (arith, d.no_further);
        },
      )

  closing : TcpConnection ep → Bool → TcpConnection ep
  closing c b = record c { state = disconnecting; write_shut = b }

  closing-Steps :
      (c : TcpConnection ep) (b : Bool)
      → IsOpenEnded c
      → is_connected c.state ≡ true
      → (b ≡ true → length (contents c.output_buffer) ≡ 0)
      → Steps c [] 0 (closing c b)
  unfolding closing
  closing-Steps c b o x h = record {
    open_ended = record {
      sound = record {
        consistent = o.sound.consistent;
        free = o.sound.free;
        registered = λ _. o.sound.registered (ground (arith, x));
        input_valid = o.sound.input_valid;
        output_valid = o.sound.output_valid;
        awaits = ground (arith, x, o.sound.awaits);
      };
      ends = λ z. (refl, h z);
    };
    stream = sym (append-nil (c.wire ++ contents c.output_buffer));
    no_further = omega arith;
  }

  pub shutting_lem :
      (c : TcpConnection ep)
      → IsOpenEnded c
      → (c' : TcpConnection ep) × (step c shutting ≡ some c') × Steps c [] 0 c'
  unfolding step shutdown shutdown_in_loop closing
  shutting_lem c o = elim (Bool-cases (is_connected c.state)) [
    | inl x ↦ elim (Bool-cases (is_writing (own_channel ep c))) [
      | inl y ↦ (
        closing c c.write_shut,
        rw (x, y) refl,
        closing-Steps c c.write_shut o x (λ z. absurd (ground (arith, z, x, o.ends))),
      )
      | inr y ↦ (
        closing c true,
        rw (x, y) refl,
        closing-Steps c true o x (λ z. ground (arith, x, y, o.sound.awaits)),
      )
    ]
    | inr x ↦ (c, rw x refl, unmoved c 0 o)
  ]
