-- ===== src/TcpConnection/Draining.antt =====
-- A connection that closes sends what it holds, and then shuts its writing side.
use dserver.Prelude.{
  ℕ, suc, ◌-◌, ◌≤◌, ◌≡◌, refl, sym, ap, ◌∙◌, true, some, List, [], ◌∷◌, ◌++◌, if◌then◌else◌, length,
  take, drop, arith, append_assoc, append-nil, length-drop, take-drop,
}
use dserver.Buffer.Contents.{contents}
use dserver.Channel.{is_writing}
use dserver.Poller.{Epoll}
use dserver.TcpConnection.{TcpConnection, own_channel, is_disconnecting}
use dserver.TcpConnection.Invariant.{IsSound}
use dserver.TcpConnection.Writing.{taken, Drains, handle_write_lem}
use dserver.TcpConnection.Steps.{takes, answered, answered-Fits, Call, writing, step}
use dserver.TcpConnection.Stream.{run}

-- Write events at each of which the socket takes a byte at least: `n` stands for `n + 1` bytes.
abbrev pub events : List ℕ → List Call
events [] = []
events (n ∷ sizes) = writing (takes (suc n)) ∷ events sizes

module _ (ep : Epoll) where
  -- A connection that is closing, whose writing side is shut once it holds nothing.
  pub record IsClosing (c : TcpConnection ep) : Type 0 where
    pub sound : IsSound ep c
    pub closing : is_disconnecting c.state ≡ true
    pub shuts : length (contents c.output_buffer) ≡ 0 → c.write_shut ≡ true

  -- After a write event at which the socket takes something.
  record Advances (c : TcpConnection ep) (c' : TcpConnection ep) : Type 0 where
    still : IsClosing c'
    same_stream : c'.wire ++ contents c'.output_buffer ≡ c.wire ++ contents c.output_buffer
    shorter : length (contents c'.output_buffer) ≤ length (contents c.output_buffer) - 1

  moved_stream : (w o : List ℕ) (n : ℕ) → (w ++ take n o) ++ drop n o ≡ w ++ o
  moved_stream w o n = simp (append_assoc, take-drop)

  Drains-Advances :
      (c c' : TcpConnection ep) (n : ℕ)
      → IsClosing c
      → Drains ep c
          (if is_writing (own_channel ep c)
            then taken (answered (takes (suc n)) (length (contents c.output_buffer)))
            else 0)
          c'
      → Advances c c'
  Drains-Advances c c' n k d =
      let held = contents c.output_buffer in
      let m =
        if is_writing (own_channel ep c)
        then taken (answered (takes (suc n)) (length held))
        else 0 in
      let size : length (contents c'.output_buffer) ≡ length held - m =
        ap length d.holds ∙ length-drop m held in
      record {
        still = record {
          sound = d.sound;
          closing = ground (arith, d.same_state, k.closing);
          shuts = λ z. ground (arith, z, size, d.shuts, k.shuts, k.closing, k.sound.awaits);
        };
        same_stream =
            ap (λ xs. xs ++ contents c'.output_buffer) d.gives
            ∙ ap (λ xs. (c.wire ++ take m held) ++ xs) d.holds
            ∙ moved_stream c.wire held m;
        shorter = ground (arith, size, k.closing, k.sound.awaits);
      }

  advance_lem :
      (c : TcpConnection ep) (n : ℕ)
      → IsClosing c
      → (c' : TcpConnection ep) × (step ep c (writing (takes (suc n))) ≡ some c') × Advances c c'
  unfolding step
  advance_lem c n k =
      let size = length (contents c.output_buffer) in
      let (c', e, d) =
        handle_write_lem ep c (answered (takes (suc n)) size) k.sound
          (answered-Fits (takes (suc n)) size) in
      (c', e, Drains-Advances c c' n k d)

  nothing_held : (w o : List ℕ) → length o ≡ 0 → w ++ o ≡ w
  nothing_held w [] h = append-nil w
  nothing_held w (x ∷ o) h = absurd (omega arith)

  -- A sound connection that is closing sends all that it holds, and then shuts its writing side:
  -- as many write events as there are bytes are enough, if the socket takes one byte at least at
  -- each.
  pub run-events :
      (c : TcpConnection ep) (sizes : List ℕ)
      → IsClosing c
      → length (contents c.output_buffer) ≤ length sizes
      → (c' : TcpConnection ep) × (run ep c (events sizes) ≡ some c')
        × (c'.wire ≡ c.wire ++ contents c.output_buffer)
        × (length (contents c'.output_buffer) ≡ 0)
        × (c'.write_shut ≡ true)
  unfolding run
  run-events c [] k h =
      let z : length (contents c.output_buffer) ≡ 0 = omega arith in
      (c, refl, sym (nothing_held c.wire (contents c.output_buffer) z), z, k.shuts z)
  run-events c (n ∷ sizes) k h =
      let (c1, e, a) = advance_lem c n k in
      let (c2, f, w, z, x) = run-events c1 sizes a.still (omega (arith, a.shorter)) in
      (c2, rw e f, w ∙ a.same_stream, z, x)
