-- ===== src/TcpConnection/Saving.antt =====
-- The end of `sendInLoop`: what the socket did not take goes to the output buffer.
use dserver.Prelude.{
  ℕ, ◌+◌, ◌≤◌, ◌<◌, ◌≡◌, refl, sym, ap, subst, ◌∙◌, inl, inr, Bool, true, false, ◌&&◌, some, List,
  [], ◌∷◌, ◌++◌, ltb, leb, if◌then◌else◌, length, drop, add_size, sub_size, arith, Bool-cases,
  le→leb, ltb→lt, ltb→ge, append_assoc, append-nil, length-append, length-drop,
}
use dserver.Buffer.{Buffer, readable_bytes, max_size}
use dserver.Buffer.Contents.{IsValid, contents}
use dserver.Buffer.Append.{append_full}
use dserver.Channel.{enable_writing, switched, is_writing}
use dserver.Poller.{Epoll, Poller}
use dserver.TcpConnection.{
  TcpConnection, own_channel, queue_if, high_water, Task, is_disconnected, save_rest, send_rest,
}
use dserver.TcpConnection.Invariant.{IsSound, Switches, switch_lem}

pub nil_of_length : (xs : List ℕ) → length xs ≡ 0 → xs ≡ []
nil_of_length [] h = refl
nil_of_length (x ∷ xs) h = absurd (omega arith)

module _ (ep : Epoll) where
  -- What a call keeps that adds `bytes` to the stream of the connection.
  pub record Adds (c : TcpConnection ep) (bytes : List ℕ) (c' : TcpConnection ep) : Type 0 where
    pub sound : IsSound ep c'
    pub same_state : c'.state ≡ c.state
    pub same_shut : c'.write_shut ≡ c.write_shut
    pub same_input : c'.input_buffer ≡ c.input_buffer
    -- The bytes given to the socket, and those still held, are the old ones and the new.
    pub stream :
        c'.wire ++ contents c'.output_buffer ≡ (c.wire ++ contents c.output_buffer) ++ bytes
    pub no_further : c'.output_buffer.writer_index ≤ c.output_buffer.writer_index + length bytes

  enabled_lem :
      (c : TcpConnection ep) (rest : List ℕ) (t : Poller ep) (b : Buffer)
      → IsSound ep c
      → is_disconnected c.state ≡ false
      → 0 < length rest
      → Switches ep c enable_writing t
      → IsValid b
      → contents b ≡ contents c.output_buffer ++ rest
      → IsSound ep (record c { output_buffer = b; poller = t })
  unfolding switched
  enabled_lem c rest t b s d l (v, m, e, _) w h = record {
    consistent = v;
    free = inr m;
    registered = λ _. m;
    input_valid = s.input_valid;
    output_valid = w;
    awaits = ground (arith, e, d, ap length h, length-append (contents c.output_buffer) rest, l);
  }

  kept_lem :
      (c : TcpConnection ep) (rest : List ℕ) (b : Buffer)
      → IsSound ep c
      → is_disconnected c.state ≡ false
      → 0 < length rest
      → is_writing (own_channel ep c) ≡ true
      → IsValid b
      → contents b ≡ contents c.output_buffer ++ rest
      → IsSound ep (record c { output_buffer = b })
  kept_lem c rest b s d l x w h = record {
    consistent = s.consistent;
    free = s.free;
    registered = s.registered;
    input_valid = s.input_valid;
    output_valid = w;
    awaits = ground (arith, d, x, ap length h, length-append (contents c.output_buffer) rest, l);
  }

  queued_lem :
      (c : TcpConnection ep) (b : Bool) (t : Task) → IsSound ep c → IsSound ep (queue_if ep b c t)
  queued_lem c b t s = record {
    consistent = s.consistent;
    free = s.free;
    registered = s.registered;
    input_valid = s.input_valid;
    output_valid = s.output_valid;
    awaits = s.awaits;
  }

  save_rest_lem :
      (c : TcpConnection ep) (rest : List ℕ)
      → IsSound ep c
      → is_disconnected c.state ≡ false
      → 0 < length rest
      → c.output_buffer.writer_index + length rest ≤ max_size
      → (c' : TcpConnection ep) × (save_rest ep c rest (length rest) ≡ some c') × Adds c rest c'
  unfolding save_rest
  save_rest_lem c rest s d l k =
      let total = add_size (readable_bytes c.output_buffer) (length rest) in
      let n =
        queue_if ep (leb c.high_water_mark total && c.has_high_water_mark) c (high_water total) in
      let s' : IsSound ep n = queued_lem c _ (high_water total) s in
      let (b, e, v, h, _, z) = append_full c.output_buffer rest s.output_valid k in
      let stream =
        ap (λ xs. c.wire ++ xs) h ∙ sym (append_assoc c.wire (contents c.output_buffer) rest) in
      elim (Bool-cases (is_writing (own_channel ep c))) [
        | inl x ↦ (
          record n { output_buffer = b },
          rw (e, x) refl,
          record {
            sound = kept_lem n rest b s' d l x v h;
            same_state = refl;
            same_shut = refl;
            same_input = refl;
            stream = stream;
            no_further = z;
          },
        )
        | inr x ↦
            let (t, g, w) =
              switch_lem ep (record n { output_buffer = b }) enable_writing s.consistent s.free in
            (
              record n { output_buffer = b; poller = t },
              rw (e, x) g,
              record {
                sound = enabled_lem n rest t b s' d l w v h;
                same_state = refl;
                same_shut = refl;
                same_input = refl;
                stream = stream;
                no_further = z;
              },
            )
      ]

  pub Adds-nil : (c : TcpConnection ep) → IsSound ep c → Adds c [] c
  Adds-nil c s = record {
    sound = s;
    same_state = refl;
    same_shut = refl;
    same_input = refl;
    stream = sym (append-nil (c.wire ++ contents c.output_buffer));
    no_further = omega arith;
  }

  send_rest-eq :
      (bytes : List ℕ) (c : TcpConnection ep) (n m : ℕ)
      → sub_size (length bytes) n ≡ m
      → m ≤ length bytes
      → send_rest ep bytes c n false ≡ (if ltb 0 m then save_rest ep c (drop n bytes) m else some c)
  unfolding send_rest
  send_rest-eq bytes c n m e h = rw (e, le→leb m (length bytes) h) refl

  pub send_rest_lem :
      (bytes : List ℕ) (c : TcpConnection ep) (n : ℕ)
      → IsSound ep c
      → is_disconnected c.state ≡ false
      → n ≤ length bytes
      → c.output_buffer.writer_index + length bytes ≤ max_size
      → (c' : TcpConnection ep) × (send_rest ep bytes c n false ≡ some c')
        × Adds c (drop n bytes) c'
  send_rest_lem bytes c n s d h k =
      let rest = drop n bytes in
      let size = length-drop n bytes in
      let q = send_rest-eq bytes c n (length rest) (omega (arith, size)) (omega (arith, size)) in
      elim (Bool-cases (ltb 0 (length rest))) [
        | inl x ↦
            let (c', e, a) =
              save_rest_lem c rest s d (ltb→lt 0 (length rest) x) (omega (arith, size)) in
            (c', q ∙ ap (λ b. if b then save_rest ep c rest (length rest) else some c) x ∙ e, a)
        | inr x ↦ (
          c,
          q ∙ ap (λ b. if b then save_rest ep c rest (length rest) else some c) x,
          subst (λ xs. Adds c xs c)
              (sym (nil_of_length rest (omega (arith, ltb→ge 0 (length rest) x)))) (Adds-nil c s),
        )
      ]
