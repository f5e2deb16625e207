-- ===== src/TcpConnection/Stream.antt =====
-- Runs of `send`, `handleWrite` and `shutdown` in the loop's thread: the stream of a connection.
use dserver.Prelude.{
  ℕ, ◌+◌, ◌≤◌, ◌≡◌, refl, sym, ap, subst, ◌∙◌, inl, inr, Option, some, List, [], ◌∷◌, ◌++◌, ◌>>=◌,
  arith, append_assoc, append-nil,
}
use dserver.Buffer.{max_size}
use dserver.Buffer.Contents.{contents}
use dserver.Poller.{Epoll}
use dserver.TcpConnection.{TcpConnection}
use dserver.TcpConnection.Steps.{
  Answer, Call, sending, writing, shutting, asked, step, reach, IsOpenEnded, sending_lem,
  writing_lem, shutting_lem,
}

-- `bytes` are the messages of the calls in their order, each whole or not at all.
pub data Kept : List Call → List ℕ → Type 0 where
  done : Kept [] []
  keep :
      {bytes : List ℕ} {answer : Answer} {calls : List Call} {rest : List ℕ}
      → Kept calls rest
      → Kept (sending bytes answer ∷ calls) (bytes ++ rest)
  lose :
      {bytes : List ℕ} {answer : Answer} {calls : List Call} {rest : List ℕ}
      → Kept calls rest
      → Kept (sending bytes answer ∷ calls) rest
  write :
      {answer : Answer} {calls : List Call} {rest : List ℕ}
      → Kept calls rest
      → Kept (writing answer ∷ calls) rest
  shut : {calls : List Call} {rest : List ℕ} → Kept calls rest → Kept (shutting ∷ calls) rest

module _ (ep : Epoll) where
  unfoldable pub run : TcpConnection ep → List Call → Option (TcpConnection ep)
  run c [] = some c
  run c (call ∷ calls) = step ep c call >>= λ c'. run c' calls

  -- What a run leaves, of the messages of its calls.
  pub record Runs (c : TcpConnection ep) (calls : List Call) (c' : TcpConnection ep) : Type 0 where
    pub open_ended : IsOpenEnded ep c'
    pub kept : List ℕ
    pub kept_lem : Kept calls kept
    pub stream : c'.wire ++ contents c'.output_buffer ≡ (c.wire ++ contents c.output_buffer) ++ kept

  then_stream : (a x y : List ℕ) {b c : List ℕ} → b ≡ a ++ x → c ≡ b ++ y → c ≡ a ++ (x ++ y)
  then_stream a x y e f = f ∙ ap (λ l. l ++ y) e ∙ append_assoc a x y

  -- From a connection that is sound, whose writing side is open or has nothing left to give, and
  -- with room for all the messages, every run of calls of `send` and `shutdown` by the loop's own
  -- thread and of write events meets its asserts, whatever the socket takes and however it fails;
  -- no other thread sends or shuts down meanwhile. The bytes given to the socket and
  -- those still held are the old ones followed by messages of the run, in order, each whole or
  -- not at all; and the writing side is never shut before all of them have left.
  pub run-Runs :
      (c : TcpConnection ep) (calls : List Call)
      → IsOpenEnded ep c
      → reach ep c + asked calls ≤ max_size
      → (c' : TcpConnection ep) × (run c calls ≡ some c') × Runs c calls c'
  unfolding run
  run-Runs c [] o k = (
    c,
    refl,
    record {
      open_ended = o;
      kept = [];
      kept_lem = done;
      stream = sym (append-nil (c.wire ++ contents c.output_buffer));
    },
  )
  run-Runs c (sending bytes answer ∷ calls) o k =
      let (c1, e, (first, which, s)) = sending_lem ep c bytes answer o (omega arith) in
      let (c2, f, r) = run-Runs c1 calls s.open_ended (omega (arith, s.no_further)) in
      (
        c2,
        rw e f,
        record {
          open_ended = r.open_ended;
          kept = first ++ r.kept;
          kept_lem = elim which [
            | inl n ↦
                subst (λ xs. Kept (sending bytes answer ∷ calls) (xs ++ r.kept)) (sym n)
                  (lose r.kept_lem)
            | inr n ↦
                subst (λ xs. Kept (sending bytes answer ∷ calls) (xs ++ r.kept)) (sym n)
                  (keep r.kept_lem)
          ];
          stream = then_stream (c.wire ++ contents c.output_buffer) first r.kept s.stream r.stream;
        },
      )
  run-Runs c (writing answer ∷ calls) o k =
      let (c1, e, s) = writing_lem ep c answer o in
      let (c2, f, r) = run-Runs c1 calls s.open_ended (omega (arith, s.no_further)) in
      (
        c2,
        rw e f,
        record {
          open_ended = r.open_ended;
          kept = r.kept;
          kept_lem = write r.kept_lem;
          stream = then_stream (c.wire ++ contents c.output_buffer) [] r.kept s.stream r.stream;
        },
      )
  run-Runs c (shutting ∷ calls) o k =
      let (c1, e, s) = shutting_lem ep c o in
      let (c2, f, r) = run-Runs c1 calls s.open_ended (omega (arith, s.no_further)) in
      (
        c2,
        rw e f,
        record {
          open_ended = r.open_ended;
          kept = r.kept;
          kept_lem = shut r.kept_lem;
          stream = then_stream (c.wire ++ contents c.output_buffer) [] r.kept s.stream r.stream;
        },
      )
