-- ===== src/Http/Server/Answers.antt =====
-- net/http/HttpServer.cc: what a connection answers to the bytes of a request.
use dserver.Prelude.{
  ℕ, ◌+◌, ◌≤◌, ◌≡◌, refl, ap, subst, ◌∙◌, Bool, true, false, some, List, [], ◌++◌, if◌then◌else◌,
  length, arith, append-nil, ◌<◌,
}
use dserver.Buffer.{Buffer, create, initial_size, max_size, cheap_prepend}
use dserver.Buffer.Contents.{IsValid, contents, create-IsValid}
use dserver.Poller.{Epoll}
use dserver.TcpConnection.{
  TcpConnection, connected, disconnecting, WriteResult, is_connected, send, send_buffer, shutdown,
  shutdown_in_loop,
}
use dserver.TcpConnection.Saving.{Adds}
use dserver.TcpConnection.Sending.{Fits, accepted, send_in_loop_lem}
use dserver.TcpConnection.Steps.{IsOpenEnded, Steps, step, shutting_lem}
use dserver.Http.Request.{HttpRequest}
use dserver.Http.Response.{HttpResponse, new_response}
use dserver.Http.Response.Printing.{printed, append_to_buffer-printed}
use dserver.Http.Context.{
  HttpContext, new_context, ended, parse_request, got_all, expect_request_line, reset,
}
use dserver.Http.Context.Message.{Message, IsPlain, print_message, request_of}
use dserver.Http.Context.Reuse.{refused_lem}
use dserver.Http.Context.RoundTrip.{parse_request-print_message}
use dserver.Http.Server.{
  closes, bad_request_text, Session, on_request, refuse_message, answer, on_message,
}

-- The response to a request.
abbrev pub response_to : (HttpRequest → HttpResponse → HttpResponse) → HttpRequest → HttpResponse
response_to http_callback request = http_callback request (new_response (closes request))

module _ (ep : Epoll) where
  -- The connection with other bytes to read.
  abbrev pub reading_from : TcpConnection ep → Buffer → TcpConnection ep
  reading_from c b = record c { input_buffer = b }

  reading_from-IsOpenEnded :
      (c : TcpConnection ep) (b : Buffer)
      → IsOpenEnded ep c
      → IsValid b
      → IsOpenEnded ep (reading_from c b)
  reading_from-IsOpenEnded c b o v = record {
    sound = record {
      consistent = o.sound.consistent;
      free = o.sound.free;
      registered = o.sound.registered;
      input_valid = v;
      output_valid = o.sound.output_valid;
      awaits = o.sound.awaits;
    };
    ends = o.ends;
  }

  -- What an answer of `bytes`, after which the connection is closed or not, leaves.
  pub record Answers (c : TcpConnection ep) (bytes : List ℕ) (closed : Bool) (c' : TcpConnection ep)
      : Type 0 where
    pub open_ended : IsOpenEnded ep c'
    pub stream :
        c'.wire ++ contents c'.output_buffer ≡ (c.wire ++ contents c.output_buffer) ++ bytes
    pub same_input : c'.input_buffer ≡ c.input_buffer
    pub ends_in : c'.state ≡ (if closed then disconnecting else connected)

  sent-Answers :
      (c c' : TcpConnection ep) (bytes : List ℕ)
      → IsOpenEnded ep c
      → c.state ≡ connected
      → Adds ep c bytes c'
      → Answers c bytes false c'
  sent-Answers c c' bytes o x a = record {
    open_ended = record {
      sound = a.sound;
      ends = λ z. absurd (ground (arith, x, z, a.same_shut, o.ends));
    };
    stream = a.stream;
    same_input = a.same_input;
    ends_in = a.same_state ∙ x;
  }

  shutdown_state :
      (c : TcpConnection ep) → c.state ≡ connected → (shutdown ep c true).state ≡ disconnecting
  unfolding shutdown shutdown_in_loop
  shutdown_state c x = ground (arith, x)

  shutdown_input : (c : TcpConnection ep) → (shutdown ep c true).input_buffer ≡ c.input_buffer
  unfolding shutdown shutdown_in_loop
  shutdown_input c = ground arith

  shutdown-Steps : (c : TcpConnection ep) → IsOpenEnded ep c → Steps ep c [] 0 (shutdown ep c true)
  unfolding step
  shutdown-Steps c o =
      let (c', e, t) = shutting_lem ep c o in
      let same : c' ≡ shutdown ep c true = ground (arith, e) in
      subst (λ k. Steps ep c [] 0 k) same t

  shutdown-Answers :
      (c c' : TcpConnection ep) (bytes : List ℕ)
      → Answers c bytes false c'
      → Answers c bytes true (shutdown ep c' true)
  shutdown-Answers c c' bytes a =
      let t = shutdown-Steps c' a.open_ended in
      record {
        open_ended = t.open_ended;
        stream = t.stream ∙ append-nil (c'.wire ++ contents c'.output_buffer) ∙ a.stream;
        same_input = shutdown_input c' ∙ a.same_input;
        ends_in = shutdown_state c' a.ends_in;
      }

  shut_if-Answers :
      (c c' : TcpConnection ep) (bytes : List ℕ) (b : Bool)
      → Answers c bytes false c'
      → Answers c bytes b (if b then shutdown ep c' true else c')
  shut_if-Answers c c' bytes true a = shutdown-Answers c c' bytes a
  shut_if-Answers c c' bytes false a = a

  connected_lem : (c : TcpConnection ep) → c.state ≡ connected → is_connected c.state ≡ true
  connected_lem c x = rw x refl

  -- `send` in the loop's thread.
  sending_lem :
      (c : TcpConnection ep) (bytes : List ℕ) (result : WriteResult)
      → IsOpenEnded ep c
      → c.state ≡ connected
      → Fits result (length bytes)
      → c.output_buffer.writer_index + length bytes ≤ max_size
      → (c' : TcpConnection ep) × (send ep c true bytes result ≡ some c')
        × Answers c (accepted ep c bytes result) false c'
  unfolding send
  sending_lem c bytes result o x f k =
      let (c', e, a) = send_in_loop_lem ep c bytes result o.sound f k in
      (c', rw (connected_lem c x) e, sent-Answers c c' (accepted ep c bytes result) o x a)

  created_index : (create initial_size).writer_index ≡ cheap_prepend
  unfolding create
  created_index = refl

  module _ (http_callback : HttpRequest → HttpResponse → HttpResponse) where
    on_request_lem :
        (c : TcpConnection ep) (request : HttpRequest) (result : WriteResult)
        → IsOpenEnded ep c
        → c.state ≡ connected
        → ((response_to http_callback request).close_connection ≡ false
            → length (response_to http_callback request).body < 10000000000000)
        → Fits result (length (printed (response_to http_callback request)))
        → c.output_buffer.writer_index + length (printed (response_to http_callback request))
          ≤ max_size
        → cheap_prepend + length (printed (response_to http_callback request)) ≤ max_size
        → (c' : TcpConnection ep) × (on_request ep http_callback c request result ≡ some c')
          × Answers c
              (accepted ep c (printed (response_to http_callback request)) result)
              (response_to http_callback request).close_connection
              c'
    unfolding on_request send_buffer
    on_request_lem c request result o x z f k l =
        let r = response_to http_callback request in
        let (v, n) = create-IsValid initial_size (omega arith) in
        let (b, e, w, h) =
          append_to_buffer-printed r (create initial_size) v z (omega (arith, created_index, l)) in
        let text : contents b ≡ printed r = h ∙ ap (λ xs. xs ++ printed r) n in
        let (c', d, a) = sending_lem c (printed r) result o x f k in
        (
          (if r.close_connection then shutdown ep c' true else c'),
          rw (e, connected_lem c x, text, d) refl,
          shut_if-Answers c c' (accepted ep c (printed r) result) r.close_connection a,
        )

    -- A message that is refused is answered with 400, and the connection is closed.
    refuse_message_lem :
        (c : TcpConnection ep) (result : WriteResult)
        → IsOpenEnded ep c
        → c.state ≡ connected
        → Fits result (length bad_request_text)
        → c.output_buffer.writer_index + length bad_request_text ≤ max_size
        → (c' : TcpConnection ep) × (refuse_message ep http_callback c false result ≡ some c')
          × Answers c (accepted ep c bad_request_text result) true c'
    unfolding refuse_message
    refuse_message_lem c result o x f k =
        let (c', d, a) = sending_lem c bad_request_text result o x f k in
        (
          shutdown ep c' true,
          rw d refl,
          shutdown-Answers c c' (accepted ep c bad_request_text result) a,
        )

    -- What `onMessage` leaves: the answer has been sent, and the parser and the bytes that follow
    -- are as given.
    pub record Answered (s : Session ep) (bytes : List ℕ) (closed : Bool) (context : HttpContext)
        (rest : List ℕ) (s' : Session ep) : Type 0 where
      pub parser : s'.context ≡ context
      pub rest_lem : contents s'.conn.input_buffer ≡ rest
      pub open_ended : IsOpenEnded ep s'.conn
      pub stream :
          s'.conn.wire ++ contents s'.conn.output_buffer
          ≡ (s.conn.wire ++ contents s.conn.output_buffer) ++ bytes
      pub ends_in : s'.conn.state ≡ (if closed then disconnecting else connected)

    -- Let a new parser's connection be up and sound, and let a plain message and more bytes have
    -- arrived. With room for the response, and a body of less than 10,000,000,000,000 bytes unless
    -- the response closes the connection, onMessage meets its asserts. The connection has sent, or
    -- holds to be sent, the text of the response that the callback makes of the request, unless its
    -- socket broke; it is being closed just if the response says so; the parser is new again; and
    -- the bytes behind the message stay in the input buffer.
    pub on_message-print_message :
        (s : Session ep) (now : ℕ) (m : Message) (rest : List ℕ) (refusal result : WriteResult)
        → IsOpenEnded ep s.conn
        → s.conn.state ≡ connected
        → s.context ≡ new_context
        → IsPlain m
        → contents s.conn.input_buffer ≡ print_message m rest
        → ((response_to http_callback (request_of m now)).close_connection ≡ false
            → length (response_to http_callback (request_of m now)).body < 10000000000000)
        → Fits result (length (printed (response_to http_callback (request_of m now))))
        → s.conn.output_buffer.writer_index
            + length (printed (response_to http_callback (request_of m now)))
          ≤ max_size
        → cheap_prepend + length (printed (response_to http_callback (request_of m now))) ≤ max_size
        → (s' : Session ep) × (on_message ep http_callback s now refusal result ≡ some s')
          × Answered s
              (accepted ep s.conn (printed (response_to http_callback (request_of m now))) result)
              (response_to http_callback (request_of m now)).close_connection
              new_context
              rest
              s'
    unfolding on_message refuse_message answer reset
    on_message-print_message s now m rest refusal result o x y p e z f k l =
        let (b, d, v, h) =
          parse_request-print_message now m rest s.conn.input_buffer p o.sound.input_valid e in
        let c = reading_from s.conn b in
        let (c', g, a) =
          on_request_lem c (request_of m now) result (reading_from-IsOpenEnded s.conn b o v) x z f k
            l in
        (
          record { conn = c'; context = new_context },
          rw (y, d, g) refl,
          record {
            parser = refl;
            rest_lem = ap contents a.same_input ∙ h;
            open_ended = a.open_ended;
            stream = a.stream;
            ends_in = a.ends_in;
          },
        )

    -- Let a connection be up and sound, and let a parser that waits for a request line refuse what
    -- has arrived. With room for the text, onMessage meets its asserts. The connection has sent, or
    -- holds to be sent, the line of code 400, unless its socket broke, and is being closed; and the
    -- bytes stay in the input buffer.
    pub on_message-refused :
        (s : Session ep) (now : ℕ) (c' : HttpContext) (b : Buffer) (refusal result : WriteResult)
        → IsOpenEnded ep s.conn
        → s.conn.state ≡ connected
        → s.context.state ≡ expect_request_line
        → parse_request s.context s.conn.input_buffer now ≡ ended (false, c', b)
        → Fits refusal (length bad_request_text)
        → s.conn.output_buffer.writer_index + length bad_request_text ≤ max_size
        → (s' : Session ep) × (on_message ep http_callback s now refusal result ≡ some s')
          × Answered s
              (accepted ep s.conn bad_request_text refusal)
              true
              c'
              (contents s.conn.input_buffer)
              s'
    unfolding on_message answer
    on_message-refused s now c' b refusal result o x w e f k =
        let (v, h, z) =
          refused_lem now s.context c' s.conn.input_buffer b o.sound.input_valid w e in
        let n : got_all c' ≡ false = ground (arith, z) in
        let (d, g, a) =
          refuse_message_lem (reading_from s.conn b) refusal (reading_from-IsOpenEnded s.conn b o v)
            x f k in
        (
          record { conn = d; context = c' },
          rw (e, g, n) refl,
          record {
            parser = refl;
            rest_lem = ap contents a.same_input ∙ h;
            open_ended = a.open_ended;
            stream = a.stream;
            ends_in = a.ends_in;
          },
        )
