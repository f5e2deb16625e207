-- ===== src/Tests/Servers.antt =====
-- The HTTP server on a connection to which a request has come.
use dserver.Prelude.{digits, decimal, ◌≤◌, ◌<◌, ◌≡◌, refl, sym, some, codes, length, arith, true}
use dserver.Buffer.{Buffer, c_string}
use dserver.Buffer.Contents.{IsValid, contents}
use dserver.TcpConnection.{write_failed}
use dserver.TcpConnection.Sending.{accepted}
use dserver.TcpConnection.Steps.{IsOpenEnded}
use dserver.Http.Request.{get_header}
use dserver.Http.Headers.{find}
use dserver.Http.Response.{HttpResponse}
use dserver.Http.Response.Printing.{printed}
use dserver.Http.Context.{new_context}
use dserver.Http.Context.Message.{request_of}
use dserver.Http.Server.{default_http_callback, closes, bad_request_text, Session, on_message}
use dserver.Http.Server.Answers.{
  response_to, Answered, on_message-print_message, on_message-refused,
}
use dserver.Tests.Pollers.{table_epoll}
use dserver.Tests.Connections.{open_connection, open_connection-IsOpenEnded}
use dserver.Tests.Requests.{
  message, message_printed, message-IsPlain, full, bad, after_bad, bad_refused,
}

abbrev session : Buffer → Session table_epoll
session b = record { conn = record open_connection { input_buffer = b }; context = new_context }

session-IsOpenEnded : (b : Buffer) → IsValid b → IsOpenEnded table_epoll (session b).conn
session-IsOpenEnded b v =
    let s = open_connection-IsOpenEnded.sound in
    record {
      sound = record {
        consistent = s.consistent;
        free = s.free;
        registered = s.registered;
        input_valid = v;
        output_valid = s.output_valid;
        awaits = s.awaits;
      };
      ends = open_connection-IsOpenEnded.ends;
    }

abbrev response : HttpResponse
response = response_to default_http_callback (request_of message 7)

response-length : length (printed response) ≤ 100
unfolding default_http_callback closes get_header find decimal digits c_string
response-length = omega arith

response-size : length response.body < 10000000000000
unfolding default_http_callback
response-size = omega arith

-- The socket is not ready: the response waits in the output buffer.
on_message-print_message_example :
    (s : Session table_epoll) × (on_message table_epoll default_http_callback
        (session full)
        7
        (write_failed 11)
        (write_failed 11)
      ≡ some s)
    × Answered table_epoll default_http_callback
        (session full)
        (accepted table_epoll (session full).conn (printed response) (write_failed 11))
        response.close_connection
        new_context
        (codes "POST")
        s
on_message-print_message_example =
    on_message-print_message table_epoll default_http_callback (session full) 7 message
      (codes "POST") (write_failed 11) (write_failed 11) (session-IsOpenEnded full (omega arith))
      refl refl message-IsPlain (sym message_printed) (λ e. response-size) tt
      (omega (arith, response-length)) (omega (arith, response-length))

on_message-refused_example :
    (s : Session table_epoll) × (on_message table_epoll default_http_callback
        (session bad)
        7
        (write_failed 11)
        (write_failed 11)
      ≡ some s)
    × Answered table_epoll default_http_callback
        (session bad)
        (accepted table_epoll (session bad).conn bad_request_text (write_failed 11))
        true
        after_bad
        (contents bad)
        s
on_message-refused_example =
    on_message-refused table_epoll default_http_callback (session bad) 7 after_bad bad
      (write_failed 11) (write_failed 11) (session-IsOpenEnded bad (omega arith)) refl refl
      bad_refused tt (omega arith)
