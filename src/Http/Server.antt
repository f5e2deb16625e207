-- ===== src/Http/Server.antt =====
-- net/http/HttpServer.h and net/http/HttpServer.cc: the callbacks of a connection to the HTTP server.
pub mod Answers
use dserver.Prelude.{
  ℕ, Bool, true, false, not, ◌&&◌, ◌||◌, Option, none, some, List, if◌then◌else◌, ◌>>=◌, eq_bytes,
  codes,
}
use dserver.Buffer.{Buffer, create, initial_size}
use dserver.Poller.{Epoll}
use dserver.TcpConnection.{TcpConnection, WriteResult, is_connected, send, send_buffer, shutdown}
use dserver.Http.Request.{HttpRequest, Version, http10, get_header}
use dserver.Http.Response.{HttpResponse, not_found, new_response, append_to_buffer}
use dserver.Http.Context.{
  HttpContext, new_context, Run, ended, aborted, out_of_fuel, parse_request, got_all, reset,
}

unfoldable pub default_http_callback : HttpRequest → HttpResponse → HttpResponse
default_http_callback request response = record response {
  status_code = not_found;
  status_message = codes "Not Found";
  close_connection = true;
}

abbrev pub is_http10 : Version → Bool
is_http10 http10 = true
is_http10 _ = false

-- Whether the response closes the connection, by the request.
unfoldable pub closes : HttpRequest → Bool
closes request =
    let connection = get_header request (codes "Connection") in
    eq_bytes connection (codes "close")
    || (is_http10 request.version && not (eq_bytes connection (codes "Keep-Alive")))

-- The outcome of the parser: a failed `assert`, or a loop that does not end, is `none`.
abbrev pub parsed {ℓ} : {A : Type ℓ} → Run A → Option A
parsed (ended a) = some a
parsed aborted = none
parsed out_of_fuel = none

abbrev pub bad_request_text : List ℕ
bad_request_text = codes "HTTP/1.1 400 Bad Request\r\n\r\n"

module _ (ep : Epoll) where
  -- A connection with the context that it carries.
  pub record Session : Type 0 where
    pub conn : TcpConnection ep
    pub context : HttpContext

  unfoldable pub on_connection : Session → Session
  on_connection s = record s {
    context = if is_connected s.conn.state then new_context else s.context;
  }

  module _ (http_callback : HttpRequest → HttpResponse → HttpResponse) where
    -- The callbacks run in the thread of the connection's loop; `result` is what `write` returns.
    unfoldable pub on_request :
        TcpConnection ep → HttpRequest → WriteResult → Option (TcpConnection ep)
    on_request c request result = do
      let response = http_callback request (new_response (closes request))
      buf ← append_to_buffer response (create initial_size)
      sent ← send_buffer ep c true buf result
      some (if response.close_connection then shutdown ep sent.0 true else sent.0)

    -- What `onMessage` sends when the parser refuses the bytes.
    unfoldable pub refuse_message :
        TcpConnection ep → Bool → WriteResult → Option (TcpConnection ep)
    refuse_message c true result = some c
    refuse_message c false result = do
      c' ← send ep c true bad_request_text result
      some (shutdown ep c' true)

    unfoldable pub answer : TcpConnection ep → HttpContext → WriteResult → Option Session
    answer c context result =
        if got_all context
        then (do
          c' ← on_request c context.request result
          some (record { conn = c'; context = reset context }))
        else some (record { conn = c; context = context })

    unfoldable pub on_message : Session → ℕ → WriteResult → WriteResult → Option Session
    on_message s now refusal result = do
      done ← parsed (parse_request s.context s.conn.input_buffer now)
      c ← refuse_message (record s.conn { input_buffer = done.2 }) done.0 refusal
      answer c done.1 result
