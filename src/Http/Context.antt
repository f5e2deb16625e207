-- ===== src/Http/Context.antt =====
-- HttpContext.h and HttpContext.cc: the incremental request parser over a connection's input buffer.
-- The loop runs on fuel; `Run` tells a failed `assert` from a loop that is still running.
pub mod Lines
pub mod Refine
pub mod Unique
pub mod Ends
pub mod Reuse
pub mod Chunks
pub mod Times
pub mod Message
pub mod RoundTrip
use dserver.Prelude.{
  ℕ, zero, suc, ◌+◌, ◌-◌, Bool, true, false, ◌&&◌, Option, none, some, List, [], ◌∷◌, ◌==◌,
  if◌then◌else◌, ◌>>=◌, ◌>>◌, eq_bytes, codes, break_at, length, take, drop, slice,
}
use dserver.Buffer.{Buffer, readable_bytes, retrieve_until}
use dserver.Buffer.Search.{find_crlf}
use dserver.Http.Request.{HttpRequest, Version, http10, http11, fresh, set_method, add_header}

pub data ParseState : Type 0 where
  expect_request_line expect_headers expect_body got_all_state : ParseState

pub record HttpContext : Type 0 where
  pub state : ParseState
  pub request : HttpRequest

abbrev pub new_context : HttpContext
new_context = record { state = expect_request_line; request = fresh }

-- A new request is swapped in, and the parser starts again.
unfoldable pub reset : HttpContext → HttpContext
reset c = record { state = expect_request_line; request = fresh }

abbrev pub got_all : HttpContext → Bool
got_all c = elim c.state [ got_all_state ↦ true | _ ↦ false ]

-- The last part of the line: "HTTP/1." and one of two digits.
unfoldable pub set_version : HttpRequest → List ℕ → Bool × HttpRequest
set_version r text =
    let last = drop 7 text in
    if length text == 8 && eq_bytes (take 7 text) (codes "HTTP/1.")
    then if eq_bytes last (codes "1")
      then (true, record r { version = http11 })
      else if eq_bytes last (codes "0")
      then (true, record r { version = http10 })
      else (false, r)
    else (false, r)

-- The path, and the query from its '?' on.
unfoldable pub set_target_parts : HttpRequest → List ℕ → List ℕ → HttpRequest
set_target_parts r path [] = record r { path = path }
set_target_parts r path (q ∷ qs) = record r { path = path; query = q ∷ qs }

unfoldable pub set_target : HttpRequest → List ℕ → HttpRequest
unfolding set_target_parts
set_target r target = let parts = break_at b'?' target in set_target_parts r parts.0 parts.1

-- From the second part of the line on; a list that starts with the space, or is empty without one.
unfoldable pub process_target_parts : HttpRequest → List ℕ → List ℕ → Bool × HttpRequest
process_target_parts r target [] = (false, r)
process_target_parts r target (_ ∷ text) = set_version (set_target r target) text

unfoldable pub process_target : HttpRequest → List ℕ → Bool × HttpRequest
unfolding process_target_parts
process_target r line = let parts = break_at b' ' line in process_target_parts r parts.0 parts.1

unfoldable pub process_method_parts : HttpRequest → List ℕ → List ℕ → Option (Bool × HttpRequest)
process_method_parts r method [] = some (false, r)
process_method_parts r method (_ ∷ after) = do
  done ← set_method r method
  some (if done.0 then process_target done.1 after else (false, done.1))

unfoldable pub process_request_line : HttpRequest → List ℕ → Option (Bool × HttpRequest)
unfolding process_method_parts
process_request_line r line =
    let parts = break_at b' ' line in process_method_parts r parts.0 parts.1

-- How a call ends: with a value, at a failed `assert`, or not within its fuel.
pub data Run {ℓ} (A : Type ℓ) : Type ℓ where
  ended : A → Run A
  aborted : Run A
  out_of_fuel : Run A

-- What one turn of the loop leaves: `hasMore`, `ok`, and the parser and buffer.
pub record Turn : Type 0 where
  pub has_more : Bool
  pub ok : Bool
  pub context : HttpContext
  pub buffer : Buffer

-- What follows `processRequestLine`, by its result.
unfoldable pub request_line_end : HttpContext → Buffer → ℕ → ℕ → Bool → HttpRequest → Option Turn
request_line_end c b crlf now true r = do
  b' ← retrieve_until b (crlf + 2)
  some (record {
    has_more = true;
    ok = true;
    context = record { state = expect_headers; request = record r { receive_time = now } };
    buffer = b';
  })
request_line_end c b crlf now false r =
    some (record { has_more = false; ok = false; context = record c { request = r }; buffer = b })

-- The branch of kExpectRequestLine.
unfoldable pub request_line_turn : HttpContext → Buffer → ℕ → Option Turn
request_line_turn c b now = elim (find_crlf b) [
  | none ↦ some (record { has_more = false; ok = true; context = c; buffer = b })
  | some crlf ↦ (do
    done ← process_request_line c.request (slice b.reader_index (crlf - b.reader_index) b.buffer)
    request_line_end c b crlf now done.0 done.1)
]

-- A header line, or the end of the headers: a line with no colon.
unfoldable pub add_header_parts : HttpContext → List ℕ → List ℕ → Bool × HttpContext
add_header_parts c field [] = (false, record c { state = got_all_state })
add_header_parts c field (_ ∷ after) =
    (true, record c { request = add_header c.request field after })

unfoldable pub add_header_line : HttpContext → List ℕ → Bool × HttpContext
unfolding add_header_parts
add_header_line c line = let parts = break_at b':' line in add_header_parts c parts.0 parts.1

-- The branch of kExpectHeaders.
unfoldable pub headers_turn : HttpContext → Buffer → Option Turn
headers_turn c b = elim (find_crlf b) [
  | none ↦ some (record { has_more = false; ok = true; context = c; buffer = b })
  | some crlf ↦
      let (more, c') = add_header_line c (slice b.reader_index (crlf - b.reader_index) b.buffer) in
      (do
        b' ← retrieve_until b (crlf + 2)
        some (record { has_more = more; ok = true; context = c'; buffer = b' }))
]

-- One turn of `while (hasMore)`: no branch of the source matches kExpectBody and kGotAll, so the
-- loop goes round with nothing changed.
unfoldable pub turn : HttpContext → Buffer → ℕ → Option Turn
turn c b now = elim c.state [
  | expect_request_line ↦ request_line_turn c b now
  | expect_headers ↦ headers_turn c b
  | _ ↦ some (record { has_more = true; ok = true; context = c; buffer = b })
]

-- The loop. `ok` is reset by no turn but the one that ends the loop.
unfoldable pub parse_loop : ℕ → HttpContext → Buffer → ℕ → Run (Bool × HttpContext × Buffer)
parse_loop zero c b now = out_of_fuel
parse_loop (suc fuel) c b now = elim (turn c b now) [
  | none ↦ aborted
  | some t ↦
      let rest = parse_loop fuel t.context t.buffer now in
      if t.has_more then rest else ended (t.ok, t.context, t.buffer)
]

-- Each turn that goes on takes a line out, so this fuel is enough while the state is one of the
-- first two.
unfoldable pub parse_request : HttpContext → Buffer → ℕ → Run (Bool × HttpContext × Buffer)
parse_request c b now = parse_loop (suc (readable_bytes b)) c b now
