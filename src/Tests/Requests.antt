-- ===== src/Tests/Requests.antt =====
-- Runs of the HTTP parser, and its theorems at inputs that meet their hypotheses.
use dserver.Prelude.{
  ℕ, ◌≡◌, refl, sym, inl, inr, Bool, true, false, List, [], ◌∷◌, ◌++◌, arith, codes, eq_bytes,
  if◌then◌else◌, some, break_at, skip_spaces, is_space, trim_end,
}
use dserver.Buffer.{Buffer, retrieve, retrieve_until}
use dserver.Buffer.Contents.{IsValid, contents}
use dserver.Buffer.Search.{find_crlf, search_crlf}
use dserver.Http.Headers
use dserver.Http.Headers.{Headers, IsSorted, put-IsSorted, find-put}
use dserver.Http.Request.{get, http11, set_method, method_of, method_string}
use dserver.Http.Context.{
  HttpContext, new_context, expect_headers, got_all_state, set_version, set_target, process_target,
  process_request_line, request_line_end, request_line_turn, headers_turn, turn, parse_loop,
  parse_request, ended, aborted,
}
use dserver.Http.Context.Lines.{Outcome}
use dserver.Http.Context.Refine.{Agrees}
use dserver.Http.Context.Ends.{parse_request_ends}
use dserver.Http.Context.Reuse.{refused_then_aborts}
use dserver.Http.Context.Times.{untimed_outcome}
use dserver.Http.Context.Chunks.{parse_request_chunks}
use dserver.Http.Context.Message.{
  Message, print_message, print_headers, header_line, request_line, version_text, IsPlain,
  request_of,
}
use dserver.Http.Context.RoundTrip.{parse_request-print_message}

-- A buffer that holds these bytes, behind the reserve of eight.
abbrev pub holding : List ℕ → ℕ → Buffer
holding bytes n = record { buffer = codes "........" ++ bytes; reader_index = 8; writer_index = n }

abbrev pub request_bytes : List ℕ
request_bytes = codes "GET /a?b HTTP/1.1\r\nHost: x\r\n\r\nPOST"

abbrev pub full : Buffer
full = holding request_bytes 42

abbrev pub message : Message
message = record {
  method = get;
  version = http11;
  path = codes "/a";
  query = codes "?b";
  headers = (codes "Host", codes "x") ∷ [];
}

pub message_printed : print_message message (codes "POST") ≡ request_bytes
unfolding print_message print_headers header_line request_line version_text method_string
message_printed = refl

pub message-IsPlain : IsPlain message
unfolding skip_spaces is_space trim_end
message-IsPlain = record {
  known_method = λ e. cc;
  known_version = λ e. cc;
  path_no_space = omega arith;
  path_no_question = omega arith;
  path_no_cr = omega arith;
  query_no_space = omega arith;
  query_no_cr = omega arith;
  query_marked = inr (codes "b", refl);
  plain_headers = (
    record {
      no_colon = omega arith;
      no_cr = omega arith;
      value_no_cr = omega arith;
      trimmed_front = refl;
      trimmed_back = refl;
    },
    tt,
  );
}

parse_request-print_message_example :
    (b : Buffer) × (parse_request new_context full 7
      ≡ ended (true, record { state = got_all_state; request = request_of message 7 }, b))
    × IsValid b
    × (contents b ≡ codes "POST")
parse_request-print_message_example =
    parse_request-print_message 7 message (codes "POST") full message-IsPlain (omega arith)
      (sym message_printed)

-- A line with a known method and no version.
abbrev pub refused_bytes : List ℕ
refused_bytes = codes "GET x\r\n"

abbrev pub bad : Buffer
bad = holding refused_bytes 15

abbrev pub after_bad : HttpContext
after_bad = record new_context { request = record (new_context.request) { method = get } }

pub bad_refused : parse_request new_context bad 7 ≡ ended (false, after_bad, bad)
unfolding parse_request parse_loop turn request_line_turn request_line_end find_crlf search_crlf
    process_request_line process_target break_at set_method method_of eq_bytes
bad_refused = refl

refused_then_aborts_example :
    parse_request after_bad (holding (codes "GET x\r\nmore") 19) 8 ≡ aborted
refused_then_aborts_example =
    refused_then_aborts 7 8 new_context after_bad bad bad (holding (codes "GET x\r\nmore") 19)
      (codes "more") (omega arith) refl refl bad_refused (λ e. cc) (omega arith) refl

parse_request_ends_example :
    (ok : Bool) × (c : HttpContext) × (b : Buffer) × (taken : List ℕ) × (parse_request new_context
        full 7
      ≡ ended (ok, c, b))
    × IsValid b
    × (request_bytes ≡ taken ++ contents b)
parse_request_ends_example = parse_request_ends 7 new_context full (omega arith) (inl (refl, refl))

find-put_example :
    Headers.find
      (codes "Host")
      (Headers.put (codes "Date") (codes "x") ((codes "Host", codes "y") ∷ []))
    ≡ (if eq_bytes (codes "Date") (codes "Host")
        then some (codes "x")
        else Headers.find (codes "Host") ((codes "Host", codes "y") ∷ []))
find-put_example =
    find-put (codes "Date") (codes "Host") (codes "x") ((codes "Host", codes "y") ∷ [])

-- The same request in two pieces.
abbrev first_piece : Buffer
first_piece = holding (codes "GET /a?b HTTP/1.1\r\nHos") 30

abbrev between : HttpContext
between = record {
  state = expect_headers;
  request = record {
    method = get;
    version = http11;
    path = codes "/a";
    query = codes "?b";
    receive_time = 7;
    headers = [];
  };
}

first_piece_parsed :
    parse_request new_context first_piece 7
    ≡ ended (true, between, record first_piece { reader_index = 27 })
unfolding parse_request parse_loop turn request_line_turn request_line_end headers_turn find_crlf
    search_crlf process_request_line process_target set_target set_version break_at set_method
    method_of eq_bytes retrieve_until retrieve
first_piece_parsed = refl

-- The second piece comes at the time 9, and all of them at once at the time 8.
parse_request_chunks_example :
    (o : Outcome) × (o' : Outcome) × Agrees o
      (parse_request between (record full { reader_index = 27; writer_index = 38 }) 9)
    × Agrees o' (parse_request new_context (record full { writer_index = 38 }) 8)
    × (untimed_outcome o ≡ untimed_outcome o')
parse_request_chunks_example =
    parse_request_chunks 7 9 8 new_context between first_piece
      (record first_piece { reader_index = 27 })
      (record full { reader_index = 27; writer_index = 38 }) (record full { writer_index = 38 })
      (codes "t: x\r\n\r\n") (omega arith) (omega arith) (omega arith) (inl refl) first_piece_parsed
      (λ e. cc) refl refl
