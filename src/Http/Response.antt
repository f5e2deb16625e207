-- ===== src/Http/Response.antt =====
-- net/http/HttpResponse.h and net/http/HttpResponse.cc: a response, and its bytes.
pub mod Printing
use dserver.Prelude.{
  ℕ, Bool, Option, none, some, List, [], ◌∷◌, ◌++◌, if◌then◌else◌, ◌>>=◌, codes, crlf, decimal,
  length,
}
use dserver.Timestamp.{snprintf}
use dserver.Buffer.{Buffer, append_c_string}
use dserver.Http.Headers.{Headers, put}

pub data HttpStatusCode : Type 0 where
  unknown ok moved_permanently bad_request not_found : HttpStatusCode

abbrev pub status_number : HttpStatusCode → ℕ
status_number unknown = 0
status_number ok = 200
status_number moved_permanently = 301
status_number bad_request = 400
status_number not_found = 404

pub record HttpResponse : Type 0 where
  pub headers : Headers
  pub status_code : HttpStatusCode
  pub status_message : List ℕ
  pub close_connection : Bool
  pub body : List ℕ

-- The constructor.
abbrev pub new_response : Bool → HttpResponse
new_response close = record {
  headers = [];
  status_code = unknown;
  status_message = [];
  close_connection = close;
  body = [];
}

unfoldable pub add_header : HttpResponse → List ℕ → List ℕ → HttpResponse
add_header r key value = record r { headers = put key value r.headers }

unfoldable pub set_content_type : HttpResponse → List ℕ → HttpResponse
set_content_type r content_type = add_header r (codes "Content-Type") content_type

-- A run of `output->append(...)` of C strings.
unfoldable pub append_all : Buffer → List (List ℕ) → Option Buffer
append_all b [] = some b
append_all b (s ∷ strings) = do b' ← append_c_string b s; append_all b' strings

unfoldable pub append_headers : Buffer → Headers → Option Buffer
append_headers b [] = some b
append_headers b ((key, value) ∷ headers) = do
  b' ← append_all b (key ∷ codes ": " ∷ value ∷ crlf ∷ [])
  append_headers b' headers

-- What snprintf leaves in `buf`, of 32 bytes: the start of the status line, and the header with the
-- size of the body, which is cut where it does not fit.
abbrev pub status_start : HttpResponse → List ℕ
status_start r =
    snprintf 32 (codes "HTTP/1.1 " ++ (decimal (status_number r.status_code) ++ codes " "))

abbrev pub size_line : ℕ → List ℕ
size_line size = snprintf 32 (codes "Content-Length: " ++ (decimal size ++ crlf))

unfoldable pub append_to_buffer : HttpResponse → Buffer → Option Buffer
append_to_buffer r output = do
  status ← append_all output (status_start r ∷ r.status_message ∷ crlf ∷ [])
  connection ←
      if r.close_connection
      then append_c_string status (codes "Connection: close\r\n")
      else append_all status (size_line (length r.body) ∷ codes "Connection: Keep-Alive\r\n" ∷ [])
  fields ← append_headers connection r.headers
  append_all fields (crlf ∷ r.body ∷ [])
