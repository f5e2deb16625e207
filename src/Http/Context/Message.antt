-- ===== src/Http/Context/Message.antt =====
-- A request as a client states it, its bytes on the wire, and the request that it stands for.
use dserver.Prelude.{ℕ, ◌≡◌, ◌≢◌, ◌⊎◌, List, [], ◌∷◌, ◌++◌, codes, Lacks, skip_spaces, trim_end}
use dserver.Buffer.Search.{cr, lf}
use dserver.Http.Headers
use dserver.Http.Headers.{Headers}
use dserver.Http.Request.{
  HttpRequest, Method, Version, invalid, unknown, http10, http11, method_string,
}

unfoldable pub version_text : Version → List ℕ
version_text http10 = codes "HTTP/1.0"
version_text http11 = codes "HTTP/1.1"
version_text unknown = []

-- A request as a client states it.
pub record Message : Type 0 where
  pub method : Method
  pub version : Version
  pub path : List ℕ
  -- Empty, or from its '?' on.
  pub query : List ℕ
  pub headers : List (List ℕ × List ℕ)

unfoldable pub request_line : Message → List ℕ
request_line m =
    method_string m.method ++ (b' ' ∷ ((m.path ++ m.query) ++ (b' ' ∷ version_text m.version)))

unfoldable pub header_line : List ℕ × List ℕ → List ℕ
header_line (field, value) = field ++ (b':' ∷ b' ' ∷ value)

unfoldable pub print_headers : List (List ℕ × List ℕ) → List ℕ → List ℕ
print_headers [] rest = cr ∷ lf ∷ rest
print_headers (h ∷ hs) rest = header_line h ++ (cr ∷ lf ∷ print_headers hs rest)

-- The message on the wire, with the bytes that follow it.
unfoldable pub print_message : Message → List ℕ → List ℕ
print_message m rest = request_line m ++ (cr ∷ lf ∷ print_headers m.headers rest)

-- A field has no colon and no CR, and a value no CR and no space at its ends.
pub record IsPlainHeader (h : List ℕ × List ℕ) : Type 0 where
  pub no_colon : Lacks b':' h.0
  pub no_cr : Lacks cr h.0
  pub value_no_cr : Lacks cr h.1
  pub trimmed_front : skip_spaces h.1 ≡ h.1
  pub trimmed_back : trim_end h.1 ≡ h.1

abbrev pub ArePlain : List (List ℕ × List ℕ) → Type 0
ArePlain [] = Unit {0}
ArePlain (h ∷ hs) = IsPlainHeader h × ArePlain hs

pub record IsPlain (m : Message) : Type 0 where
  pub known_method : m.method ≢ invalid
  pub known_version : m.version ≢ unknown
  pub path_no_space : Lacks b' ' m.path
  pub path_no_question : Lacks b'?' m.path
  pub path_no_cr : Lacks cr m.path
  pub query_no_space : Lacks b' ' m.query
  pub query_no_cr : Lacks cr m.query
  pub query_marked : (m.query ≡ []) ⊎ ((q : List ℕ) × (m.query ≡ b'?' ∷ q))
  pub plain_headers : ArePlain m.headers

-- The headers in the order of arrival, a later value of a field in place of an earlier one.
unfoldable pub store_headers : Headers → List (List ℕ × List ℕ) → Headers
store_headers hs [] = hs
store_headers hs ((field, value) ∷ more) = store_headers (Headers.put field value hs) more

-- The request that the message states.
unfoldable pub request_of : Message → ℕ → HttpRequest
request_of m now = record {
  method = m.method;
  version = m.version;
  path = m.path;
  query = m.query;
  receive_time = now;
  headers = store_headers [] m.headers;
}
