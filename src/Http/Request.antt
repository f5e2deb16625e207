-- ===== src/Http/Request.antt =====
-- HttpRequest.h: the request that the parser fills in. `none` is the failed `assert` of
-- `setMethod`.
use dserver.Prelude.{
  ℕ, ◌≡◌, refl, Bool, true, false, not, Option, some, List, [], if◌then◌else◌, ◌>>◌, assert,
  eq_bytes, codes, skip_spaces, trim_end,
}
use dserver.Http.Headers
use dserver.Http.Headers.{Headers}

pub data Method : Type 0 where
  invalid get post head put delete : Method

pub data Version : Type 0 where
  unknown http10 http11 : Version

pub record HttpRequest : Type 0 where
  pub method : Method
  pub version : Version
  pub path : List ℕ
  pub query : List ℕ
  -- Microseconds since the epoch.
  pub receive_time : ℕ
  pub headers : Headers

-- The default constructor; `reset` of the context swaps one in.
abbrev pub fresh : HttpRequest
fresh = record {
  method = invalid;
  version = unknown;
  path = [];
  query = [];
  receive_time = 0;
  headers = [];
}

-- The comparisons of `setMethod`, in their order.
unfoldable pub method_of : List ℕ → Method
method_of m =
    if eq_bytes m (codes "GET")
    then get
    else if eq_bytes m (codes "POST")
    then post
    else if eq_bytes m (codes "HEAD")
    then head
    else if eq_bytes m (codes "PUT")
    then put
    else if eq_bytes m (codes "DELETE")
    then delete
    else invalid

abbrev pub is_invalid : Method → Bool
is_invalid invalid = true
is_invalid _ = false

unfoldable pub set_method : HttpRequest → List ℕ → Option (Bool × HttpRequest)
set_method r m = do
  assert (is_invalid r.method)
  some (not (is_invalid (method_of m)), record r { method = method_of m })

unfoldable pub method_string : Method → List ℕ
method_string get = codes "GET"
method_string post = codes "POST"
method_string head = codes "HEAD"
method_string put = codes "PUT"
method_string delete = codes "DELETE"
method_string invalid = codes "UNKNOWN"

-- `addHeader`, with the bytes before the colon and those after it.
unfoldable pub add_header : HttpRequest → List ℕ → List ℕ → HttpRequest
add_header r field after = record r {
  headers = Headers.put field (trim_end (skip_spaces after)) r.headers;
}

unfoldable pub get_header : HttpRequest → List ℕ → List ℕ
get_header r field = Headers.get_header field r.headers

-- The names that `methodString` prints are the ones that `setMethod` reads.
pub method_of-method_string : (m : Method) → method_of (method_string m) ≡ m
unfolding method_of method_string eq_bytes
method_of-method_string invalid = refl
method_of-method_string _ = refl
