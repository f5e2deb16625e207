-- ===== src/Http/Context/Lines.antt =====
-- What `parseRequest` does, line by line, with no buffer and no loop; and the proof that the code
-- does it.
use dserver.Prelude.{
  ℕ, ◌≡◌, ◌⊎◌, Bool, true, false, Option, none, some, List, [], ◌∷◌, ◌++◌, if◌then◌else◌, ◌>>=◌,
}
use dserver.Buffer.Search.{cr, lf, NoCrlf}
use dserver.Http.Request.{HttpRequest}
use dserver.Http.Context.{
  HttpContext, expect_request_line, expect_headers, process_request_line, add_header_line,
}

-- What a whole line makes of the parser.
pub data Verdict : Type 0 where
  -- The line is taken, and the next one is looked for.
  next : HttpContext → Verdict
  -- The line is taken, and the request is complete.
  complete : HttpContext → Verdict
  -- The line is refused, and stays where it is.
  refuse : HttpContext → Verdict

unfoldable pub request_line_result : HttpContext → ℕ → Bool → HttpRequest → Verdict
request_line_result c now true r =
    next (record { state = expect_headers; request = record r { receive_time = now } })
request_line_result c now false r = refuse (record c { request = r })

unfoldable pub request_line_verdict : HttpContext → List ℕ → ℕ → Option Verdict
request_line_verdict c line now = do
  done ← process_request_line c.request line
  some (request_line_result c now done.0 done.1)

unfoldable pub header_verdict : HttpContext → List ℕ → Verdict
header_verdict c line =
    let (more, c') = add_header_line c line in if more then next c' else complete c'

unfoldable pub verdict : HttpContext → List ℕ → ℕ → Option Verdict
verdict c line now = elim c.state [
  | expect_request_line ↦ request_line_verdict c line now
  | _ ↦ some (header_verdict c line)
]

pub data Outcome : Type 0 where
  -- `ok`, the parser, and the bytes left over.
  finished : Bool → HttpContext → List ℕ → Outcome
  stopped : Outcome

-- The bytes `xs` start with `line` and a CR LF, the first one.
pub record StartsWith (xs line rest : List ℕ) : Type 0 where
  pub cut : xs ≡ line ++ (cr ∷ lf ∷ rest)
  pub first : NoCrlf (line ++ (cr ∷ []))

-- What the parser `c` makes of the bytes `xs` that arrived by `now`.
pub data Parses (now : ℕ) : HttpContext → List ℕ → Outcome → Type 0 where
  waits : {c : HttpContext} {xs : List ℕ} → NoCrlf xs → Parses now c xs (finished true c xs)
  goes_on :
      {c c' : HttpContext} {xs : List ℕ} (line rest : List ℕ) {o : Outcome}
      → StartsWith xs line rest
      → verdict c line now ≡ some (next c')
      → Parses now c' rest o
      → Parses now c xs o
  completes :
      {c c' : HttpContext} {xs : List ℕ} (line rest : List ℕ)
      → StartsWith xs line rest
      → verdict c line now ≡ some (complete c')
      → Parses now c xs (finished true c' rest)
  refuses :
      {c c' : HttpContext} {xs : List ℕ} (line rest : List ℕ)
      → StartsWith xs line rest
      → verdict c line now ≡ some (refuse c')
      → Parses now c xs (finished false c' xs)
  stops :
      {c : HttpContext} {xs : List ℕ} (line rest : List ℕ)
      → StartsWith xs line rest
      → verdict c line now ≡ none
      → Parses now c xs stopped

-- The states in which `parseRequest` may be called.
abbrev pub IsReading : HttpContext → Type 0
IsReading c = (c.state ≡ expect_request_line) ⊎ (c.state ≡ expect_headers)
