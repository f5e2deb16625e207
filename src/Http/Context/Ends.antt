-- ===== src/Http/Context/Ends.antt =====
-- When `parseRequest` ends, and when the `assert` of `setMethod` stops the process.
use dserver.Prelude.{
  ℕ, ◌≡◌, ◌≢◌, refl, sym, ap, ◌∙◌, ◌⊎◌, inl, inr, Bool, none, some, List, [], ◌∷◌, ◌++◌, arith,
  append_assoc,
}
use dserver.Buffer.{Buffer}
use dserver.Buffer.Contents.{IsValid, contents}
use dserver.Buffer.Search.{cr, lf}
use dserver.Http.Request.{HttpRequest, invalid, set_method}
use dserver.Http.Context.{
  HttpContext, expect_request_line, expect_headers, add_header_line, process_request_line, ended,
  parse_request,
}
use dserver.Http.Context.Lines.{
  next, request_line_verdict, request_line_result, header_verdict, verdict, Outcome, finished,
  stopped, Parses, waits, goes_on, completes, refuses, stops, IsReading,
}
use dserver.Http.Context.Refine.{Agrees, parse_request-Parses}

-- The states that a fresh parser reaches by lines that are taken.
abbrev pub IsReady : HttpContext → Type 0
IsReady c =
    ((c.state ≡ expect_request_line) × (c.request.method ≡ invalid)) ⊎ (c.state ≡ expect_headers)

ready-IsReading : (c : HttpContext) → IsReady c → IsReading c
ready-IsReading c (inl s) = inl s.0
ready-IsReading c (inr s) = inr s

process_request_line-some :
    (r : HttpRequest) (line : List ℕ) → r.method ≡ invalid → process_request_line r line ≢ none
unfolding process_request_line set_method
process_request_line-some r line e = ground arith

verdict-some : (now : ℕ) (c : HttpContext) (line : List ℕ) → IsReady c → verdict c line now ≢ none
unfolding verdict request_line_verdict
verdict-some now c line s = ground (arith, process_request_line-some c.request line)

verdict_next_headers :
    (now : ℕ) (c c' : HttpContext) (line : List ℕ)
    → IsReady c
    → verdict c line now ≡ some (next c')
    → c'.state ≡ expect_headers
unfolding verdict request_line_verdict request_line_result header_verdict add_header_line
verdict_next_headers now c c' line s e = ground arith

-- A parser that is ready is not stopped.
Parses-not-stopped :
    (now : ℕ) {c : HttpContext} {xs : List ℕ} {o : Outcome}
    → Parses now c xs o
    → IsReady c
    → o ≢ stopped
Parses-not-stopped now (waits n) s e = cc
Parses-not-stopped now (goes_on {c = c} {c' = c'} line rest st w p) s e =
    Parses-not-stopped now p (inr (verdict_next_headers now c c' line s w)) e
Parses-not-stopped now (completes line rest st w) s e = cc
Parses-not-stopped now (refuses line rest st w) s e = cc
Parses-not-stopped now (stops {c = c} line rest st w) s e = verdict-some now c line s w

-- What is left over is the end of what was there.
Leaves : List ℕ → Outcome → Type 0
Leaves xs (finished ok c rest) = (taken : List ℕ) × (xs ≡ taken ++ rest)
Leaves xs stopped = Unit {0}

Leaves-line :
    {xs : List ℕ} (line rest : List ℕ) (o : Outcome)
    → xs ≡ line ++ (cr ∷ lf ∷ rest)
    → Leaves rest o
    → Leaves xs o
unfolding Leaves
Leaves-line line rest (finished ok c left) e (taken, d) = (
  line ++ (cr ∷ lf ∷ taken),
  e ∙ ap (λ ys. line ++ (cr ∷ lf ∷ ys)) d ∙ sym (append_assoc line (cr ∷ lf ∷ taken) left),
)
Leaves-line line rest stopped e h = tt

Parses-Leaves :
    (now : ℕ) {c : HttpContext} {xs : List ℕ} {o : Outcome} → Parses now c xs o → Leaves xs o
unfolding Leaves
Parses-Leaves now (waits n) = ([], refl)
Parses-Leaves now (goes_on line rest {o = o} st w p) =
    Leaves-line line rest o st.cut (Parses-Leaves now p)
Parses-Leaves now (completes line rest st w) =
    (line ++ (cr ∷ lf ∷ []), st.cut ∙ sym (append_assoc line (cr ∷ lf ∷ []) rest))
Parses-Leaves now (refuses line rest st w) = ([], refl)
Parses-Leaves now (stops line rest st w) = tt

-- On a valid buffer, a parser that waits for a request line with no method set, or for a header,
-- ends: no `assert` fails and the loop stops. What is left in the buffer is the end of what was in
-- it, so that bytes are taken from the front only.
pub parse_request_ends :
    (now : ℕ) (c : HttpContext) (b : Buffer)
    → IsValid b
    → IsReady c
    → (ok : Bool) × (c' : HttpContext) × (b' : Buffer) × (taken : List ℕ) × (parse_request c b now
        ≡ ended (ok, c', b'))
      × IsValid b'
      × (contents b ≡ taken ++ contents b')
unfolding Leaves
parse_request_ends now c b v s = end (parse_request-Parses now c b v (ready-IsReading c s))
  where
    end :
        (o : Outcome) × Parses now c (contents b) o × Agrees o (parse_request c b now)
        → (ok : Bool) × (c' : HttpContext) × (b' : Buffer) × (taken : List ℕ) × (parse_request c b
              now
            ≡ ended (ok, c', b'))
          × IsValid b'
          × (contents b ≡ taken ++ contents b')
    end (finished ok c' rest, p, (b', e, v', left)) =
        let (taken, d) = Parses-Leaves now p in (ok, c', b', taken, e, v', rw left d)
    end (stopped, p, g) = absurd (Parses-not-stopped now p s refl)
