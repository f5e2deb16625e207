-- ===== src/Http/Context/Reuse.antt =====
-- A parser that is called again after it has refused a request line.
use dserver.Prelude.{
  ℕ, ◌≡◌, ◌≢◌, sym, ap, ◌∙◌, inl, false, none, some, List, ◌∷◌, ◌++◌, arith, subst, append_assoc,
  ap₂,
}
use dserver.Buffer.{Buffer}
use dserver.Buffer.Contents.{IsValid, contents}
use dserver.Buffer.Search.{cr, lf}
use dserver.Http.Request.{HttpRequest, invalid, set_method}
use dserver.Http.Context.{
  HttpContext, expect_request_line, expect_headers, add_header_line, process_request_line, ended,
  aborted, parse_request,
}
use dserver.Http.Context.Lines.{
  next, refuse, request_line_verdict, request_line_result, header_verdict, verdict, Outcome,
  finished, stopped, StartsWith, Parses, waits, goes_on, completes, refuses, stops,
}
use dserver.Http.Context.Refine.{Agrees, parse_request-Parses}
use dserver.Http.Context.Unique.{Parses-line}

process_request_line_refused :
    (r r' : HttpRequest) (line : List ℕ)
    → process_request_line r line ≡ some (false, r')
    → r.method ≡ invalid
    → r'.method ≢ invalid
    → process_request_line r' line ≡ none
unfolding process_request_line set_method
process_request_line_refused r r' line e i n = ground arith

header_verdict-ne-refuse :
    (now : ℕ) (c c' : HttpContext) (line : List ℕ)
    → c.state ≡ expect_headers
    → verdict c line now ≢ some (refuse c')
unfolding verdict header_verdict
header_verdict-ne-refuse now c c' line s = ground arith

verdict_next_headers :
    (now : ℕ) (c c' : HttpContext) (line : List ℕ)
    → c.state ≡ expect_headers
    → verdict c line now ≡ some (next c')
    → c'.state ≡ expect_headers
unfolding verdict header_verdict add_header_line
verdict_next_headers now c c' line s e = ground arith

headers-not-refused :
    (now : ℕ) {c : HttpContext} {xs rest : List ℕ} {o : Outcome} (c' : HttpContext)
    → Parses now c xs o
    → c.state ≡ expect_headers
    → o ≢ finished false c' rest
headers-not-refused now d (waits n) s e = cc
headers-not-refused now d (goes_on {c = c} {c' = c'} l r t w p) s e =
    headers-not-refused now d p (verdict_next_headers now c c' l s w) e
headers-not-refused now d (completes l r t w) s e = cc
headers-not-refused now d (refuses {c = c} {c' = c'} l r t w) s e =
    header_verdict-ne-refuse now c c' l s w
headers-not-refused now d (stops l r t w) s e = cc

-- The line that was refused, and what the parser is left with.
record Refused (now : ℕ) (c : HttpContext) (xs : List ℕ) (c' : HttpContext) (rest : List ℕ)
    : Type 0 where
  line : List ℕ
  behind : List ℕ
  starts : StartsWith xs line behind
  processed : process_request_line c.request line ≡ some (false, c'.request)
  unmoved : c'.state ≡ expect_request_line
  kept : rest ≡ xs

verdict_refuse :
    (now : ℕ) (c c' : HttpContext) (line : List ℕ)
    → c.state ≡ expect_request_line
    → verdict c line now ≡ some (refuse c')
    → (process_request_line c.request line ≡ some (false, c'.request))
      × (c'.state ≡ expect_request_line)
unfolding verdict request_line_verdict request_line_result
verdict_refuse now c c' line s e = ground arith

verdict_next_request_line :
    (now : ℕ) (c c' : HttpContext) (line : List ℕ)
    → c.state ≡ expect_request_line
    → verdict c line now ≡ some (next c')
    → c'.state ≡ expect_headers
unfolding verdict request_line_verdict request_line_result
verdict_next_request_line now c c' line s e = ground arith

Parses-Refused :
    (now : ℕ) {c : HttpContext} {xs rest : List ℕ} {o : Outcome} (c' : HttpContext)
    → Parses now c xs o
    → c.state ≡ expect_request_line
    → o ≡ finished false c' rest
    → Refused now c xs c' rest
Parses-Refused now d (waits n) s e = cc
Parses-Refused now d (goes_on {c = c} {c' = c'} l r t w p) s e =
    absurd (headers-not-refused now d p (verdict_next_request_line now c c' l s w) e)
Parses-Refused now d (completes l r t w) s e = cc
Parses-Refused now d (refuses {c = c} {c' = c'} l r t w) s e =
    let (p, q) = verdict_refuse now c c' l s w in
    let same : c' ≡ d = cc in
    record {
      line = l;
      behind = r;
      starts = t;
      processed = subst (λ k. process_request_line c.request l ≡ some (false, k.request)) same p;
      unmoved = subst (λ k. k.state ≡ expect_request_line) same q;
      kept = cc;
    }
Parses-Refused now d (stops l r t w) s e = cc

verdict-refused :
    (now : ℕ) (c : HttpContext) (line : List ℕ)
    → c.state ≡ expect_request_line
    → process_request_line c.request line ≡ none
    → verdict c line now ≡ none
unfolding verdict request_line_verdict
verdict-refused now c line s e = ground arith

-- A first line stays the first line when bytes come in behind it.
pub StartsWith-append :
    {xs line rest : List ℕ} (ys : List ℕ)
    → StartsWith xs line rest
    → StartsWith (xs ++ ys) line (rest ++ ys)
StartsWith-append {xs} {line} {rest} ys s = record {
  cut = ap (λ zs. zs ++ ys) s.cut ∙ append_assoc line (cr ∷ lf ∷ rest) ys;
  first = s.first;
}

stops_again :
    (later : ℕ) (c' : HttpContext) (b : Buffer) (line rest : List ℕ)
    → IsValid b
    → c'.state ≡ expect_request_line
    → StartsWith (contents b) line rest
    → process_request_line c'.request line ≡ none
    → parse_request c' b later ≡ aborted
stops_again later c' b line rest v s t e =
    let (o, p, g) = parse_request-Parses later c' b v (inl s) in
    let over : o ≡ stopped = rw (verdict-refused later c' line s e) at (Parses-line later p t) in
    subst (λ q. Agrees q (parse_request c' b later)) over g

Refused-stops :
    (now later : ℕ) (c c' : HttpContext) (b₂ : Buffer) (xs rest more : List ℕ)
    → c.request.method ≡ invalid
    → Refused now c xs c' rest
    → c'.request.method ≢ invalid
    → IsValid b₂
    → contents b₂ ≡ rest ++ more
    → parse_request c' b₂ later ≡ aborted
Refused-stops now later c c' b₂ xs rest more i f n v e =
    stops_again later c' b₂ f.line (f.behind ++ more) v f.unmoved
      (subst (λ ys. StartsWith ys f.line (f.behind ++ more))
        (sym (e ∙ ap (λ ys. ys ++ more) f.kept)) (StartsWith-append more f.starts))
      (process_request_line_refused c.request c'.request f.line f.processed i n)

-- A fresh parser that refuses a request line after it has read a known method keeps the method. The
-- next call on it, whatever bytes `more` have come in behind those left, fails the `assert` of
-- `setMethod`: the process stops.
pub refused_then_aborts :
    (now later : ℕ) (c c' : HttpContext) (b b' b₂ : Buffer) (more : List ℕ)
    → IsValid b
    → c.state ≡ expect_request_line
    → c.request.method ≡ invalid
    → parse_request c b now ≡ ended (false, c', b')
    → c'.request.method ≢ invalid
    → IsValid b₂
    → contents b₂ ≡ contents b' ++ more
    → parse_request c' b₂ later ≡ aborted
refused_then_aborts now later c c' b b' b₂ more v s i e n v₂ e₂ =
    first (parse_request-Parses now c b v (inl s))
  where
    first :
        (o : Outcome) × Parses now c (contents b) o × Agrees o (parse_request c b now)
        → parse_request c' b₂ later ≡ aborted
    first (finished ok d rest, p, (b'', e'', _, left)) =
        let same : d ≡ c' = cc in
        let bad : ok ≡ false = cc in
        let buf : b'' ≡ b' = cc in
        Refused-stops now later c c' b₂ (contents b) rest more i
          (Parses-Refused now c' p s (ap₂ (λ k d. finished k d rest) bad same)) n v₂
          (e₂ ∙ ap (λ ys. ys ++ more) (ap contents (sym buf) ∙ left))
    first (stopped, p, g) = cc

-- A call that refuses leaves the bytes in a valid buffer, and the parser waits for a request line.
pub refused_lem :
    (now : ℕ) (c c' : HttpContext) (b b' : Buffer)
    → IsValid b
    → c.state ≡ expect_request_line
    → parse_request c b now ≡ ended (false, c', b')
    → IsValid b' × (contents b' ≡ contents b) × (c'.state ≡ expect_request_line)
refused_lem now c c' b b' v s e = first (parse_request-Parses now c b v (inl s))
  where
    first :
        (o : Outcome) × Parses now c (contents b) o × Agrees o (parse_request c b now)
        → IsValid b' × (contents b' ≡ contents b) × (c'.state ≡ expect_request_line)
    first (finished ok d rest, p, (b'', e'', w, left)) =
        let same : d ≡ c' = cc in
        let bad : ok ≡ false = cc in
        let buf : b'' ≡ b' = cc in
        let f = Parses-Refused now c' p s (ap₂ (λ k d. finished k d rest) bad same) in
        (subst IsValid buf w, ap contents (sym buf) ∙ left ∙ f.kept, f.unmoved)
    first (stopped, p, g) = cc
