-- ===== src/Http/Context/RoundTrip.antt =====
-- What a client prints, the parser reads.
use dserver.Prelude.{
  ℕ, ◌≡◌, ◌≢◌, refl, ap, ◌∙◌, ◌⊎◌, inl, inr, true, false, some, List, [], ◌∷◌, ◌++◌, arith, subst,
  break_at, Lacks, Lacks-append, break_at-hit, break_at-miss, skip_spaces, trim_end, is_space,
  eq_bytes, append-nil,
}
use dserver.Http.Context.Message.{
  version_text, Message, request_line, header_line, print_headers, print_message, IsPlainHeader,
  ArePlain, IsPlain, store_headers, request_of,
}
use dserver.Buffer.{Buffer}
use dserver.Buffer.Contents.{IsValid, contents}
use dserver.Buffer.Search.{cr, NoCrlf}
use dserver.Http.Headers
use dserver.Http.Headers.{Headers}
use dserver.Http.Request.{
  HttpRequest, Method, Version, fresh, invalid, is_invalid, unknown, http10, http11, method_string,
  method_of-method_string, set_method, add_header,
}
use dserver.Http.Context.{
  HttpContext, new_context, expect_headers, got_all_state, set_version, set_target, process_target,
  process_request_line, add_header_line, ended, parse_request,
}
use dserver.Http.Context.Lines.{
  next, complete, request_line_verdict, request_line_result, header_verdict, verdict, finished,
  Parses, goes_on, completes,
}
use dserver.Http.Context.Refine.{Agrees, parse_request-Parses}
use dserver.Http.Context.Unique.{Parses-unique}

Lacks-NoCrlf : (line : List ℕ) → Lacks cr line → NoCrlf (line ++ (cr ∷ []))
Lacks-NoCrlf [] h = tt
Lacks-NoCrlf (x ∷ []) h = (λ p. h.0 p.0, tt)
Lacks-NoCrlf (x ∷ y ∷ line) h = (λ p. h.0 p.0, Lacks-NoCrlf (y ∷ line) h.1)

set_version_lem :
    (r : HttpRequest) (v : Version)
    → v ≢ unknown
    → set_version r (version_text v) ≡ (true, record r { version = v })
unfolding set_version version_text eq_bytes
set_version_lem r unknown h = absurd (h refl)
set_version_lem r http10 h = refl
set_version_lem r http11 h = refl

set_target_lem :
    (r : HttpRequest) (path query : List ℕ)
    → r.query ≡ []
    → Lacks b'?' path
    → (query ≡ []) ⊎ ((q : List ℕ) × (query ≡ b'?' ∷ q))
    → set_target r (path ++ query) ≡ record r { path = path; query = query }
unfolding set_target
set_target_lem r path query e h (inl f) = rw (f, append-nil path, break_at-miss b'?' path h) (cc)
set_target_lem r path query e h (inr (q, f)) = rw (f, break_at-hit b'?' path q h) refl

method_no_space : (m : Method) → Lacks b' ' (method_string m) × Lacks cr (method_string m)
unfolding method_string
method_no_space invalid = omega arith
method_no_space _ = omega arith

is_invalid-ne : (m : Method) → m ≢ invalid → is_invalid m ≡ false
is_invalid-ne invalid h = absurd (h refl)
is_invalid-ne _ h = refl

process_target_lem :
    (r : HttpRequest) (m : Message)
    → IsPlain m
    → r.query ≡ []
    → process_target r ((m.path ++ m.query) ++ (b' ' ∷ version_text m.version))
      ≡ (true, record r { path = m.path; query = m.query; version = m.version })
unfolding process_target
process_target_lem r m p e =
    rw
      (
        break_at-hit b' ' (m.path ++ m.query) (version_text m.version)
            (Lacks-append b' ' m.path m.query p.path_no_space p.query_no_space),
        set_target_lem r m.path m.query e p.path_no_question p.query_marked,
      )
      (set_version_lem (record r { path = m.path; query = m.query }) m.version p.known_version)

process_request_line_lem :
    (m : Message)
    → IsPlain m
    → process_request_line fresh (request_line m)
      ≡ some (
        true,
        record fresh { method = m.method; version = m.version; path = m.path; query = m.query },
      )
unfolding process_request_line request_line set_method
process_request_line_lem m p =
    rw
      (
        break_at-hit b' ' (method_string m.method)
            ((m.path ++ m.query) ++ (b' ' ∷ version_text m.version)) (method_no_space m.method).0,
        method_of-method_string m.method,
        is_invalid-ne m.method p.known_method,
      )
      (ap some (process_target_lem (record fresh { method = m.method }) m p refl))

version_no_cr : (v : Version) → Lacks cr (version_text v)
unfolding version_text
version_no_cr unknown = tt
version_no_cr _ = omega arith

request_line_no_cr : (m : Message) → IsPlain m → Lacks cr (request_line m)
unfolding request_line
request_line_no_cr m p = Lacks-append cr (method_string m.method) _ (method_no_space m.method).1 (
  omega arith,
  Lacks-append cr (m.path ++ m.query) _ (Lacks-append cr m.path m.query p.path_no_cr p.query_no_cr)
      (omega arith, version_no_cr m.version),
)

header_line_no_cr : (h : List ℕ × List ℕ) → IsPlainHeader h → Lacks cr (header_line h)
unfolding header_line
header_line_no_cr (field, value) p =
    Lacks-append cr field _ p.no_cr (omega arith, (omega arith, p.value_no_cr))

-- The parser after the headers `hs`.
with_headers : HttpContext → List (List ℕ × List ℕ) → HttpContext
with_headers c hs = record c {
  request = record (c.request) { headers = store_headers c.request.headers hs };
}

add_header_lem :
    (r : HttpRequest) (field value : List ℕ)
    → skip_spaces value ≡ value
    → trim_end value ≡ value
    → add_header r field (b' ' ∷ value) ≡ record r { headers = Headers.put field value r.headers }
unfolding add_header skip_spaces is_space
add_header_lem r field value f b =
    ap (λ v. record r { headers = Headers.put field v r.headers }) (ap trim_end f ∙ b)

header_verdict_lem :
    (c : HttpContext) (h : List ℕ × List ℕ)
    → IsPlainHeader h
    → header_verdict c (header_line h) ≡ next (with_headers c (h ∷ []))
unfolding header_verdict add_header_line header_line with_headers store_headers
header_verdict_lem c (field, value) p =
    rw (break_at-hit b':' field (b' ' ∷ value) p.no_colon)
      (rw (add_header_lem c.request field value p.trimmed_front p.trimmed_back) refl)

verdict_headers :
    (now : ℕ) (c : HttpContext) (line : List ℕ)
    → c.state ≡ expect_headers
    → verdict c line now ≡ some (header_verdict c line)
unfolding verdict
verdict_headers now c line s = ground arith

header_verdict-nil :
    (c : HttpContext)
    → header_verdict c [] ≡ complete (record (with_headers c []) { state = got_all_state })
unfolding header_verdict add_header_line break_at with_headers store_headers
header_verdict-nil c = refl

Parses-headers :
    (now : ℕ) (c : HttpContext) (hs : List (List ℕ × List ℕ)) (rest : List ℕ)
    → c.state ≡ expect_headers
    → ArePlain hs
    → Parses now c
        (print_headers hs rest)
        (finished true (record (with_headers c hs) { state = got_all_state }) rest)
unfolding print_headers with_headers store_headers
Parses-headers now c [] rest s p =
    completes [] rest (record { cut = refl; first = tt })
      (verdict_headers now c [] s ∙ ap some (header_verdict-nil c))
Parses-headers now c (h ∷ hs) rest s p =
    goes_on {c' = with_headers c (h ∷ [])} (header_line h) (print_headers hs rest)
      (record { cut = refl; first = Lacks-NoCrlf (header_line h) (header_line_no_cr h p.0) })
      (verdict_headers now c (header_line h) s ∙ ap some (header_verdict_lem c h p.0))
      (Parses-headers now (with_headers c (h ∷ [])) hs rest s p.1)

done_context : Message → ℕ → HttpContext
done_context m now = record { state = got_all_state; request = request_of m now }

-- The parser after the request line.
after_line : Message → ℕ → HttpContext
unfolding request_of
after_line m now = record {
  state = expect_headers;
  request = record (request_of m now) { headers = [] };
}

request_line_verdict_lem :
    (now : ℕ) (m : Message)
    → IsPlain m
    → verdict new_context (request_line m) now ≡ some (next (after_line m now))
unfolding verdict request_line_verdict request_line_result after_line
request_line_verdict_lem now m p = rw (process_request_line_lem m p) refl

Parses-message :
    (now : ℕ) (m : Message) (rest : List ℕ)
    → IsPlain m
    → Parses now new_context (print_message m rest) (finished true (done_context m now) rest)
unfolding print_message done_context after_line with_headers
Parses-message now m rest p =
    goes_on {c' = after_line m now} (request_line m) (print_headers m.headers rest)
      (record { cut = refl; first = Lacks-NoCrlf (request_line m) (request_line_no_cr m p) })
      (request_line_verdict_lem now m p)
      (Parses-headers now (after_line m now) m.headers rest refl p.plain_headers)

-- A valid buffer that holds a plain message and more bytes is parsed to the end of the message: the
-- parser is done, its request has the method, version, path, query and headers of the message, and
-- the bytes that follow stay in the buffer.
pub parse_request-print_message :
    (now : ℕ) (m : Message) (rest : List ℕ) (b : Buffer)
    → IsPlain m
    → IsValid b
    → contents b ≡ print_message m rest
    → (b' : Buffer) × (parse_request new_context b now
        ≡ ended (true, record { state = got_all_state; request = request_of m now }, b'))
      × IsValid b'
      × (contents b' ≡ rest)
unfolding done_context
parse_request-print_message now m rest b p v e =
    let (o, q, a) = parse_request-Parses now new_context b v (inl refl) in
    let same : o ≡ finished true (done_context m now) rest =
      Parses-unique now (subst (λ xs. Parses now new_context xs o) e q)
        (Parses-message now m rest p) in
    subst (λ k. Agrees k (parse_request new_context b now)) same a
