-- ===== src/Http/Context/Refine.antt =====
-- `parseRequest` on a buffer does what `Parses` says of the bytes that the buffer holds.
use dserver.Prelude.{
  ℕ, zero, suc, ◌+◌, ◌-◌, ◌<◌, ◌≡◌, refl, sym, ap, ◌∙◌, ◌⊎◌, inl, inr, Bool, true, false, Option,
  none, some, List, [], ◌∷◌, ◌++◌, if◌then◌else◌, ◌>>=◌, arith, length, take, drop, slice,
  length-append, take-length-append, take-slice, subst,
}
use dserver.Buffer.{Buffer, readable_bytes, retrieve_until, retrieve}
use dserver.Buffer.Contents.{IsValid, contents, length-contents, retrieve_lem, retrieve_until_lem}
use dserver.Buffer.Search.{cr, lf, find_crlf, find_crlf_lem}
use dserver.Http.Request.{HttpRequest}
use dserver.Http.Context.{
  HttpContext, process_request_line, add_header_line, Run, ended, aborted, Turn, request_line_end,
  request_line_turn, headers_turn, turn, parse_loop, parse_request,
}
use dserver.Http.Context.Lines.{
  Verdict, next, complete, refuse, request_line_result, request_line_verdict, header_verdict,
  verdict, Outcome, finished, stopped, StartsWith, Parses, waits, goes_on, completes, refuses,
  stops, IsReading,
}

-- The code ends as the outcome says.
abbrev pub Agrees : Outcome → Run (Bool × HttpContext × Buffer) → Type 0
Agrees (finished ok c rest) r =
    (b : Buffer) × (r ≡ ended (ok, c, b)) × IsValid b × (contents b ≡ rest)
Agrees stopped r = r ≡ aborted

drop_line : (line rest : List ℕ) → drop (length line + 2) (line ++ (cr ∷ lf ∷ rest)) ≡ rest
drop_line [] rest = refl
drop_line (x ∷ line) rest =
    ap (λ n. drop n (x ∷ (line ++ (cr ∷ lf ∷ rest)))) {x = suc (length line) + 2}
      {y = suc (length line + 2)} (omega arith)
    ∙ drop_line line rest

-- What the code reads when the buffer starts with a line, and what taking the line leaves.
record LineAhead (b : Buffer) (line rest : List ℕ) : Type 0 where
  found : find_crlf b ≡ some (b.reader_index + length line)
  read : slice b.reader_index (b.reader_index + length line - b.reader_index) b.buffer ≡ line
  taken :
      (b' : Buffer) × (retrieve_until b (b.reader_index + length line + 2) ≡ some b')
      × IsValid b'
      × (contents b' ≡ rest)

line_ahead :
    (b : Buffer) (line rest : List ℕ)
    → IsValid b
    → contents b ≡ line ++ (cr ∷ lf ∷ rest)
    → find_crlf b ≡ some (b.reader_index + length line)
    → LineAhead b line rest
line_ahead b line rest v e f =
    let held = length-contents b v in
    let size = ap length e ∙ length-append line (cr ∷ lf ∷ rest) in
    let n = b.writer_index - b.reader_index in
    let shift : b.reader_index + length line - b.reader_index ≡ length line = omega arith in
    let step : b.reader_index + length line + 2 - b.reader_index ≡ length line + 2 = omega arith in
    let (b', r, v', c, _) = retrieve_lem b (length line + 2) v (omega (arith, size)) in
    record {
      found = f;
      read =
          ap (λ m. slice b.reader_index m b.buffer) shift
          ∙ sym (take-slice (length line) b.reader_index n b.buffer (omega (arith, size, held)))
          ∙ ap (take (length line)) e
          ∙ take-length-append line (cr ∷ lf ∷ rest);
      taken = (
        b',
        retrieve_until_lem b (b.reader_index + length line + 2) v (omega arith)
              (omega (arith, size, held))
            ∙ ap (retrieve b) step
            ∙ r,
        v',
        c ∙ ap (drop (length line + 2)) e ∙ drop_line line rest,
      );
    }

-- What a turn leaves, by the verdict on the line: `b'` is the buffer with the line taken.
abbrev turn_of : Buffer → Buffer → Verdict → Turn
turn_of b b' (next c) = record { has_more = true; ok = true; context = c; buffer = b' }
turn_of b b' (complete c) = record { has_more = false; ok = true; context = c; buffer = b' }
turn_of b b' (refuse c) = record { has_more = false; ok = false; context = c; buffer = b }

request_line_end-verdict :
    (now crlf : ℕ) (c : HttpContext) (b b' : Buffer) (p : Option (Bool × HttpRequest))
    → retrieve_until b (crlf + 2) ≡ some b'
    → (p >>= λ done. request_line_end c b crlf now done.0 done.1) ≡ (
        (p >>= λ done. some (request_line_result c now done.0 done.1)) >>= λ w.
        some (turn_of b b' w))
unfolding request_line_end request_line_result
request_line_end-verdict now crlf c b b' none e = refl
request_line_end-verdict now crlf c b b' (some (true, r)) e = simp e
request_line_end-verdict now crlf c b b' (some (false, r)) e = refl

request_line_turn_lem :
    (now : ℕ) (c : HttpContext) (b : Buffer) (line rest : List ℕ) (a : LineAhead b line rest)
    → request_line_turn c b now
      ≡ (request_line_verdict c line now >>= λ w. some (turn_of b (a.taken).0 w))
unfolding request_line_turn request_line_verdict
request_line_turn_lem now c b line rest a =
    rw (a.found, request_line_turn)
      (rw (a.read) (
        request_line_end-verdict now (b.reader_index + length line) c b (a.taken).0
          (process_request_line c.request line) (a.taken).1))

header_end-verdict :
    (b b' : Buffer) (p : Bool × HttpContext)
    → ◌≡◌ {A = Option Turn}
        (some (record { has_more = p.0; ok = true; context = p.1; buffer = b' }))
        (some (turn_of b b' (if p.0 then next p.1 else complete p.1)))
header_end-verdict b b' (true, c) = refl
header_end-verdict b b' (false, c) = refl

headers_turn_lem :
    (c : HttpContext) (b : Buffer) (line rest : List ℕ) (a : LineAhead b line rest)
    → headers_turn c b ≡ some (turn_of b (a.taken).0 (header_verdict c line))
unfolding headers_turn header_verdict
headers_turn_lem c b line rest a =
    rw (a.found, headers_turn)
      (rw (a.read) (rw ((a.taken).1) (header_end-verdict b (a.taken).0 (add_header_line c line))))

-- A turn that finds a whole line does what the verdict on the line says.
turn_lem :
    (now : ℕ) (c : HttpContext) (b : Buffer) (line rest : List ℕ)
    → IsReading c
    → (a : LineAhead b line rest)
    → turn c b now ≡ (verdict c line now >>= λ w. some (turn_of b (a.taken).0 w))
unfolding turn verdict
turn_lem now c b line rest (inl s) a =
    rw (s, turn, verdict) (request_line_turn_lem now c b line rest a)
turn_lem now c b line rest (inr s) a = rw (s, turn, verdict) (headers_turn_lem c b line rest a)

turn_waits :
    (now : ℕ) (c : HttpContext) (b : Buffer)
    → IsReading c
    → find_crlf b ≡ none
    → turn c b now ≡ some (record { has_more = false; ok = true; context = c; buffer = b })
unfolding turn request_line_turn headers_turn
turn_waits now c b s e = ground arith

pub verdict_next :
    (now : ℕ) (c c' : HttpContext) (line : List ℕ)
    → IsReading c
    → verdict c line now ≡ some (next c')
    → IsReading c'
unfolding verdict request_line_verdict request_line_result header_verdict add_header_line
verdict_next now c c' line s e = ground arith

abbrev Kind : Option Verdict → Type 0
Kind o =
    (o ≡ none)
    ⊎ ((c : HttpContext) × (o ≡ some (next c)))
    ⊎ ((c : HttpContext) × (o ≡ some (complete c)))
    ⊎ ((c : HttpContext) × (o ≡ some (refuse c)))

verdict-Kind : (o : Option Verdict) → Kind o
verdict-Kind none = inl refl
verdict-Kind (some (next c)) = inr (inl (c, refl))
verdict-Kind (some (complete c)) = inr (inr (inl (c, refl)))
verdict-Kind (some (refuse c)) = inr (inr (inr (c, refl)))

-- The loop runs to an end within one turn more than the buffer holds bytes, and its end is an
-- outcome of the line machine.
parse_loop-Parses :
    (fuel now : ℕ) (c : HttpContext) (b : Buffer)
    → IsValid b
    → IsReading c
    → length (contents b) < fuel
    → (o : Outcome) × Parses now c (contents b) o × Agrees o (parse_loop fuel c b now)
unfolding parse_loop
parse_loop-Parses zero now c b v s h = absurd (omega arith)
parse_loop-Parses (suc fuel) now c b v s h = elim (find_crlf_lem b v) [
  | inr (f, n) ↦
      (finished true c (contents b), waits n, (b, rw (turn_waits now c b s f, parse_loop), v, refl))
  | inl (line, rest, e, f, n) ↦
      let a = line_ahead b line rest v e f in
      let t = turn_lem now c b line rest s a in
      let starts : StartsWith (contents b) line rest = record { cut = e; first = n } in
      let size = ap length e ∙ length-append line (cr ∷ lf ∷ rest) in
      let b' = (a.taken).0 in
      elim (verdict-Kind (verdict c line now)) [
        | inl w ↦ (stopped, stops line rest starts w, rw (t, w, parse_loop))
        | inr (inl (c', w)) ↦
            let left = ap length (a.taken).3 in
            let (o, p, g) =
              parse_loop-Parses fuel now c' b' (a.taken).2 (verdict_next now c c' line s w)
                (omega (arith, size, left)) in
            (
              o,
              goes_on line rest starts w (subst (λ xs. Parses now c' xs o) (a.taken).3 p),
              rw (t, w, parse_loop) g,
            )
        | inr (inr (inl (c', w))) ↦ (
          finished true c' rest,
          completes line rest starts w,
          (b', rw (t, w, parse_loop), (a.taken).2, (a.taken).3),
        )
        | inr (inr (inr (c', w))) ↦ (
          finished false c' (contents b),
          refuses line rest starts w,
          (b, rw (t, w, parse_loop), v, refl),
        )
      ]
]

-- On a valid buffer, a parser that waits for a request line or a header ends, with the outcome that
-- the line machine has on the bytes of the buffer.
pub parse_request-Parses :
    (now : ℕ) (c : HttpContext) (b : Buffer)
    → IsValid b
    → IsReading c
    → (o : Outcome) × Parses now c (contents b) o × Agrees o (parse_request c b now)
unfolding parse_request
parse_request-Parses now c b v s =
    parse_loop-Parses (suc (readable_bytes b)) now c b v s (omega (arith, length-contents b v))
