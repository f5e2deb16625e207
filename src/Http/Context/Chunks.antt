-- ===== src/Http/Context/Chunks.antt =====
-- The parser is incremental: bytes that come in two pieces are parsed as in one.
use dserver.Prelude.{ℕ, ◌≡◌, ◌≢◌, refl, sym, ap, ◌∙◌, true, some, List, ◌++◌, arith, subst}
use dserver.Buffer.{Buffer}
use dserver.Buffer.Contents.{IsValid, contents}
use dserver.Http.Context.{HttpContext, got_all_state, add_header_line, ended, parse_request}
use dserver.Http.Context.Lines.{
  complete, request_line_verdict, request_line_result, header_verdict, verdict, Outcome, finished,
  stopped, Parses, waits, goes_on, completes, refuses, stops, IsReading,
}
use dserver.Http.Context.Refine.{Agrees, parse_request-Parses, verdict_next}
use dserver.Http.Context.Unique.{Parses-unique}
use dserver.Http.Context.Times.{untimed, untimed_outcome, Parses-untimed}
use dserver.Http.Context.Reuse.{StartsWith-append}

verdict_complete :
    (now : ℕ) (c c' : HttpContext) (line : List ℕ)
    → IsReading c
    → verdict c line now ≡ some (complete c')
    → c'.state ≡ got_all_state
unfolding verdict request_line_verdict request_line_result header_verdict add_header_line
verdict_complete now c c' line s e = ground arith

-- A machine that waits for more is in one of the first two states.
Parses-IsReading :
    (now : ℕ) {c : HttpContext} {xs rest : List ℕ} {o : Outcome} (d : HttpContext)
    → Parses now c xs o
    → IsReading c
    → o ≡ finished true d rest
    → d.state ≢ got_all_state
    → IsReading d
Parses-IsReading now {c} d (waits n) s e g = let same : c ≡ d = cc in subst IsReading same s
Parses-IsReading now d (goes_on {c = c} {c' = c'} l r t w q) s e g =
    Parses-IsReading now d q (verdict_next now c c' l s w) e g
Parses-IsReading now d (completes {c = c} {c' = c'} l r t w) s e g =
    let same : c' ≡ d = cc in
    absurd (g (subst (λ k. k.state ≡ got_all_state) same (verdict_complete now c c' l s w)))
Parses-IsReading now d (refuses l r t w) s e g = cc
Parses-IsReading now d (stops l r t w) s e g = cc

-- The machine that waits after `xs` goes on with the bytes it left and those that follow.
Parses-append :
    (now : ℕ) {c : HttpContext} {xs rest : List ℕ} {o o' : Outcome} (d : HttpContext) (ys : List ℕ)
    → Parses now c xs o
    → IsReading c
    → o ≡ finished true d rest
    → d.state ≢ got_all_state
    → Parses now d (rest ++ ys) o'
    → Parses now c (xs ++ ys) o'
Parses-append now {c} {xs} {rest} {o} {o'} d ys (waits n) s e g p =
    let same : c ≡ d = cc in
    let left : xs ≡ rest = cc in
    subst (λ k. Parses now k (xs ++ ys) o') (sym same)
      (subst (λ zs. Parses now d (zs ++ ys) o') (sym left) p)
Parses-append now d ys (goes_on {c = c} {c' = c'} l r t w q) s e g p =
    goes_on l (r ++ ys) (StartsWith-append ys t) w
      (Parses-append now d ys q (verdict_next now c c' l s w) e g p)
Parses-append now d ys (completes {c = c} {c' = c'} l r t w) s e g p =
    let same : c' ≡ d = cc in
    absurd (g (subst (λ k. k.state ≡ got_all_state) same (verdict_complete now c c' l s w)))
Parses-append now d ys (refuses l r t w) s e g p = cc
Parses-append now d ys (stops l r t w) s e g p = cc

-- Say that the parser took what it could of `b₁`, was not at the end of the request, and is called
-- again on `b₂`, which holds the bytes left and `ys` behind them. Then the call has the outcome of
-- one call on a buffer `b` with all the bytes: the same result, bytes left over, and parser but for
-- the time of arrival that it stores. Each of the three calls has a time of its own.
pub parse_request_chunks :
    (now₁ now₂ now : ℕ) (c c' : HttpContext) (b₁ b₁' b₂ b : Buffer) (ys : List ℕ)
    → IsValid b₁
    → IsValid b₂
    → IsValid b
    → IsReading c
    → parse_request c b₁ now₁ ≡ ended (true, c', b₁')
    → c'.state ≢ got_all_state
    → contents b₂ ≡ contents b₁' ++ ys
    → contents b ≡ contents b₁ ++ ys
    → (o : Outcome) × (o' : Outcome) × Agrees o (parse_request c' b₂ now₂)
      × Agrees o' (parse_request c b now)
      × (untimed_outcome o ≡ untimed_outcome o')
parse_request_chunks now₁ now₂ now c c' b₁ b₁' b₂ b ys v₁ v₂ v s e g e₂ eb =
    first (parse_request-Parses now₁ c b₁ v₁ s)
  where
    second :
        (d : HttpContext) (rest : List ℕ)
        → d ≡ c'
        → contents b₁' ≡ rest
        → Parses now₁ c (contents b₁) (finished true d rest)
        → (o : Outcome) × (o' : Outcome) × Agrees o (parse_request c' b₂ now₂)
          × Agrees o' (parse_request c b now)
          × (untimed_outcome o ≡ untimed_outcome o')
    second d rest same left p =
        let g' : d.state ≢ got_all_state = subst (λ k. k.state ≢ got_all_state) (sym same) g in
        let stay : IsReading d = Parses-IsReading now₁ d p s refl g' in
        let (o, q, a) = parse_request-Parses now₂ c' b₂ v₂ (subst IsReading same stay) in
        let q' : Parses now₂ d (rest ++ ys) o =
          subst (λ k. Parses now₂ k (rest ++ ys) o) (sym same)
            (subst (λ zs. Parses now₂ c' zs o) (e₂ ∙ ap (λ zs. zs ++ ys) left) q) in
        let whole : Parses 0 (untimed c) (contents b) (untimed_outcome o) =
          subst (λ zs. Parses 0 (untimed c) zs (untimed_outcome o)) (sym eb)
            (Parses-append 0 (untimed d) ys (Parses-untimed now₁ p) s refl g'
              (Parses-untimed now₂ q')) in
        let (o', r, a') = parse_request-Parses now c b v s in
        (o, o', a, a', Parses-unique 0 whole (Parses-untimed now r))

    first :
        (o : Outcome) × Parses now₁ c (contents b₁) o × Agrees o (parse_request c b₁ now₁)
        → (o : Outcome) × (o' : Outcome) × Agrees o (parse_request c' b₂ now₂)
          × Agrees o' (parse_request c b now)
          × (untimed_outcome o ≡ untimed_outcome o')
    first (finished ok d rest, p, (b', e', _, left)) =
        let same : d ≡ c' = cc in
        let good : ok ≡ true = cc in
        let buf : b₁' ≡ b' = cc in
        second d rest same (ap contents buf ∙ left)
          (subst (λ k. Parses now₁ c (contents b₁) (finished k d rest)) good p)
    first (stopped, p, a) = cc
