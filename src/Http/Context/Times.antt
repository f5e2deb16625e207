-- ===== src/Http/Context/Times.antt =====
-- The time of arrival is only stored: the line machine does the same at every time.
use dserver.Prelude.{ℕ, ◌≡◌, refl, ap, ◌∙◌, Bool, List, [], ◌∷◌, break_at, arith}
use mathlib.Core.Option as Option
use dserver.Http.Request.{HttpRequest, method_of, set_method}
use dserver.Http.Context.{
  HttpContext, set_version, set_target, process_target, process_target_parts, process_method_parts,
  process_request_line, add_header_line,
}
use dserver.Http.Context.Lines.{
  Verdict, next, complete, refuse, request_line_result, request_line_verdict, header_verdict,
  verdict, Outcome, finished, stopped, Parses, waits, goes_on, completes, refuses, stops,
}

-- The same but for the time of arrival.
abbrev no_time : HttpRequest → HttpRequest
no_time r = record r { receive_time = 0 }

abbrev pub untimed : HttpContext → HttpContext
untimed c = record c { request = no_time c.request }

abbrev pub untimed_outcome : Outcome → Outcome
untimed_outcome (finished ok c rest) = finished ok (untimed c) rest
untimed_outcome stopped = stopped

abbrev untimed_verdict : Verdict → Verdict
untimed_verdict (next c) = next (untimed c)
untimed_verdict (complete c) = complete (untimed c)
untimed_verdict (refuse c) = refuse (untimed c)

abbrev untimed_result : Bool × HttpRequest → Bool × HttpRequest
untimed_result d = (d.0, no_time d.1)

set_version_lem :
    (r : HttpRequest) (text : List ℕ)
    → set_version (no_time r) text ≡ untimed_result (set_version r text)
unfolding set_version
set_version_lem r text = ground arith

set_target_lem :
    (r : HttpRequest) (target : List ℕ)
    → set_target (no_time r) target ≡ no_time (set_target r target)
unfolding set_target
set_target_lem r target = ground arith

process_target_parts_lem :
    (r : HttpRequest) (target text : List ℕ)
    → process_target_parts (no_time r) target text
      ≡ untimed_result (process_target_parts r target text)
unfolding process_target_parts
process_target_parts_lem r target [] = refl
process_target_parts_lem r target (_ ∷ text) =
    ap (λ q. set_version q text) (set_target_lem r target)
    ∙ set_version_lem (set_target r target) text

process_target_lem :
    (r : HttpRequest) (line : List ℕ)
    → process_target (no_time r) line ≡ untimed_result (process_target r line)
unfolding process_target
process_target_lem r line = process_target_parts_lem r (break_at b' ' line).0 (break_at b' ' line).1

process_method_parts_lem :
    (r : HttpRequest) (method text : List ℕ)
    → process_method_parts (no_time r) method text
      ≡ Option.map untimed_result (process_method_parts r method text)
unfolding process_method_parts set_method
process_method_parts_lem r method [] = refl
process_method_parts_lem r method (_ ∷ text) =
    ground (arith, process_target_lem (record r { method = method_of method }) text)

process_request_line_lem :
    (r : HttpRequest) (line : List ℕ)
    → process_request_line (no_time r) line
      ≡ Option.map untimed_result (process_request_line r line)
unfolding process_request_line
process_request_line_lem r line =
    process_method_parts_lem r (break_at b' ' line).0 (break_at b' ' line).1

header_verdict_lem :
    (c : HttpContext) (line : List ℕ)
    → header_verdict (untimed c) line ≡ untimed_verdict (header_verdict c line)
unfolding header_verdict add_header_line dserver.Http.Request.add_header
header_verdict_lem c line = ground arith

request_line_verdict_lem :
    (now : ℕ) (c : HttpContext) (line : List ℕ)
    → request_line_verdict (untimed c) line 0
      ≡ Option.map untimed_verdict (request_line_verdict c line now)
unfolding request_line_verdict request_line_result
request_line_verdict_lem now c line = ground (arith, process_request_line_lem c.request line)

verdict_lem :
    (now : ℕ) (c : HttpContext) (line : List ℕ)
    → verdict (untimed c) line 0 ≡ Option.map untimed_verdict (verdict c line now)
unfolding verdict
verdict_lem now c line =
    ground (arith, request_line_verdict_lem now c line, header_verdict_lem c line)

-- A run at any time is one at the time 0, but for the time that the parser stores.
pub Parses-untimed :
    (now : ℕ) {c : HttpContext} {xs : List ℕ} {o : Outcome}
    → Parses now c xs o
    → Parses 0 (untimed c) xs (untimed_outcome o)
Parses-untimed now (waits n) = waits n
Parses-untimed now (goes_on {c = c} l r s w p) =
    goes_on l r s (verdict_lem now c l ∙ ap (Option.map untimed_verdict) w) (Parses-untimed now p)
Parses-untimed now (completes {c = c} l r s w) =
    completes l r s (verdict_lem now c l ∙ ap (Option.map untimed_verdict) w)
Parses-untimed now (refuses {c = c} l r s w) =
    refuses l r s (verdict_lem now c l ∙ ap (Option.map untimed_verdict) w)
Parses-untimed now (stops {c = c} l r s w) =
    stops l r s (verdict_lem now c l ∙ ap (Option.map untimed_verdict) w)
