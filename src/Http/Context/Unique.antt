-- ===== src/Http/Context/Unique.antt =====
-- The line machine is deterministic: bytes have one first line, and a parser one outcome on them.
use dserver.Prelude.{
  ℕ, ◌≡◌, refl, sym, ap, ◌∙◌, true, false, Option, none, some, List, [], ◌∷◌, ◌++◌, arith, length,
  length-append,
}
use dserver.Buffer.Search.{cr, lf, NoCrlf, search_crlf}
use dserver.Http.Context.{HttpContext}
use dserver.Http.Context.Lines.{
  Verdict, next, complete, refuse, verdict, Outcome, finished, stopped, StartsWith, Parses, waits,
  goes_on, completes, refuses, stops,
}

search-NoCrlf : (xs : List ℕ) → NoCrlf xs → search_crlf xs ≡ length xs
unfolding search_crlf
search-NoCrlf [] n = refl
search-NoCrlf (x ∷ []) n = refl
search-NoCrlf (x ∷ y ∷ rest) n = ground (arith, search-NoCrlf (y ∷ rest) n.1, n.0)

search-line :
    (line rest : List ℕ)
    → NoCrlf (line ++ (cr ∷ []))
    → search_crlf (line ++ (cr ∷ lf ∷ rest)) ≡ length line
unfolding search_crlf
search-line [] rest n = refl
search-line (x ∷ []) rest n = ground (arith, search-line [] rest n.1, n.0)
search-line (x ∷ y ∷ line) rest n = ground (arith, search-line (y ∷ line) rest n.1, n.0)

StartsWith-search : {xs line rest : List ℕ} → StartsWith xs line rest → search_crlf xs ≡ length line
StartsWith-search {line = line} {rest = rest} s =
    ap search_crlf s.cut ∙ search-line line rest s.first

-- A list starts with a line, or holds no CR LF.
pub StartsWith-not-NoCrlf : {xs line rest : List ℕ} → StartsWith xs line rest → NoCrlf xs → ⊥
StartsWith-not-NoCrlf {xs} {line} {rest} s n = omega (
  arith,
  ap length s.cut,
  length-append line (cr ∷ lf ∷ rest),
  StartsWith-search s,
  search-NoCrlf xs n,
)

append-injective :
    (ws bs cs ds : List ℕ) → length ws ≡ length cs → ws ++ bs ≡ cs ++ ds → (ws ≡ cs) × (bs ≡ ds)
append-injective [] bs [] ds h e = (refl, e)
append-injective [] bs (c ∷ cs) ds h e = absurd (omega arith)
append-injective (a ∷ ws) bs [] ds h e = absurd (omega arith)
append-injective (a ∷ ws) bs (c ∷ cs) ds h e =
    let (p, q) = append-injective ws bs cs ds (omega arith) (cc) in (cc p, q)

pub StartsWith-unique :
    {xs l r l' r' : List ℕ} → StartsWith xs l r → StartsWith xs l' r' → (l ≡ l') × (r ≡ r')
StartsWith-unique {xs} {l} {r} {l'} {r'} s t =
    let (p, q) =
      append-injective l (cr ∷ lf ∷ r) l' (cr ∷ lf ∷ r')
        (sym (StartsWith-search s) ∙ StartsWith-search t) (sym s.cut ∙ t.cut) in
    (p, cc q)

-- How a run ends whose first line is followed by `r` and has this verdict.
abbrev pub After : ℕ → List ℕ → List ℕ → Option Verdict → Outcome → Type 0
After now xs r none o = o ≡ stopped
After now xs r (some (next c)) o = Parses now c r o
After now xs r (some (complete c)) o = o ≡ finished true c r
After now xs r (some (refuse c)) o = o ≡ finished false c xs

pub Parses-line :
    (now : ℕ) {c : HttpContext} {xs l r : List ℕ} {o : Outcome}
    → Parses now c xs o
    → StartsWith xs l r
    → After now xs r (verdict c l now) o
Parses-line now (waits n) s = absurd (StartsWith-not-NoCrlf s n)
Parses-line now {c} {xs} {l} {r} {o} (goes_on {c' = c'} l' r' t w p) s =
    let (el, er) = StartsWith-unique s t in rw (el, er, w) p
Parses-line now {c} {xs} {l} {r} {o} (completes l' r' t w) s =
    let (el, er) = StartsWith-unique s t in rw (el, er, w) refl
Parses-line now {c} {xs} {l} {r} {o} (refuses l' r' t w) s =
    let (el, er) = StartsWith-unique s t in rw (el, w) refl
Parses-line now {c} {xs} {l} {r} {o} (stops l' r' t w) s =
    let (el, er) = StartsWith-unique s t in rw (el, w) refl

Parses-waits :
    (now : ℕ) {c : HttpContext} {xs : List ℕ} {o : Outcome}
    → Parses now c xs o
    → NoCrlf xs
    → o ≡ finished true c xs
Parses-waits now (waits n) m = refl
Parses-waits now (goes_on l r s w p) m = absurd (StartsWith-not-NoCrlf s m)
Parses-waits now (completes l r s w) m = absurd (StartsWith-not-NoCrlf s m)
Parses-waits now (refuses l r s w) m = absurd (StartsWith-not-NoCrlf s m)
Parses-waits now (stops l r s w) m = absurd (StartsWith-not-NoCrlf s m)

-- Two runs of the machine on the same bytes have the same outcome.
pub Parses-unique :
    (now : ℕ) {c : HttpContext} {xs : List ℕ} {o o' : Outcome}
    → Parses now c xs o
    → Parses now c xs o'
    → o ≡ o'
Parses-unique now (waits n) q = sym (Parses-waits now q n)
Parses-unique now (goes_on {c' = c'} l r s w p) q =
    Parses-unique now p (rw w at (Parses-line now q s))
Parses-unique now (completes l r s w) q = sym (rw w at (Parses-line now q s))
Parses-unique now (refuses l r s w) q = sym (rw w at (Parses-line now q s))
Parses-unique now (stops l r s w) q = sym (rw w at (Parses-line now q s))
