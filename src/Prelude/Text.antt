-- ===== src/Prelude/Text.antt =====
-- Byte strings: literals, and the searches of the standard library that the parsers use.
use Prim.Native.Char.{code}
use Prim.Native.String.{String}
use Prim.Native.Nat.{ℕ, zero, suc, ◌+◌, ◌/◌, ◌%◌}
use mathlib.Core.Path.{◌≡◌, refl}
use mathlib.Core.Logic.{◌≢◌}
use mathlib.Core.Bool.{Bool, ◌&&◌, ◌||◌}
use mathlib.Core.List.{List, [], ◌∷◌, ◌++◌}
use native.Mathlib.Omega.{arith}
use dserver.Prelude.Tests.{◌==◌, leb, ltb, if◌then◌else◌}

abbrev pub codes : String → List ℕ
codes String.[] = []
codes (String.◌∷◌ c s) = code c ∷ codes s

abbrev pub crlf : List ℕ
crlf = 13 ∷ 10 ∷ []

-- `std::find`: the range before the first `c`, and the range from it on, empty if there is none.
unfoldable pub break_at : ℕ → List ℕ → List ℕ × List ℕ
break_at c [] = ([], [])
break_at c (x ∷ xs) =
    let (before, after) = break_at c xs in if x == c then ([], x ∷ xs) else (x ∷ before, after)

-- No item of the list is `c`.
abbrev pub Lacks : ℕ → List ℕ → Type 0
Lacks c [] = Unit {0}
Lacks c (x ∷ xs) = (x ≢ c) × Lacks c xs

pub break_at-hit :
    (c : ℕ) (xs ys : List ℕ) → Lacks c xs → break_at c (xs ++ (c ∷ ys)) ≡ (xs, c ∷ ys)
unfolding break_at
break_at-hit c [] ys h = ground arith
break_at-hit c (x ∷ xs) ys h = ground (arith, break_at-hit c xs ys h.1, h.0)

pub break_at-miss : (c : ℕ) (xs : List ℕ) → Lacks c xs → break_at c xs ≡ (xs, [])
unfolding break_at
break_at-miss c [] h = refl
break_at-miss c (x ∷ xs) h = ground (arith, break_at-miss c xs h.1, h.0)

pub Lacks-append : (c : ℕ) (xs ys : List ℕ) → Lacks c xs → Lacks c ys → Lacks c (xs ++ ys)
Lacks-append c [] ys h k = k
Lacks-append c (x ∷ xs) ys h k = (h.0, Lacks-append c xs ys h.1 k)

-- `isspace` in the C locale.
unfoldable pub is_space : ℕ → Bool
is_space c = c == 32 || (leb 9 c && leb c 13)

-- The loop `while (colon < end && isspace(*colon)) ++colon`.
unfoldable pub skip_spaces : List ℕ → List ℕ
skip_spaces [] = []
skip_spaces (c ∷ cs) = let rest = skip_spaces cs in if is_space c then rest else c ∷ cs

-- The loop that drops the last byte while it is a space.
trim_cons : ℕ → List ℕ → List ℕ
trim_cons c [] = if is_space c then [] else c ∷ []
trim_cons c (x ∷ xs) = c ∷ x ∷ xs

unfoldable pub trim_end : List ℕ → List ℕ
unfolding trim_cons
trim_end [] = []
trim_end (c ∷ cs) = trim_cons c (trim_end cs)

-- `%d` and `%zd` of a number that is not negative; the fuel is more than its digits.
unfoldable pub digits : ℕ → ℕ → List ℕ → List ℕ
digits zero n after = after
digits (suc fuel) n after =
    let rest = digits fuel (n / 10) ((48 + n % 10) ∷ after) in
    if ltb n 10 then (48 + n) ∷ after else rest

unfoldable pub decimal : ℕ → List ℕ
decimal n = digits (suc n) n []
