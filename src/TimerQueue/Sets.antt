-- ===== src/TimerQueue/Sets.antt =====
-- `std::set` of pairs, as net/TimerQueue.h uses it: a list in the order of its elements.
use dserver.Prelude.{
  ℕ, suc, ◌≡◌, refl, Bool, true, false, not, ◌&&◌, ◌||◌, List, [], ◌∷◌, ◌++◌, ◌==◌, ltb,
  if◌then◌else◌, length, arith,
}

-- `std::pair::operator<`.
abbrev pub lt_pair : ℕ → ℕ → ℕ → ℕ → Bool
lt_pair a b c d = ltb a c || (a == c && ltb b d)

abbrev pub eq_pair : ℕ → ℕ → ℕ → ℕ → Bool
eq_pair a b c d = a == c && b == d

-- `find(x) != end()`.
unfoldable pub has : List (ℕ × ℕ) → ℕ → ℕ → Bool
has [] a b = false
has ((c, d) ∷ xs) a b = eq_pair c d a b || has xs a b

-- `insert`, for an element that is not there.
unfoldable pub insert_pair : List (ℕ × ℕ) → ℕ → ℕ → List (ℕ × ℕ)
insert_pair [] a b = (a, b) ∷ []
insert_pair ((c, d) ∷ xs) a b =
    let rest = insert_pair xs a b in if lt_pair a b c d then (a, b) ∷ (c, d) ∷ xs else (c, d) ∷ rest

-- `erase(x)`.
unfoldable pub erase_pair : List (ℕ × ℕ) → ℕ → ℕ → List (ℕ × ℕ)
erase_pair [] a b = []
erase_pair ((c, d) ∷ xs) a b =
    let rest = erase_pair xs a b in if eq_pair c d a b then xs else (c, d) ∷ rest

-- The elements before `lower_bound(x)`, and those from it on.
unfoldable pub before : List (ℕ × ℕ) → ℕ → ℕ → List (ℕ × ℕ)
before [] a b = []
before ((c, d) ∷ xs) a b = let rest = before xs a b in if lt_pair c d a b then (c, d) ∷ rest else []

unfoldable pub from : List (ℕ × ℕ) → ℕ → ℕ → List (ℕ × ℕ)
from [] a b = []
from ((c, d) ∷ xs) a b = let rest = from xs a b in if lt_pair c d a b then rest else (c, d) ∷ xs

-- All elements are after the pair.
abbrev pub Above : ℕ → ℕ → List (ℕ × ℕ) → Type 0
Above a b xs = (c d : ℕ) → has xs c d ≡ true → lt_pair a b c d ≡ true

abbrev pub IsOrdered : List (ℕ × ℕ) → Type 0
IsOrdered [] = Unit {0}
IsOrdered ((a, b) ∷ xs) = Above a b xs × IsOrdered xs

pub has-insert_pair :
    (xs : List (ℕ × ℕ)) (a b c d : ℕ)
    → has (insert_pair xs a b) c d ≡ (eq_pair a b c d || has xs c d)
unfolding has insert_pair
has-insert_pair [] a b c d = refl
has-insert_pair ((x, y) ∷ xs) a b c d = ground (arith, has-insert_pair xs a b c d)

pub length-insert_pair :
    (xs : List (ℕ × ℕ)) (a b : ℕ) → length (insert_pair xs a b) ≡ suc (length xs)
unfolding insert_pair
length-insert_pair [] a b = refl
length-insert_pair ((x, y) ∷ xs) a b = ground (arith, length-insert_pair xs a b)

insert_pair-Above :
    (xs : List (ℕ × ℕ)) (x y a b : ℕ)
    → Above x y xs
    → lt_pair x y a b ≡ true
    → Above x y (insert_pair xs a b)
insert_pair-Above xs x y a b v l c d h = ground (arith, has-insert_pair xs a b c d, v c d)

Above-cons :
    (xs : List (ℕ × ℕ)) (x y a b : ℕ)
    → Above x y xs
    → lt_pair a b x y ≡ true
    → Above a b ((x, y) ∷ xs)
unfolding has
Above-cons xs x y a b v l c d h = ground (arith, v c d)

pub insert_pair-IsOrdered :
    (xs : List (ℕ × ℕ)) (a b : ℕ)
    → IsOrdered xs
    → has xs a b ≡ false
    → IsOrdered (insert_pair xs a b)
unfolding insert_pair has
insert_pair-IsOrdered [] a b v n = (λ c d h. ground (arith, h), tt)
insert_pair-IsOrdered ((x, y) ∷ xs) a b (v, w) n =
    ground (
      arith,
      insert_pair-IsOrdered xs a b w,
      insert_pair-Above xs x y a b v,
      Above-cons xs x y a b v,
    )

not_has-Above :
    (xs : List (ℕ × ℕ)) (a b c d : ℕ) → Above a b xs → eq_pair a b c d ≡ true → has xs c d ≡ false
not_has-Above xs a b c d v h = ground (arith, v c d)

pub has-erase_pair :
    (xs : List (ℕ × ℕ)) (a b c d : ℕ)
    → IsOrdered xs
    → has (erase_pair xs a b) c d ≡ (not (eq_pair a b c d) && has xs c d)
unfolding has erase_pair
has-erase_pair [] a b c d v = ground arith
has-erase_pair ((x, y) ∷ xs) a b c d (v, w) =
    ground (arith, has-erase_pair xs a b c d w, not_has-Above xs x y c d v)

pub length-erase_pair :
    (xs : List (ℕ × ℕ)) (a b : ℕ) → has xs a b ≡ true → suc (length (erase_pair xs a b)) ≡ length xs
unfolding has erase_pair
length-erase_pair [] a b h = cc
length-erase_pair ((x, y) ∷ xs) a b h = ground (arith, length-erase_pair xs a b)

erase_pair-Above :
    (xs : List (ℕ × ℕ)) (x y a b : ℕ) → IsOrdered xs → Above x y xs → Above x y (erase_pair xs a b)
erase_pair-Above xs x y a b o v c d h = ground (arith, has-erase_pair xs a b c d o, v c d)

pub erase_pair-IsOrdered :
    (xs : List (ℕ × ℕ)) (a b : ℕ) → IsOrdered xs → IsOrdered (erase_pair xs a b)
unfolding erase_pair
erase_pair-IsOrdered [] a b v = tt
erase_pair-IsOrdered ((x, y) ∷ xs) a b (v, w) =
    ground (arith, w, erase_pair-IsOrdered xs a b w, erase_pair-Above xs x y a b w v)

-- No element after one that is not below the bound is below it.
stays-Above :
    (xs : List (ℕ × ℕ)) (x y a b c d : ℕ)
    → Above x y xs
    → lt_pair x y a b ≡ false
    → (lt_pair c d a b && has xs c d) ≡ false
stays-Above xs x y a b c d v h = ground (arith, v c d)

pub has-before :
    (xs : List (ℕ × ℕ)) (a b c d : ℕ)
    → IsOrdered xs
    → has (before xs a b) c d ≡ (lt_pair c d a b && has xs c d)
unfolding has before
has-before [] a b c d v = ground arith
has-before ((x, y) ∷ xs) a b c d (v, w) =
    ground (arith, has-before xs a b c d w, stays-Above xs x y a b c d v)

pub has-from :
    (xs : List (ℕ × ℕ)) (a b c d : ℕ)
    → IsOrdered xs
    → has (from xs a b) c d ≡ (not (lt_pair c d a b) && has xs c d)
unfolding has from
has-from [] a b c d v = ground arith
has-from ((x, y) ∷ xs) a b c d (v, w) =
    ground (arith, has-from xs a b c d w, stays-Above xs x y a b c d v)

pub append-before-from : (xs : List (ℕ × ℕ)) (a b : ℕ) → (before xs a b ++ from xs a b) ≡ xs
unfolding before from
append-before-from [] a b = refl
append-before-from ((x, y) ∷ xs) a b = ground (arith, append-before-from xs a b)

pub from-IsOrdered : (xs : List (ℕ × ℕ)) (a b : ℕ) → IsOrdered xs → IsOrdered (from xs a b)
unfolding from
from-IsOrdered [] a b v = tt
from-IsOrdered ((x, y) ∷ xs) a b (v, w) = ground (arith, v, w, from-IsOrdered xs a b w)

before-Above :
    (xs : List (ℕ × ℕ)) (x y a b : ℕ) → IsOrdered xs → Above x y xs → Above x y (before xs a b)
before-Above xs x y a b o v c d h = ground (arith, has-before xs a b c d o, v c d)

pub before-IsOrdered : (xs : List (ℕ × ℕ)) (a b : ℕ) → IsOrdered xs → IsOrdered (before xs a b)
unfolding before
before-IsOrdered [] a b v = tt
before-IsOrdered ((x, y) ∷ xs) a b (v, w) =
    ground (arith, before-IsOrdered xs a b w, before-Above xs x y a b w v)
