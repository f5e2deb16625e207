-- ===== src/LogStream/Convert.antt =====
-- base/LogStream.cc, `convert` and `convertHex`: the digits, read back, and their number.
use dserver.Prelude.{
  ℕ, zero, suc, ◌+◌, ◌-◌, ◌*◌, ◌%◌, ◌/◌, ◌≤◌, ◌<◌, ◌≡◌, refl, ap, ◌∙◌, inl, inr, Bool, true, false,
  List, [], ◌∷◌, ◌++◌, ltb, ◌==◌, if◌then◌else◌, length, arith, ◌≢◌, Lacks, Lacks-append,
  Bool-cases, length-append, append-nil,
}
use dserver.LogStream.{
  ℤ, pos, negsuc, negative, quot_ten, rem_ten, is_zero, magnitude, char_at, digits, zero_at,
  digits_hex, reverse, convert_digits, convert, convert_hex_digits, convert_hex,
}

-- The number that digits in the given base stand for, from the first digit on; letters are those
-- from `A` on.
abbrev pub digit_value : ℕ → ℕ
digit_value c = if ltb c 58 then c - 48 else c - 55

abbrev pub from_digits : ℕ → ℕ → List ℕ → ℕ
from_digits base acc [] = acc
from_digits base acc (c ∷ cs) = from_digits base (acc * base + digit_value c) cs

-- The number of a text with a sign, or with none.
abbrev pub number_of : List ℕ → ℤ
number_of [] = pos 0
number_of (c ∷ cs) =
    if c == 45 then negative (from_digits 10 0 cs) else pos (from_digits 10 0 (c ∷ cs))

-- The digits in the order in which the loops write them.
abbrev low_value : ℕ → List ℕ → ℕ
low_value base [] = 0
low_value base (c ∷ cs) = low_value base cs * base + digit_value c

from_digits-append :
    (base acc : ℕ) (xs : List ℕ) (c : ℕ)
    → from_digits base acc (xs ++ (c ∷ [])) ≡ from_digits base acc xs * base + digit_value c
from_digits-append base acc [] c = refl
from_digits-append base acc (x ∷ xs) c = from_digits-append base (acc * base + digit_value x) xs c

from_digits-reverse : (base : ℕ) (xs : List ℕ) → from_digits base 0 (reverse xs) ≡ low_value base xs
from_digits-reverse base [] = refl
from_digits-reverse base (c ∷ cs) =
    from_digits-append base 0 (reverse cs) c
    ∙ ap (λ v. v * base + digit_value c) (from_digits-reverse base cs)

abbrev all_below : (ℕ → Bool) → ℕ → Bool
all_below f zero = true
all_below f (suc n) = let rest = all_below f n in if f n then rest else false

all_below-lt : (f : ℕ → Bool) (n d : ℕ) → all_below f n ≡ true → d < n → f d ≡ true
all_below-lt f zero d h k = absurd (omega arith)
all_below-lt f (suc n) d h k = elim (Bool-cases (d == n)) [
  | inl e ↦ ground (arith, h, e)
  | inr e ↦ all_below-lt f n d (ground (arith, h)) (ground (arith, k, e))
]

digit_lem : (d : ℕ) → d < 10 → char_at digits (9 + d) ≡ 48 + d
digit_lem d h = ground (arith, all_below-lt (λ n. char_at digits (9 + n) == 48 + n) 10 d refl h)

mirrored_digit_lem : (d : ℕ) → d < 10 → char_at digits (9 - d) ≡ 48 + d
mirrored_digit_lem d h =
    ground (arith, all_below-lt (λ n. char_at digits (9 - n) == 48 + n) 10 d refl h)

hex_digit_lem : (d : ℕ) → d < 16 → digit_value (char_at digits_hex d) ≡ d
hex_digit_lem d h =
    ground (arith, all_below-lt (λ n. digit_value (char_at digits_hex n) == n) 16 d refl h)

zero_at-negative : (d : ℕ) → d < 10 → zero_at (negative d) ≡ 48 + d
zero_at-negative zero h = digit_lem 0 h
zero_at-negative (suc d) h = mirrored_digit_lem (suc d) h

magnitude-negative : (n : ℕ) → magnitude (negative n) ≡ n
magnitude-negative zero = refl
magnitude-negative (suc n) = refl

-- A digit of `convert`.
zero_at_lem : (v : ℤ) → zero_at (rem_ten v) ≡ 48 + magnitude v % 10
zero_at_lem (pos n) = digit_lem (n % 10) (omega arith)
zero_at_lem (negsuc n) = zero_at-negative (suc n % 10) (omega arith)

magnitude-quot_ten : (v : ℤ) → magnitude (quot_ten v) ≡ magnitude v / 10
magnitude-quot_ten (pos n) = refl
magnitude-quot_ten (negsuc n) = magnitude-negative (suc n / 10)

is_zero_lem : (v : ℤ) → is_zero v ≡ (magnitude v == 0)
is_zero_lem (pos n) = refl
is_zero_lem (negsuc n) = ground arith

low_value-convert_digits :
    (fuel : ℕ) (v : ℤ) → magnitude v < fuel → low_value 10 (convert_digits fuel v) ≡ magnitude v
unfolding convert_digits
low_value-convert_digits zero v h = absurd (omega arith)
low_value-convert_digits (suc fuel) v h =
    let m = magnitude-quot_ten v in
    let z = is_zero_lem (quot_ten v) in
    let d = zero_at_lem v in
    elim (Bool-cases (is_zero (quot_ten v))) [
      | inl y ↦ ground (arith, y, m, z, d)
      | inr y ↦ ground (
        arith,
        y,
        m,
        z,
        d,
        low_value-convert_digits fuel (quot_ten v) (ground (arith, y, m, z, h)),
      )
    ]

convert_digits-Lacks : (fuel : ℕ) (v : ℤ) → Lacks 45 (convert_digits fuel v)
unfolding convert_digits
convert_digits-Lacks zero v = tt
convert_digits-Lacks (suc fuel) v =
    let first : zero_at (rem_ten v) ≢ 45 = λ e. omega (arith, e, zero_at_lem v) in
    elim (Bool-cases (is_zero (quot_ten v))) [
      | inl y ↦ (first, rw y tt)
      | inr y ↦ (first, rw y (convert_digits-Lacks fuel (quot_ten v)))
    ]

reverse-Lacks : (c : ℕ) (xs : List ℕ) → Lacks c xs → Lacks c (reverse xs)
reverse-Lacks c [] h = tt
reverse-Lacks c (x ∷ xs) (n, h) =
    Lacks-append c (reverse xs) (x ∷ []) (reverse-Lacks c xs h) (n, tt)

reverse-append_one : (xs : List ℕ) (c : ℕ) → reverse (xs ++ (c ∷ [])) ≡ c ∷ reverse xs
reverse-append_one [] c = refl
reverse-append_one (x ∷ xs) c = ap (λ l. l ++ (x ∷ [])) (reverse-append_one xs c)

number_of-Lacks : (xs : List ℕ) → Lacks 45 xs → number_of xs ≡ pos (from_digits 10 0 xs)
number_of-Lacks [] h = refl
number_of-Lacks (x ∷ xs) (n, h) = ground (arith, n)

convert_digits_lem :
    (v : ℤ) → from_digits 10 0 (reverse (convert_digits (suc (magnitude v)) v)) ≡ magnitude v
convert_digits_lem v =
    from_digits-reverse 10 (convert_digits (suc (magnitude v)) v)
    ∙ low_value-convert_digits (suc (magnitude v)) v (omega arith)

-- The text of an integer, read as a number with a sign or with none, is the integer.
pub number_of-convert : (v : ℤ) → number_of (convert v) ≡ v
unfolding convert
number_of-convert (pos n) =
    let ds = convert_digits (suc n) (pos n) in
    ap (λ xs. number_of (reverse xs)) (append-nil ds)
    ∙ number_of-Lacks (reverse ds) (reverse-Lacks 45 ds (convert_digits-Lacks (suc n) (pos n)))
    ∙ ap pos (convert_digits_lem (pos n))
number_of-convert (negsuc n) =
    let ds = convert_digits (suc (suc n)) (negsuc n) in
    ap number_of (reverse-append_one ds 45) ∙ ap negative (convert_digits_lem (negsuc n))

low_value-convert_hex_digits :
    (fuel i : ℕ) → i < fuel → low_value 16 (convert_hex_digits fuel i) ≡ i
unfolding convert_hex_digits
low_value-convert_hex_digits zero i h = absurd (omega arith)
low_value-convert_hex_digits (suc fuel) i h =
    let d = hex_digit_lem (i % 16) (omega arith) in
    elim (Bool-cases (i / 16 == 0)) [
      | inl y ↦ ground (arith, y, d)
      | inr y ↦
          ground (arith, y, d, low_value-convert_hex_digits fuel (i / 16) (ground (arith, y, h)))
    ]

-- The text of an address, read as a number in base 16, is the address.
from_digits-convert_hex : (i : ℕ) → from_digits 16 0 (convert_hex i) ≡ i
unfolding convert_hex
from_digits-convert_hex i =
    from_digits-reverse 16 (convert_hex_digits (suc i) i)
    ∙ low_value-convert_hex_digits (suc i) i (omega arith)

length-reverse : (xs : List ℕ) → length (reverse xs) ≡ length xs
length-reverse [] = refl
length-reverse (x ∷ xs) = omega (arith, length-append (reverse xs) (x ∷ []), length-reverse xs)

abbrev pub to_the : ℕ → ℕ → ℕ
to_the base zero = 1
to_the base (suc k) = base * to_the base k

length-convert_digits :
    (fuel k : ℕ) (v : ℤ) → magnitude v < to_the 10 (suc k) → length (convert_digits fuel v) ≤ suc k
unfolding convert_digits
length-convert_digits zero k v h = omega arith
length-convert_digits (suc fuel) zero v h =
    let m = magnitude-quot_ten v in
    let z = is_zero_lem (quot_ten v) in
    let y : is_zero (quot_ten v) ≡ true = ground (arith, h, m, z) in rw y (omega arith)
length-convert_digits (suc fuel) (suc k) v h =
    let m = magnitude-quot_ten v in
    let rest = length-convert_digits fuel k (quot_ten v) (omega (arith, h, m)) in
    elim (Bool-cases (is_zero (quot_ten v))) [
      | inl y ↦ rw y (omega arith)
      | inr y ↦ rw y (omega (arith, rest))
    ]

length-convert_hex_digits :
    (fuel k i : ℕ) → i < to_the 16 (suc k) → length (convert_hex_digits fuel i) ≤ suc k
unfolding convert_hex_digits
length-convert_hex_digits zero k i h = omega arith
length-convert_hex_digits (suc fuel) zero i h = ground (arith, h)
length-convert_hex_digits (suc fuel) (suc k) i h =
    ground (arith, length-convert_hex_digits fuel k (i / 16) (omega (arith, h)))

-- An integer of 64 bits, signed or not.
abbrev pub IsWord : ℤ → Type 0
IsWord (pos n) = n < 18446744073709551616
IsWord (negsuc n) = suc n ≤ 9223372036854775808

pub length-convert : (v : ℤ) → IsWord v → length (convert v) ≤ 20
unfolding convert
length-convert (pos n) h =
    let ds = convert_digits (suc n) (pos n) in
    omega (
      arith,
      length-reverse (ds ++ []),
      length-append ds [],
      length-convert_digits (suc n) 19 (pos n) (omega (arith, h)),
    )
length-convert (negsuc n) h =
    let ds = convert_digits (suc (suc n)) (negsuc n) in
    omega (
      arith,
      length-reverse (ds ++ (45 ∷ [])),
      length-append ds (45 ∷ []),
      length-convert_digits (suc (suc n)) 18 (negsuc n) (omega (arith, h)),
    )

pub length-convert_hex : (i : ℕ) → i < 18446744073709551616 → length (convert_hex i) ≤ 16
unfolding convert_hex
length-convert_hex i h = omega (
  arith,
  length-reverse (convert_hex_digits (suc i) i),
  length-convert_hex_digits (suc i) 15 i (omega (arith, h)),
)
