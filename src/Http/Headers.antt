-- ===== src/Http/Headers.antt =====
-- The `std::map<string, string>` of the headers of HttpRequest.h and HttpResponse.h, as a list of
-- entries in the order of its iteration.
use dserver.Prelude.{
  ℕ, ◌≡◌, refl, inl, inr, Bool, true, false, ◌&&◌, ◌||◌, Option, none, some, List, [], ◌∷◌, ltb,
  ◌==◌, if◌then◌else◌, arith, eq_bytes, eq_bytes_sound, eq_bytes_refl, Bool-cases, subst,
}

abbrev pub Headers : Type 0
Headers = List (List ℕ × List ℕ)

-- `std::less<std::string>`: the bytes compared in order, a proper prefix first.
unfoldable pub lt_bytes : List ℕ → List ℕ → Bool
lt_bytes xs [] = false
lt_bytes [] (y ∷ ys) = true
lt_bytes (x ∷ xs) (y ∷ ys) = ltb x y || (x == y && lt_bytes xs ys)

-- `headers_[field] = value`.
unfoldable pub put : List ℕ → List ℕ → Headers → Headers
put k v [] = (k, v) ∷ []
put k v ((j, w) ∷ m) =
    let rest = put k v m in
    if eq_bytes j k then (k, v) ∷ m else if lt_bytes k j then (k, v) ∷ (j, w) ∷ m else (j, w) ∷ rest

-- `headers_.find(field)`.
unfoldable pub find : List ℕ → Headers → Option (List ℕ)
find k [] = none
find k ((j, w) ∷ m) = if eq_bytes j k then some w else find k m

-- `HttpRequest::getHeader`: the empty string where the field is missing.
unfoldable pub get_header : List ℕ → Headers → List ℕ
unfolding find
get_header k m = elim (find k m) [ none ↦ [] | some v ↦ v ]

-- A store is read back, and every other field keeps its value.
pub find-put :
    (k j v : List ℕ) (m : Headers)
    → find j (put k v m) ≡ (if eq_bytes k j then some v else find j m)
unfolding find put
find-put k j v [] = refl
find-put k j v ((i, w) ∷ m) = ground (
  arith,
  eq_bytes_sound i k,
  eq_bytes_sound k j,
  eq_bytes_sound i j,
  eq_bytes_refl k,
  find-put k j v m,
)

-- A second store of a field takes the place of the first.
pub put-put : (k v w : List ℕ) (m : Headers) → put k v (put k w m) ≡ put k v m
unfolding put
put-put k v w [] = ground (arith, eq_bytes_refl k)
put-put k v w ((j, u) ∷ m) = ground (arith, eq_bytes_refl k, put-put k v w m)

-- The fields stand in strictly ascending order, below which `k` lies.
abbrev pub Above : List ℕ → Headers → Type 0
Above k [] = Unit {0}
Above k ((j, w) ∷ m) = (lt_bytes k j ≡ true) × Above j m

abbrev pub IsSorted : Headers → Type 0
IsSorted [] = Unit {0}
IsSorted ((j, w) ∷ m) = Above j m

lt_bytes-total :
    (xs ys : List ℕ) → eq_bytes ys xs ≡ false → lt_bytes xs ys ≡ false → lt_bytes ys xs ≡ true
unfolding lt_bytes eq_bytes
lt_bytes-total [] [] h k = cc
lt_bytes-total [] (y ∷ ys) h k = cc
lt_bytes-total (x ∷ xs) [] h k = refl
lt_bytes-total (x ∷ xs) (y ∷ ys) h k = ground (arith, lt_bytes-total xs ys)

put-Above : (i k v : List ℕ) (m : Headers) → lt_bytes i k ≡ true → Above i m → Above i (put k v m)
unfolding put
put-Above i k v [] h s = (h, tt)
put-Above i k v ((j, w) ∷ m) h s = elim (Bool-cases (eq_bytes j k)) [
  | inl same ↦ rw (same, put) (h, subst (λ x. Above x m) (eq_bytes_sound j k same) s.1)
  | inr other ↦ elim (Bool-cases (lt_bytes k j)) [
    | inl before ↦ rw (other, before, put) (h, (before, s.1))
    | inr after ↦
        rw (other, after, put) (s.0, put-Above j k v m (lt_bytes-total k j other after) s.1)
  ]
]

-- `headers_[field] = value` keeps the map in order.
pub put-IsSorted : (k v : List ℕ) (m : Headers) → IsSorted m → IsSorted (put k v m)
unfolding put
put-IsSorted k v [] s = tt
put-IsSorted k v ((j, w) ∷ m) s = elim (Bool-cases (eq_bytes j k)) [
  | inl same ↦ rw (same, put) (subst (λ x. Above x m) (eq_bytes_sound j k same) s)
  | inr other ↦ elim (Bool-cases (lt_bytes k j)) [
    | inl before ↦ rw (other, before, put) (before, s)
    | inr after ↦ rw (other, after, put) (put-Above j k v m (lt_bytes-total k j other after) s)
  ]
]
