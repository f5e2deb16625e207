-- ===== src/Prelude/Lists.antt =====
-- Lists with native indices: the blocks of memory that the components read and write.
use Prim.Native.Nat.{ℕ, zero, suc, ◌+◌, ◌-◌, ◌≤◌}
use mathlib.Core.Path.{◌≡◌, refl, sym, ap, ◌∙◌}
use mathlib.Core.List.{List, [], ◌∷◌, ◌++◌}
use native.Mathlib.Omega.{arith}

module _ {ℓ} {A : Type ℓ} where
  abbrev pub length : List A → ℕ
  length [] = 0
  length (x ∷ xs) = suc (length xs)

  abbrev pub take : ℕ → List A → List A
  take zero xs = []
  take (suc n) [] = []
  take (suc n) (x ∷ xs) = x ∷ take n xs

  abbrev pub drop : ℕ → List A → List A
  drop zero xs = xs
  drop (suc n) [] = []
  drop (suc n) (x ∷ xs) = drop n xs

  abbrev pub replicate : ℕ → A → List A
  replicate zero x = []
  replicate (suc n) x = x ∷ replicate n x

  -- The `n` items from index `i` on.
  abbrev pub slice : ℕ → ℕ → List A → List A
  slice i n xs = take n (drop i xs)

  -- `std::copy` of `ds` to index `i`; what falls past the end is lost.
  unfoldable pub write_at : ℕ → List A → List A → List A
  write_at i ds [] = []
  write_at zero [] (x ∷ xs) = x ∷ xs
  write_at zero (d ∷ ds) (x ∷ xs) = d ∷ write_at zero ds xs
  write_at (suc i) ds (x ∷ xs) = x ∷ write_at i ds xs

  pub length-append : (xs ys : List A) → length (xs ++ ys) ≡ length xs + length ys
  length-append [] ys = omega arith
  length-append (x ∷ xs) ys = omega (arith, length-append xs ys)

  pub length-replicate : (n : ℕ) (x : A) → length (replicate n x) ≡ n
  length-replicate zero x = refl
  length-replicate (suc n) x = ap suc (length-replicate n x)

  pub length-take : (n : ℕ) (xs : List A) → n ≤ length xs → length (take n xs) ≡ n
  length-take zero xs h = refl
  length-take (suc n) [] h = absurd (omega arith)
  length-take (suc n) (x ∷ xs) h = ap suc (length-take n xs (omega arith))

  pub length-take-le : (n : ℕ) (xs : List A) → length (take n xs) ≤ n
  length-take-le zero xs = omega arith
  length-take-le (suc n) [] = omega arith
  length-take-le (suc n) (x ∷ xs) = omega (arith, length-take-le n xs)

  pub length-drop : (n : ℕ) (xs : List A) → length (drop n xs) ≡ length xs - n
  length-drop zero xs = omega arith
  length-drop (suc n) [] = omega arith
  length-drop (suc n) (x ∷ xs) = omega (arith, length-drop n xs)

  pub length-slice : (i n : ℕ) (xs : List A) → i + n ≤ length xs → length (slice i n xs) ≡ n
  length-slice i n xs h = length-take n (drop i xs) (omega (arith, length-drop i xs))

  pub length-write_at : (i : ℕ) (ds xs : List A) → length (write_at i ds xs) ≡ length xs
  unfolding write_at
  length-write_at i ds [] = refl
  length-write_at zero [] (x ∷ xs) = refl
  length-write_at zero (d ∷ ds) (x ∷ xs) = ap suc (length-write_at zero ds xs)
  length-write_at (suc i) ds (x ∷ xs) = ap suc (length-write_at i ds xs)

  pub take_past : (n : ℕ) (xs : List A) → length xs ≤ n → take n xs ≡ xs
  take_past zero [] h = refl
  take_past zero (x ∷ xs) h = absurd (omega arith)
  take_past (suc n) [] h = refl
  take_past (suc n) (x ∷ xs) h = ap (◌∷◌ x) (take_past n xs (omega arith))

  pub drop_past : (n : ℕ) (xs : List A) → length xs ≤ n → drop n xs ≡ []
  drop_past zero [] h = refl
  drop_past zero (x ∷ xs) h = absurd (omega arith)
  drop_past (suc n) [] h = refl
  drop_past (suc n) (x ∷ xs) h = drop_past n xs (omega arith)

  pub take-drop : (n : ℕ) (xs : List A) → take n xs ++ drop n xs ≡ xs
  take-drop zero xs = refl
  take-drop (suc n) [] = refl
  take-drop (suc n) (x ∷ xs) = ap (◌∷◌ x) (take-drop n xs)

  pub take-append : (n : ℕ) (xs ys : List A) → n ≤ length xs → take n (xs ++ ys) ≡ take n xs
  take-append zero xs ys h = refl
  take-append (suc n) [] ys h = absurd (omega arith)
  take-append (suc n) (x ∷ xs) ys h = ap (◌∷◌ x) (take-append n xs ys (omega arith))

  pub take-length-append : (xs ys : List A) → take (length xs) (xs ++ ys) ≡ xs
  take-length-append [] ys = refl
  take-length-append (x ∷ xs) ys = ap (◌∷◌ x) (take-length-append xs ys)

  pub drop-length-append : (xs ys : List A) → drop (length xs) (xs ++ ys) ≡ ys
  drop-length-append [] ys = refl
  drop-length-append (x ∷ xs) ys = drop-length-append xs ys

  pub slice-append :
      (i n : ℕ) (xs ys : List A) → i + n ≤ length xs → slice i n (xs ++ ys) ≡ slice i n xs
  slice-append zero n xs ys h = take-append n xs ys (omega arith)
  slice-append (suc i) zero [] ys h = absurd (omega arith)
  slice-append (suc i) (suc n) [] ys h = absurd (omega arith)
  slice-append (suc i) n (x ∷ xs) ys h = slice-append i n xs ys (omega arith)

  pub take-nil : (n : ℕ) → take n [] ≡ []
  take-nil zero = refl
  take-nil (suc n) = refl

  pub drop-nil : (n : ℕ) → drop n [] ≡ []
  drop-nil zero = refl
  drop-nil (suc n) = refl

  pub drop-drop : (k i : ℕ) (ys : List A) → drop k (drop i ys) ≡ drop (i + k) ys
  drop-drop k zero ys = ap (λ m. drop m ys) (omega arith)
  drop-drop k (suc i) [] = drop-nil k ∙ sym (drop-nil (suc i + k))
  drop-drop k (suc i) (y ∷ ys) =
      drop-drop k i ys ∙ ap (λ m. drop m (y ∷ ys)) {x = suc (i + k)} {y = suc i + k} (omega arith)

  drop-take : (k n : ℕ) (ys : List A) → k ≤ n → drop k (take n ys) ≡ take (n - k) (drop k ys)
  drop-take zero n ys h = ap (λ m. take m ys) (omega arith)
  drop-take (suc k) zero ys h = absurd (omega arith)
  drop-take (suc k) (suc n) [] h = sym (take-nil (suc n - suc k))
  drop-take (suc k) (suc n) (y ∷ ys) h =
      drop-take k n ys (omega arith)
      ∙ ap (λ m. take m (drop k ys)) {x = n - k} {y = suc n - suc k} (omega arith)

  -- A slice less its first `k` items.
  pub drop-slice :
      (k i n : ℕ) (xs : List A) → k ≤ n → drop k (slice i n xs) ≡ slice (i + k) (n - k) xs
  drop-slice k i n xs h = drop-take k n (drop i xs) h ∙ ap (take (n - k)) (drop-drop k i xs)

  take-take : (k n : ℕ) (ys : List A) → k ≤ n → take k (take n ys) ≡ take k ys
  take-take zero n ys h = refl
  take-take (suc k) zero ys h = absurd (omega arith)
  take-take (suc k) (suc n) [] h = refl
  take-take (suc k) (suc n) (y ∷ ys) h = ap (◌∷◌ y) (take-take k n ys (omega arith))

  -- The first `k` items of a slice.
  pub take-slice : (k i n : ℕ) (xs : List A) → k ≤ n → take k (slice i n xs) ≡ slice i k xs
  take-slice k i n xs h = take-take k n (drop i xs) h

  -- Writing leaves what lies in front of it.
  pub slice-write_at_before :
      (i n p : ℕ) (ds xs : List A) → i + n ≤ p → slice i n (write_at p ds xs) ≡ slice i n xs
  unfolding write_at
  slice-write_at_before i n p ds [] h = refl
  slice-write_at_before i zero zero ds (x ∷ xs) h = refl
  slice-write_at_before i (suc n) zero ds (x ∷ xs) h = absurd (omega arith)
  slice-write_at_before zero zero (suc p) ds (x ∷ xs) h = refl
  slice-write_at_before zero (suc n) (suc p) ds (x ∷ xs) h =
      ap (◌∷◌ x) (slice-write_at_before zero n p ds xs (omega arith))
  slice-write_at_before (suc i) n (suc p) ds (x ∷ xs) h =
      slice-write_at_before i n p ds xs (omega arith)

  write_at_front :
      (ds xs : List A) → length ds ≤ length xs → write_at zero ds xs ≡ ds ++ drop (length ds) xs
  unfolding write_at
  write_at_front [] [] h = refl
  write_at_front [] (x ∷ xs) h = refl
  write_at_front (d ∷ ds) [] h = absurd (omega arith)
  write_at_front (d ∷ ds) (x ∷ xs) h = ap (◌∷◌ d) (write_at_front ds xs (omega arith))

  -- What is written is read back, with the `n` items in front of it.
  pub slice-write_at :
      (i n p : ℕ) (ds xs : List A)
      → p ≡ i + n
      → p + length ds ≤ length xs
      → slice i (n + length ds) (write_at p ds xs) ≡ slice i n xs ++ ds
  unfolding write_at
  slice-write_at zero zero zero ds xs e h =
      ap (λ m. take m (write_at zero ds xs)) {x = zero + length ds} {y = length ds} (omega arith)
      ∙ ap (take (length ds)) (write_at_front ds xs (omega arith))
      ∙ take-length-append ds (drop (length ds) xs)
  slice-write_at zero zero (suc p) ds xs e h = absurd (omega arith)
  slice-write_at zero (suc n) zero ds xs e h = absurd (omega arith)
  slice-write_at zero (suc n) (suc p) ds [] e h = absurd (omega arith)
  slice-write_at zero (suc n) (suc p) ds (x ∷ xs) e h =
      ap (λ m. take m (x ∷ write_at p ds xs)) {x = suc n + length ds} {y = suc (n + length ds)}
        (omega arith)
      ∙ ap (◌∷◌ x) (slice-write_at zero n p ds xs (omega arith) (omega arith))
  slice-write_at (suc i) n zero ds xs e h = absurd (omega arith)
  slice-write_at (suc i) n (suc p) ds [] e h = absurd (omega arith)
  slice-write_at (suc i) n (suc p) ds (x ∷ xs) e h =
      slice-write_at i n p ds xs (omega arith) (omega arith)

  take_more : (n : ℕ) (ds xs : List A) → take (length ds + n) (ds ++ xs) ≡ ds ++ take n xs
  take_more n [] xs = ap (λ m. take m xs) {x = 0 + n} {y = n} (omega arith)
  take_more n (d ∷ ds) xs =
      ap (λ m. take m (d ∷ ds ++ xs)) {x = suc (length ds) + n} {y = suc (length ds + n)}
        (omega arith)
      ∙ ap (◌∷◌ d) (take_more n ds xs)

  -- What is written is read back, with the `n` items behind it.
  pub slice-write_at_over :
      (i n : ℕ) (ds xs : List A)
      → i + length ds ≤ length xs
      → slice i (length ds + n) (write_at i ds xs) ≡ ds ++ slice (i + length ds) n xs
  unfolding write_at
  slice-write_at_over zero n ds xs h =
      ap (take (length ds + n)) (write_at_front ds xs (omega arith))
      ∙ take_more n ds (drop (length ds) xs)
      ∙ ap (λ m. ds ++ slice m n xs) {x = length ds} {y = zero + length ds} (omega arith)
  slice-write_at_over (suc i) n ds [] h = absurd (omega arith)
  slice-write_at_over (suc i) n ds (x ∷ xs) h =
      slice-write_at_over i n ds xs (omega arith)
      ∙ ap (λ m. ds ++ slice m n (x ∷ xs)) {x = suc (i + length ds)} {y = suc i + length ds}
          (omega arith)
