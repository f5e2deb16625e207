-- ===== src/Prelude/Decimal.antt =====
-- The digits of a number: their bytes, their number, and the number they stand for.
use Prim.Native.Nat.{ℕ, zero, suc, ◌+◌, ◌^◌, ◌/◌, ◌%◌, ◌≤◌, ◌<◌}
use mathlib.Core.Logic.{inl, inr}
use mathlib.Core.List.{List, [], ◌∷◌}
use mathlib.Core.Path.{◌≡◌}
use mathlib.Core.Bool.{false}
use native.Mathlib.Omega.{arith}
use dserver.Prelude.Tests.{ltb, Bool-cases}
use dserver.Prelude.Lists.{length}
use dserver.Prelude.Text.{Lacks, digits, decimal}

-- No digit is a byte below '0'.
pub digits-Lacks :
    (c fuel n : ℕ) (after : List ℕ) → c < 48 → Lacks c after → Lacks c (digits fuel n after)
unfolding digits
digits-Lacks c zero n after k h = h
digits-Lacks c (suc fuel) n after k h = elim (Bool-cases (ltb n 10)) [
  | inl b ↦ rw b ((λ e. omega arith), h)
  | inr b ↦ rw b (digits-Lacks c fuel (n / 10) ((48 + n % 10) ∷ after) k ((λ e. omega arith), h))
]

pub decimal-Lacks : (c n : ℕ) → c < 48 → Lacks c (decimal n)
unfolding decimal
decimal-Lacks c n k = digits-Lacks c (suc n) n [] k tt

length-digits :
    (w fuel n : ℕ) (after : List ℕ)
    → n < 10 ^ suc w
    → n < fuel
    → length (digits fuel n after) ≤ suc w + length after
unfolding digits
length-digits w zero n after h k = absurd (omega arith)
length-digits zero (suc fuel) n after h k = ground (arith, h)
length-digits (suc w) (suc fuel) n after h k = elim (Bool-cases (ltb n 10)) [
  | inl b ↦ rw b (omega arith)
  | inr b ↦
      let below : n / 10 < 10 ^ suc w = omega (arith, h) in
      let shorter : n / 10 < fuel = ground (arith, b, k) in
      rw b (omega (arith, length-digits w fuel (n / 10) ((48 + n % 10) ∷ after) below shorter))
]

pub length-decimal : (w n : ℕ) → n < 10 ^ suc w → length (decimal n) ≤ suc w
unfolding decimal
length-decimal w n h = omega (arith, length-digits w (suc n) n [] h (omega arith))

power_pos : (w : ℕ) → 1 ≤ 10 ^ w
power_pos zero = omega arith
power_pos (suc w) = omega (arith, power_pos w)

length-digits_ge :
    (w fuel n : ℕ) (after : List ℕ)
    → 10 ^ w ≤ n
    → n < fuel
    → suc w + length after ≤ length (digits fuel n after)
unfolding digits
length-digits_ge w zero n after h k = absurd (omega arith)
length-digits_ge zero (suc fuel) n after h k = elim (Bool-cases (ltb n 10)) [
  | inl b ↦ rw b (omega arith)
  | inr b ↦
      let shorter : n / 10 < fuel = ground (arith, b, k) in
      let some_left : 10 ^ 0 ≤ n / 10 = ground (arith, b) in
      rw b (
        omega
          (arith, length-digits_ge zero fuel (n / 10) ((48 + n % 10) ∷ after) some_left shorter))
]
length-digits_ge (suc w) (suc fuel) n after h k =
    let ten : ltb n 10 ≡ false = ground (arith, h, power_pos w) in
    let above : 10 ^ w ≤ n / 10 = omega (arith, h) in
    let shorter : n / 10 < fuel = ground (arith, ten, k) in
    rw ten (omega (arith, length-digits_ge w fuel (n / 10) ((48 + n % 10) ∷ after) above shorter))

-- A number of more digits takes more bytes.
pub length-decimal_ge : (w n : ℕ) → 10 ^ w ≤ n → suc w ≤ length (decimal n)
unfolding decimal
length-decimal_ge w n h = omega (arith, length-digits_ge w (suc n) n [] h (omega arith))
