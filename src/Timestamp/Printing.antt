-- ===== src/Timestamp/Printing.antt =====
-- base/Timestamp.cc: the number of bytes of a date, and `toString`, read back.
use dserver.Prelude.{
  ℕ, zero, suc, ◌+◌, ◌-◌, ◌*◌, ◌^◌, ◌%◌, ◌/◌, ◌≤◌, ◌<◌, ◌≡◌, refl, ap, ap₂, ◌∙◌, inl, inr, List, [],
  ◌∷◌, ◌++◌, ltb, codes, digits, decimal, length, drop, replicate, arith, Bool-cases, length-append,
  length-replicate, length-decimal, decimal-Lacks, take_past, break_at, break_at-hit,
}
use dserver.LogStream.Convert.{from_digits}
use dserver.Timestamp.{
  per_second, Timestamp, from_unix_time, padded, snprintf, to_string, Tm, date_text,
}

pub length-padded : (fill w n : ℕ) → n < 10 ^ suc w → length (padded fill (suc w) n) ≡ suc w
unfolding padded
length-padded fill w n h = omega (
  arith,
  length-append (replicate (suc w - length (decimal n)) fill) (decimal n),
  length-replicate (suc w - length (decimal n)) fill,
  length-decimal w n h,
)

-- The fields of a date of our era before the year 10000.
pub record IsCivil (tm : Tm) : Type 0 where
  pub year : tm.tm_year + 1900 < 10000
  pub month : tm.tm_mon < 12
  pub day : tm.tm_mday < 32
  pub hour : tm.tm_hour < 24
  pub minute : tm.tm_min < 60
  pub second : tm.tm_sec < 61

append_lengths :
    (xs ys : List ℕ) {m n : ℕ} → length xs ≡ m → length ys ≡ n → length (xs ++ ys) ≡ m + n
append_lengths xs ys h k = omega (arith, length-append xs ys, h, k)

two_digits : (n : ℕ) → n < 100 → length (padded 48 2 n) ≡ 2
two_digits n h = length-padded 48 1 n h

pub length-date_text : (tm : Tm) → IsCivil tm → length (date_text tm) ≡ 17
unfolding date_text
length-date_text tm c =
    let year = length-padded 32 3 (tm.tm_year + 1900) c.year in
    let month = two_digits (tm.tm_mon + 1) (omega (arith, c.month)) in
    let day = two_digits tm.tm_mday (omega (arith, c.day)) in
    let hour = two_digits tm.tm_hour (omega (arith, c.hour)) in
    let minute = two_digits tm.tm_min (omega (arith, c.minute)) in
    let second = two_digits tm.tm_sec (omega (arith, c.second)) in
    append_lengths _ _ year (
      append_lengths _ _ month (
        append_lengths _ _ day (
          append_lengths (codes " ") _ refl (
            append_lengths _ _ hour (
              append_lengths (codes ":") _ refl
                (append_lengths _ _ minute (append_lengths (codes ":") _ refl second)))))))

from_digits-digits :
    (fuel n : ℕ) (after : List ℕ)
    → n < fuel
    → from_digits 10 0 (digits fuel n after) ≡ from_digits 10 n after
unfolding digits
from_digits-digits zero n after h = absurd (omega arith)
from_digits-digits (suc fuel) n after h = elim (Bool-cases (ltb n 10)) [
  | inl b ↦ rw b (ap (λ v. from_digits 10 v after) (ground (arith, b)))
  | inr b ↦ rw b (
      from_digits-digits fuel (n / 10) ((48 + n % 10) ∷ after) (ground (arith, b, h))
      ∙ ap (λ v. from_digits 10 v after) (ground (arith)))
]

pub from_digits-decimal : (n : ℕ) → from_digits 10 0 (decimal n) ≡ n
unfolding decimal
from_digits-decimal n = from_digits-digits (suc n) n [] (omega arith)

from_digits-replicate :
    (k : ℕ) (xs : List ℕ) → from_digits 10 0 (replicate k 48 ++ xs) ≡ from_digits 10 0 xs
from_digits-replicate zero xs = refl
from_digits-replicate (suc k) xs = from_digits-replicate k xs

from_digits-padded : (w n : ℕ) → from_digits 10 0 (padded 48 w n) ≡ n
unfolding padded
from_digits-padded w n =
    from_digits-replicate (w - length (decimal n)) (decimal n) ∙ from_digits-decimal n

-- Seconds and microseconds with a point between them.
abbrev read_time : List ℕ → Timestamp
read_time text =
    let (seconds, rest) = break_at 46 text in
    from_unix_time (from_digits 10 0 seconds) (from_digits 10 0 (drop 1 rest))

-- The text of a time of at most 63 bits, which its block has room for, reads back as the time.
read_time-to_string :
    (t : Timestamp)
    → t.micro_seconds_since_epoch < 9223372036854775808
    → read_time (to_string t) ≡ t
unfolding to_string snprintf from_unix_time
read_time-to_string t h =
    let seconds = decimal (t.micro_seconds_since_epoch / per_second) in
    let micros = padded 48 6 (t.micro_seconds_since_epoch % per_second) in
    let fits : length (seconds ++ (codes "." ++ micros)) ≤ 31 = omega (
      arith,
      length-append seconds (codes "." ++ micros),
      length-decimal 12 (t.micro_seconds_since_epoch / per_second) (omega (arith, h)),
      length-padded 48 5 (t.micro_seconds_since_epoch % per_second) (omega arith),
    ) in
    ap read_time (take_past 31 (seconds ++ (codes "." ++ micros)) fits)
    ∙ ap (λ p. from_unix_time (from_digits 10 0 p.0) (from_digits 10 0 (drop 1 p.1)))
        (break_at-hit 46 seconds micros
          (decimal-Lacks 46 (t.micro_seconds_since_epoch / per_second) (omega arith)))
    ∙ ap₂ from_unix_time (from_digits-decimal (t.micro_seconds_since_epoch / per_second))
        (from_digits-padded 6 (t.micro_seconds_since_epoch % per_second))
    ∙ ap (λ m. record { micro_seconds_since_epoch = m })
        {x = t.micro_seconds_since_epoch / 1000000 * 1000000
          + t.micro_seconds_since_epoch % 1000000}
        {y = t.micro_seconds_since_epoch} (omega arith)
