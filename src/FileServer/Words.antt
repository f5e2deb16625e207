-- ===== src/FileServer/Words.antt =====
-- fileServer/fileServer.cc: its `int`s, which are words of 32 bits whose upper half is negative, and
-- the strings that it makes from parts of others. `none` is an exception, or a sum that overflows.
use dserver.Prelude.{
  ℕ, ◌+◌, ◌-◌, ◌*◌, ◌/◌, ◌%◌, ◌≤◌, ◌<◌, ◌≡◌, Bool, true, false, not, ◌&&◌, Option, none, some, List,
  [], ◌∷◌, ◌++◌, leb, if◌then◌else◌, ◌>>◌, assert, length, take, drop, arith,
}

-- The `int32_t` at an address.
abbrev pub int_at : List ℕ → ℕ
int_at (a ∷ b ∷ c ∷ d ∷ _) = a + (256 * b + (65536 * c + 16777216 * d))
int_at _ = 0

abbrev pub is_below_zero : ℕ → Bool
is_below_zero n = leb 2147483648 n

-- The conversion to `size_t`.
abbrev pub to_size : ℕ → ℕ
to_size n = if is_below_zero n then n + 18446744069414584320 else n

abbrev pub same : Bool → Bool → Bool
same true b = b
same false b = not b

unfoldable pub add_int : ℕ → ℕ → Option ℕ
add_int a b =
    let sum = (a + b) % 4294967296 in
    if same (is_below_zero a) (is_below_zero b) && not (same (is_below_zero sum) (is_below_zero a))
    then none
    else some sum

unfoldable pub sub_int : ℕ → ℕ → Option ℕ
sub_int a b =
    let difference = (a + 4294967296 - b) % 4294967296 in
    if not (same (is_below_zero a) (is_below_zero b))
      && not (same (is_below_zero difference) (is_below_zero a))
    then none
    else some difference

-- `substr`, which throws past the end.
unfoldable pub substr : List ℕ → ℕ → ℕ → Option (List ℕ)
substr s pos n = do assert (leb pos (length s)); some (take n (drop pos s))

-- `string(p, len)`, which throws if the length, as a `size_t`, is over `max_size()`.
unfoldable pub new_string : List ℕ → ℕ → Option (List ℕ)
new_string bytes len = do
  assert (leb (to_size len) 9223372036854775807)
  some (take (to_size len) bytes)

-- `*(int*)s.c_str()`: a string of three bytes has its NUL for the fourth, and past that there is
-- nothing that the standard defines.
unfoldable pub read_int : List ℕ → Option ℕ
read_int s = do assert (leb 3 (length s)); some (int_at (s ++ (0 ∷ [])))

pub add_int_lem : (a b : ℕ) → a + b < 2147483648 → add_int a b ≡ some (a + b)
unfolding add_int
add_int_lem a b h = ground (arith, h)

pub sub_int_lem : (a b : ℕ) → b ≤ a → a < 2147483648 → sub_int a b ≡ some (a - b)
unfolding sub_int
sub_int_lem a b h k = ground (arith, h, k)

pub to_size_lem : (n : ℕ) → n < 2147483648 → to_size n ≡ n
to_size_lem n h = ground (arith, h)

pub substr_lem :
    (s : List ℕ) (pos n : ℕ) → pos ≤ length s → substr s pos n ≡ some (take n (drop pos s))
unfolding substr
substr_lem s pos n h = ground (arith, h)

pub new_string_lem :
    (bytes : List ℕ) (len : ℕ) → len < 2147483648 → new_string bytes len ≡ some (take len bytes)
unfolding new_string
new_string_lem bytes len h = ground (arith, h)

-- The bytes of an `int` that is not negative.
abbrev pub int_bytes : ℕ → List ℕ
int_bytes n = n % 256 ∷ n / 256 % 256 ∷ n / 65536 % 256 ∷ n / 16777216 % 256 ∷ []

pub int_at-int_bytes : (n : ℕ) (rest : List ℕ) → n < 4294967296 → int_at (int_bytes n ++ rest) ≡ n
int_at-int_bytes n rest h = omega arith
