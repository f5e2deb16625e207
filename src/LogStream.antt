-- ===== src/LogStream.antt =====
-- base/LogStream.h and base/LogStream.cc: the text of a log line, in a buffer of a fixed size.
-- Writing past the end of the block is `none`.
pub mod Convert
pub mod Lines
use dserver.Prelude.{
  ℕ, zero, suc, ◌+◌, ◌-◌, ◌%◌, ◌/◌, Bool, true, false, Option, none, some, List, [], ◌∷◌, ◌++◌, ltb,
  leb, ◌==◌, if◌then◌else◌, ◌>>=◌, ◌>>◌, assert, length, codes, take,
}

-- kSmallBuffer and kLargeBuffer.
abbrev pub small_buffer : ℕ
small_buffer = 4000

abbrev pub large_buffer : ℕ
large_buffer = 4000000

-- `FixedBuffer`: SIZE, and the bytes of `data_` before `cur_`.
pub record FixedBuffer : Type 0 where
  pub size : ℕ
  pub data_ : List ℕ

abbrev pub empty_buffer : ℕ → FixedBuffer
empty_buffer size = record { size = size; data_ = [] }

-- `avail()`.
abbrev pub avail : FixedBuffer → ℕ
avail b = b.size - length b.data_

-- The integers of the types that `formatInteger` is called at.
pub data ℤ : Type 0 where
  pos : ℕ → ℤ
  negsuc : ℕ → ℤ

abbrev pub negative : ℕ → ℤ
negative zero = pos 0
negative (suc n) = negsuc n

-- The conversion of a size to `int`, of 32 bits.
abbrev pub int_of : ℕ → ℤ
int_of n =
    if ltb (n % 4294967296) 2147483648
    then pos (n % 4294967296)
    else negsuc (4294967295 - n % 4294967296)

-- `append(buf, len)`: a negative `len`, as a size_t, is more than any room.
unfoldable pub append : FixedBuffer → List ℕ → ℤ → FixedBuffer
append b buf (pos len) = record b {
  data_ = if ltb len (avail b) then b.data_ ++ take len buf else b.data_;
}
append b buf (negsuc n) = b

-- `reset()`.
unfoldable pub reset : FixedBuffer → FixedBuffer
reset b = record b { data_ = [] }

-- A text that is written at `current()` with its NUL, and then `add`.
unfoldable pub add_text : FixedBuffer → List ℕ → Option FixedBuffer
add_text b text = do
  assert (leb (length text + 1) (avail b))
  some (record b { data_ = b.data_ ++ text })

-- `/` and `%` by 10, which round towards 0.
abbrev pub quot_ten : ℤ → ℤ
quot_ten (pos n) = pos (n / 10)
quot_ten (negsuc n) = negative (suc n / 10)

abbrev pub rem_ten : ℤ → ℤ
rem_ten (pos n) = pos (n % 10)
rem_ten (negsuc n) = negative (suc n % 10)

abbrev pub is_zero : ℤ → Bool
is_zero (pos n) = n == 0
is_zero (negsuc n) = false

abbrev pub is_negative : ℤ → Bool
is_negative (pos n) = false
is_negative (negsuc n) = true

abbrev pub magnitude : ℤ → ℕ
magnitude (pos n) = n
magnitude (negsuc n) = suc n

abbrev pub char_at : List ℕ → ℕ → ℕ
char_at [] i = 0
char_at (c ∷ cs) zero = c
char_at (c ∷ cs) (suc i) = char_at cs i

-- `digits`, and `zero[lsd]`, which is nine places into it.
abbrev pub digits : List ℕ
digits = codes "9876543210123456789"

abbrev pub zero_at : ℤ → ℕ
zero_at (pos n) = char_at digits (9 + n)
zero_at (negsuc n) = char_at digits (9 - suc n)

abbrev pub digits_hex : List ℕ
digits_hex = codes "0123456789ABCDEF"

-- `std::reverse`.
abbrev pub reverse : List ℕ → List ℕ
reverse [] = []
reverse (x ∷ xs) = reverse xs ++ (x ∷ [])

-- The loop of `convert`, on fuel: the digits from the last one on.
unfoldable pub convert_digits : ℕ → ℤ → List ℕ
convert_digits zero i = []
convert_digits (suc fuel) i =
    let rest = convert_digits fuel (quot_ten i) in
    zero_at (rem_ten i) ∷ (if is_zero (quot_ten i) then [] else rest)

unfoldable pub convert : ℤ → List ℕ
convert value =
    reverse (
      convert_digits (suc (magnitude value)) value ++ (if is_negative value then codes "-" else []))

-- The loop of `convertHex`, on fuel.
unfoldable pub convert_hex_digits : ℕ → ℕ → List ℕ
convert_hex_digits zero i = []
convert_hex_digits (suc fuel) i =
    let rest = convert_hex_digits fuel (i / 16) in
    char_at digits_hex (i % 16) ∷ (if i / 16 == 0 then [] else rest)

unfoldable pub convert_hex : ℕ → List ℕ
convert_hex value = reverse (convert_hex_digits (suc value) value)

-- kMaxNumericSize.
abbrev pub max_numeric_size : ℕ
max_numeric_size = 32

unfoldable pub format_integer : FixedBuffer → ℤ → Option FixedBuffer
format_integer b v = if leb max_numeric_size (avail b) then add_text b (convert v) else some b

unfoldable pub format_pointer : FixedBuffer → ℕ → Option FixedBuffer
format_pointer b p =
    if leb max_numeric_size (avail b) then add_text b (codes "0x" ++ convert_hex p) else some b

-- What is put into a stream, by the overload of `operator<<`; a null string is `none`.
pub data Item : Type 0 where
  bool_item : Bool → Item
  integer_item : ℤ → Item
  pointer_item : ℕ → Item
  char_item : ℕ → Item
  string_item : Option (List ℕ) → Item

unfoldable pub put : FixedBuffer → Item → Option FixedBuffer
put b (bool_item v) = some (append b (if v then codes "1" else codes "0") (pos 1))
put b (integer_item v) = format_integer b v
put b (pointer_item p) = format_pointer b p
put b (char_item c) = some (append b (c ∷ []) (pos 1))
put b (string_item none) = some (append b (codes "(null)") (pos 6))
put b (string_item (some str)) = some (append b str (int_of (length str)))
