-- ===== src/LogStream/Lines.antt =====
-- base/LogStream.h and base/LogStream.cc: what a run of `operator<<` leaves in the buffer.
use dserver.Prelude.{
  ℕ, ◌+◌, ◌≤◌, ◌<◌, ◌≡◌, refl, sym, ap, ◌∙◌, ◌⊎◌, inl, inr, true, false, Option, none, some, List,
  [], ◌∷◌, ◌++◌, if◌then◌else◌, ◌>>=◌, leb, length, codes, arith, Bool-cases, length-append,
  append-nil, append_assoc, take_past, ltb, subst,
}
use dserver.LogStream.{
  FixedBuffer, avail, append, add_text, convert, convert_hex, max_numeric_size, format_integer,
  format_pointer, pos, int_of, Item, bool_item, integer_item, pointer_item, char_item, string_item,
  put,
}
use dserver.LogStream.Convert.{IsWord, length-convert, length-convert_hex}

-- The text of an item.
abbrev pub text : Item → List ℕ
text (bool_item true) = codes "1"
text (bool_item false) = codes "0"
text (integer_item v) = convert v
text (pointer_item p) = codes "0x" ++ convert_hex p
text (char_item c) = c ∷ []
text (string_item none) = codes "(null)"
text (string_item (some str)) = str

-- The integers and addresses have 64 bits, and the size of a string is an `int`.
abbrev pub IsWordItem : Item → Type 0
IsWordItem (integer_item v) = IsWord v
IsWordItem (pointer_item p) = p < 18446744073709551616
IsWordItem (string_item (some str)) = length str < 2147483648
IsWordItem _ = Unit {0}

abbrev pub AreWordItems : List Item → Type 0
AreWordItems [] = Unit {0}
AreWordItems (item ∷ items) = IsWordItem item × AreWordItems items

abbrev pub texts : List Item → List ℕ
texts [] = []
texts (item ∷ items) = text item ++ texts items

-- A run of `operator<<`.
unfoldable pub put_all : FixedBuffer → List Item → Option FixedBuffer
put_all b [] = some b
put_all b (item ∷ items) = put b item >>= λ b'. put_all b' items

-- `bytes` are texts of the items in their order, each whole or not at all.
pub data Chosen : List Item → List ℕ → Type 0 where
  no_items : Chosen [] []
  chosen :
      {item : Item} {items : List Item} {bytes : List ℕ}
      → Chosen items bytes
      → Chosen (item ∷ items) (text item ++ bytes)
  dropped :
      {item : Item} {items : List Item} {bytes : List ℕ}
      → Chosen items bytes
      → Chosen (item ∷ items) bytes

-- What one `operator<<` does: the text or nothing, and the text if 32 bytes more than it fit.
record Puts (b : FixedBuffer) (bytes : List ℕ) (b' : FixedBuffer) : Type 0 where
  same_size : b'.size ≡ b.size
  in_bounds : length b'.data_ ≤ b'.size
  taken : (b'.data_ ≡ b.data_ ++ bytes) ⊎ (b'.data_ ≡ b.data_)
  fits : length b.data_ + length bytes + 32 ≤ b.size → b'.data_ ≡ b.data_ ++ bytes

pub int_of_lem : (n : ℕ) → n < 2147483648 → int_of n ≡ pos n
int_of_lem n h = ground (arith, h)

-- A call with the size of all the bytes.
pub append_lem :
    (b : FixedBuffer) (bytes : List ℕ)
    → append b bytes (pos (length bytes))
      ≡ record b { data_ = if ltb (length bytes) (avail b) then b.data_ ++ bytes else b.data_ }
unfolding append
append_lem b bytes =
    ap (λ xs. record b { data_ = if ltb (length bytes) (avail b) then b.data_ ++ xs else b.data_ })
      (take_past (length bytes) bytes (omega arith))

append-Puts :
    (b : FixedBuffer) (bytes : List ℕ)
    → length b.data_ ≤ b.size
    → Puts b bytes (append b bytes (pos (length bytes)))
append-Puts b bytes h = subst (Puts b bytes) (sym (append_lem b bytes)) (record {
  same_size = refl;
  in_bounds = ground (arith, h, length-append b.data_ bytes);
  taken = ground (arith);
  fits = λ k. ground (arith, k);
})

-- A text of at most 31 bytes that is put when 32 bytes are free.
format-Puts :
    (b : FixedBuffer) (bytes : List ℕ)
    → length b.data_ ≤ b.size
    → length bytes < 32
    → (b' : FixedBuffer) × ((if leb max_numeric_size (avail b) then add_text b bytes else some b)
        ≡ some b')
      × Puts b bytes b'
unfolding add_text
format-Puts b bytes h k = elim (Bool-cases (leb max_numeric_size (avail b))) [
  | inl y ↦ (
    record b { data_ = b.data_ ++ bytes },
    ground (arith, y, k),
    record {
      same_size = refl;
      in_bounds = ground (arith, h, k, y, length-append b.data_ bytes);
      taken = inl refl;
      fits = λ q. refl;
    },
  )
  | inr y ↦ (
    b,
    ground (arith, y),
    record {
      same_size = refl;
      in_bounds = h;
      taken = inr refl;
      fits = λ q. absurd (ground (arith, q, y));
    },
  )
]

put-Puts :
    (b : FixedBuffer) (item : Item)
    → length b.data_ ≤ b.size
    → IsWordItem item
    → (b' : FixedBuffer) × (put b item ≡ some b') × Puts b (text item) b'
unfolding put format_integer format_pointer
put-Puts b (bool_item true) h w = (append b (codes "1") (pos 1), refl, append-Puts b (codes "1") h)
put-Puts b (bool_item false) h w = (append b (codes "0") (pos 1), refl, append-Puts b (codes "0") h)
put-Puts b (integer_item v) h w = format-Puts b (convert v) h (omega (arith, length-convert v w))
put-Puts b (pointer_item p) h w =
    format-Puts b (codes "0x" ++ convert_hex p) h (omega (arith, length-convert_hex p w))
put-Puts b (char_item c) h w = (append b (c ∷ []) (pos 1), refl, append-Puts b (c ∷ []) h)
put-Puts b (string_item none) h w =
    (append b (codes "(null)") (pos 6), refl, append-Puts b (codes "(null)") h)
put-Puts b (string_item (some str)) h w = (
  append b str (pos (length str)),
  ap (λ n. some (append b str n)) (int_of_lem (length str) w),
  append-Puts b str h,
)

-- What a run leaves.
pub record Line (b : FixedBuffer) (items : List Item) (b' : FixedBuffer) : Type 0 where
  pub same_size : b'.size ≡ b.size
  pub in_bounds : length b'.data_ ≤ b'.size
  pub kept : List ℕ
  pub kept_lem : Chosen items kept
  pub holds : b'.data_ ≡ b.data_ ++ kept
  pub full : length b.data_ + length (texts items) + 32 ≤ b.size → b'.data_ ≡ b.data_ ++ texts items

then_holds : (a x y : List ℕ) {b c : List ℕ} → b ≡ a ++ x → c ≡ b ++ y → c ≡ a ++ (x ++ y)
then_holds a x y e f = f ∙ ap (λ l. l ++ y) e ∙ append_assoc a x y

module _ {b b1 b2 : FixedBuffer} (item : Item) (items : List Item) (p : Puts b (text item) b1)
    (l : Line b1 items b2) where
  -- Enough room for all the texts is enough for the first, and then for the others.
  full_lem :
      length b.data_ + length (texts (item ∷ items)) + 32 ≤ b.size
      → b2.data_ ≡ b.data_ ++ texts (item ∷ items)
  full_lem k =
      let s = length-append (text item) (texts items) in
      let e = p.fits (omega (arith, s)) in
      then_holds b.data_ (text item) (texts items) e
        (l.full (omega (arith, s, ap length e, length-append b.data_ (text item), p.same_size)))

  cons-Line : Line b (item ∷ items) b2
  cons-Line = elim p.taken [
    | inl e ↦ record {
      same_size = l.same_size ∙ p.same_size;
      in_bounds = l.in_bounds;
      kept = text item ++ l.kept;
      kept_lem = chosen l.kept_lem;
      holds = then_holds b.data_ (text item) l.kept e l.holds;
      full = full_lem;
    }
    | inr e ↦ record {
      same_size = l.same_size ∙ p.same_size;
      in_bounds = l.in_bounds;
      kept = l.kept;
      kept_lem = dropped l.kept_lem;
      holds = l.holds ∙ ap (λ xs. xs ++ l.kept) e;
      full = full_lem;
    }
  ]

-- A run of `operator<<` on integers and addresses of 64 bits, on strings whose sizes an `int` holds,
-- and on other items never writes past the end of the buffer. It adds the texts of the items, in order, each whole or not at all, and
-- all of them when 32 bytes more than all of them are free.
pub put_all_lem :
    (b : FixedBuffer) (items : List Item)
    → length b.data_ ≤ b.size
    → AreWordItems items
    → (b' : FixedBuffer) × (put_all b items ≡ some b') × Line b items b'
unfolding put_all
put_all_lem b [] h w = (
  b,
  refl,
  record {
    same_size = refl;
    in_bounds = h;
    kept = [];
    kept_lem = no_items;
    holds = sym (append-nil b.data_);
    full = λ k. sym (append-nil b.data_);
  },
)
put_all_lem b (item ∷ items) h (w, ws) =
    let (b1, e, p) = put-Puts b item h w in
    let (b2, d, l) = put_all_lem b1 items p.in_bounds ws in (b2, rw e d, cons-Line item items p l)
