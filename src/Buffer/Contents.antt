-- ===== src/Buffer/Contents.antt =====
-- The representation invariant of `Buffer`, the bytes that it holds, and the calls that take bytes
-- out or put them in front.
use Prim.Native.Nat.{max}
use dserver.Prelude.{
  ℕ, ◌+◌, ◌-◌, ◌≤◌, ◌<◌, ◌≡◌, refl, ap, ◌∙◌, none, some, List, [], ◌++◌, arith, length, take, drop,
  slice, write_at, add_size, length-replicate, length-slice, length-write_at, drop-slice,
  take-slice, drop_past, sym, dec_lt, le→leb, slice-write_at_over,
}
use dserver.Buffer.{
  Buffer, cheap_prepend, max_size, create, readable_bytes, retrieve_all, retrieve, retrieve_until,
  retrieve_as_string, prepend,
}

pub record IsValid (b : Buffer) : Type 0 where
  pub ordered : b.reader_index ≤ b.writer_index
  pub within : b.writer_index ≤ length b.buffer
  pub reserved : cheap_prepend ≤ length b.buffer
  pub bounded : length b.buffer ≤ max_size

-- The bytes between the two indices, oldest first.
abbrev pub contents : Buffer → List ℕ
contents b = slice b.reader_index (b.writer_index - b.reader_index) b.buffer

pub readable_bytes_lem :
    (b : Buffer) → IsValid b → readable_bytes b ≡ b.writer_index - b.reader_index
readable_bytes_lem b v = omega arith

pub length-contents : (b : Buffer) → IsValid b → length (contents b) ≡ readable_bytes b
length-contents b v =
    length-slice b.reader_index (b.writer_index - b.reader_index) b.buffer (omega arith)
    ∙ omega arith

-- A new buffer is valid and holds nothing, if its block can be allocated.
pub create-IsValid :
    (n : ℕ) → n + cheap_prepend ≤ max_size → IsValid (create n) × (contents (create n) ≡ [])
unfolding create
create-IsValid n h =
    let size = length-replicate {A = ℕ} (add_size cheap_prepend n) 0 in
    (
      record {
        ordered = omega arith;
        within = omega (arith, size);
        reserved = omega (arith, size);
        bounded = omega (arith, size);
      },
      refl,
    )

pub retrieve_all-IsValid :
    (b : Buffer) → IsValid b → IsValid (retrieve_all b) × (contents (retrieve_all b) ≡ [])
unfolding retrieve_all
retrieve_all-IsValid b v = (
  record { ordered = omega arith; within = v.reserved; reserved = v.reserved; bounded = v.bounded },
  refl,
)

retrieve-some :
    (b : Buffer) (len : ℕ)
    → IsValid b
    → len < b.writer_index - b.reader_index
    → retrieve b len ≡ some (record b { reader_index = b.reader_index + len })
unfolding retrieve
retrieve-some b len v h = ground arith

retrieve_whole :
    (b : Buffer) → IsValid b → retrieve b (b.writer_index - b.reader_index) ≡ some (retrieve_all b)
unfolding retrieve retrieve_all
retrieve_whole b v = ground arith

pub retrieve_too_much :
    (b : Buffer) (len : ℕ) → IsValid b → length (contents b) < len → retrieve b len ≡ none
unfolding retrieve
retrieve_too_much b len v h = ground (arith, length-contents b v)

pub retrieve_lem :
    (b : Buffer) (len : ℕ)
    → IsValid b
    → len ≤ length (contents b)
    → (b' : Buffer) × (retrieve b len ≡ some b')
      × IsValid b'
      × (contents b' ≡ drop len (contents b))
      × (b'.writer_index ≤ max cheap_prepend b.writer_index)
unfolding retrieve retrieve_all
retrieve_lem b len v h = elim (dec_lt len (b.writer_index - b.reader_index)) [
  | yes p ↦ (
    record b { reader_index = b.reader_index + len },
    retrieve-some b len v p,
    record { ordered = omega arith; within = v.within; reserved = v.reserved; bounded = v.bounded },
    ap (λ n. slice (b.reader_index + len) n b.buffer) {x = b.writer_index - (b.reader_index + len)}
          {y = b.writer_index - b.reader_index - len} (omega arith)
        ∙ sym (
            drop-slice len b.reader_index (b.writer_index - b.reader_index) b.buffer (omega arith)),
    omega arith,
  )
  | no p ↦
      let size = length-contents b v in
      let all : len ≡ b.writer_index - b.reader_index = omega arith in
      let (v', e) = retrieve_all-IsValid b v in
      (
        retrieve_all b,
        ap (retrieve b) all ∙ retrieve_whole b v,
        v',
        e ∙ sym (drop_past len (contents b) (omega arith)),
        omega arith,
      )
]

pub retrieve_until_lem :
    (b : Buffer) (end : ℕ)
    → IsValid b
    → b.reader_index ≤ end
    → end ≤ b.writer_index
    → retrieve_until b end ≡ retrieve b (end - b.reader_index)
unfolding retrieve_until
retrieve_until_lem b end v h k = simp (le→leb _ _ h, le→leb _ _ k)

-- The string is the first `len` bytes, and the buffer keeps the others.
pub retrieve_as_string_lem :
    (b : Buffer) (len : ℕ)
    → IsValid b
    → len ≤ length (contents b)
    → (b' : Buffer) × (retrieve_as_string b len ≡ some (take len (contents b), b'))
      × IsValid b'
      × (contents b' ≡ drop len (contents b))
      × (b'.writer_index ≤ max cheap_prepend b.writer_index)
unfolding retrieve_as_string
retrieve_as_string_lem b len v h =
    let (b', e, v', c, w) = retrieve_lem b len v h in
    let size = length-contents b v in
    let front : slice b.reader_index len b.buffer ≡ take len (contents b) =
      sym
        (take-slice len b.reader_index (b.writer_index - b.reader_index) b.buffer (omega arith)) in
    (b', ground (arith, e, front, size), v', c, w)

pub retrieve_as_string_too_much :
    (b : Buffer) (len : ℕ) → IsValid b → length (contents b) < len → retrieve_as_string b len ≡ none
unfolding retrieve_as_string
retrieve_as_string_too_much b len v h = ground (arith, length-contents b v)

-- `prepend` puts the bytes in front, if there is room before the reader index.
pub prepend_lem :
    (b : Buffer) (bytes : List ℕ)
    → IsValid b
    → length bytes ≤ b.reader_index
    → (b' : Buffer) × (prepend b bytes ≡ some b') × IsValid b' × (contents b' ≡ bytes ++ contents b)
unfolding prepend
prepend_lem b bytes v h =
    let at = b.reader_index - length bytes in
    let size = length-write_at at bytes b.buffer in
    let sums : b.writer_index - at ≡ length bytes + (b.writer_index - b.reader_index) =
      omega arith in
    let ends : at + length bytes ≡ b.reader_index = omega arith in
    (
      record b { buffer = write_at at bytes b.buffer; reader_index = at },
      ground arith,
      record {
        ordered = omega arith;
        within = omega (arith, size);
        reserved = omega (arith, size);
        bounded = omega (arith, size);
      },
      ap (λ n. slice at n (write_at at bytes b.buffer)) sums
          ∙ slice-write_at_over at (b.writer_index - b.reader_index) bytes b.buffer (omega arith)
          ∙ ap (λ n. bytes ++ slice n (b.writer_index - b.reader_index) b.buffer) ends,
    )
