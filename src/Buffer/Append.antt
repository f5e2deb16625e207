-- ===== src/Buffer/Append.antt =====
-- `Buffer` grows and compacts: makeSpace, ensureWritableBytes and append.
use dserver.Prelude.{
  ℕ, ◌+◌, ◌-◌, ◌≤◌, ◌<◌, ◌≡◌, refl, ap, ◌∙◌, some, List, ◌++◌, arith, length, replicate, slice,
  write_at, dec_lt, le→leb, lt→ltb, ge→ltb, length-replicate, length-write_at, length-append,
  take_past, slice-append, slice-write_at,
}
use native.Mathlib.Nat.{le_refl}
use dserver.Buffer.{
  Buffer, cheap_prepend, max_size, writable_bytes, resize, make_space, ensure_writable_bytes,
  has_written, append,
}
use dserver.Buffer.Contents.{IsValid, contents, length-contents}

abbrev pub room : Buffer → ℕ
room b = length b.buffer - b.writer_index

pub writable_bytes_lem : (b : Buffer) → IsValid b → writable_bytes b ≡ room b
writable_bytes_lem b v = omega arith

grown : Buffer → ℕ → Buffer
grown b len = record b { buffer = b.buffer ++ replicate (b.writer_index + len - length b.buffer) 0 }

compacted : Buffer → Buffer
compacted b = record {
  buffer = write_at 8 (contents b) b.buffer;
  reader_index = 8;
  writer_index = 8 + (b.writer_index - b.reader_index);
}

-- A valid buffer with `len` bytes of room, that holds what `b` holds, in a block not larger than
-- need be.
pub record Roomy (b : Buffer) (len : ℕ) (b' : Buffer) : Type 0 where
  pub valid : IsValid b'
  pub roomy : len ≤ room b'
  pub same : contents b' ≡ contents b
  pub start : b.reader_index ≡ cheap_prepend → b'.reader_index ≡ cheap_prepend
  pub no_further : b'.writer_index ≤ b.writer_index

make_space_grows :
    (b : Buffer) (len : ℕ)
    → IsValid b
    → room b < len
    → b.writer_index + len ≤ max_size
    → room b + b.reader_index < len + cheap_prepend
    → make_space b len ≡ some (grown b len)
unfolding make_space resize grown
make_space_grows b len v h k g = ground (arith, take_past (b.writer_index + len) b.buffer)

grown-Roomy :
    (b : Buffer) (len : ℕ)
    → IsValid b
    → room b < len
    → b.writer_index + len ≤ max_size
    → Roomy b len (grown b len)
unfolding grown
grown-Roomy b len v h k =
    let extra = b.writer_index + len - length b.buffer in
    let size = length-append b.buffer (replicate extra 0) in
    let zeros = length-replicate {A = ℕ} extra 0 in
    record {
      valid = record {
        ordered = v.ordered;
        within = omega (arith, size, zeros);
        reserved = omega (arith, size, zeros);
        bounded = omega (arith, size, zeros);
      };
      roomy = omega (arith, size, zeros);
      same =
          slice-append b.reader_index (b.writer_index - b.reader_index) b.buffer (replicate extra 0)
            (omega arith);
      start = λ e. e;
      no_further = le_refl b.writer_index;
    }

make_space_moves :
    (b : Buffer) (len : ℕ)
    → IsValid b
    → room b < len
    → b.writer_index + len ≤ max_size
    → len + cheap_prepend ≤ room b + b.reader_index
    → make_space b len ≡ some (compacted b)
unfolding make_space compacted
make_space_moves b len v h k g = ground arith

compacted-Roomy :
    (b : Buffer) (len : ℕ)
    → IsValid b
    → room b < len
    → len + cheap_prepend ≤ room b + b.reader_index
    → Roomy b len (compacted b)
unfolding compacted
compacted-Roomy b len v h g =
    let size = length-write_at 8 (contents b) b.buffer in
    let held = length-contents b v in
    let sums : 8 + (b.writer_index - b.reader_index) - 8 ≡ 0 + length (contents b) =
      omega (arith, held) in
    record {
      valid = record {
        ordered = omega arith;
        within = omega (arith, size);
        reserved = omega (arith, size);
        bounded = omega (arith, size);
      };
      roomy = omega (arith, size);
      same =
          ap (λ n. slice 8 n (write_at 8 (contents b) b.buffer)) sums
          ∙ slice-write_at 8 0 8 (contents b) b.buffer (omega arith) (omega (arith, held));
      start = λ e. refl;
      no_further = omega arith;
    }

-- `makeSpace` gives the room that is asked for and keeps the bytes, in either way.
pub make_space_lem :
    (b : Buffer) (len : ℕ)
    → IsValid b
    → room b < len
    → b.writer_index + len ≤ max_size
    → (b' : Buffer) × (make_space b len ≡ some b') × Roomy b len b'
make_space_lem b len v h k = elim (dec_lt (room b + b.reader_index) (len + cheap_prepend)) [
  | yes p ↦ (grown b len, make_space_grows b len v h k p, grown-Roomy b len v h k)
  | no p ↦ (
    compacted b,
    make_space_moves b len v h k (omega arith),
    compacted-Roomy b len v h (omega arith),
  )
]

pub ensure_writable_bytes_lem :
    (b : Buffer) (len : ℕ)
    → IsValid b
    → b.writer_index + len ≤ max_size
    → (b' : Buffer) × (ensure_writable_bytes b len ≡ some b') × Roomy b len b'
unfolding ensure_writable_bytes
ensure_writable_bytes_lem b len v k = elim (dec_lt (room b) len) [
  | yes p ↦
      let (b', e, r) = make_space_lem b len v p k in
      let enough : len ≤ writable_bytes b' =
        omega (arith, writable_bytes_lem b' r.valid, r.roomy) in
      let short : writable_bytes b < len = omega arith in
      (b', simp (lt→ltb _ _ short, e, le→leb _ _ enough), r)
  | no p ↦
      let enough : len ≤ writable_bytes b = omega arith in
      (
        b,
        simp (ge→ltb _ _ enough, le→leb _ _ enough),
        record {
          valid = v;
          roomy = omega arith;
          same = refl;
          start = λ e. e;
          no_further = le_refl b.writer_index;
        },
      )
]

-- A copy of bytes behind the writer index, where they fit, and the index moved past them.
unfoldable pub written : Buffer → List ℕ → Buffer
written c bytes = record c {
  buffer = write_at c.writer_index bytes c.buffer;
  writer_index = c.writer_index + length bytes;
}

pub written_lem :
    (c : Buffer) (bytes : List ℕ)
    → IsValid c
    → length bytes ≤ room c
    → IsValid (written c bytes) × (contents (written c bytes) ≡ contents c ++ bytes)
unfolding written
written_lem c bytes v h =
    let size = length-write_at c.writer_index bytes c.buffer in
    (
      record {
        ordered = omega arith;
        within = omega (arith, size);
        reserved = omega (arith, size);
        bounded = omega (arith, size);
      },
      ap (λ n. slice c.reader_index n (write_at c.writer_index bytes c.buffer))
            {x = c.writer_index + length bytes - c.reader_index}
            {y = c.writer_index - c.reader_index + length bytes} (omega arith)
          ∙ slice-write_at c.reader_index (c.writer_index - c.reader_index) c.writer_index bytes
              c.buffer (omega arith) (omega arith),
    )

has_written_lem :
    (c : Buffer) (bytes : List ℕ)
    → IsValid c
    → length bytes ≤ room c
    → has_written (record c { buffer = write_at c.writer_index bytes c.buffer }) (length bytes)
      ≡ some (written c bytes)
unfolding has_written written
has_written_lem c bytes v h = ground (arith, length-write_at c.writer_index bytes c.buffer)

pub append_full :
    (b : Buffer) (bytes : List ℕ)
    → IsValid b
    → b.writer_index + length bytes ≤ max_size
    → (b' : Buffer) × (append b bytes ≡ some b')
      × IsValid b'
      × (contents b' ≡ contents b ++ bytes)
      × (b.reader_index ≡ cheap_prepend → b'.reader_index ≡ cheap_prepend)
      × (b'.writer_index ≤ b.writer_index + length bytes)
unfolding append
append_full b bytes v k =
    let (c, e, r) = ensure_writable_bytes_lem b (length bytes) v k in
    let (v', held) = written_lem c bytes r.valid r.roomy in
    (
      written c bytes,
      simp (e, has_written_lem c bytes r.valid r.roomy),
      v',
      held ∙ ap (λ xs. xs ++ bytes) r.same,
      λ e. unfold written in r.start e,
      unfold written in omega (arith, r.no_further),
    )

-- On a valid buffer whose block may still grow by `bytes`, `append` does not fail, the result is
-- valid, and it holds the bytes of `b` followed by `bytes`.
pub append_lem :
    (b : Buffer) (bytes : List ℕ)
    → IsValid b
    → b.writer_index + length bytes ≤ max_size
    → (b' : Buffer) × (append b bytes ≡ some b') × IsValid b' × (contents b' ≡ contents b ++ bytes)
append_lem b bytes v k = let (b', e, v', c, _, _) = append_full b bytes v k in (b', e, v', c)
