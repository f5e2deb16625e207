-- ===== src/Buffer.antt =====
-- net/Buffer.h and net/Buffer.cc: the byte buffer between a socket and its connection.
-- A pointer into the block is its index; bytes are numbers. `none` is a failed `assert`, or the
-- `std::length_error` of a `resize` past `max_size`.
pub mod Contents
pub mod Append
pub mod Read
pub mod Shrink
pub mod Search
pub mod Fifo
use dserver.Prelude.{
  ℕ, ◌+◌, ◌-◌, ◌^◌, Option, none, some, List, [], ◌∷◌, ◌++◌, ltb, leb, ◌==◌, if◌then◌else◌, ◌>>=◌,
  ◌>>◌, assert, length, take, drop, replicate, slice, write_at, add_size, sub_size,
}

pub record Buffer : Type 0 where
  pub buffer : List ℕ
  pub reader_index : ℕ
  pub writer_index : ℕ

-- kCheapPrepend and kInitialSize.
abbrev pub cheap_prepend : ℕ
cheap_prepend = 8

abbrev pub initial_size : ℕ
initial_size = 1024

-- The largest size of a `std::vector<char>`.
abbrev pub max_size : ℕ
max_size = 2 ^ 63 - 1

unfoldable pub create : ℕ → Buffer
create initial = record {
  buffer = replicate (add_size cheap_prepend initial) 0;
  reader_index = cheap_prepend;
  writer_index = cheap_prepend;
}

-- Both buffers after `a.swap(b)`, with the three swaps of the source in their order.
unfoldable pub swap : Buffer → Buffer → Buffer × Buffer
swap a b =
    let old_reader = a.reader_index in
    let old_writer = a.writer_index in
    (
      record { buffer = b.buffer; reader_index = b.reader_index; writer_index = old_reader },
      record { buffer = a.buffer; reader_index = old_writer; writer_index = b.writer_index },
    )

abbrev pub readable_bytes : Buffer → ℕ
readable_bytes b = sub_size b.writer_index b.reader_index

abbrev pub writable_bytes : Buffer → ℕ
writable_bytes b = sub_size (length b.buffer) b.writer_index

abbrev pub prependable_bytes : Buffer → ℕ
prependable_bytes b = b.reader_index

unfoldable pub retrieve_all : Buffer → Buffer
retrieve_all b = record b { reader_index = cheap_prepend; writer_index = cheap_prepend }

unfoldable pub retrieve : Buffer → ℕ → Option Buffer
retrieve b len = do
  assert (leb len (readable_bytes b))
  some (
      if ltb len (readable_bytes b)
      then record b { reader_index = add_size b.reader_index len }
      else retrieve_all b)

unfoldable pub retrieve_until : Buffer → ℕ → Option Buffer
retrieve_until b end = do
  assert (leb b.reader_index end)
  assert (leb end b.writer_index)
  retrieve b (end - b.reader_index)

unfoldable pub retrieve_as_string : Buffer → ℕ → Option (List ℕ × Buffer)
retrieve_as_string b len = do
  assert (leb len (readable_bytes b))
  let result = slice b.reader_index len b.buffer
  b' ← retrieve b len
  some (result, b')

unfoldable pub retrieve_all_as_string : Buffer → Option (List ℕ × Buffer)
retrieve_all_as_string b = retrieve_as_string b (readable_bytes b)

-- `buffer_.resize(size)`: new bytes are zero, and bytes past the new end go.
unfoldable pub resize : Buffer → ℕ → Option Buffer
resize b size =
    if leb size max_size
    then some (record b { buffer = take size b.buffer ++ replicate (size - length b.buffer) 0 })
    else none

unfoldable pub make_space : Buffer → ℕ → Option Buffer
make_space b len =
    if ltb (add_size (writable_bytes b) (prependable_bytes b)) (add_size len cheap_prepend)
    then resize b (add_size b.writer_index len)
    else (do
      assert (ltb cheap_prepend b.reader_index)
      let readable = readable_bytes b
      let moved = write_at cheap_prepend (slice b.reader_index readable b.buffer) b.buffer
      let b' : Buffer = record {
        buffer = moved;
        reader_index = cheap_prepend;
        writer_index = add_size cheap_prepend readable;
      }
      assert (readable == readable_bytes b')
      some b')

unfoldable pub ensure_writable_bytes : Buffer → ℕ → Option Buffer
ensure_writable_bytes b len = do
  b' ← if ltb (writable_bytes b) len then make_space b len else some b
  assert (leb len (writable_bytes b'))
  some b'

unfoldable pub has_written : Buffer → ℕ → Option Buffer
has_written b len = do
  assert (leb len (writable_bytes b))
  some (record b { writer_index = add_size b.writer_index len })

unfoldable pub unwrite : Buffer → ℕ → Option Buffer
unwrite b len = do
  assert (leb len (readable_bytes b))
  some (record b { writer_index = sub_size b.writer_index len })

unfoldable pub append : Buffer → List ℕ → Option Buffer
append b bytes = do
  b' ← ensure_writable_bytes b (length bytes)
  has_written (record b' { buffer = write_at b'.writer_index bytes b'.buffer }) (length bytes)

-- The bytes of a C string, up to its NUL: what `strlen` counts.
unfoldable pub c_string : List ℕ → List ℕ
c_string [] = []
c_string (c ∷ cs) = if c == 0 then [] else c ∷ c_string cs

-- The overload `append(const char* str)`.
unfoldable pub append_c_string : Buffer → List ℕ → Option Buffer
append_c_string b str = append b (c_string str)

unfoldable pub prepend : Buffer → List ℕ → Option Buffer
prepend b bytes = do
  assert (leb (length bytes) (prependable_bytes b))
  let reader = sub_size b.reader_index (length bytes)
  some (record b { buffer = write_at reader bytes b.buffer; reader_index = reader })

unfoldable pub shrink : Buffer → ℕ → Option Buffer
shrink b reserve = do
  other ← ensure_writable_bytes (create initial_size) (add_size (readable_bytes b) reserve)
  other' ← append other (slice b.reader_index (readable_bytes b) b.buffer)
  some (swap b other').0

-- What `readv` reports: the bytes that it stored, over both blocks, or an `errno`.
pub data ReadResult : Type 0 where
  received : List ℕ → ReadResult
  failed : ℕ → ReadResult

-- sizeof extrabuf.
abbrev pub extra_size : ℕ
extra_size = 65536

-- The room that `readFd` offers to `readv`: the block alone, or the block and `extrabuf`.
unfoldable pub offered : Buffer → ℕ
offered b =
    if ltb (writable_bytes b) extra_size then writable_bytes b + extra_size else writable_bytes b

-- `readv` is given the room, and fills the block before `extrabuf`.
unfoldable pub read_fd : Buffer → (ℕ → ReadResult) → Option (ReadResult × Buffer)
read_fd b readv = elim (readv (offered b)) [
  | failed errno ↦ some (failed errno, b)
  | received bytes ↦
      let writable = writable_bytes b in
      let filled = write_at b.writer_index (take writable bytes) b.buffer in
      if leb (length bytes) writable
      then some (
        received bytes,
        record b { buffer = filled; writer_index = add_size b.writer_index (length bytes) },
      )
      else (do
        b' ←
            append (record b { buffer = filled; writer_index = length b.buffer })
              (drop writable bytes)
        some (received bytes, b'))
]
