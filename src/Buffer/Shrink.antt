-- ===== src/Buffer/Shrink.antt =====
-- `Buffer::swap` and `Buffer::shrink`, which is built on it.
use dserver.Prelude.{◌≡◌}
use dserver.Buffer.{Buffer, cheap_prepend}

-- What `shrink` leaves: a buffer that reads from index 8 up to the old *reader* index.
pub record Misread (b b' : Buffer) : Type 0 where
  pub reads_from : b'.reader_index ≡ cheap_prepend
  pub reads_to : b'.writer_index ≡ b.reader_index
