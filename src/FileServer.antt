-- ===== src/FileServer.antt =====
-- fileServer/fileServer.cc: a server that keeps files under passwords. The disk and the map of
-- passwords are maps from names, which end at a NUL on the disk, and `sent` has what was given to `send`, in order. What is printed
-- to the console is left out.
pub mod Words
pub mod Chunks
pub mod Failures
pub mod Packets
pub mod Requests
pub mod Rounds
pub mod Serving
pub mod Turns
use dserver.Prelude.{
  ℕ, zero, suc, ◌+◌, ◌-◌, Bool, true, false, not, Option, none, some, List, [], ◌∷◌, ◌++◌, ltb, leb,
  ◌==◌, eq_bytes, if◌then◌else◌, ◌>>=◌, ◌>>◌, assert, length, take, drop, replicate, codes, decimal,
}
use dserver.Buffer.{Buffer, readable_bytes, retrieve, c_string}
use dserver.Buffer.Contents.{contents}
use dserver.Http.Headers.{Headers, put, find}
use dserver.FileServer.Words.{int_at, to_size, add_int, sub_int, substr, new_string, read_int}

pub record FileServer : Type 0 where
  pub buffer : Buffer
  pub files : Headers
  pub passwords : Headers
  pub sent : List (List ℕ)

-- Where a part of `onMessage` leaves it: at the next part with `len`, at a `return`, or in a loop
-- that waits for bytes which only its own thread could put into the buffer.
pub data Part : Type 0 where
  goes_on : ℕ → FileServer → Part
  returns : FileServer → Part
  spins : FileServer → Part

unfoldable pub send_text : FileServer → List ℕ → FileServer
send_text s text = record s { sent = s.sent ++ (text ∷ []) }

-- `message.substr(0, n) == word`.
unfoldable pub has_prefix : List ℕ → List ℕ → Option Bool
has_prefix word message = do head ← substr message 0 (length word); some (eq_bytes head word)

-- The name and the password in a message behind a word of the given length.
unfoldable pub name_and_password : List ℕ → ℕ → ℕ → Option (List ℕ × List ℕ)
name_and_password message len at = do
  name_len ← substr message at 4
  lenp ← read_int name_len
  filename ← substr message (at + 4) (to_size lenp)
  pos ← add_int (at + 4) lenp
  after ← sub_int len (at + 4)
  count ← sub_int after lenp
  password ← substr message (to_size pos) (to_size count)
  some (filename, password)

-- The end of an upload, when the file's bytes are there.
unfoldable pub store_bytes : FileServer → List ℕ → List ℕ → ℕ → Option Part
store_bytes s filename password len = do
  assert (ltb len 2147483648)
  some (
      goes_on len (
        send_text
          (record s {
            files = put (c_string filename) (take len (drop 4 (contents s.buffer))) s.files;
            passwords = put filename password s.passwords;
          })
          (codes "Upload file finished")))

-- The loops that wait for the file's bytes.
unfoldable pub store_data : FileServer → List ℕ → List ℕ → Option Part
store_data s filename password = if ltb (readable_bytes s.buffer) 4 then some (spins s) else (do
  let len = int_at (contents s.buffer)
  need ← add_int len 4
  (if ltb (readable_bytes s.buffer) (to_size need)
      then some (spins s)
      else store_bytes s filename password len))

-- An upload to a name that `ofstream` opens, which empties the file.
unfoldable pub open_and_store : FileServer → List ℕ → List ℕ → ℕ → Option Part
open_and_store s filename password len = do
  need ← add_int len 4
  b ← retrieve s.buffer (to_size need)
  store_data (record s { buffer = b; files = put (c_string filename) [] s.files }) filename password

-- The branch for UPLOAD. `writable` tells which names `ofstream` opens.
unfoldable pub upload : (List ℕ → Bool) → FileServer → List ℕ → ℕ → Option Part
upload writable s message len = do
  wanted ← has_prefix (codes "UPLOAD") message
  (if wanted
      then (do
        names ← name_and_password message len 6
        (if writable (c_string names.0)
            then open_and_store s names.0 names.1 len
            else some (returns s)))
      else some (goes_on len s))

-- A chunk that was read into a block with the given bytes: its number in `len`, and the block up to
-- its first NUL. `sprintf` past the four bytes of `len` is `none`.
unfoldable pub chunk_text : List ℕ → List ℕ → Option (List ℕ)
chunk_text chunk block = do
  assert (leb (length (decimal (length chunk)) + 1) 4)
  let size = decimal (length chunk)
  some (codes "1" ++ (size ++ (replicate (4 - length size) 0 ++ c_string block)))

-- The loop that reads the file, on fuel that one unit more than the bytes of the file never runs out
-- of, as each turn takes one byte at least; `none` is the overflow of sprintf. The block keeps what a
-- short read leaves.
unfoldable pub send_chunks : ℕ → FileServer → List ℕ → List ℕ → Option FileServer
send_chunks zero s bytes block = some s
send_chunks (suc fuel) s bytes block =
    let chunk = take 1024 bytes in
    let block' = chunk ++ drop (length chunk) block in
    let rest = chunk_text chunk block' >>= λ text.
    send_chunks fuel (send_text s text) (drop 1024 bytes) block' in
    if length chunk == 0 then some s else rest

-- `buffer`, which is all zero at first.
unfoldable pub new_block : List ℕ
new_block = replicate 1024 0

unfoldable pub send_file : FileServer → List ℕ → Option FileServer
send_file s bytes = do
  s' ← send_chunks (suc (length bytes)) s bytes new_block
  let zero_text = codes "0"
  some (send_text (send_text (send_text s' zero_text) zero_text) zero_text)

-- A download of a file that `ifstream` may fail to open.
unfoldable pub open_and_send : FileServer → ℕ → Option (List ℕ) → Option Part
open_and_send s len none = some (returns s)
open_and_send s len (some bytes) = do s' ← send_file s bytes; some (goes_on len s')

-- The test of the password, if there is one for the name.
unfoldable pub check_and_send : FileServer → List ℕ → List ℕ → ℕ → Option (List ℕ) → Option Part
check_and_send s filename password len none = some (goes_on len (send_text s (codes "0")))
check_and_send s filename password len (some wanted) =
    if eq_bytes wanted password
    then open_and_send s len (find (c_string filename) s.files)
    else some (goes_on len (send_text s (codes "0")))

-- The branch for DOWNLOAD.
unfoldable pub download : FileServer → List ℕ → ℕ → Option Part
download s message len = do
  wanted ← has_prefix (codes "DOWNLOAD") message
  (if wanted
      then (do
        names ← name_and_password message len 8
        check_and_send s names.0 names.1 len (find names.0 s.passwords))
      else some (goes_on len s))

-- The last statement of a round.
unfoldable pub drop_packet : Part → Option Part
drop_packet (goes_on len s) = do
  need ← add_int len 4
  b ← retrieve s.buffer (to_size need)
  some (goes_on len (record s { buffer = b }))
drop_packet (returns s) = some (returns s)
drop_packet (spins s) = some (spins s)

unfoldable pub after_upload : List ℕ → Part → Option Part
after_upload message (goes_on len s) = download s message len
after_upload message (returns s) = some (returns s)
after_upload message (spins s) = some (spins s)

-- A round of the loop of `onMessage`.
unfoldable pub round : (List ℕ → Bool) → FileServer → Option Part
round writable s = if ltb (readable_bytes s.buffer) 4 then some (returns s) else (do
  let len = int_at (contents s.buffer)
  need ← add_int len 4
  (if ltb (readable_bytes s.buffer) (to_size need) then some (returns s) else (do
    message ← new_string (drop 4 (contents s.buffer)) len
    uploaded ← upload writable s message len
    downloaded ← after_upload message uploaded
    drop_packet downloaded)))

unfoldable pub and_then : (FileServer → Option Part) → Part → Option Part
and_then f (goes_on len s) = f s
and_then f (returns s) = some (returns s)
and_then f (spins s) = some (spins s)

-- The loop, on fuel.
unfoldable pub rounds : (List ℕ → Bool) → ℕ → FileServer → Option Part
rounds writable zero s = some (goes_on 0 s)
rounds writable (suc fuel) s =
    let rest = round writable s >>= and_then (rounds writable fuel) in
    if ltb 0 (readable_bytes s.buffer) then rest else some (returns s)

-- Each round takes four bytes at least.
unfoldable pub on_message : (List ℕ → Bool) → FileServer → Option Part
on_message writable s = rounds writable (suc (readable_bytes s.buffer)) s
