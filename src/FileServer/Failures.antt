-- ===== src/FileServer/Failures.antt =====
-- fileServer/fileServer.cc, `onMessage`: an upload that comes in parts, a large file, and a length
-- below zero.
use dserver.Prelude.{
  ℕ, ◌+◌, ◌-◌, ◌≤◌, ◌<◌, ◌≡◌, refl, sym, ap, subst, inl, inr, Bool, true, false, none, some, List,
  [], ◌++◌, ltb, leb, ◌==◌, eq_bytes_refl, length, take, drop, codes, decimal, arith, Lacks,
  length-take, take_past, length-decimal_ge, Bool-cases, dec_le,
}
use dserver.Buffer.{Buffer, readable_bytes}
use dserver.Buffer.Contents.{IsValid, contents, length-contents}
use dserver.Http.Headers.{put, find}
use dserver.FileServer.{
  FileServer, spins, store_data, upload, open_and_store, chunk_text, send_chunks, send_file,
  open_and_send, check_and_send, download, after_upload, drop_packet, round, and_then, rounds,
  on_message,
}
use dserver.FileServer.Words.{
  int_at, add_int, to_size, new_string, add_int_lem, to_size_lem, int_bytes,
}
use dserver.FileServer.Packets.{
  command, c_string_lem, has_prefix-command, name_and_password-command,
}
use dserver.FileServer.Rounds.{Begins, readable, need_lem, retrieve-packet, round-packet}
use dserver.FileServer.Turns.{no_upload}
use dserver.FileServer.Serving.{IsPartial}

-- What is left of a message of which a round is not passed.
on_message-spins :
    (writable : List ℕ → Bool) (s t : FileServer)
    → ltb 0 (readable_bytes s.buffer) ≡ true
    → round writable s ≡ some (spins t)
    → on_message writable s ≡ some (spins t)
unfolding on_message rounds and_then
on_message-spins writable s t h e = rw (h, e) refl

on_message-none :
    (writable : List ℕ → Bool) (s : FileServer)
    → ltb 0 (readable_bytes s.buffer) ≡ true
    → round writable s ≡ none
    → on_message writable s ≡ none
unfolding on_message rounds and_then
on_message-none writable s h e = rw (h, e) refl

store_data-partial :
    (s : FileServer) (name password : List ℕ)
    → IsValid s.buffer
    → IsPartial (contents s.buffer)
    → store_data s name password ≡ some (spins s)
unfolding store_data
store_data-partial s name password v (inl h) = ground (arith, h, length-contents s.buffer v)
store_data-partial s name password v (inr (k, h)) =
    let size = length-contents s.buffer v in
    let n = int_at (contents s.buffer) in
    let short : ltb (readable_bytes s.buffer) (n + 4) ≡ true = ground (arith, h, size) in
    elim (Bool-cases (ltb (readable_bytes s.buffer) 4)) [
      | inl b ↦ rw b refl
      | inr b ↦
          rw (b, add_int_lem n 4 (omega (arith, k)), to_size_lem (n + 4) (omega (arith, k)), short)
            refl
    ]

not_empty : (n : ℕ) → 1000 ≤ n → (n == 0) ≡ false
not_empty n h = ground (arith, h)

no_room : (n : ℕ) → 1000 ≤ n → leb (length (decimal n) + 1) 4 ≡ false
no_room n h = ground (arith, length-decimal_ge 3 n h)

full_chunk : (bytes : List ℕ) → 1000 ≤ length bytes → 1000 ≤ length (take 1024 bytes)
full_chunk bytes h = elim (dec_le 1024 (length bytes)) [
  | yes p ↦ omega (arith, length-take 1024 bytes p)
  | no p ↦ omega (arith, h, ap length (take_past 1024 bytes (omega arith)))
]

-- The number of the bytes of a full chunk has no room in `len`.
send_file_large : (s : FileServer) (bytes : List ℕ) → 1000 ≤ length bytes → send_file s bytes ≡ none
unfolding send_file send_chunks chunk_text
send_file_large s bytes h =
    let long = full_chunk bytes h in
    rw (not_empty (length (take 1024 bytes)) long, no_room (length (take 1024 bytes)) long) refl

module _ (writable : List ℕ → Bool) (s : FileServer) (name password rest : List ℕ) where
  -- When onMessage runs on an upload whose file has not come whole, to a name without a NUL that
  -- `ofstream` opens, it stays in the loops that wait for the rest. What the file held before is
  -- gone, and the bytes that came of it stay in the buffer.
  pub on_message_spins :
      writable name ≡ true
      → Lacks 0 name
      → Begins s.buffer (command (codes "UPLOAD") name password) rest
      → IsPartial rest
      → (b : Buffer) × (on_message writable s
          ≡ some (spins (record s { buffer = b; files = put name [] s.files })))
        × (contents b ≡ rest)
  unfolding upload open_and_store after_upload drop_packet
  on_message_spins open_ named h q =
      let (b, e, v, c) = retrieve-packet h in
      let emptied = record s { buffer = b; files = put name [] s.files } in
      (
        b,
        on_message-spins writable s emptied (ground (arith, readable h)) (
            rw
              (
                round-packet writable s (command (codes "UPLOAD") name password) rest h,
                has_prefix-command (codes "UPLOAD") (int_bytes (length name) ++ (name ++ password)),
                name_and_password-command (codes "UPLOAD") name password (omega (arith, h.small)),
                c_string_lem name named,
                open_,
                need_lem h,
                e,
                store_data-partial emptied name password v (subst IsPartial (sym c) q),
              )
              refl),
        c,
      )

  -- A whole packet that asks, with the right password, for a file of 1,000 bytes or more whose name
  -- has no NUL takes onMessage out of what the language defines: the number of the bytes of the
  -- first chunk is written past the end of its four bytes.
  pub on_message_overflows :
      (bytes : List ℕ)
      → Lacks 0 name
      → Begins s.buffer (command (codes "DOWNLOAD") name password) rest
      → find name s.passwords ≡ some password
      → find name s.files ≡ some bytes
      → 1000 ≤ length bytes
      → on_message writable s ≡ none
  unfolding upload after_upload download check_and_send open_and_send
  on_message_overflows bytes named h known found large =
      on_message-none writable s (ground (arith, readable h)) (
        rw
          (
            round-packet writable s (command (codes "DOWNLOAD") name password) rest h,
            no_upload (int_bytes (length name) ++ (name ++ password)),
            has_prefix-command (codes "DOWNLOAD") (int_bytes (length name) ++ (name ++ password)),
            name_and_password-command (codes "DOWNLOAD") name password (omega (arith, h.small)),
            known,
            eq_bytes_refl password,
            c_string_lem name named,
            found,
            send_file_large s bytes large,
          )
          refl)

-- A length from -4 to -1 at the front of a valid buffer ends the process: it passes the test that
-- the packet is whole, and the string of the message throws.
pub on_message_negative :
    (writable : List ℕ → Bool) (s : FileServer)
    → IsValid s.buffer
    → 4 ≤ length (contents s.buffer)
    → 4294967292 ≤ int_at (contents s.buffer)
    → int_at (contents s.buffer) < 4294967296
    → on_message writable s ≡ none
unfolding round add_int new_string
on_message_negative writable s v h k l =
    let size = length-contents s.buffer v in
    let n = int_at (contents s.buffer) in
    let four : ltb (readable_bytes s.buffer) 4 ≡ false = ground (arith, h, size) in
    let need : add_int n 4 ≡ some (n - 4294967292) = ground (arith, k, l) in
    let whole : ltb (readable_bytes s.buffer) (n - 4294967292) ≡ false =
      ground (arith, h, size, l) in
    let fits : to_size (n - 4294967292) ≡ n - 4294967292 =
      to_size_lem (n - 4294967292) (omega (arith, l)) in
    let thrown : new_string (drop 4 (contents s.buffer)) n ≡ none = ground (arith, k, l) in
    on_message-none writable s (ground (arith, h, size)) (rw (four, need, fits, whole, thrown) refl)
