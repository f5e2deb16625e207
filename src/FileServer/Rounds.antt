-- ===== src/FileServer/Rounds.antt =====
-- fileServer/fileServer.cc, `onMessage`: a round on a whole packet, and the parts of one.
use dserver.Prelude.{
  ℕ, ◌+◌, ◌<◌, ◌≡◌, refl, sym, ap, ◌∙◌, Bool, true, false, some, List, ◌++◌, ltb, ◌>>=◌, length,
  take, drop, codes, arith, length-append, take-length-append, drop-length-append, drop-drop,
}
use dserver.Buffer.{Buffer, readable_bytes, c_string, retrieve}
use dserver.Buffer.Contents.{IsValid, contents, length-contents, retrieve_lem}
use dserver.Http.Headers.{put}
use dserver.FileServer.{
  FileServer, goes_on, send_text, store_bytes, store_data, upload, after_upload, drop_packet, round,
}
use dserver.FileServer.Words.{
  int_at, to_size, add_int, add_int_lem, to_size_lem, new_string_lem, int_at-int_bytes,
}
use dserver.FileServer.Packets.{packet}

-- A buffer that begins with a packet.
pub record Begins (b : Buffer) (bytes rest : List ℕ) : Type 0 where
  pub valid : IsValid b
  pub holds : contents b ≡ packet bytes ++ rest
  pub small : length bytes < 2147483644

module _ {b : Buffer} {bytes rest : List ℕ} (h : Begins b bytes rest) where
  pub readable : readable_bytes b ≡ 4 + (length bytes + length rest)
  readable = omega (arith, length-contents b h.valid, ap length h.holds, length-append bytes rest)

  length_read : int_at (contents b) ≡ length bytes
  length_read =
      ap int_at h.holds ∙ int_at-int_bytes (length bytes) (bytes ++ rest) (omega (arith, h.small))

  payload : take (length bytes) (drop 4 (contents b)) ≡ bytes
  payload = ap (λ c. take (length bytes) (drop 4 c)) h.holds ∙ take-length-append bytes rest

  pub need_lem : add_int (length bytes) 4 ≡ some (length bytes + 4)
  need_lem = add_int_lem (length bytes) 4 (omega (arith, h.small))

  size_lem : to_size (length bytes + 4) ≡ length bytes + 4
  size_lem = to_size_lem (length bytes + 4) (omega (arith, h.small))

  -- The packet is taken out.
  pub retrieve-packet :
      (b' : Buffer) × (retrieve b (to_size (length bytes + 4)) ≡ some b')
      × IsValid b'
      × (contents b' ≡ rest)
  retrieve-packet =
      let (b', e, v, c, _) =
        retrieve_lem b (length bytes + 4) h.valid
          (omega (arith, length-contents b h.valid, readable)) in
      (
        b',
        ap (retrieve b) size_lem ∙ e,
        v,
        c
            ∙ ap (drop (length bytes + 4)) h.holds
            ∙ ap (λ n. drop n (packet bytes ++ rest)) {x = length bytes + 4} {y = 4 + length bytes}
                (omega arith)
            ∙ sym (drop-drop (length bytes) 4 (packet bytes ++ rest))
            ∙ drop-length-append bytes rest,
      )

-- A round on a whole packet takes its bytes for the message.
pub round-packet :
    (writable : List ℕ → Bool) (s : FileServer) (bytes rest : List ℕ)
    → Begins s.buffer bytes rest
    → round writable s
      ≡ (upload writable s bytes (length bytes) >>= λ part. after_upload bytes part >>= drop_packet)
unfolding round
round-packet writable s bytes rest h =
    let all = readable h in
    let four : ltb (readable_bytes s.buffer) 4 ≡ false = ground (arith, all) in
    let whole : ltb (readable_bytes s.buffer) (length bytes + 4) ≡ false = ground (arith, all) in
    rw
      (
        four,
        length_read h,
        need_lem h,
        size_lem h,
        whole,
        new_string_lem (drop 4 (contents s.buffer)) (length bytes) (omega (arith, h.small)),
        payload h,
      )
      refl

-- The end of a round.
pub drop_packet-packet :
    (s : FileServer) (bytes rest : List ℕ)
    → Begins s.buffer bytes rest
    → (b' : Buffer) × (drop_packet (goes_on (length bytes) s)
        ≡ some (goes_on (length bytes) (record s { buffer = b' })))
      × IsValid b'
      × (contents b' ≡ rest)
unfolding drop_packet
drop_packet-packet s bytes rest h =
    let (b', e, v, c) = retrieve-packet h in (b', rw (need_lem h, e) refl, v, c)

-- The file's bytes are there.
pub store_data-packet :
    (s : FileServer) (name password bytes rest : List ℕ)
    → Begins s.buffer bytes rest
    → store_data s name password
      ≡ some (
          goes_on (length bytes) (
            send_text
              (record s {
                files = put (c_string name) bytes s.files;
                passwords = put name password s.passwords;
              })
              (codes "Upload file finished")))
unfolding store_data store_bytes
store_data-packet s name password bytes rest h =
    let all = readable h in
    let four : ltb (readable_bytes s.buffer) 4 ≡ false = ground (arith, all) in
    let whole : ltb (readable_bytes s.buffer) (length bytes + 4) ≡ false = ground (arith, all) in
    let positive : ltb (length bytes) 2147483648 ≡ true = ground (arith, h.small) in
    rw (four, length_read h, need_lem h, size_lem h, whole, positive, payload h) refl
