-- ===== src/FileServer/Turns.antt =====
-- fileServer/fileServer.cc, `onMessage`: a round on a request.
use dserver.Prelude.{
  ℕ, ◌≡◌, refl, ◌∙◌, inl, inr, Bool, false, Option, none, some, List, [], ◌++◌, eq_bytes, length,
  codes, arith, Lacks, append_assoc, Bool-cases,
}
use dserver.Buffer.{Buffer}
use dserver.Buffer.Contents.{IsValid, contents}
use dserver.Http.Headers.{put, find, put-put}
use dserver.FileServer.{
  FileServer, goes_on, send_text, has_prefix, upload, open_and_store, open_and_send, check_and_send,
  download, after_upload, round,
}
use dserver.FileServer.Words.{substr_lem, int_bytes}
use dserver.FileServer.Packets.{
  packet, command, c_string_lem, has_prefix-command, name_and_password-command,
}
use dserver.FileServer.Chunks.{send_file_lem}
use dserver.FileServer.Rounds.{
  Begins, need_lem, retrieve-packet, round-packet, drop_packet-packet, store_data-packet,
}
use dserver.FileServer.Requests.{
  Request, put_file, get_file, print_request, answer_of, perform, IsPlain, IsStored,
}

no_download : (rest : List ℕ) → has_prefix (codes "DOWNLOAD") (codes "UPLOAD" ++ rest) ≡ some false
unfolding has_prefix eq_bytes
no_download rest = rw (substr_lem (codes "UPLOAD" ++ rest) 0 8 (omega arith)) refl

pub no_upload :
    (rest : List ℕ) → has_prefix (codes "UPLOAD") (codes "DOWNLOAD" ++ rest) ≡ some false
unfolding has_prefix eq_bytes
no_upload rest = rw (substr_lem (codes "DOWNLOAD" ++ rest) 0 6 (omega arith)) refl

-- A round on a request at the front of a buffer.
abbrev pub Serves : (List ℕ → Bool) → Request → FileServer → List ℕ → Type 0
Serves writable r s rest =
    (len : ℕ) × (b : Buffer) × (round writable s
      ≡ some (goes_on len (record (perform r s) { buffer = b })))
    × IsValid b
    × (contents b ≡ rest)

module _ (writable : List ℕ → Bool) (name password bytes rest : List ℕ) (s : FileServer) where
  abbrev upload_text : List ℕ
  upload_text = command (codes "UPLOAD") name password

  round-put_file :
      IsPlain writable (put_file name password bytes)
      → IsValid s.buffer
      → contents s.buffer ≡ print_request (put_file name password bytes) ++ rest
      → Serves writable (put_file name password bytes) s rest
  unfolding upload open_and_store download after_upload send_text
  round-put_file (open_, named, short, small, clean) v e =
      let whole : Begins s.buffer upload_text (packet bytes ++ rest) = record {
        valid = v;
        holds = e ∙ append_assoc (packet upload_text) (packet bytes) rest;
        small = short;
      } in
      let (b1, e1, v1, c1) = retrieve-packet whole in
      let later : Begins b1 bytes rest = record {
        valid = v1;
        holds = c1;
        small = omega (arith, small);
      } in
      let stored = record s { buffer = b1; files = put name [] s.files } in
      let (b2, e2, v2, c2) =
        drop_packet-packet (record (perform (put_file name password bytes) s) { buffer = b1 }) bytes
          rest later in
      (
        length bytes,
        b2,
        rw
            (
              round-packet writable s upload_text (packet bytes ++ rest) whole,
              has_prefix-command (codes "UPLOAD") (int_bytes (length name) ++ (name ++ password)),
              name_and_password-command (codes "UPLOAD") name password (omega (arith, short)),
              c_string_lem name named,
              open_,
              need_lem whole,
              e1,
              store_data-packet stored name password bytes rest later,
              c_string_lem name named,
              put-put name bytes [] s.files,
              no_download (int_bytes (length name) ++ (name ++ password)),
            )
            e2,
        v2,
        c2,
      )

module _ (writable : List ℕ → Bool) (name password rest : List ℕ) (s : FileServer) where
  abbrev download_text : List ℕ
  download_text = command (codes "DOWNLOAD") name password

  check_and_send_lem :
      IsStored s
      → (len : ℕ) → (wanted : Option (List ℕ)) → find name s.passwords ≡ wanted
      → Lacks 0 name
      → check_and_send s name password len wanted
        ≡ some (
            goes_on len
              (record s { sent = s.sent ++ answer_of password wanted (find name s.files) }))
  unfolding check_and_send open_and_send send_text
  check_and_send_lem h len none e named = refl
  check_and_send_lem h len (some wanted) e named =
      let (bytes, found, small, clean) = h name wanted e in
      elim (Bool-cases (eq_bytes wanted password)) [
        | inl b ↦ rw (b, c_string_lem name named, found, b, send_file_lem s bytes small clean) refl
        | inr b ↦ rw (b, found, b) refl
      ]

  round-get_file :
      IsPlain writable (get_file name password)
      → IsStored s
      → IsValid s.buffer
      → contents s.buffer ≡ print_request (get_file name password) ++ rest
      → Serves writable (get_file name password) s rest
  unfolding upload download after_upload
  round-get_file (named, short) h v e =
      let whole : Begins s.buffer download_text rest = record {
        valid = v;
        holds = e;
        small = short;
      } in
      let (b, e1, v1, c1) =
        drop_packet-packet (perform (get_file name password) s) download_text rest whole in
      (
        length download_text,
        b,
        rw
            (
              round-packet writable s download_text rest whole,
              no_upload (int_bytes (length name) ++ (name ++ password)),
              has_prefix-command (codes "DOWNLOAD") (int_bytes (length name) ++ (name ++ password)),
              name_and_password-command (codes "DOWNLOAD") name password (omega (arith, short)),
              check_and_send_lem h (length download_text) (find name s.passwords) refl named,
            )
            e1,
        v1,
        c1,
      )

-- A round on a plain request does what the request is to do, and takes it out of the buffer.
pub round-request :
    (writable : List ℕ → Bool) (r : Request) (rest : List ℕ) (s : FileServer)
    → IsPlain writable r
    → IsStored s
    → IsValid s.buffer
    → contents s.buffer ≡ print_request r ++ rest
    → Serves writable r s rest
round-request writable (put_file name password bytes) rest s p h v e =
    round-put_file writable name password bytes rest s p v e
round-request writable (get_file name password) rest s p h v e =
    round-get_file writable name password rest s p h v e
