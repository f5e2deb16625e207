-- ===== src/FileServer/Requests.antt =====
-- fileServer/fileServer.cc: the requests of a client, as bytes and as what they are to do.
use dserver.Prelude.{
  ℕ, ◌<◌, ◌≡◌, sym, ap, ◌∙◌, inl, inr, Bool, true, Option, some, List, [], ◌∷◌, ◌++◌, eq_bytes,
  if◌then◌else◌, length, codes, Lacks, Bool-cases,
}
use dserver.Http.Headers.{Headers, put, find, find-put}
use dserver.FileServer.{FileServer}
use dserver.FileServer.Packets.{packet, command}
use dserver.FileServer.Chunks.{file_replies}

-- An upload of bytes to a name under a password, or a download.
pub data Request : Type 0 where
  put_file : List ℕ → List ℕ → List ℕ → Request
  get_file : List ℕ → List ℕ → Request

abbrev pub print_request : Request → List ℕ
print_request (put_file name password bytes) =
    packet (command (codes "UPLOAD") name password) ++ packet bytes
print_request (get_file name password) = packet (command (codes "DOWNLOAD") name password)

-- The answer to a download, by the name's password and file.
abbrev pub answer_of : List ℕ → Option (List ℕ) → Option (List ℕ) → List (List ℕ)
answer_of password (some wanted) (some bytes) =
    if eq_bytes wanted password then file_replies bytes else codes "0" ∷ []
answer_of password _ _ = codes "0" ∷ []

-- What a request does to the files and the passwords, and what it sends.
abbrev pub perform : Request → FileServer → FileServer
perform (put_file name password bytes) s = record s {
  files = put name bytes s.files;
  passwords = put name password s.passwords;
  sent = s.sent ++ (codes "Upload file finished" ∷ []);
}
perform (get_file name password) s = record s {
  sent = s.sent ++ answer_of password (find name s.passwords) (find name s.files);
}

-- Names that `ofstream` opens as they are, and files that fit one chunk and have no NUL.
abbrev pub IsPlain : (List ℕ → Bool) → Request → Type 0
IsPlain writable (put_file name password bytes) =
    (writable name ≡ true)
    × Lacks 0 name
    × (length (command (codes "UPLOAD") name password) < 2147483644)
    × (length bytes < 1000)
    × Lacks 0 bytes
IsPlain writable (get_file name password) =
    Lacks 0 name × (length (command (codes "DOWNLOAD") name password) < 2147483644)

-- Each name with a password has such a file.
abbrev pub IsStored : FileServer → Type 0
IsStored s =
    (name password : List ℕ)
    → find name s.passwords ≡ some password
    → (bytes : List ℕ) × (find name s.files ≡ some bytes) × (length bytes < 1000) × Lacks 0 bytes

pub perform-IsStored :
    (writable : List ℕ → Bool) (r : Request) (s : FileServer)
    → IsPlain writable r
    → IsStored s
    → IsStored (perform r s)
perform-IsStored writable (get_file name password) s p h = h
perform-IsStored writable (put_file name password bytes) s (_, _, _, small, clean) h = λ k q e.
    elim (Bool-cases (eq_bytes name k)) [
      | inl same ↦ (
        bytes,
        find-put name k bytes s.files ∙ ap (λ b. if b then some bytes else find k s.files) same,
        small,
        clean,
      )
      | inr other ↦
          let kept = λ (v : List ℕ) (m : Headers).
            find-put name k v m ∙ ap (λ b. if b then some v else find k m) other in
          let (old, found, size, plain) = h k q (sym (kept password s.passwords) ∙ e) in
          (old, kept bytes s.files ∙ found, size, plain)
    ]
