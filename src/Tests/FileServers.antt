-- ===== src/Tests/FileServers.antt =====
-- The server of src/fileServer on whole requests, on part of one, and on requests that end it.
use dserver.Prelude.{
  ℕ, ◌+◌, ◌≡◌, refl, true, none, some, List, [], ◌∷◌, ◌++◌, length, length-append, length-replicate,
  replicate, eq_bytes, ◌<◌, inr, codes, decimal, digits, arith,
}
use dserver.Buffer.{Buffer}
use dserver.Buffer.Contents.{IsValid, contents}
use dserver.Http.Headers.{put, find}
use dserver.FileServer.{FileServer, returns, spins, on_message}
use dserver.FileServer.Words.{int_bytes}
use dserver.FileServer.Packets.{packet, command}
use dserver.FileServer.Requests.{Request, put_file, get_file}
use dserver.FileServer.Serving.{print_all, on_message-print_all}
use dserver.FileServer.Failures.{on_message_spins, on_message_overflows, on_message_negative}

abbrev holding : List ℕ → Buffer
holding bytes = record {
  buffer = replicate 8 0 ++ bytes;
  reader_index = 8;
  writer_index = 8 + length bytes;
}

holding-IsValid : (bytes : List ℕ) → length bytes < 1000 → IsValid (holding bytes)
holding-IsValid bytes h = record {
  ordered = omega arith;
  within = omega (arith, length-append (replicate 8 0) bytes);
  reserved = omega (arith, length-append (replicate 8 0) bytes);
  bounded = omega (arith, length-append (replicate 8 0) bytes, h);
}

abbrev new_server : List ℕ → FileServer
new_server bytes = record { buffer = holding bytes; files = []; passwords = []; sent = [] }

-- A file is put, and asked for with its password and with another; a packet of five bytes begins.
abbrev requests : List Request
requests =
    put_file (codes "a.txt") (codes "pw") (codes "hello")
    ∷ get_file (codes "a.txt") (codes "pw")
    ∷ get_file (codes "a.txt") (codes "no")
    ∷ []

abbrev begun : List ℕ
begun = int_bytes 5 ++ codes "UP"

on_message-print_all_example :
    (b : Buffer) × (on_message (λ name. true) (new_server (print_all requests ++ begun))
      ≡ some (
          returns (record {
            buffer = b;
            files = (codes "a.txt", codes "hello") ∷ [];
            passwords = (codes "a.txt", codes "pw") ∷ [];
            sent =
                codes "Upload file finished"
                ∷ (codes "15" ++ (0 ∷ 0 ∷ 0 ∷ codes "hello"))
                ∷ codes "0"
                ∷ codes "0"
                ∷ codes "0"
                ∷ codes "0"
                ∷ [];
          })))
    × IsValid b
    × (contents b ≡ begun)
unfolding put find decimal digits eq_bytes
on_message-print_all_example =
    on_message-print_all (λ name. true) requests begun (new_server (print_all requests ++ begun))
      ((refl, omega arith, omega arith, omega arith, omega arith), (omega arith, (omega arith, tt)))
      (λ name password e. cc e) (holding-IsValid (print_all requests ++ begun) (omega arith)) refl
      (inr (omega arith, omega arith))

abbrev upload_text : List ℕ
upload_text = command (codes "UPLOAD") (codes "a.txt") (codes "pw")

-- The file's packet has two of its five bytes.
on_message_spins_example :
    (b : Buffer) × (on_message (λ name. true) (new_server (packet upload_text ++ begun))
      ≡ some (
          spins
            (record { buffer = b; files = (codes "a.txt", []) ∷ []; passwords = []; sent = [] })))
    × (contents b ≡ begun)
unfolding put
on_message_spins_example =
    on_message_spins (λ name. true) (new_server (packet upload_text ++ begun)) (codes "a.txt")
      (codes "pw") begun refl (omega arith)
      (record {
        valid = holding-IsValid (packet upload_text ++ begun) (omega arith);
        holds = refl;
        small = omega arith;
      })
      (inr (omega arith, omega arith))

abbrev download_text : List ℕ
download_text = command (codes "DOWNLOAD") (codes "a.txt") (codes "pw")

abbrev large_file : List ℕ
large_file = replicate 1000 120

on_message_overflows_example :
    on_message
      (λ name. true)
      (record (new_server (packet download_text)) {
        files = (codes "a.txt", large_file) ∷ [];
        passwords = (codes "a.txt", codes "pw") ∷ [];
      })
    ≡ none
unfolding find eq_bytes
on_message_overflows_example =
    on_message_overflows (λ name. true)
      (record (new_server (packet download_text)) {
        files = (codes "a.txt", large_file) ∷ [];
        passwords = (codes "a.txt", codes "pw") ∷ [];
      })
      (codes "a.txt") (codes "pw") [] large_file (omega arith)
      (record {
        valid = holding-IsValid (packet download_text) (omega arith);
        holds = refl;
        small = omega arith;
      })
      refl refl (omega (arith, length-replicate {A = ℕ} 1000 120))

-- A length of -1.
on_message_negative_example :
    on_message (λ name. true) (new_server (255 ∷ 255 ∷ 255 ∷ 255 ∷ [])) ≡ none
on_message_negative_example =
    on_message_negative (λ name. true) (new_server (255 ∷ 255 ∷ 255 ∷ 255 ∷ []))
      (holding-IsValid (255 ∷ 255 ∷ 255 ∷ 255 ∷ []) (omega arith)) (omega arith) (omega arith)
      (omega arith)
