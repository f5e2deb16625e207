-- ===== src/Tests/Buffers.antt =====
-- Runs of `Buffer`, and its theorems at inputs that meet their hypotheses.
use dserver.Prelude.{
  ℕ, ◌≤◌, ◌≡◌, refl, some, List, [], ◌∷◌, ◌++◌, arith, codes, length-take-le, take, write_at,
}
use dserver.Buffer.{
  Buffer, c_string, retrieve, append, ensure_writable_bytes, make_space, resize, has_written,
  ReadResult, received, offered, read_fd,
}
use dserver.Buffer.Contents.{IsValid, contents, retrieve_lem}
use dserver.Buffer.Read.{stored, Fits, read_fd_lem}
use dserver.Buffer.Search.{find_crlf, find_eol, search_crlf, memchr_lf}
use dserver.Buffer.Fifo.{
  Call, put, put_string, get, get_all, skip, skip_all, run, fifo, run_refines,
}

-- Six bytes "ab\r\ncd" behind a prefix of ten, in a block of twenty.
abbrev pub held : Buffer
held = record { buffer = codes "..........ab\r\ncd...."; reader_index = 10; writer_index = 16 }

pub held-IsValid : IsValid held
held-IsValid = omega arith

-- Room for eight bytes is there once the bytes are moved to the front.
append_compacts :
    append held (codes "12345")
    ≡ some (record { buffer = codes "........ab\r\ncd12345."; reader_index = 8; writer_index = 19 })
unfolding append ensure_writable_bytes make_space resize has_written write_at
append_compacts = refl

append_grows :
    append held (codes "1234567")
    ≡ some (record {
      buffer = codes "..........ab\r\ncd1234567";
      reader_index = 10;
      writer_index = 23;
    })
unfolding append ensure_writable_bytes make_space resize has_written write_at
append_grows = refl

eol_found : find_eol held ≡ some 13
unfolding find_eol memchr_lf
eol_found = refl

crlf_found : find_crlf held ≡ some 12
unfolding find_crlf search_crlf
crlf_found = refl

retrieve_lem_example :
    (b : Buffer) × (retrieve held 4 ≡ some b)
    × IsValid b
    × (contents b ≡ codes "cd")
    × (b.writer_index ≤ 16)
retrieve_lem_example = retrieve_lem held 4 held-IsValid (omega arith)

-- A socket that holds six bytes more than the block has room for.
six_more : ℕ → ReadResult
six_more room = received (take room (codes "0123456789"))

six_more-Fits : Fits six_more
unfolding six_more
six_more-Fits n = length-take-le n (codes "0123456789")

read_fd_lem_example :
    (b : Buffer) × (read_fd held six_more ≡ some (six_more (offered held), b))
    × IsValid b
    × (contents b ≡ codes "ab\r\ncd" ++ stored (six_more (offered held)))
read_fd_lem_example = read_fd_lem held six_more held-IsValid six_more-Fits (omega arith)

abbrev calls : List Call
calls =
    get 3
    ∷ put (codes "0123456789")
    ∷ get 12
    ∷ put (codes "ef")
    ∷ skip 1
    ∷ put_string (codes "gh")
    ∷ get_all
    ∷ put (codes "i")
    ∷ skip_all
    ∷ []

run_refines_example : run held calls ≡ fifo (codes "ab\r\ncd") calls
unfolding c_string
run_refines_example = run_refines calls held held-IsValid (omega arith)
