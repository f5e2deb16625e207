-- ===== src/Buffer/Read.antt =====
-- `readFd`: one `readv` into the block and a second block on the stack.
use dserver.Prelude.{
  ℕ, ◌+◌, ◌≤◌, ◌<◌, ◌≡◌, refl, sym, ap, ◌∙◌, some, List, [], ◌++◌, ◌>>=◌, arith, length, take, drop,
  dec_lt, length-take, length-drop, take-drop, take_past, append_assoc, append-nil, ◌⊎◌, inl, inr,
}
use dserver.Buffer.{
  Buffer, max_size, writable_bytes, append, ReadResult, received, failed, extra_size, offered,
  read_fd,
}
use dserver.Buffer.Contents.{IsValid, contents}
use dserver.Buffer.Append.{room, written, written_lem, append_lem, writable_bytes_lem}

abbrev pub stored : ReadResult → List ℕ
stored (received bytes) = bytes
stored (failed errno) = []

read_fd_fits :
    (b : Buffer) (readv : ℕ → ReadResult) (bytes : List ℕ)
    → IsValid b
    → readv (offered b) ≡ received bytes
    → length bytes ≤ room b
    → read_fd b readv ≡ some (received bytes, written b bytes)
unfolding read_fd written
read_fd_fits b readv bytes v e h =
    rw (e, read_fd) (ground (arith, take_past (writable_bytes b) bytes))

read_fd_spills :
    (b : Buffer) (readv : ℕ → ReadResult) (bytes : List ℕ)
    → IsValid b
    → readv (offered b) ≡ received bytes
    → room b < length bytes
    → read_fd b readv ≡ (
        append (written b (take (room b) bytes)) (drop (room b) bytes) >>= λ b'.
        some (received bytes, b'))
unfolding read_fd written
read_fd_spills b readv bytes v e h = rw (e, read_fd) (ground (arith, length-take (room b) bytes))

read_fd-failed :
    (b : Buffer) (readv : ℕ → ReadResult) (errno : ℕ)
    → readv (offered b) ≡ failed errno
    → read_fd b readv ≡ some (failed errno, b)
unfolding read_fd
read_fd-failed b readv errno e = rw (e, read_fd)

offered-spills :
    (b : Buffer) (n : ℕ) → IsValid b → room b < n → n ≤ offered b → n ≤ room b + extra_size
unfolding offered
offered-spills b n v h k = ground (arith, writable_bytes_lem b v)

-- `readv` stores no more than the room it is given.
abbrev pub Fits : (ℕ → ReadResult) → Type 0
Fits readv = (n : ℕ) → length (stored (readv n)) ≤ n

read_fd_stores :
    (b : Buffer) (readv : ℕ → ReadResult) (bytes : List ℕ)
    → IsValid b
    → length b.buffer + extra_size ≤ max_size
    → length bytes ≤ offered b
    → readv (offered b) ≡ received bytes
    → (b' : Buffer) × (read_fd b readv ≡ some (received bytes, b'))
      × IsValid b'
      × (contents b' ≡ contents b ++ bytes)
unfolding written
read_fd_stores b readv bytes v k f e = elim (dec_lt (room b) (length bytes)) [
  | yes p ↦
      let front = take (room b) bytes in
      let back = drop (room b) bytes in
      let size = length-take (room b) bytes (omega arith) in
      let (v₁, c₁) = written_lem b front v (omega (arith, size)) in
      let fits = offered-spills b (length bytes) v p f in
      let (b', done, v', c') =
        append_lem (written b front) back v₁ (omega (arith, size, length-drop (room b) bytes)) in
      (
        b',
        read_fd_spills b readv bytes v e p ∙ simp done,
        v',
        c'
            ∙ ap (λ xs. xs ++ back) c₁
            ∙ append_assoc (contents b) front back
            ∙ ap (◌++◌ (contents b)) (take-drop (room b) bytes),
      )
  | no p ↦
      let (v', c') = written_lem b bytes v (omega arith) in
      (written b bytes, read_fd_fits b readv bytes v e (omega arith), v', c')
]

ReadResult-cases :
    (r : ReadResult)
    → ((bytes : List ℕ) × (r ≡ received bytes)) ⊎ ((errno : ℕ) × (r ≡ failed errno))
ReadResult-cases (received bytes) = inl (bytes, refl)
ReadResult-cases (failed errno) = inr (errno, refl)

-- `readFd` reports what `readv` reports, and every byte that `readv` stored, in the block or past
-- its end, is held behind the bytes that were there; after an error the buffer is as it was.
pub read_fd_lem :
    (b : Buffer) (readv : ℕ → ReadResult)
    → IsValid b
    → Fits readv
    → length b.buffer + extra_size ≤ max_size
    → (b' : Buffer) × (read_fd b readv ≡ some (readv (offered b), b'))
      × IsValid b'
      × (contents b' ≡ contents b ++ stored (readv (offered b)))
read_fd_lem b readv v f k = elim (ReadResult-cases (readv (offered b))) [
  | inl (bytes, e) ↦
      let (b', done, v', c) = read_fd_stores b readv bytes v k (rw e at (f (offered b))) e in
      (b', rw e done, v', rw e c)
  | inr (errno, e) ↦
      (b, rw e (read_fd-failed b readv errno e), v, rw e (sym (append-nil (contents b))))
]
