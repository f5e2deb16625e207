-- ===== src/FileServer/Serving.antt =====
-- fileServer/fileServer.cc, `onMessage`: runs of requests, and where it does not end well.
use dserver.Prelude.{
  ℕ, zero, suc, ◌+◌, ◌≤◌, ◌<◌, ◌≡◌, refl, sym, ap, subst, ◌∙◌, ◌⊎◌, inl, inr, Bool, true, some,
  List, [], ◌∷◌, ◌++◌, ltb, length, arith, length-append, append_assoc, Bool-cases,
}
use dserver.Buffer.{Buffer, readable_bytes}
use dserver.Buffer.Contents.{IsValid, contents, length-contents}
use dserver.FileServer.{FileServer, goes_on, returns, round, and_then, rounds, on_message}
use dserver.FileServer.Words.{int_at, add_int_lem, to_size_lem}
use dserver.FileServer.Turns.{round-request}
use dserver.FileServer.Requests.{
  Request, put_file, get_file, print_request, perform, IsPlain, IsStored, perform-IsStored,
}

abbrev pub print_all : List Request → List ℕ
print_all [] = []
print_all (r ∷ rs) = print_request r ++ print_all rs

abbrev pub perform_all : List Request → FileServer → FileServer
perform_all [] s = s
perform_all (r ∷ rs) s = perform_all rs (perform r s)

abbrev pub ArePlain : (List ℕ → Bool) → List Request → Type 0
ArePlain writable [] = Unit {0}
ArePlain writable (r ∷ rs) = IsPlain writable r × ArePlain writable rs

-- The beginning of a packet that is not whole: of its length, or of its bytes.
abbrev pub IsPartial : List ℕ → Type 0
IsPartial rest = (length rest < 4) ⊎ ((int_at rest < 2147483644) × (length rest < int_at rest + 4))

with_buffer :
    (r : Request) (s : FileServer) (b c : Buffer)
    → record (perform r (record s { buffer = b })) { buffer = c }
      ≡ record (perform r s) { buffer = c }
with_buffer (put_file name password bytes) s b c = refl
with_buffer (get_file name password) s b c = refl

perform-buffer :
    (r : Request) (s : FileServer) (b : Buffer)
    → perform r (record s { buffer = b }) ≡ record (perform r s) { buffer = b }
perform-buffer (put_file name password bytes) s b = refl
perform-buffer (get_file name password) s b = refl

perform_all-buffer :
    (rs : List Request) (s : FileServer) (b c : Buffer)
    → record (perform_all rs (record s { buffer = b })) { buffer = c }
      ≡ record (perform_all rs s) { buffer = c }
perform_all-buffer [] s b c = refl
perform_all-buffer (r ∷ rs) s b c =
    ap (λ t. record (perform_all rs t) { buffer = c }) (perform-buffer r s b)
    ∙ perform_all-buffer rs (perform r s) b c

round-partial :
    (writable : List ℕ → Bool) (s : FileServer)
    → IsValid s.buffer
    → IsPartial (contents s.buffer)
    → round writable s ≡ some (returns s)
unfolding round
round-partial writable s v (inl h) = ground (arith, h, length-contents s.buffer v)
round-partial writable s v (inr (k, h)) =
    let size = length-contents s.buffer v in
    let n = int_at (contents s.buffer) in
    let short : ltb (readable_bytes s.buffer) (n + 4) ≡ true = ground (arith, h, size) in
    elim (Bool-cases (ltb (readable_bytes s.buffer) 4)) [
      | inl b ↦ rw b refl
      | inr b ↦
          rw (b, add_int_lem n 4 (omega (arith, k)), to_size_lem (n + 4) (omega (arith, k)), short)
            refl
    ]

rounds-partial :
    (writable : List ℕ → Bool) (fuel : ℕ) (s : FileServer)
    → IsValid s.buffer
    → IsPartial (contents s.buffer)
    → rounds writable (suc fuel) s ≡ some (returns s)
unfolding rounds and_then
rounds-partial writable fuel s v h = elim (Bool-cases (ltb 0 (readable_bytes s.buffer))) [
  | inl b ↦ rw (b, round-partial writable s v h) refl
  | inr b ↦ rw b refl
]

length-print_request :
    (r : Request) (xs : List ℕ) → suc (length xs) ≤ length (print_request r ++ xs)
length-print_request (put_file name password bytes) xs =
    omega (arith, length-append (print_request (put_file name password bytes)) xs)
length-print_request (get_file name password) xs =
    omega (arith, length-append (print_request (get_file name password)) xs)

length-print_all : (rs : List Request) (rest : List ℕ) → length rs ≤ length (print_all rs ++ rest)
length-print_all [] rest = omega arith
length-print_all (r ∷ rs) rest =
    let front = length-print_request r (print_all rs ++ rest) in
    let e = ap length (append_assoc (print_request r) (print_all rs) rest) in
    omega (arith, front, e, length-print_all rs rest)

rounds-goes_on :
    (writable : List ℕ → Bool) (fuel len : ℕ) (s s' : FileServer)
    → ltb 0 (readable_bytes s.buffer) ≡ true
    → round writable s ≡ some (goes_on len s')
    → rounds writable (suc fuel) s ≡ rounds writable fuel s'
unfolding rounds and_then
rounds-goes_on writable fuel len s s' t e = rw (t, e) refl

module _ (writable : List ℕ → Bool) where
  rounds-print_all :
      (rs : List Request) (rest : List ℕ) (fuel : ℕ) (s : FileServer)
      → ArePlain writable rs
      → IsStored s
      → IsValid s.buffer
      → contents s.buffer ≡ print_all rs ++ rest
      → IsPartial rest
      → length rs < fuel
      → (b : Buffer) × (rounds writable fuel s
          ≡ some (returns (record (perform_all rs s) { buffer = b })))
        × IsValid b
        × (contents b ≡ rest)
  rounds-print_all rs rest zero s p h v e q f = absurd (omega arith)
  rounds-print_all [] rest (suc fuel) s p h v e q f =
      (s.buffer, rounds-partial writable fuel s v (subst IsPartial (sym e) q), v, e)
  rounds-print_all (r ∷ rs) rest (suc fuel) s (p, ps) h v e q f =
      let split = e ∙ append_assoc (print_request r) (print_all rs) rest in
      let (len, b1, e1, v1, c1) = round-request writable r (print_all rs ++ rest) s p h v split in
      let s1 = record (perform r s) { buffer = b1 } in
      let some_left : ltb 0 (readable_bytes s.buffer) ≡ true = ground (
        arith,
        ap length split,
        length-print_request r (print_all rs ++ rest),
        length-contents s.buffer v,
      ) in
      let (b, e2, v2, c2) =
        rounds-print_all rs rest fuel s1 ps (perform-IsStored writable r s p h) v1 c1 q
          (omega arith) in
      (
        b,
        rounds-goes_on writable fuel len s s1 some_left e1
            ∙ e2
            ∙ ap (λ t. some (returns t)) (perform_all-buffer rs (perform r s) b1 b),
        v2,
        c2,
      )

  -- On a valid buffer that holds requests and the beginning of a further packet, onMessage does
  -- what each request is to do, in order, with the right answers, returns, and leaves exactly the
  -- beginning of that packet. The names have no NUL, and `ofstream` opens those of the uploads; the
  -- packets are below 2 ^ 31 bytes; and the files, those that a name with a password has already
  -- too, are below 1,000 bytes and have no NUL.
  pub on_message-print_all :
      (rs : List Request) (rest : List ℕ) (s : FileServer)
      → ArePlain writable rs
      → IsStored s
      → IsValid s.buffer
      → contents s.buffer ≡ print_all rs ++ rest
      → IsPartial rest
      → (b : Buffer) × (on_message writable s
          ≡ some (returns (record (perform_all rs s) { buffer = b })))
        × IsValid b
        × (contents b ≡ rest)
  unfolding on_message
  on_message-print_all rs rest s p h v e q =
      rounds-print_all rs rest (suc (readable_bytes s.buffer)) s p h v e q
        (omega (arith, length-print_all rs rest, ap length e, length-contents s.buffer v))
