-- ===== src/FileServer/Chunks.antt =====
-- fileServer/fileServer.cc: what a download sends of a file.
use dserver.Prelude.{
  ℕ, zero, suc, ◌+◌, ◌-◌, ◌<◌, ◌≡◌, ◌≢◌, refl, ap, ◌∙◌, inl, inr, true, false, some, List, [], ◌∷◌,
  ◌++◌, leb, ◌==◌, if◌then◌else◌, length, drop, replicate, codes, decimal, arith, Lacks,
  length-decimal, take_past, drop_past, append_assoc, Bool-cases,
}
use dserver.Buffer.{c_string}
use dserver.FileServer.{FileServer, send_text, chunk_text, send_chunks, send_file, new_block}

drop-replicate : (n m : ℕ) → drop {A = ℕ} n (replicate m 0) ≡ replicate (m - n) 0
drop-replicate zero m = ap (λ k. replicate {A = ℕ} k 0) {x = m} {y = m - 0} (omega arith)
drop-replicate (suc n) zero = ap (λ k. replicate {A = ℕ} k 0) {x = 0} {y = 0 - suc n} (omega arith)
drop-replicate (suc n) (suc m) =
    drop-replicate n m
    ∙ ap (λ k. replicate {A = ℕ} k 0) {x = m - n} {y = suc m - suc n} (omega arith)

drop-new_block : (n : ℕ) → drop n new_block ≡ replicate (1024 - n) 0
unfolding new_block
drop-new_block n = drop-replicate n 1024

c_string-replicate : (k : ℕ) → c_string (replicate k 0) ≡ []
unfolding c_string
c_string-replicate zero = refl
c_string-replicate (suc k) = refl

c_string-stopped : (xs : List ℕ) (k : ℕ) → Lacks 0 xs → c_string (xs ++ replicate k 0) ≡ xs
unfolding c_string
c_string-stopped [] k h = c_string-replicate k
c_string-stopped (x ∷ xs) k (n, h) = ground (arith, n, c_string-stopped xs k h)

-- A one, the number of the bytes in four places, and the bytes.
abbrev pub file_reply : List ℕ → List ℕ
file_reply bytes =
    let size = decimal (length bytes) in
    codes "1" ++ (size ++ (replicate (4 - length size) 0 ++ bytes))

chunk_text_lem :
    (bytes : List ℕ)
    → length bytes < 1000
    → Lacks 0 bytes
    → chunk_text bytes (bytes ++ drop (length bytes) new_block) ≡ some (file_reply bytes)
unfolding chunk_text
chunk_text_lem bytes h l =
    let room : leb (length (decimal (length bytes)) + 1) 4 ≡ true =
      ground (arith, length-decimal 2 (length bytes) h) in
    rw (drop-new_block (length bytes), room, c_string-stopped bytes (1024 - length bytes) l) refl

-- A file that is not empty goes in one chunk.
send_chunks_one :
    (m : ℕ) (s : FileServer) (bytes : List ℕ)
    → length bytes < 1000
    → Lacks 0 bytes
    → length bytes ≢ 0
    → m ≢ 0
    → send_chunks (suc m) s bytes new_block ≡ some (send_text s (file_reply bytes))
unfolding send_chunks
send_chunks_one zero s bytes h l n k = absurd (k refl)
send_chunks_one (suc m) s bytes h l n k =
    let some_left : (length bytes == 0) ≡ false = ground (arith, n) in
    rw
      (
        take_past 1024 bytes (omega (arith, h)),
        some_left,
        chunk_text_lem bytes h l,
        drop_past 1024 bytes (omega (arith, h)),
      )
      refl

send_chunks_none :
    (m : ℕ) (s : FileServer) (bytes : List ℕ)
    → length bytes < 1000
    → (length bytes == 0) ≡ true
    → send_chunks (suc m) s bytes new_block ≡ some s
unfolding send_chunks
send_chunks_none m s bytes h e = rw (take_past 1024 bytes (omega (arith, h)), e) refl

-- The replies to a download with the right password.
abbrev pub file_replies : List ℕ → List (List ℕ)
file_replies bytes =
    let ends = codes "0" ∷ codes "0" ∷ codes "0" ∷ [] in
    if length bytes == 0 then ends else file_reply bytes ∷ ends

pub send_file_lem :
    (s : FileServer) (bytes : List ℕ)
    → length bytes < 1000
    → Lacks 0 bytes
    → send_file s bytes ≡ some (record s { sent = s.sent ++ file_replies bytes })
unfolding send_file send_text
send_file_lem s bytes h l = elim (Bool-cases (length bytes == 0)) [
  | inl e ↦
      rw (send_chunks_none (length bytes) s bytes h e, e)
        (ap (λ texts. some (record s { sent = texts })) (simp append_assoc refl))
  | inr e ↦
      let more : length bytes ≢ 0 = ground (arith, e) in
      rw (send_chunks_one (length bytes) s bytes h l more more, e)
        (ap (λ texts. some (record s { sent = texts })) (simp append_assoc refl))
]
