-- ===== src/LogFile/Rolling.antt =====
-- base/LogFile.cc and base/FileUtil.cc: a line is written whole, and rolling loses nothing.
use Prim.Native.Nat.{min}
use dserver.Prelude.{
  ℕ, zero, suc, ◌+◌, ◌≤◌, ◌<◌, ◌≡◌, refl, sym, ap, ◌∙◌, inl, inr, true, false, List, [], ◌∷◌, ◌++◌,
  ltb, ◌==◌, length, take, drop, arith, Bool-cases, append_assoc, append-nil, take-drop,
  length-drop, length-append,
}
use dserver.LogFile.{
  AppendFile, write, write_rest, append_file, LogFile, roll_file, append_unlocked,
}

-- The bytes of all files.
abbrev pub all_bytes : List AppendFile → List ℕ
all_bytes [] = []
all_bytes (f ∷ files) = f.stream ++ all_bytes files

abbrev pub bytes_of : LogFile → List ℕ
bytes_of l = all_bytes l.closed ++ l.file.stream

all_bytes-append :
    (files : List AppendFile) (f : AppendFile)
    → all_bytes (files ++ (f ∷ [])) ≡ all_bytes files ++ f.stream
all_bytes-append [] f = append-nil f.stream
all_bytes-append (g ∷ files) f =
    ap (λ xs. g.stream ++ xs) (all_bytes-append files f)
    ∙ sym (append_assoc g.stream (all_bytes files) f.stream)

module _ (answer : ℕ → ℕ) (h : (k : ℕ) → 0 < answer k) where
  write_rest_lem :
      (fuel k : ℕ) (f : AppendFile) (rest : List ℕ)
      → length rest < fuel
      → ((write_rest fuel answer k f rest).stream ≡ f.stream ++ rest)
        × ((write_rest fuel answer k f rest).written_bytes ≡ f.written_bytes)
  unfolding write_rest write
  write_rest_lem zero k f rest l = absurd (omega arith)
  write_rest_lem (suc fuel) k f [] l = (sym (append-nil f.stream), refl)
  write_rest_lem (suc fuel) k f (b ∷ rest) l =
      let n = min (answer k) (length (b ∷ rest)) in
      let (e, w) =
        write_rest_lem fuel (suc k) (record f { stream = f.stream ++ take n (b ∷ rest) })
          (drop n (b ∷ rest)) (omega (arith, h k, length-drop n (b ∷ rest), l)) in
      let more : (length (b ∷ rest) == 0) ≡ false = ground arith in
      let some_taken : (n == 0) ≡ false = ground (arith, h k) in
      (
        rw (more, some_taken)
            (e
              ∙ append_assoc f.stream (take n (b ∷ rest)) (drop n (b ∷ rest))
              ∙ ap (λ xs. f.stream ++ xs) (take-drop n (b ∷ rest))),
        rw (more, some_taken) w,
      )

  append_file_lem :
      (f : AppendFile) (bytes : List ℕ)
      → ((append_file f bytes answer).stream ≡ f.stream ++ bytes)
        × ((append_file f bytes answer).written_bytes ≡ f.written_bytes + length bytes)
  unfolding append_file write
  append_file_lem f bytes =
      let n = min (answer 0) (length bytes) in
      let (e, w) =
        write_rest_lem (suc (length bytes)) 1 (record f { stream = f.stream ++ take n bytes })
          (drop n bytes) (omega (arith, length-drop n bytes)) in
      (
        e
            ∙ append_assoc f.stream (take n bytes) (drop n bytes)
            ∙ ap (λ xs. f.stream ++ xs) (take-drop n bytes),
        ap (λ c. c + length bytes) w,
      )

  rolled_bytes : (l : LogFile) (now : ℕ) → bytes_of (roll_file l now).1 ≡ bytes_of l
  unfolding roll_file
  rolled_bytes l now = elim (Bool-cases (ltb l.last_roll now)) [
    | inl r ↦
        rw r (append-nil (all_bytes (l.closed ++ (l.file ∷ []))) ∙ all_bytes-append l.closed l.file)
    | inr r ↦ rw r refl
  ]

  rolled_counts :
      (l : LogFile) (now : ℕ)
      → l.file.written_bytes ≡ length l.file.stream
      → (roll_file l now).1.file.written_bytes ≡ length (roll_file l now).1.file.stream
  unfolding roll_file
  rolled_counts l now c = elim (Bool-cases (ltb l.last_roll now)) [
    | inl r ↦ rw r refl
    | inr r ↦ rw r c
  ]

  rolled_size :
      (l : LogFile) (now : ℕ) → l.last_roll < now → (roll_file l now).1.file.written_bytes ≡ 0
  unfolding roll_file
  rolled_size l now k = let r : ltb l.last_roll now ≡ true = ground (arith, k) in rw r refl

  -- When every `fwrite` takes at least one byte, `append_unlocked` adds the line, whole, to the end
  -- of what all the files hold, whether or not it goes on to a new file. The count of the file is
  -- that of its bytes, if it was before; and after the second of the last roll the file that is
  -- left has at most the size from which it is to be rolled.
  pub append_unlocked_lem :
      (l : LogFile) (line : List ℕ) (now : ℕ)
      → let l' = append_unlocked l line answer now in
        (bytes_of l' ≡ bytes_of l ++ line)
        × (l.file.written_bytes ≡ length l.file.stream
            → l'.file.written_bytes ≡ length l'.file.stream)
        × (l.last_roll < now → l'.file.written_bytes ≤ l.roll_size)
  unfolding append_unlocked
  append_unlocked_lem l line now =
      let l1 : LogFile = record l { file = append_file l.file line answer } in
      let (e, w) = append_file_lem l.file line in
      let added : bytes_of l1 ≡ bytes_of l ++ line =
        ap (λ xs. all_bytes l.closed ++ xs) e
        ∙ sym (append_assoc (all_bytes l.closed) l.file.stream line) in
      let counts : (l.file.written_bytes ≡ length l.file.stream
          → l1.file.written_bytes ≡ length l1.file.stream) =
        λ c. omega (arith, w, c, ap length e, length-append l.file.stream line) in
      elim (Bool-cases (ltb l.roll_size l1.file.written_bytes)) [
        | inl r ↦ (
          rw r (rolled_bytes l1 now ∙ added),
          (λ c. rw r (rolled_counts l1 now (counts c))),
          (λ k. rw r (omega (arith, rolled_size l1 now k))),
        )
        | inr r ↦ (rw r added, (λ c. rw r (counts c)), (λ k. rw r (ground (arith, r))))
      ]
