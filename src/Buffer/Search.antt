-- ===== src/Buffer/Search.antt =====
-- `findCRLF` and `findEOL`: the end of a line in the readable bytes. A result is an index, and
-- `none` is the null pointer.
use dserver.Prelude.{
  ℕ, suc, ◌+◌, ◌-◌, ◌<◌, ◌≡◌, refl, ap, ◌∙◌, ◌⊎◌, inl, inr, ◌&&◌, Option, none, some, List, [], ◌∷◌,
  ◌++◌, leb, ◌==◌, if◌then◌else◌, ◌>>=◌, ◌>>◌, assert, arith, length, slice, Bool-cases,
  length-append,
}
use dserver.Buffer.{Buffer}
use dserver.Buffer.Contents.{IsValid, contents, length-contents}

abbrev pub cr : ℕ
cr = 13

abbrev pub lf : ℕ
lf = 10

-- `std::search` for "\r\n": the offset of the first match, or of the end.
unfoldable pub search_crlf : List ℕ → ℕ
search_crlf [] = 0
search_crlf (x ∷ []) = 1
search_crlf (x ∷ y ∷ rest) = if x == cr && y == lf then 0 else suc (search_crlf (y ∷ rest))

-- `memchr` for '\n'.
unfoldable pub memchr_lf : List ℕ → Option ℕ
memchr_lf [] = none
memchr_lf (x ∷ xs) =
    let rest = memchr_lf xs in if x == lf then some 0 else (do i ← rest; some (suc i))

-- `findCRLF(start)`, for a `start` in the readable bytes.
unfoldable pub find_crlf_from : Buffer → ℕ → Option (Option ℕ)
find_crlf_from b start = do
  assert (leb b.reader_index start)
  assert (leb start b.writer_index)
  let crlf = start + search_crlf (slice start (b.writer_index - start) b.buffer)
  some (if crlf == b.writer_index then none else some crlf)

unfoldable pub find_crlf : Buffer → Option ℕ
find_crlf b =
    let crlf = b.reader_index + search_crlf (contents b) in
    if crlf == b.writer_index then none else some crlf

unfoldable pub find_eol : Buffer → Option ℕ
find_eol b = do i ← memchr_lf (contents b); some (b.reader_index + i)

unfoldable pub find_eol_from : Buffer → ℕ → Option (Option ℕ)
find_eol_from b start = do
  assert (leb b.reader_index start)
  assert (leb start b.writer_index)
  some (do i ← memchr_lf (slice start (b.writer_index - start) b.buffer); some (start + i))

-- No CR of the list is followed by an LF.
abbrev pub NoCrlf : List ℕ → Type 0
NoCrlf [] = Unit {0}
NoCrlf (x ∷ []) = Unit {0}
NoCrlf (x ∷ y ∷ rest) = ¬ ((x ≡ cr) × (y ≡ lf)) × NoCrlf (y ∷ rest)

-- The two outcomes of the search: the first CR LF ends `line`, or there is none.
abbrev pub Found : List ℕ → ℕ → Type 0
Found xs i =
    ((line : List ℕ) × (rest : List ℕ) × (xs ≡ line ++ (cr ∷ lf ∷ rest))
      × (i ≡ length line)
      × NoCrlf (line ++ (cr ∷ [])))
    ⊎ ((i ≡ length xs) × NoCrlf xs)

NoCrlf-cons :
    (x y : ℕ) (line rest more : List ℕ)
    → ¬ ((x ≡ cr) × (y ≡ lf))
    → NoCrlf (line ++ (cr ∷ []))
    → y ∷ rest ≡ line ++ (cr ∷ lf ∷ more)
    → NoCrlf (x ∷ (line ++ (cr ∷ [])))
NoCrlf-cons x y [] rest more h n e = (λ p. omega (arith, p.1), tt)
NoCrlf-cons x y (z ∷ line) rest more h n e = (λ p. h (p.0, cc), n)

pub search_crlf-Found : (xs : List ℕ) → Found xs (search_crlf xs)
unfolding search_crlf
search_crlf-Found [] = inr (refl, tt)
search_crlf-Found (x ∷ []) = inr (refl, tt)
search_crlf-Found (x ∷ y ∷ rest) = elim (Bool-cases (x == cr && y == lf)) [
  | inl hit ↦ rw hit (inl ([], rest, ground arith, refl, tt))
  | inr miss ↦
      let other : ¬ ((x ≡ cr) × (y ≡ lf)) = λ p. ground (arith, p.0, p.1) in
      rw miss (elim (search_crlf-Found (y ∷ rest)) [
        | inl (line, more, e, i, n) ↦
            inl (x ∷ line, more, ap (◌∷◌ x) e, ap suc i, NoCrlf-cons x y line rest more other n e)
        | inr (i, n) ↦ inr (ap suc i, (other, n))
      ])
]

find_crlf_value :
    (b : Buffer) (i : ℕ)
    → IsValid b
    → search_crlf (contents b) ≡ i
    → i < length (contents b)
    → find_crlf b ≡ some (b.reader_index + i)
unfolding find_crlf
find_crlf_value b i v e h = ground (arith, length-contents b v)

find_crlf_null :
    (b : Buffer) → IsValid b → search_crlf (contents b) ≡ length (contents b) → find_crlf b ≡ none
unfolding find_crlf
find_crlf_null b v e = ground (arith, length-contents b v)

-- On a valid buffer `findCRLF` points at the CR of the first CR LF of the readable bytes, and is
-- null exactly when they hold no CR LF.
pub find_crlf_lem :
    (b : Buffer)
    → IsValid b
    → ((line : List ℕ) × (rest : List ℕ) × (contents b ≡ line ++ (cr ∷ lf ∷ rest))
        × (find_crlf b ≡ some (b.reader_index + length line))
        × NoCrlf (line ++ (cr ∷ [])))
      ⊎ ((find_crlf b ≡ none) × NoCrlf (contents b))
find_crlf_lem b v = elim (search_crlf-Found (contents b)) [
  | inl (line, rest, e, i, n) ↦
      let size = ap length e ∙ length-append line (cr ∷ lf ∷ rest) in
      inl (line, rest, e, find_crlf_value b (length line) v i (omega (arith, size)), n)
  | inr (i, n) ↦ inr (find_crlf_null b v i, n)
]
