-- ===== src/Buffer/Fifo.antt =====
-- A buffer behind its calls is a queue of bytes.
use Prim.Native.Nat.{max}
use dserver.Prelude.{
  ℕ, ◌+◌, ◌≤◌, ◌≡◌, refl, Option, none, some, List, [], ◌∷◌, ◌++◌, leb, if◌then◌else◌, ◌>>=◌, arith,
  length, take, drop, ap, ◌∙◌, take_past, drop_past, dec_le, le→leb, gt→leb,
}
use dserver.Buffer.{
  Buffer, cheap_prepend, max_size, append, append_c_string, c_string, retrieve, retrieve_all,
  retrieve_as_string, retrieve_all_as_string, readable_bytes,
}
use dserver.Buffer.Contents.{
  IsValid, contents, length-contents, retrieve_lem, retrieve_too_much, retrieve_all-IsValid,
  retrieve_as_string_lem, retrieve_as_string_too_much,
}
use dserver.Buffer.Append.{append_full}

-- Calls that put bytes in at the end or take them from the front: both overloads of `append`,
-- `retrieveAsString`, `retrieveAllAsString`, `retrieve` and `retrieveAll`.
pub data Call : Type 0 where
  put : List ℕ → Call
  put_string : List ℕ → Call
  get : ℕ → Call
  get_all : Call
  skip : ℕ → Call
  skip_all : Call

-- The strings that a sequence of calls returns; `none` if one of them fails.
pub run : Buffer → List Call → Option (List (List ℕ))
run b [] = some []
run b (put bytes ∷ calls) = do b' ← append b bytes; run b' calls
run b (put_string str ∷ calls) = do b' ← append_c_string b str; run b' calls
run b (get len ∷ calls) = do
  taken ← retrieve_as_string b len
  rest ← run taken.1 calls
  some (taken.0 ∷ rest)
run b (get_all ∷ calls) = do
  taken ← retrieve_all_as_string b
  rest ← run taken.1 calls
  some (taken.0 ∷ rest)
run b (skip len ∷ calls) = do b' ← retrieve b len; run b' calls
run b (skip_all ∷ calls) = run (retrieve_all b) calls

-- The same calls on a queue of bytes, oldest first: only taking more than it holds fails.
pub fifo : List ℕ → List Call → Option (List (List ℕ))
fifo q [] = some []
fifo q (put bytes ∷ calls) = fifo (q ++ bytes) calls
fifo q (put_string str ∷ calls) = fifo (q ++ c_string str) calls
fifo q (get len ∷ calls) =
    let answer = (do rest ← fifo (drop len q) calls; some (take len q ∷ rest)) in
    if leb len (length q) then answer else none
fifo q (get_all ∷ calls) = do rest ← fifo [] calls; some (q ∷ rest)
fifo q (skip len ∷ calls) =
    let answer = fifo (drop len q) calls in if leb len (length q) then answer else none
fifo q (skip_all ∷ calls) = fifo [] calls

-- The bytes that the calls put in.
abbrev pub total : List Call → ℕ
total [] = 0
total (put bytes ∷ calls) = length bytes + total calls
total (put_string str ∷ calls) = length (c_string str) + total calls
total (get len ∷ calls) = total calls
total (get_all ∷ calls) = total calls
total (skip len ∷ calls) = total calls
total (skip_all ∷ calls) = total calls

retrieve_all_as_string_lem :
    (b : Buffer)
    → IsValid b
    → (b' : Buffer) × (retrieve_all_as_string b ≡ some (contents b, b'))
      × IsValid b'
      × (contents b' ≡ [])
      × (b'.writer_index ≤ max cheap_prepend b.writer_index)
unfolding retrieve_all_as_string
retrieve_all_as_string_lem b v =
    let size = length-contents b v in
    let n = readable_bytes b in
    let (b', e, v', c, w) = retrieve_as_string_lem b n v (omega (arith, size)) in
    (
      b',
      e ∙ ap (λ xs. some (xs, b')) (take_past n (contents b) (omega (arith, size))),
      v',
      c ∙ drop_past n (contents b) (omega (arith, size)),
      w,
    )

retrieve_all-writer : (b : Buffer) → (retrieve_all b).writer_index ≡ cheap_prepend
unfolding retrieve_all
retrieve_all-writer b = refl

-- A valid buffer whose block may still grow by all that is put in answers every sequence of calls of
-- `append`, with a length or with a C string, `retrieve`, `retrieveAll`, `retrieveAsString` and
-- `retrieveAllAsString` as the queue of its bytes does, and fails where that does: only where more
-- bytes are asked for than it holds.
pub run_refines :
    (calls : List Call) (b : Buffer)
    → IsValid b
    → max cheap_prepend b.writer_index + total calls ≤ max_size
    → run b calls ≡ fifo (contents b) calls
unfolding run fifo append_c_string
run_refines [] b v h = refl
run_refines (put bytes ∷ calls) b v h =
    let (b', e, v', c, _, w) = append_full b bytes v (omega arith) in
    simp (e, ← c) (run_refines calls b' v' (omega arith))
run_refines (put_string str ∷ calls) b v h =
    let (b', e, v', c, _, w) = append_full b (c_string str) v (omega arith) in
    simp (e, ← c) (run_refines calls b' v' (omega arith))
run_refines (get_all ∷ calls) b v h =
    let (b', e, v', c, w) = retrieve_all_as_string_lem b v in
    simp (e, ← c, run_refines calls b' v' (omega arith))
run_refines (skip len ∷ calls) b v h = elim (dec_le len (length (contents b))) [
  | yes p ↦
      let (b', e, v', c, w) = retrieve_lem b len v p in
      simp (e, le→leb _ _ p, ← c, run_refines calls b' v' (omega arith))
  | no p ↦
      simp (retrieve_too_much b len v (omega arith), gt→leb len (length (contents b)) (omega arith))
]
run_refines (skip_all ∷ calls) b v h =
    let (v', c) = retrieve_all-IsValid b v in
    simp (← c) (run_refines calls (retrieve_all b) v' (omega (arith, retrieve_all-writer b)))
run_refines (get len ∷ calls) b v h = elim (dec_le len (length (contents b))) [
  | yes p ↦
      let (b', e, v', c, w) = retrieve_as_string_lem b len v p in
      simp (e, le→leb _ _ p, ← c, run_refines calls b' v' (omega arith))
  | no p ↦ simp (
    retrieve_as_string_too_much b len v (omega arith),
    gt→leb len (length (contents b)) (omega arith),
  )
]
