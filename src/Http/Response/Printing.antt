-- ===== src/Http/Response/Printing.antt =====
-- `appendToBuffer` of net/http/HttpResponse.cc, against the text of the response.
use dserver.Prelude.{
  decimal-Lacks, decimal, ℕ, ◌+◌, ◌≤◌, ◌≡◌, refl, sym, ap, subst, ◌∙◌, Bool, true, false, Option,
  some, List, [], ◌∷◌, ◌++◌, if◌then◌else◌, codes, crlf, length, arith, append_assoc, append-nil,
  length-append, Lacks, ◌==◌, ◌<◌, take_past, length-decimal,
}
use dserver.Timestamp.{snprintf}
use dserver.Buffer.{Buffer, append_c_string, c_string, max_size}
use dserver.Buffer.Contents.{IsValid, contents}
use dserver.Buffer.Append.{append_full}
use dserver.Http.Headers.{Headers}
use dserver.Http.Response.{
  HttpStatusCode, unknown, ok, moved_permanently, bad_request, not_found, HttpResponse,
  status_number, status_start, size_line, append_all, append_headers, append_to_buffer,
}

-- The text of the headers, each string up to its NUL.
abbrev pub printed_headers : Headers → List ℕ
printed_headers [] = []
printed_headers ((key, value) ∷ headers) =
    c_string key ++ (codes ": " ++ (c_string value ++ (crlf ++ printed_headers headers)))

abbrev pub printed_connection : Bool → ℕ → List ℕ
printed_connection true size = codes "Connection: close\r\n"
printed_connection false size =
    codes "Content-Length: " ++ (decimal size ++ codes "\r\nConnection: Keep-Alive\r\n")

-- The text of the response, each string up to its NUL, with the size of the whole body.
abbrev pub printed : HttpResponse → List ℕ
printed r =
    codes "HTTP/1.1 "
    ++ (decimal (status_number r.status_code)
        ++ (codes " "
            ++ (c_string r.status_message
                ++ (crlf
                    ++ (printed_connection r.close_connection (length r.body)
                        ++ (printed_headers r.headers ++ (crlf ++ c_string r.body)))))))

-- `b'` is `b` with the bytes appended.
record Appends (b : Buffer) (bytes : List ℕ) (b' : Buffer) : Type 0 where
  valid : IsValid b'
  holds : contents b' ≡ contents b ++ bytes
  no_further : b'.writer_index ≤ b.writer_index + length bytes

Appends-nil : (b : Buffer) → IsValid b → Appends b [] b
Appends-nil b v = record {
  valid = v;
  holds = sym (append-nil (contents b));
  no_further = omega arith;
}

Appends-append :
    {a b c : Buffer} {xs ys : List ℕ} → Appends a xs b → Appends b ys c → Appends a (xs ++ ys) c
Appends-append {a} {b} {c} {xs} {ys} f g = record {
  valid = g.valid;
  holds = g.holds ∙ ap (λ l. l ++ ys) f.holds ∙ append_assoc (contents a) xs ys;
  no_further = omega (arith, f.no_further, g.no_further, length-append xs ys);
}

append_c_string-Appends :
    (b : Buffer) (s : List ℕ)
    → IsValid b
    → b.writer_index + length (c_string s) ≤ max_size
    → (b' : Buffer) × (append_c_string b s ≡ some b') × Appends b (c_string s) b'
unfolding append_c_string
append_c_string-Appends b s v k =
    let (b', e, v', c, _, n) = append_full b (c_string s) v k in
    (b', e, record { valid = v'; holds = c; no_further = n })

abbrev joined : List (List ℕ) → List ℕ
joined [] = []
joined (s ∷ strings) = c_string s ++ joined strings

append_all-Appends :
    (b : Buffer) (strings : List (List ℕ))
    → IsValid b
    → b.writer_index + length (joined strings) ≤ max_size
    → (b' : Buffer) × (append_all b strings ≡ some b') × Appends b (joined strings) b'
unfolding append_all
append_all-Appends b [] v k = (b, refl, Appends-nil b v)
append_all-Appends b (s ∷ strings) v k =
    let l = length-append (c_string s) (joined strings) in
    let (b1, e, f) = append_c_string-Appends b s v (omega (arith, l)) in
    let (b2, d, g) = append_all-Appends b1 strings f.valid (omega (arith, l, f.no_further)) in
    (b2, rw e d, Appends-append f g)

joined_headers : Headers → List ℕ
joined_headers [] = []
joined_headers ((key, value) ∷ headers) =
    joined (key ∷ codes ": " ∷ value ∷ crlf ∷ []) ++ joined_headers headers

append_headers-Appends :
    (b : Buffer) (headers : Headers)
    → IsValid b
    → b.writer_index + length (joined_headers headers) ≤ max_size
    → (b' : Buffer) × (append_headers b headers ≡ some b') × Appends b (joined_headers headers) b'
unfolding append_headers joined_headers
append_headers-Appends b [] v k = (b, refl, Appends-nil b v)
append_headers-Appends b ((key, value) ∷ headers) v k =
    let strings : List (List ℕ) = key ∷ codes ": " ∷ value ∷ crlf ∷ [] in
    let l = length-append (joined strings) (joined_headers headers) in
    let (b1, e, f) = append_all-Appends b strings v (omega (arith, l)) in
    let (b2, d, g) = append_headers-Appends b1 headers f.valid (omega (arith, l, f.no_further)) in
    (b2, rw e d, Appends-append f g)

printed_headers_lem : (headers : Headers) → joined_headers headers ≡ printed_headers headers
unfolding joined_headers c_string
printed_headers_lem [] = refl
printed_headers_lem ((key, value) ∷ headers) =
    simp (append_assoc, append-nil, printed_headers_lem headers)

abbrev all_set : List ℕ → Bool
all_set [] = true
all_set (x ∷ xs) = let rest = all_set xs in if x == 0 then false else rest

Lacks-test : (xs : List ℕ) → all_set xs ≡ true → Lacks 0 xs
Lacks-test [] h = tt
Lacks-test (x ∷ xs) h = ground (arith, Lacks-test xs)

c_string-append : (xs ys : List ℕ) → Lacks 0 xs → c_string (xs ++ ys) ≡ xs ++ c_string ys
unfolding c_string
c_string-append [] ys h = refl
c_string-append (x ∷ xs) ys (n, h) = ground (arith, c_string-append xs ys h)

c_string-decimal :
    (literal : List ℕ) (n : ℕ) (after : List ℕ)
    → Lacks 0 literal
    → c_string (literal ++ (decimal n ++ after)) ≡ literal ++ (decimal n ++ c_string after)
c_string-decimal literal n after h =
    c_string-append literal (decimal n ++ after) h
    ∙ ap (λ xs. literal ++ xs) (c_string-append (decimal n) after (decimal-Lacks 0 n (omega arith)))

-- Below 10,000,000,000,000 the header with the size has at most 31 bytes.
size_line_fits :
    (size : ℕ)
    → size < 10000000000000
    → size_line size ≡ codes "Content-Length: " ++ (decimal size ++ crlf)
unfolding snprintf
size_line_fits size h =
    take_past 31 (codes "Content-Length: " ++ (decimal size ++ crlf))
      (omega (arith, length-append (decimal size) crlf, length-decimal 12 size h))

status_number_lt : (code : HttpStatusCode) → status_number code < 1000
status_number_lt unknown = omega arith
status_number_lt ok = omega arith
status_number_lt moved_permanently = omega arith
status_number_lt bad_request = omega arith
status_number_lt not_found = omega arith

status_start_fits :
    (r : HttpResponse)
    → status_start r ≡ codes "HTTP/1.1 " ++ (decimal (status_number r.status_code) ++ codes " ")
unfolding snprintf
status_start_fits r =
    let n = status_number r.status_code in
    take_past 31 (codes "HTTP/1.1 " ++ (decimal n ++ codes " ")) (
      omega (
        arith,
        length-append (decimal n) (codes " "),
        length-decimal 2 n (status_number_lt r.status_code),
      ))

append_connection : Buffer → Bool → ℕ → Option Buffer
append_connection b close size =
    if close
    then append_c_string b (codes "Connection: close\r\n")
    else append_all b (size_line size ∷ codes "Connection: Keep-Alive\r\n" ∷ [])

size_line_lem :
    (size : ℕ)
    → size < 10000000000000
    → joined (size_line size ∷ codes "Connection: Keep-Alive\r\n" ∷ [])
      ≡ printed_connection false size
unfolding c_string
size_line_lem size h =
    ap (λ xs. c_string xs ++ codes "Connection: Keep-Alive\r\n") (size_line_fits size h)
    ∙ ap (λ xs. xs ++ codes "Connection: Keep-Alive\r\n")
        (c_string-decimal (codes "Content-Length: ") size crlf
          (Lacks-test (codes "Content-Length: ") refl))
    ∙ ap (λ xs. codes "Content-Length: " ++ xs)
        (append_assoc (decimal size) crlf (codes "Connection: Keep-Alive\r\n"))

append_connection-Appends :
    (b : Buffer) (close : Bool) (size : ℕ)
    → IsValid b
    → (close ≡ false → size < 10000000000000)
    → b.writer_index + length (printed_connection close size) ≤ max_size
    → (b' : Buffer) × (append_connection b close size ≡ some b')
      × Appends b (printed_connection close size) b'
unfolding append_connection c_string
append_connection-Appends b true size v h k =
    append_c_string-Appends b (codes "Connection: close\r\n") v k
append_connection-Appends b false size v h k =
    let strings : List (List ℕ) = size_line size ∷ codes "Connection: Keep-Alive\r\n" ∷ [] in
    let (b', e, f) =
      append_all-Appends b strings v (
        subst (λ xs. b.writer_index + length xs ≤ max_size) (sym (size_line_lem size (h refl)))
          k) in
    (b', e, subst (λ xs. Appends b xs b') (size_line_lem size (h refl)) f)

status_pieces_lem :
    (r : HttpResponse)
    → joined (status_start r ∷ r.status_message ∷ crlf ∷ [])
      ≡ codes "HTTP/1.1 "
        ++ (decimal (status_number r.status_code)
            ++ (codes " " ++ (c_string r.status_message ++ crlf)))
unfolding c_string
status_pieces_lem r =
    let code = status_number r.status_code in
    let message = r.status_message in
    ap (λ xs. c_string xs ++ (c_string message ++ crlf)) (status_start_fits r)
    ∙ ap (λ xs. xs ++ (c_string message ++ crlf))
        (c_string-decimal (codes "HTTP/1.1 ") code (codes " ")
          (Lacks-test (codes "HTTP/1.1 ") refl))
    ∙ ap (λ xs. codes "HTTP/1.1 " ++ xs)
        (append_assoc (decimal code) (codes " ") (c_string message ++ crlf))

body_pieces_lem : (body : List ℕ) → joined (crlf ∷ body ∷ []) ≡ crlf ++ c_string body
unfolding c_string
body_pieces_lem body = ap (λ xs. crlf ++ xs) (append-nil (c_string body))

abbrev status_pieces : HttpResponse → List (List ℕ)
status_pieces r = status_start r ∷ r.status_message ∷ crlf ∷ []

abbrev status_text : HttpResponse → List ℕ
status_text r = joined (status_pieces r)

abbrev status_printed : HttpResponse → List ℕ
status_printed r =
    codes "HTTP/1.1 "
    ++ (decimal (status_number r.status_code) ++ (codes " " ++ (c_string r.status_message ++ crlf)))

-- The text in the four parts that are appended.
abbrev parts : HttpResponse → List ℕ
parts r =
    ((status_text r ++ printed_connection r.close_connection (length r.body))
      ++ joined_headers r.headers)
    ++ joined (crlf ∷ r.body ∷ [])

parts_lem : (r : HttpResponse) → parts r ≡ printed r
parts_lem r =
    ap
      (λ s.
        ((s ++ printed_connection r.close_connection (length r.body)) ++ joined_headers r.headers)
        ++ joined (crlf ∷ r.body ∷ []))
      (status_pieces_lem r)
    ∙ ap
        (λ h.
          ((status_printed r ++ printed_connection r.close_connection (length r.body)) ++ h)
          ++ joined (crlf ∷ r.body ∷ []))
        (printed_headers_lem r.headers)
    ∙ ap
        (λ e.
          ((status_printed r ++ printed_connection r.close_connection (length r.body))
            ++ printed_headers r.headers)
          ++ e)
        (body_pieces_lem r.body)
    ∙ simp append_assoc

append_parts :
    (r : HttpResponse) (b : Buffer)
    → IsValid b
    → (r.close_connection ≡ false → length r.body < 10000000000000)
    → b.writer_index + length (parts r) ≤ max_size
    → (b' : Buffer) × (append_to_buffer r b ≡ some b') × Appends b (parts r) b'
unfolding append_to_buffer append_connection
append_parts r b v h k =
    let s = status_text r in
    let c = printed_connection r.close_connection (length r.body) in
    let fields = joined_headers r.headers in
    let e = joined (crlf ∷ r.body ∷ []) in
    let l1 = length-append ((s ++ c) ++ fields) e in
    let l2 = length-append (s ++ c) fields in
    let l3 = length-append s c in
    let (b1, e1, f1) = append_all-Appends b (status_pieces r) v (omega (arith, l1, l2, l3)) in
    let (b2, e2, f2) =
      append_connection-Appends b1 r.close_connection (length r.body) f1.valid h
        (omega (arith, l1, l2, l3, f1.no_further)) in
    let (b3, e3, f3) =
      append_headers-Appends b2 r.headers f2.valid
        (omega (arith, l1, l2, l3, f1.no_further, f2.no_further)) in
    let (b4, e4, f4) =
      append_all-Appends b3 (crlf ∷ r.body ∷ []) f3.valid
        (omega (arith, l1, l2, l3, f1.no_further, f2.no_further, f3.no_further)) in
    (b4, rw (e1, e2, e3) e4, Appends-append (Appends-append (Appends-append f1 f2) f3) f4)

-- On a valid buffer whose block may still grow by the text of a response, and for a body of less
-- than 10,000,000,000,000 bytes unless the connection is to be closed, appendToBuffer does not fail, the result is valid, and it holds the bytes of the buffer followed by the text: a status
-- line with the code in decimal, the header of the connection, with the size of the whole body
-- unless it is to be closed, the other headers in the order of their fields, an empty line, and
-- the body up to its first NUL.
pub append_to_buffer-printed :
    (r : HttpResponse) (b : Buffer)
    → IsValid b
    → (r.close_connection ≡ false → length r.body < 10000000000000)
    → b.writer_index + length (printed r) ≤ max_size
    → (b' : Buffer) × (append_to_buffer r b ≡ some b')
      × IsValid b'
      × (contents b' ≡ contents b ++ printed r)
append_to_buffer-printed r b v h k =
    let (b', e, f) =
      append_parts r b v h
        (subst (λ xs. b.writer_index + length xs ≤ max_size) (sym (parts_lem r)) k) in
    (b', e, f.valid, f.holds ∙ ap (λ xs. contents b ++ xs) (parts_lem r))
