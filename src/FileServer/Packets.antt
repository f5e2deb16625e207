-- ===== src/FileServer/Packets.antt =====
-- fileServer/fileServer.cc: packets, and what a message in one is taken apart into.
use dserver.Prelude.{
  ℕ, ◌+◌, ◌-◌, ◌<◌, ◌≡◌, refl, sym, ap, ◌∙◌, true, some, List, [], ◌∷◌, ◌++◌, eq_bytes_refl, length,
  drop, arith, Lacks, length-append, take_past, drop-drop, take-length-append, drop-length-append,
}
use dserver.Buffer.{c_string}
use dserver.FileServer.{has_prefix, name_and_password}
use dserver.FileServer.Words.{
  add_int_lem, sub_int_lem, to_size_lem, substr_lem, read_int, int_bytes, int_at-int_bytes,
}

-- A length and the bytes.
abbrev pub packet : List ℕ → List ℕ
packet bytes = int_bytes (length bytes) ++ bytes

-- A word, the length of the name, the name and the password.
abbrev pub command : List ℕ → List ℕ → List ℕ → List ℕ
command word name password = word ++ (int_bytes (length name) ++ (name ++ password))

pub length-command :
    (word name password : List ℕ)
    → length (command word name password) ≡ length word + (4 + (length name + length password))
length-command word name password = omega (
  arith,
  length-append word (int_bytes (length name) ++ (name ++ password)),
  length-append name password,
)

pub c_string_lem : (xs : List ℕ) → Lacks 0 xs → c_string xs ≡ xs
unfolding c_string
c_string_lem [] h = refl
c_string_lem (x ∷ xs) (n, h) = ground (arith, n, c_string_lem xs h)

pub has_prefix-command : (word rest : List ℕ) → has_prefix word (word ++ rest) ≡ some true
unfolding has_prefix
has_prefix-command word rest =
    rw
      (
        substr_lem (word ++ rest) 0 (length word) (omega arith),
        take-length-append word rest,
        eq_bytes_refl word,
      )
      refl

module _ (word name password : List ℕ) where
  abbrev message : List ℕ
  message = command word name password

  after_length : drop (length word + 4) message ≡ name ++ password
  after_length =
      sym (drop-drop 4 (length word) message)
      ∙ ap (drop 4) (drop-length-append word (int_bytes (length name) ++ (name ++ password)))

  after_name : drop (length word + 4 + length name) message ≡ password
  after_name =
      sym (drop-drop (length name) (length word + 4) message)
      ∙ ap (drop (length name)) after_length
      ∙ drop-length-append name password

  pub name_and_password-command :
      length message < 2147483648
      → name_and_password message (length message) (length word) ≡ some (name, password)
  unfolding name_and_password read_int
  name_and_password-command h =
      let size = length-command word name password in
      rw
        (
          substr_lem message (length word) 4 (omega (arith, size)),
          drop-length-append word (int_bytes (length name) ++ (name ++ password)),
          int_at-int_bytes (length name) (0 ∷ []) (omega (arith, size, h)),
          to_size_lem (length name) (omega (arith, size, h)),
          substr_lem message (length word + 4) (length name) (omega (arith, size)),
          add_int_lem (length word + 4) (length name) (omega (arith, size, h)),
          sub_int_lem (length message) (length word + 4) (omega (arith, size)) h,
          sub_int_lem (length message - (length word + 4)) (length name) (omega (arith, size))
              (omega (arith, h)),
          to_size_lem (length word + 4 + length name) (omega (arith, size, h)),
          to_size_lem (length message - (length word + 4) - length name) (omega (arith, size, h)),
          substr_lem message (length word + 4 + length name)
              (length message - (length word + 4) - length name) (omega (arith, size)),
          after_length,
          after_name,
          take-length-append name password,
          take_past (length message - (length word + 4) - length name) password
              (omega (arith, size)),
        )
        refl
