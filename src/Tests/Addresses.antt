-- ===== src/Tests/Addresses.antt =====
-- Addresses as dotted texts.
use dserver.Prelude.{
  ℕ, ◌+◌, ◌*◌, ◌/◌, ◌%◌, ◌<◌, ◌≤◌, ◌≡◌, refl, ap, ◌∙◌, some, List, ◌∷◌, ◌++◌, length, drop, codes,
  decimal, digits, break_at, break_at-hit, arith, decimal-Lacks, length-decimal, length-append,
}
use dserver.LogStream.Convert.{from_digits}
use dserver.Timestamp.Printing.{from_digits-decimal}
use dserver.InetAddress.{InetAddress, Inet, network_to_host16, of_ip_port, port, to_ip, to_ip_port}
use dserver.InetAddress.Texts.{of_ip_port-to_ip}

-- The parts of a text between the dots, as numbers.
abbrev number_before : List ℕ → ℕ
number_before text = from_digits 10 0 (break_at 46 text).0

abbrev after_dot : List ℕ → List ℕ
after_dot text = drop 1 (break_at 46 text).1

abbrev read_dotted : List ℕ → ℕ
read_dotted text =
    let second = after_dot text in
    let third = after_dot second in
    number_before text
    + (256 * number_before second
        + (65536 * number_before third + 16777216 * from_digits 10 0 (after_dot third)))

abbrev with_dot : ℕ → List ℕ → List ℕ
with_dot n rest = decimal n ++ (46 ∷ rest)

abbrev dotted : ℕ → List ℕ
dotted a =
    with_dot (a % 256)
      (with_dot (a / 256 % 256) (with_dot (a / 65536 % 256) (decimal (a / 16777216 % 256))))

number_before-with_dot : (n : ℕ) (rest : List ℕ) → number_before (with_dot n rest) ≡ n
number_before-with_dot n rest =
    ap (λ p. from_digits 10 0 p.0)
      (break_at-hit 46 (decimal n) rest (decimal-Lacks 46 n (omega arith)))
    ∙ from_digits-decimal n

after_dot-with_dot : (n : ℕ) (rest : List ℕ) → after_dot (with_dot n rest) ≡ rest
after_dot-with_dot n rest =
    ap (λ p. drop 1 p.1) (break_at-hit 46 (decimal n) rest (decimal-Lacks 46 n (omega arith)))

read_dotted-dotted : (a : ℕ) → a < 4294967296 → some (read_dotted (dotted a)) ≡ some a
read_dotted-dotted a h =
    let fourth = decimal (a / 16777216 % 256) in
    let third = with_dot (a / 65536 % 256) fourth in
    let second = with_dot (a / 256 % 256) third in
    rw
      (
        number_before-with_dot (a % 256) second,
        after_dot-with_dot (a % 256) second,
        number_before-with_dot (a / 256 % 256) third,
        after_dot-with_dot (a / 256 % 256) third,
        number_before-with_dot (a / 65536 % 256) fourth,
        after_dot-with_dot (a / 65536 % 256) fourth,
        from_digits-decimal (a / 16777216 % 256),
      )
      (ap some (omega (arith, h)))

length-dotted : (a : ℕ) → length (dotted a) ≤ 15
length-dotted a =
    let fourth = decimal (a / 16777216 % 256) in
    let third = with_dot (a / 65536 % 256) fourth in
    let second = with_dot (a / 256 % 256) third in
    omega (
      arith,
      length-append (decimal (a % 256)) (46 ∷ second),
      length-append (decimal (a / 256 % 256)) (46 ∷ third),
      length-append (decimal (a / 65536 % 256)) (46 ∷ fourth),
      length-decimal 2 (a % 256) (omega arith),
      length-decimal 2 (a / 256 % 256) (omega arith),
      length-decimal 2 (a / 65536 % 256) (omega arith),
      length-decimal 2 (a / 16777216 % 256) (omega arith),
    )

abbrev dotted_inet : Inet
dotted_inet = record {
  inet_pton = λ text. some (read_dotted text);
  inet_ntop = dotted;
  inet_pton-inet_ntop = read_dotted-dotted;
  length-inet_ntop = length-dotted;
}

-- 127.0.0.1 with port 8001, in the order of the network.
abbrev local : InetAddress
local = record { sin_family = 2; sin_port = 16671; sin_addr = 16777343 }

of_ip_port-to_ip_example :
    (ip : List ℕ) × (to_ip dotted_inet local ≡ some ip)
    × (to_ip_port dotted_inet local ≡ some (ip ++ codes ":8001"))
    × (8001 < 65536)
    × (of_ip_port dotted_inet ip 8001 ≡ local)
    × ((text : List ℕ) (n : ℕ) → n < 65536 → port dotted_inet (of_ip_port dotted_inet text n) ≡ n)
unfolding port network_to_host16 decimal digits
of_ip_port-to_ip_example = of_ip_port-to_ip dotted_inet local refl (omega arith) (omega arith)
