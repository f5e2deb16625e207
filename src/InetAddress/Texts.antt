-- ===== src/InetAddress/Texts.antt =====
-- net/InetAddress.cc and net/SocketOps.cc: an address made of texts, and the texts of an address.
use dserver.Prelude.{
  ℕ, ◌-◌, ◌≤◌, ◌<◌, ◌≡◌, refl, sym, ap, true, some, List, ◌++◌, ltb, ◌==◌, length, codes, decimal,
  arith, length-decimal, take_past,
}
use dserver.Timestamp.{snprintf}
use dserver.InetAddress.{
  host_to_network16, network_to_host16, af_inet, InetAddress, Inet, of_ip_port, port, write_ip,
  to_ip, write_ip_port, to_ip_port,
}

network_to_host16-host_to_network16 :
    (n : ℕ) → n < 65536 → network_to_host16 (host_to_network16 n) ≡ n
unfolding network_to_host16 host_to_network16
network_to_host16-host_to_network16 n h = omega (arith, h)

host_to_network16-network_to_host16 :
    (n : ℕ) → n < 65536 → host_to_network16 (network_to_host16 n) ≡ n
unfolding network_to_host16 host_to_network16
host_to_network16-network_to_host16 n h = omega (arith, h)

host_word : (n : ℕ) → n < 65536 → network_to_host16 n < 65536
unfolding network_to_host16
host_word n h = omega (arith, h)

module _ (inet : Inet) where
  open inet use {inet_ntop}

  -- The texts of an IPv4 address fit their blocks: toIp gives that of its address, and toIpPort has
  -- the port in decimal behind it and a colon. The address that is made of the first text and the
  -- port is the address itself, and an address made of any text has the port that it was given.
  pub of_ip_port-to_ip :
      (address : InetAddress)
      → address.sin_family ≡ af_inet
      → address.sin_port < 65536
      → address.sin_addr < 4294967296
      → (ip : List ℕ) × (to_ip inet address ≡ some ip)
        × (to_ip_port inet address ≡ some (ip ++ (codes ":" ++ decimal (port inet address))))
        × (port inet address < 65536)
        × (of_ip_port inet ip (port inet address) ≡ address)
        × ((text : List ℕ) (n : ℕ) → n < 65536 → port inet (of_ip_port inet text n) ≡ n)
  unfolding to_ip write_ip to_ip_port write_ip_port snprintf port of_ip_port
  of_ip_port-to_ip address f p a =
      let ip = inet_ntop address.sin_addr in
      let four : (address.sin_family == af_inet) ≡ true = ground (arith, f) in
      let small = inet.length-inet_ntop address.sin_addr in
      let n = network_to_host16 address.sin_port in
      let word : n < 65536 = host_word address.sin_port p in
      let fits : ltb (length ip) 64 ≡ true = ground (arith, small) in
      let room : length (codes ":" ++ decimal n) ≤ 64 - length ip - 1 =
        omega (arith, small, length-decimal 4 n (omega (arith, word))) in
      (
        ip,
        rw four refl,
        rw (four, fits, take_past (64 - length ip - 1) (codes ":" ++ decimal n) room) refl,
        word,
        rw
            (
              host_to_network16-network_to_host16 address.sin_port p,
              inet.inet_pton-inet_ntop address.sin_addr a,
            )
            (ap (λ family. record address { sin_family = family }) (sym f)),
        λ text n h. network_to_host16-host_to_network16 n h,
      )
