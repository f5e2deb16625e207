-- ===== src/InetAddress.antt =====
-- net/InetAddress.h and net/InetAddress.cc, with net/Endian.h and the functions of net/SocketOps.cc
-- on addresses: an IPv4 address and a port, in the order of bytes of the network, and their texts.
pub mod Texts
use dserver.Prelude.{
  ℕ, ◌+◌, ◌-◌, ◌*◌, ◌/◌, ◌%◌, ◌<◌, ◌≤◌, ◌≡◌, Bool, true, false, ◌&&◌, Option, none, some, List, [],
  ◌∷◌, ◌++◌, ltb, leb, ◌==◌, if◌then◌else◌, ◌>>=◌, ◌>>◌, assert, length, codes, decimal,
}
use dserver.Timestamp.{snprintf}

-- `htobe16`, `be16toh` and `htobe32` on a machine that stores the low byte first.
unfoldable pub host_to_network16 : ℕ → ℕ
host_to_network16 n = n % 256 * 256 + n / 256

unfoldable pub network_to_host16 : ℕ → ℕ
network_to_host16 n = n % 256 * 256 + n / 256

unfoldable pub host_to_network32 : ℕ → ℕ
host_to_network32 n =
    n % 256 * 16777216 + (n / 256 % 256 * 65536 + (n / 65536 % 256 * 256 + n / 16777216))

abbrev pub af_inet : ℕ
af_inet = 2

-- `sockaddr_in`.
pub record InetAddress : Type 0 where
  pub sin_family : ℕ
  pub sin_port : ℕ
  pub sin_addr : ℕ

abbrev pub inaddr_any : ℕ
inaddr_any = 0

abbrev pub inaddr_loopback : ℕ
inaddr_loopback = 2130706433

unfoldable pub of_port : ℕ → Bool → InetAddress
of_port port loopback_only = record {
  sin_family = af_inet;
  sin_port = host_to_network16 port;
  sin_addr = host_to_network32 (if loopback_only then inaddr_loopback else inaddr_any);
}

-- `inet_pton` and `inet_ntop` for IPv4. Their manual pages have the form of the text: at most 15
-- bytes, which are read back as the address.
pub record Inet : Type 0 where
  pub inet_pton : List ℕ → Option ℕ
  pub inet_ntop : ℕ → List ℕ
  pub inet_pton-inet_ntop : (a : ℕ) → a < 4294967296 → inet_pton (inet_ntop a) ≡ some a
  pub length-inet_ntop : (a : ℕ) → length (inet_ntop a) ≤ 15

module _ (inet : Inet) where
  open inet use {inet_pton, inet_ntop}

  abbrev address_or_zero : Option ℕ → ℕ
  address_or_zero none = 0
  address_or_zero (some a) = a

  -- `fromIpPort` on an address that is all zero; a text that cannot be read is only logged.
  unfoldable pub of_ip_port : List ℕ → ℕ → InetAddress
  of_ip_port ip port = record {
    sin_family = af_inet;
    sin_port = host_to_network16 port;
    sin_addr = address_or_zero (inet_pton ip);
  }

  unfoldable pub port : InetAddress → ℕ
  port address = network_to_host16 address.sin_port

  -- `socketOps::toIp` into a block of the given size.
  unfoldable pub write_ip : ℕ → InetAddress → Option (List ℕ)
  write_ip size address =
      if address.sin_family == af_inet
      then assert (leb 16 size) >> some (inet_ntop address.sin_addr)
      else some []

  unfoldable pub to_ip : InetAddress → Option (List ℕ)
  to_ip address = write_ip 64 address

  -- `socketOps::toIpPort`.
  unfoldable pub write_ip_port : ℕ → InetAddress → Option (List ℕ)
  write_ip_port size address = do
    ip ← write_ip size address
    assert (ltb (length ip) size)
    some (
        ip
        ++ snprintf (size - length ip) (codes ":" ++ decimal (network_to_host16 address.sin_port)))

  unfoldable pub to_ip_port : InetAddress → Option (List ℕ)
  to_ip_port address = write_ip_port 64 address

-- `isSelfConnect`, on what getsockname and getpeername give.
unfoldable pub is_self_connect : InetAddress → InetAddress → Bool
is_self_connect localaddr peeraddr =
    if localaddr.sin_family == af_inet
    then localaddr.sin_port == peeraddr.sin_port && localaddr.sin_addr == peeraddr.sin_addr
    else false
