-- ===== src/Net/Address.antt =====
-- `resolveTcpEndpoint` and `peerAddress` (src/Net.cpp). An address is the bytes of a sockaddr in the
-- layout of Linux on a little-endian machine; getaddrinfo() and inet_ntop() are parameters.
use flux_gate.Base.{
  ℕ, zero, suc, ◌+◌, ◌*◌, List, [], ◌∷◌, ◌++◌, length, leb, ◌==◌, if◌then◌else◌, Result, ok, err,
}
use flux_gate.Backend.{Bytes, Endpoint}
use flux_gate.Config.Text.{codes, is_blank}
use flux_gate.Decimal.{to_decimal}
use flux_gate.Net.{NetError, unresolved, no_address}

abbrev pub af_inet : ℕ
af_inet = 2

abbrev pub af_inet6 : ℕ
af_inet6 = 10

-- `sizeof(sockaddr_storage)`.
abbrev pub storage_size : ℕ
storage_size = 128

-- `addresses` is getaddrinfo() for a host and a service: its status, or the list of addresses.
-- `ntop` is the text that inet_ntop() writes for a family and an address, empty where it fails.
pub record Resolver : Type 0 where
  pub addresses : Bytes → Bytes → Result ℕ (List Bytes)
  pub ntop : ℕ → Bytes → Bytes

-- A byte of a storage that was filled with zeros.
abbrev pub byte_at : Bytes → ℕ → ℕ
byte_at [] i = 0
byte_at (b ∷ bs) zero = b
byte_at (b ∷ bs) (suc i) = byte_at bs i

-- `ss_family`, and `ntohs` of `sin_port` or `sin6_port`.
abbrev pub family : Bytes → ℕ
family a = byte_at a 0 + 256 * byte_at a 1

abbrev pub port_of : Bytes → ℕ
port_of a = 256 * byte_at a 2 + byte_at a 3

-- The bytes from `start` on of a storage that was filled with zeros.
abbrev pub field_of : ℕ → ℕ → Bytes → Bytes
field_of start zero a = []
field_of start (suc size) a = byte_at a start ∷ field_of (suc start) size a

-- `sin_addr` and `sin6_addr`.
abbrev pub host_part : Bytes → Bytes
host_part a = if family a == af_inet then field_of 4 4 a else field_of 8 16 a

-- The loop over the list: the first address that fits, or none of any length.
abbrev pub first_fitting : List Bytes → Bytes
first_fitting [] = []
first_fitting (a ∷ more) = if leb (length a) storage_size then a else first_fitting more

-- Once the list is there.
abbrev pub endpoint_from : Resolver → Bytes → Bytes → Bytes → Result NetError Endpoint
endpoint_from r host service address =
    if is_blank address
    then err (no_address host)
    else ok (record {
      address = address;
      text =
          r.ntop (if family address == af_inet then af_inet else af_inet6) (host_part address)
          ++ codes ":"
          ++ service;
    })

abbrev pub endpoint_of : Resolver → Bytes → Bytes → Result ℕ (List Bytes) → Result NetError Endpoint
endpoint_of r host service (err code) = err (unresolved host code)
endpoint_of r host service (ok items) = endpoint_from r host service (first_fitting items)

unfoldable pub resolve_tcp_endpoint : Resolver → Bytes → ℕ → Result NetError Endpoint
unfolding to_decimal
resolve_tcp_endpoint r host port =
    let service = to_decimal port in endpoint_of r host service (r.addresses host service)

unfoldable pub peer_address : Resolver → Bytes → Bytes
unfolding to_decimal
peer_address r a =
    if (family a == af_inet)
    then r.ntop af_inet (field_of 4 4 a) ++ codes ":" ++ to_decimal (port_of a)
    else if (family a == af_inet6)
    then r.ntop af_inet6 (field_of 8 16 a) ++ codes ":" ++ to_decimal (port_of a)
    else codes "unknown"
