-- ===== src/Transport/Endpoint/Tests.antt =====
-- An endpoint whose address and port are printed as one byte.
use p2pnet.Base.{ℕ, ◌≡◌, refl, [], ◌∷◌, Option, none, some, codes, arith}
use p2pnet.Crypto.Hash.{Bytes}
use p2pnet.Transport.Endpoint.{IpInterfaceEndpoint, returns, to_string, from_string}
use p2pnet.Transport.Endpoint.RoundTrip.{from_string-to_string}

abbrev print_byte : ℕ → Bytes
print_byte n = n ∷ []

abbrev read_byte : Bytes → Option ℕ
read_byte [] = none
read_byte (n ∷ rest) = some n

abbrev udp_endpoint : IpInterfaceEndpoint ℕ
udp_endpoint = record { prefix = codes "UDP"; ip = 49; port = 50 }

abbrev blank : IpInterfaceEndpoint ℕ
blank = record { prefix = codes "UDP"; ip = 0; port = 0 }

from_string-to_string_example :
    from_string print_byte read_byte print_byte read_byte
      (to_string print_byte read_byte print_byte read_byte udp_endpoint)
      blank
    ≡ returns (record udp_endpoint { prefix = codes "UDP" })
unfolding to_string
from_string-to_string_example =
    from_string-to_string print_byte read_byte print_byte read_byte udp_endpoint blank refl refl
      refl refl refl (omega arith)
