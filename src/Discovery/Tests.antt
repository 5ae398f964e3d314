-- ===== src/Discovery/Tests.antt =====
-- A daemon that hears two peers, and a bootstrap file with a line of another transport. Addresses and
-- ports are printed as one byte.
use p2pnet.Base.{ℕ, [], ◌∷◌, Option, none, some, ◌≡◌, inr, refl, codes, true, false}
use p2pnet.Crypto.Hash.{Bytes}
use p2pnet.Transport.Endpoint.{
  IpInterfaceEndpoint, bad_port, socket_from_string, from_string, set_ip_string,
}
use p2pnet.Transport.Socket.{Socket, new_socket, udp_prefix}
use p2pnet.Discovery.{UdpLpd, handle_datagram, reach, run, endpoints_of}
use p2pnet.Discovery.Bootstrap.{EndsWell, run-malformed}
use p2pnet.Discovery.Multicast.{processed_previous}

abbrev print_byte : ℕ → Bytes
print_byte n = n ∷ []

abbrev read_byte : Bytes → Option ℕ
read_byte [] = none
read_byte (n ∷ rest) = some n

abbrev blank : IpInterfaceEndpoint ℕ
blank = record { prefix = udp_prefix; ip = 0; port = 0 }

abbrev lpd : UdpLpd
lpd = record { udp_buffer = 0 ∷ 0 ∷ 0 ∷ []; handed_over = 0 ∷ 0 ∷ 0 ∷ []; timer_seconds = 10 }

abbrev with_udp : Socket
with_udp = record (new_socket false) { interfaces = (udp_prefix, true) ∷ [] }

processed_previous_example :
    (handle_datagram print_byte read_byte print_byte read_byte read_byte
      (6 ∷ 7 ∷ [])
      50
      (handle_datagram print_byte read_byte print_byte read_byte read_byte
        (8 ∷ 9 ∷ [])
        49
        lpd
        with_udp).0
      with_udp).1
    ≡ reach print_byte read_byte print_byte read_byte read_byte 50 (some 8) with_udp
processed_previous_example =
    processed_previous print_byte read_byte print_byte read_byte read_byte (8 ∷ 9 ∷ []) (6 ∷ 7 ∷ [])
      49 50 lpd with_udp with_udp refl

-- A line whose port is missing.
cut_line :
    socket_from_string print_byte read_byte print_byte read_byte
      (endpoints_of print_byte read_byte print_byte read_byte blank ((udp_prefix, true) ∷ []))
      (codes "UDP:1:")
    ≡ bad_port
unfolding socket_from_string from_string set_ip_string
cut_line = refl

run-malformed_example : ¬ EndsWell (
    run print_byte read_byte print_byte read_byte blank
      (codes "UDP:1:2" ∷ codes "UDP:1:" ∷ codes "UDP:3:4" ∷ [])
      with_udp)
run-malformed_example =
    run-malformed print_byte read_byte print_byte read_byte blank (codes "UDP:1:2" ∷ [])
      (codes "UDP:1:") (codes "UDP:3:4" ∷ []) with_udp (inr cut_line)
