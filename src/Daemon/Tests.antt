-- ===== src/Daemon/Tests.antt =====
-- A daemon without the UDP transport whose local discovery is on.
use p2pnet.Base.{ℕ, true, false, [], ◌∷◌, Option, none, some, ◌≡◌, refl, codes}
use p2pnet.Crypto.Hash.{Bytes}
use p2pnet.Transport.Endpoint.{IpInterfaceEndpoint}
use p2pnet.Transport.Socket.{null_dereferenced, udp_prefix}
use p2pnet.Discovery.{process_received}
use p2pnet.Daemon.{Settings, Surroundings, Daemon, running, start}
use p2pnet.Daemon.Start.{discovery_without_udp}

abbrev print_byte : ℕ → Bytes
print_byte n = n ∷ []

abbrev read_byte : Bytes → Option ℕ
read_byte [] = none
read_byte (n ∷ rest) = some n

abbrev blank : IpInterfaceEndpoint ℕ
blank = record { prefix = udp_prefix; ip = 0; port = 0 }

abbrev settings : Settings
settings = record {
  udp_enabled = false;
  udp_outgoing_only = false;
  bootstrap_filename = codes "bootstrap.txt";
  udpv4_enabled = true;
  udpv4_timer = 10;
  udpv6_enabled = true;
  udpv6_timer = 10;
  api_unix_enabled = true;
  socket_paths = codes "/var/run/p2pnet/unix_api.sock" ∷ [];
}

abbrev everything_opens : Surroundings
everything_opens = record {
  udp_opens = true;
  udpv4_opens = true;
  udpv6_opens = true;
  path_opens = λ path. true;
  bootstrap_lines = codes "UDP:1:2" ∷ [];
  udpv4_buffer = [];
  udpv6_buffer = [];
}

discovery_without_udp_example :
    (d : Daemon) × (start print_byte read_byte print_byte read_byte blank settings everything_opens
      ≡ running d)
    × (process_received print_byte read_byte print_byte read_byte read_byte
          (7 ∷ 0 ∷ [])
          1
          50
          d.transport_socket
        ≡ null_dereferenced)
discovery_without_udp_example =
    discovery_without_udp print_byte read_byte print_byte read_byte blank settings everything_opens
      read_byte (7 ∷ 0 ∷ []) 1 7 50 refl refl
