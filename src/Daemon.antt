-- ===== src/Daemon.antt =====
-- src/daemon/Daemon.{h,cpp} and the constructor in APIManager.cpp: the start of the daemon's parts. Which
-- sockets can be opened, the settings and the lines of the bootstrap file are parameters. The overlay's
-- Socket is made and given to the discoveries, which ask it for the TH only. What the log prints is left
-- out.
pub mod Start
mod Tests
use p2pnet.Base.{ℕ, Bool, true, false, ◌&&◌, List, [], ◌∷◌, Option, none, some, if◌then◌else◌}
use p2pnet.Crypto.Hash.{Bytes}
use p2pnet.Api.Server.{Opened, accepting, not_accepting, throws, open_first}
use p2pnet.Transport.Endpoint.{IpInterfaceEndpoint}
use p2pnet.Transport.Socket.{
  Socket, Outcome, done, null_dereferenced, bad_function_call, undefined, new_socket,
  register_interface,
}
use p2pnet.Discovery.{Ended, ended, escaped, UdpLpd, new_lpd, receive, run}

-- The settings that Daemon::run and APIManager read.
pub record Settings : Type 0 where
  pub udp_enabled : Bool
  pub udp_outgoing_only : Bool
  pub bootstrap_filename : Bytes
  pub udpv4_enabled : Bool
  pub udpv4_timer : ℕ
  pub udpv6_enabled : Bool
  pub udpv6_timer : ℕ
  pub api_unix_enabled : Bool
  pub socket_paths : List Bytes

-- What the system allows: which constructors open their sockets, and the bytes that the arrays of the
-- two UDPLPD happen to hold.
pub record Surroundings : Type 0 where
  pub udp_opens : Bool
  pub udpv4_opens : Bool
  pub udpv6_opens : Bool
  pub path_opens : Bytes → Bool
  pub bootstrap_lines : List Bytes
  pub udpv4_buffer : Bytes
  pub udpv6_buffer : Bytes

pub record Daemon : Type 0 where
  pub transport_socket : Socket
  pub discovery_udpv4 : Option UdpLpd
  pub discovery_udpv6 : Option UdpLpd
  pub api_unix : Option Bytes

-- The daemon when its main loop starts, or the end of the bootstrap that keeps it from there.
pub data Started : Type 0 where
  running : Daemon → Started
  stopped : Ended → Started

-- UDPInterface, registered unless its constructor throws.
pub start_udp : (enabled opens : Bool) → Socket → Socket
unfolding register_interface
start_udp enabled opens s = if enabled && opens then register_interface s else s

-- UDPLPDv4 or UDPLPDv6, with the loops started, unless its constructor throws.
pub start_lpd : (enabled opens : Bool) → (udp_buffer : Bytes) → (timer : ℕ) → Option UdpLpd
unfolding receive new_lpd
start_lpd enabled opens udp_buffer timer =
    if enabled && opens then some (receive (new_lpd udp_buffer timer)) else none

-- APIManager::APIManager: a server that cannot be opened is left out.
abbrev pub server_of : Opened → Option Bytes
server_of (accepting path) = some path
server_of not_accepting = none
server_of throws = none

pub start_api : (enabled : Bool) → (path_opens : Bytes → Bool) → (paths : List Bytes) → Option Bytes
start_api enabled path_opens paths =
    if enabled then server_of (open_first path_opens paths) else none

-- The part of run behind the bootstrap.
pub start_others : Settings → Surroundings → Socket → Daemon
unfolding start_lpd start_api
start_others settings around s = record {
  transport_socket = s;
  discovery_udpv4 =
      start_lpd settings.udpv4_enabled around.udpv4_opens around.udpv4_buffer settings.udpv4_timer;
  discovery_udpv6 =
      start_lpd settings.udpv6_enabled around.udpv6_opens around.udpv6_buffer settings.udpv6_timer;
  api_unix = start_api settings.api_unix_enabled around.path_opens settings.socket_paths;
}

abbrev pub behind_bootstrap : Settings → Surroundings → Ended → Started
behind_bootstrap settings around (ended (done s did)) = running (start_others settings around s)
behind_bootstrap settings around (ended null_dereferenced) = stopped (ended null_dereferenced)
behind_bootstrap settings around (ended bad_function_call) = stopped (ended bad_function_call)
behind_bootstrap settings around (ended undefined) = stopped (ended undefined)
behind_bootstrap settings around escaped = stopped escaped

module _ {Address : Type 0} (to_text : Address → Bytes) (from_text : Bytes → Option Address)
    (print_port : ℕ → Bytes) (lexical_cast : Bytes → Option ℕ)
    (blank : IpInterfaceEndpoint Address) where
  -- The bootstrap, if there is a file name for it.
  pub start_bootstrap : (filename : Bytes) → (lines : List Bytes) → Socket → Ended
  unfolding run
  start_bootstrap [] lines s = ended (done s [])
  start_bootstrap (c ∷ cs) lines s = run to_text from_text print_port lexical_cast blank lines s

  -- Daemon::run up to the main loop.
  pub start : Settings → Surroundings → Started
  unfolding new_socket start_udp start_bootstrap start_others
  start settings around = behind_bootstrap settings around (
      start_bootstrap settings.bootstrap_filename around.bootstrap_lines
        (start_udp settings.udp_enabled around.udp_opens (new_socket settings.udp_outgoing_only)))
