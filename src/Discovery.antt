-- ===== src/Discovery.antt =====
-- src/daemon/discovery: DiscoveryService.{h,cpp}, BootstrapDiscovery.{h,cpp}, UDPLPD.{h,cpp}, UDPLPDv4.cpp and
-- UDPLPDv6.cpp. The endpoints are those of Transport/Endpoint.antt, whose parameters (addresses and the
-- conversions of texts) are parameters here, as are the lines of the bootstrap file and the protocol
-- buffers of a discovery message.
pub mod Bootstrap
pub mod Multicast
pub mod Settings
mod Tests
use p2pnet.Base.{
  ℕ, ◌%◌, ◌^◌, Bool, true, false, List, [], ◌∷◌, ◌++◌, Option, none, some, length, take, drop, ◌==◌,
  if◌then◌else◌,
}
use p2pnet.Crypto.Hash.{Bytes}
use p2pnet.Overlay.Message.{OverlayMessage}
use p2pnet.Transport.Endpoint.{
  IpInterfaceEndpoint, Result, returns, throws, bad_address, bad_port, to_string,
  socket_from_string,
}
use p2pnet.Transport.Udp.{Action, get_connection}
use p2pnet.Transport.Socket
use p2pnet.Transport.Socket.{
  Socket, Outcome, done, null_dereferenced, bad_function_call, undefined, then_do, udp_prefix,
}

-- generateConnectionRequest, with the TH of the current key.
pub generate_connection_request : (th : Bytes) → OverlayMessage
generate_connection_request th = record {
  header = record { src_th = th; dest_th = none };
  body = record { open_multipayload = []; encrypted_multipayload = [] };
}

-- The callback of handshake: the messages that it sends on the connection.
pub on_connected : (th : Bytes) → (error : ℕ) → List OverlayMessage
unfolding generate_connection_request
on_connected th error = if error == 0 then generate_connection_request th ∷ [] else []

-- A discovery's run ends as the socket's calls do, or by an exception that nothing catches.
pub data Ended : Type 0 where
  ended : Outcome → Ended
  escaped : Ended

abbrev pub and_then : (Socket → Ended) → Outcome → Ended
and_then next null_dereferenced = ended null_dereferenced
and_then next bad_function_call = ended bad_function_call
and_then next undefined = ended undefined
and_then next (done s did) = more did (next s)
  where
    more : List Action → Ended → Ended
    more did escaped = escaped
    more did (ended r) = ended (then_do (λ s'. r) (done s did))

-- UDPLPD: `udp_buffer` is the array; `handed_over` is the copy of it that std::bind made for the handler
-- that waits.
pub record UdpLpd : Type 0 where
  pub udp_buffer : Bytes
  pub handed_over : Bytes
  pub timer_seconds : ℕ

-- What goes to the multicast socket and to the timer.
pub data LpdAction : Type 0 where
  multicast : Bytes → LpdAction
  wait : (seconds : ℕ) → LpdAction

-- UDPLPD::UDPLPD, and readConfig of UDPLPDv4 and UDPLPDv6 for the timer; the array is not initialised.
unfoldable pub new_lpd : (udp_buffer : Bytes) → (timer : ℕ) → UdpLpd
new_lpd udp_buffer timer = record {
  udp_buffer = udp_buffer;
  handed_over = [];
  timer_seconds = timer;
}

-- receive
unfoldable pub receive : UdpLpd → UdpLpd
receive l = record l { handed_over = l.udp_buffer }

-- send, and waitBeforeSend when the message is sent; the timer calls send again.
pub send : (multicast_message : Bytes) → UdpLpd → List LpdAction
send multicast_message l = multicast multicast_message ∷ wait l.timer_seconds ∷ []

-- getMulticastMessage, with the port that is configured and the version.
pub get_multicast_message : (serialize : (port version : ℕ) → Bytes) → (port version : ℕ) → Bytes
get_multicast_message serialize port version = serialize port version

module _ {Address : Type 0} (to_text : Address → Bytes) (from_text : Bytes → Option Address)
    (print_port : ℕ → Bytes) (lexical_cast : Bytes → Option ℕ) where
  -- DiscoveryService::handshake; the number stands for its callback.
  unfoldable pub handshake : IpInterfaceEndpoint Address → Socket → Outcome
  handshake endpoint s =
      let text = to_string to_text from_text print_port lexical_cast endpoint in
      elim (get_connection text s.udp) [
        | some connection ↦ done s []
        | none ↦ Socket.connect endpoint.prefix text 0 s
      ]

  -- The interfaces with the endpoint that createEndpoint of each makes.
  abbrev pub endpoints_of :
      IpInterfaceEndpoint Address → List (Bytes × Bool) → List (Bytes × IpInterfaceEndpoint Address)
  endpoints_of blank [] = []
  endpoints_of blank ((prefix, true) ∷ rest) = (prefix, blank) ∷ endpoints_of blank rest
  endpoints_of blank ((prefix, false) ∷ rest) = endpoints_of blank rest

  -- The body of the loop of BootstrapDiscovery::run: an int that is thrown is caught.
  abbrev pub with_endpoint :
      Result (IpInterfaceEndpoint Address) → (Socket → Ended) → Socket → Ended
  with_endpoint (returns endpoint) next s = and_then next (handshake endpoint s)
  with_endpoint (throws error) next s = next s
  with_endpoint bad_address next s = escaped
  with_endpoint bad_port next s = escaped

  -- BootstrapDiscovery::run, over the lines of the file.
  unfoldable pub run : IpInterfaceEndpoint Address → List Bytes → Socket → Ended
  unfolding handshake
  run blank [] s = ended (done s [])
  run blank (line ∷ lines) s =
      with_endpoint
        (socket_from_string to_text from_text print_port lexical_cast
          (endpoints_of blank s.interfaces) line)
        (λ s'. run blank lines s') s

  module _ (parse : Bytes → Option ℕ) where
    -- The endpoint of a message: the sender's address with the port of the message.
    abbrev pub reach : Address → Option ℕ → Socket → Outcome
    reach sender none s = done s []
    reach sender (some port) s =
        handshake (record { prefix = udp_prefix; ip = sender; port = port % 2 ^ 16 }) s

    -- processReceived, for the array of its handler.
    unfoldable pub process_received : Bytes → (recv_bytes : ℕ) → Address → Socket → Outcome
    process_received recv_buffer recv_bytes sender s =
        reach sender (parse (take recv_bytes recv_buffer)) s

    -- A datagram arrives: asio writes it to udp_buffer and calls the handler, which receives again.
    unfoldable pub handle_datagram : Bytes → Address → UdpLpd → Socket → UdpLpd × Outcome
    unfolding process_received receive
    handle_datagram datagram sender l s = (
      receive (record l { udp_buffer = datagram ++ drop (length datagram) l.udp_buffer }),
      process_received l.handed_over (length datagram) sender s,
    )
