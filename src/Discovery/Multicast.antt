-- ===== src/Discovery/Multicast.antt =====
-- The datagrams of src/daemon/discovery/UDPLPD.cpp.
use p2pnet.Base.{
  ℕ, ◌%◌, ◌^◌, false, Option, none, some, ◌≡◌, refl, length, take, drop, take-length-append,
}
use p2pnet.Crypto.Hash.{Bytes}
use p2pnet.Transport.Endpoint.{to_string}
use p2pnet.Transport.Udp.{get_connection}
use p2pnet.Transport.Socket
use p2pnet.Transport.Socket.{
  Socket, Outcome, null_dereferenced, udp_prefix, get_interface, call_connect,
}
use p2pnet.Discovery.{UdpLpd, receive, handshake, reach, process_received, handle_datagram}

module _ {Address : Type 0} (to_text : Address → Bytes) (from_text : Bytes → Option Address)
    (print_port : ℕ → Bytes) (lexical_cast : Bytes → Option ℕ) (parse : Bytes → Option ℕ) where
  abbrev handle : Bytes → Address → UdpLpd → Socket → UdpLpd × Outcome
  handle = handle_datagram to_text from_text print_port lexical_cast parse

  -- Of two datagrams of the same length one after the other, the handler of the second reads the first:
  -- it tries the port that the first one names, at the address of the second one's sender. What the
  -- second one holds makes no difference to it.
  pub processed_previous :
      (first second : Bytes) (sender other : Address) (l : UdpLpd) (s s' : Socket)
      → length second ≡ length first
      → (handle second other (handle first sender l s).0 s').1
        ≡ reach to_text from_text print_port lexical_cast parse other (parse first) s'
  unfolding handle_datagram process_received receive
  processed_previous first second sender other l s s' same =
      rw (same, take-length-append first (drop (length first) l.udp_buffer)) refl

  -- Where the socket has no UDP interface, every datagram whose handler reads a message, of a peer that
  -- is not connected, ends in a call through a null pointer.
  pub no_interface_crashes :
      (recv_buffer : Bytes) (recv_bytes port : ℕ) (sender : Address) (s : Socket)
      → parse (take recv_bytes recv_buffer) ≡ some port
      → get_interface udp_prefix s ≡ false
      → get_connection
          (to_string to_text from_text print_port lexical_cast
            (record { prefix = udp_prefix; ip = sender; port = port % 2 ^ 16 }))
          s.udp
        ≡ none
      → process_received to_text from_text print_port lexical_cast parse recv_buffer recv_bytes
          sender s
        ≡ null_dereferenced
  unfolding process_received handshake Socket.connect
  no_interface_crashes recv_buffer recv_bytes port sender s parsed missing unconnected =
      rw (process_received, parsed, handshake, unconnected, Socket.connect, missing) refl
