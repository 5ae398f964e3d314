-- ===== src/Transport/Udp/Tests.antt =====
-- A UDP interface without connections, and one connection that was lost.
use p2pnet.Base.{◌≡◌, ◌≢◌, refl, true, false, [], ◌∷◌, none, some}
use p2pnet.Base.Maps.{find, nat_eq, bytes_eq}
use p2pnet.Crypto.Hash.{Bytes}
use p2pnet.Errors.{error_value, connection_reset}
use p2pnet.Transport.Udp.{
  send_timed_out, keepalive_message, connect_message, disconnect_message, UdpConnection, datagram,
  disconnected, Udp, done, bad_function_call, receive_timed_out, connect, handle_receive,
  handle_send, undefined,
}
use p2pnet.Transport.Udp.Table.{IsTable}
use p2pnet.Transport.Udp.Table.Handlers.{
  Reachable, started, by_datagram, by_sent, by_send_timer, Reachable-IsTable,
}
use p2pnet.Transport.Udp.Handshake.{accept-disconnect, connect-undefined}

abbrev nobody : Udp
nobody = record {
  objects = [];
  connections = [];
  next_object = 1;
  outgoing_only = false;
  disconnect_callback = true;
}

abbrev peer : Bytes
peer = 7 ∷ []

accept-disconnect_example :
    (u₁ : Udp) × (c : UdpConnection) × (u₂ : Udp) × (u₃ : Udp) × (handle_receive peer
        connect_message nobody
      ≡ done u₁ (datagram peer keepalive_message ∷ []))
    × (find peer u₁.connections ≡ some 1)
    × (find 1 u₁.objects ≡ some c)
    × (handle_send 1 c u₁ ≡ done u₂ [])
    × (find peer u₂.connections ≡ some 1)
    × (handle_receive peer disconnect_message u₂
        ≡ done u₃ (disconnected (error_value connection_reset) 1 ∷ []))
    × (find peer u₃.connections ≡ none)
    × (find 1 u₃.objects ≡ none)
unfolding find
accept-disconnect_example = accept-disconnect peer nobody refl refl

connect-undefined_example :
    (u₁ : Udp) × (c : UdpConnection) × (connect peer 9 nobody
      ≡ done u₁ (datagram peer connect_message ∷ []))
    × ((text : Bytes) → text ≢ connect_message → handle_receive peer text u₁ ≡ done u₁ [])
    × (find 1 u₁.objects ≡ some c)
    × (handle_send 1 c u₁ ≡ undefined)
    × (receive_timed_out 1 c u₁ ≡ bad_function_call)
unfolding find
connect-undefined_example = connect-undefined peer 9 nobody refl

-- The interface after a stranger's UDP_CONNECT, and after the keep-alive that follows.
abbrev empty : Udp
empty = record {
  objects = [];
  connections = [];
  next_object = 0;
  outgoing_only = false;
  disconnect_callback = true;
}

abbrev accepted : UdpConnection
accepted = record {
  endpoint = peer;
  connecting_callback = none;
  m_connected = true;
  send_timer = true;
  receive_timeout = none;
  sending = 1;
}

abbrev greeted : Udp
greeted = record empty {
  objects = (0, accepted) ∷ [];
  connections = (peer, 0) ∷ [];
  next_object = 1;
}

-- The keep-alive is sent, and the next one.
abbrev sent : UdpConnection
sent = record accepted { sending = 0 }

abbrev answered_one : Udp
answered_one = record greeted { objects = (0, sent) ∷ (0, accepted) ∷ [] }

abbrev kept_alive : Udp
kept_alive = record greeted { objects = (0, accepted) ∷ (0, sent) ∷ (0, accepted) ∷ [] }

kept_alive-Reachable : Reachable kept_alive
unfolding find handle_receive p2pnet.Transport.Udp.received_connect
    p2pnet.Transport.Udp.send_keep_alive p2pnet.Transport.Udp.new_object
    p2pnet.Transport.Udp.on_connect p2pnet.Base.Maps.insert send_timed_out handle_send
    p2pnet.Transport.Udp.release
kept_alive-Reachable =
    by_send_timer 0 sent answered_one kept_alive (datagram peer keepalive_message ∷ [])
      (by_sent 0 accepted greeted answered_one []
        (by_datagram peer connect_message empty greeted (datagram peer keepalive_message ∷ [])
          (started false true) refl)
        refl refl)
      refl refl

Reachable-IsTable_example : IsTable kept_alive
Reachable-IsTable_example = Reachable-IsTable kept_alive kept_alive-Reachable
