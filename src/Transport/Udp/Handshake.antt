-- ===== src/Transport/Udp/Handshake.antt =====
-- How a connection over UDP begins and ends, on both sides.
use p2pnet.Base.{
  ℕ, ◌+◌, if◌then◌else◌, ◌≡◌, ◌≢◌, refl, ◌∙◌, true, false, List, [], ◌∷◌, none, some, ==-refl,
  Bool-cases, inl, inr,
}
use p2pnet.Base.Maps.{
  nat_eq, bytes_eq, bytes_beq, bytes_beq_iff, beq_refl, find, erase, insert, find-insert,
  find-erase,
}
use p2pnet.Crypto.Hash.{Bytes}
use p2pnet.Errors.{error_value, connection_reset}
use p2pnet.Transport.Udp.{
  keepalive_message, connect_message, disconnect_message, for_connect, UdpConnection, datagram,
  disconnected, Udp, done, bad_function_call, on_connect, on_disconnect, send_keep_alive,
  received_connect, received_disconnect, receive_timed_out, undefined, handle_send, release,
  connect_object, new_object, connect, handle_receive,
}

find-first :
    (id : ℕ) (c : UdpConnection) (m : List (ℕ × UdpConnection)) → find id ((id, c) ∷ m) ≡ some c
unfolding find
find-first id c m = rw (==-refl id)

-- A peer without a connection that sends "connect" gets one, under its endpoint, unless only
-- outgoing connections are allowed, and is answered with a keep-alive, which the end of the sending
-- leaves as it is. What the peer's "disconnect" does then depends on whether the disconnect callback
-- was set: if it was, it is called with "connection reset", the endpoint has no connection any more
-- and the object is destroyed; if it was not, the call of the empty function throws.
pub accept-disconnect :
    (endpoint : Bytes) (u : Udp)
    → find endpoint u.connections ≡ none
    → u.outgoing_only ≡ false
    → (u₁ : Udp) × (c : UdpConnection) × (u₂ : Udp) × (u₃ : Udp) × (handle_receive endpoint
          connect_message u
        ≡ done u₁ (datagram endpoint keepalive_message ∷ []))
      × (find endpoint u₁.connections ≡ some u.next_object)
      × (find u.next_object u₁.objects ≡ some c)
      × (handle_send u.next_object c u₁ ≡ done u₂ [])
      × (find endpoint u₂.connections ≡ some u.next_object)
      × (handle_receive endpoint disconnect_message u₂ ≡ (
          if u.disconnect_callback
          then done u₃ (disconnected (error_value connection_reset) u.next_object ∷ [])
          else bad_function_call))
      × (find endpoint u₃.connections ≡ none)
      × (find u.next_object u₃.objects ≡ none)
unfolding handle_receive received_connect send_keep_alive new_object on_connect on_disconnect
    received_disconnect handle_send release
accept-disconnect endpoint u missing incoming =
    let id = u.next_object in
    let c : UdpConnection = record (new_object endpoint) {
      m_connected = true;
      send_timer = true;
      sending = 1;
    } in
    let u₁ : Udp = record u {
      objects = (id, c) ∷ u.objects;
      connections = insert endpoint id u.connections;
      next_object = id + 1;
    } in
    let sent : UdpConnection = record c { sending = 0 } in
    let u₂ : Udp = record u₁ { objects = (id, sent) ∷ u₁.objects } in
    let there : find endpoint u₁.connections ≡ some id =
      find-insert endpoint endpoint id u.connections missing ∙ rw (beq_refl endpoint) in
    let left : UdpConnection = record sent { send_timer = false; m_connected = false } in
    let gone : find endpoint (erase endpoint u₁.connections) ≡ none =
      find-erase endpoint endpoint u₁.connections ∙ rw (beq_refl endpoint) in
    let objects = (id, left) ∷ u₂.objects in
    let u₃ : Udp = record u₂ {
      objects = erase id objects;
      connections = erase endpoint u₁.connections;
    } in
    let ended : handle_receive endpoint disconnect_message u₂ ≡ (
        if u.disconnect_callback
        then done u₃ (disconnected (error_value connection_reset) id ∷ [])
        else bad_function_call) =
      rw (there, find-first id sent u₁.objects)
        (elim (Bool-cases u.disconnect_callback) [
          | inl set ↦ rw (set, find-first id left u₂.objects, gone) refl
          | inr empty ↦ rw empty refl
        ]) in
    (
      u₁,
      c,
      u₂,
      u₃,
      rw (missing, incoming),
      there,
      find-first id c u.objects,
      rw (find-first id sent u₁.objects, there, ==-refl id),
      there,
      ended,
      gone,
      find-erase id id objects ∙ rw (==-refl id),
    )

-- Connecting to a peer without a connection sends "connect", and the peer stays without one whatever
-- it answers, other than "connect". When the datagram is sent, the new connection loses its last
-- owner and is destroyed while its timer waits, and the handler of the timer reads it, which is
-- undefined. If the timer expires before, the connect callback is called that was never stored,
-- which throws.
pub connect-undefined :
    (endpoint : Bytes) (callback : ℕ) (u : Udp)
    → find endpoint u.connections ≡ none
    → (u₁ : Udp) × (c : UdpConnection) × (connect endpoint callback u
        ≡ done u₁ (datagram endpoint connect_message ∷ []))
      × ((text : Bytes) → text ≢ connect_message → handle_receive endpoint text u₁ ≡ done u₁ [])
      × (find u.next_object u₁.objects ≡ some c)
      × (handle_send u.next_object c u₁ ≡ undefined)
      × (receive_timed_out u.next_object c u₁ ≡ bad_function_call)
unfolding handle_receive connect connect_object new_object receive_timed_out handle_send release
connect-undefined endpoint callback u missing =
    let id = u.next_object in
    let waits : UdpConnection = record (new_object endpoint) {
      receive_timeout = some for_connect;
    } in
    let c : UdpConnection = record waits { sending = 1 } in
    let u₁ : Udp = record u { objects = (id, c) ∷ (id, waits) ∷ u.objects; next_object = id + 1 } in
    (
      u₁,
      c,
      refl,
      λ text other. rw (missing, not_connect text other),
      find-first id c ((id, waits) ∷ u.objects),
      rw (find-first id waits u₁.objects, missing),
      refl,
    )
  where
    not_connect : (text : Bytes) → text ≢ connect_message → bytes_beq text connect_message ≡ false
    not_connect text other = elim (Bool-cases (bytes_beq text connect_message)) [
      | inl e ↦ absurd (other ((bytes_beq_iff text connect_message).0 e))
      | inr e ↦ e
    ]
