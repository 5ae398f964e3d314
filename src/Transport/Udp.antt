-- ===== src/Transport/Udp.antt =====
-- src/daemon/transport/udp/UDPConnection.{h,cpp}, UDPInterface.{h,cpp}, Connection.{h,cpp} and the
-- connection table of Socket.cpp. An endpoint is its text, by which SocketEndpoint compares. The
-- connection objects that are alive are a store under numbers: an object lives while the connection
-- table or a datagram that is being sent owns it. A wait that is cancelled calls its handler with
-- operation_aborted, which is modelled at once.
pub mod Handshake
pub mod Table
mod Tests
use p2pnet.Base.{
  ℕ, ◌+◌, ◌-◌, ◌==◌, Bool, true, false, ◌&&◌, not, List, [], ◌∷◌, ◌++◌, Option, none, some,
  if◌then◌else◌,
}
use p2pnet.Base.Maps.{nat_eq, bytes_eq, bytes_beq, find, erase, insert}
use p2pnet.Base.{codes}
use p2pnet.Crypto.Hash.{Bytes}
use p2pnet.Errors.{error_value, timed_out, connection_reset}

abbrev pub keepalive_message : Bytes
keepalive_message = codes "UDP_KEEPALIVE"

abbrev pub connect_message : Bytes
connect_message = codes "UDP_CONNECT"

abbrev pub disconnect_message : Bytes
disconnect_message = codes "UDP_DISCONNECT"

-- Which handler waits on conn_receive_timeout: the one of connect or that of receivedKeepAlive.
pub data Waiting : Type 0 where
  for_connect for_keepalive : Waiting

-- UDPConnection. An std::function that was never assigned is `none`; `send_timer` says whether a
-- keep-alive is due. `sending` counts the datagrams whose send handlers own the object.
pub record UdpConnection : Type 0 where
  pub endpoint : Bytes
  pub connecting_callback : Option ℕ
  pub m_connected : Bool
  pub send_timer : Bool
  pub receive_timeout : Option Waiting
  pub sending : ℕ

-- What the code does besides: a datagram, and the calls of the receive callback, the disconnect
-- callback and a connect callback.
pub data Action : Type 0 where
  datagram : (endpoint text : Bytes) → Action
  received : (connection : ℕ) → (text : Bytes) → Action
  disconnected : (code connection : ℕ) → Action
  connect_result : (callback code connection : ℕ) → Action

-- UDPInterface with its parent Socket: the connection table, and the objects that are alive. The set
-- zygote_connections is always empty.
pub record Udp : Type 0 where
  pub objects : List (ℕ × UdpConnection)
  pub connections : List (Bytes × ℕ)
  pub next_object : ℕ
  pub outgoing_only : Bool
  pub disconnect_callback : Bool

-- A handler ends; or an empty std::function is called, which throws std::bad_function_call; or it reads
-- an object that is destroyed or a variable that is gone, which is undefined.
pub data Outcome : Type 0 where
  done : Udp → List Action → Outcome
  bad_function_call : Outcome
  undefined : Outcome

abbrev pub then_do : (Udp → Outcome) → Outcome → Outcome
then_do next bad_function_call = bad_function_call
then_do next undefined = undefined
then_do next (done u did) = more did (next u)
  where
    more : List Action → Outcome → Outcome
    more did bad_function_call = bad_function_call
    more did undefined = undefined
    more did (done u did') = done u (did ++ did')

abbrev pub set_object : ℕ → UdpConnection → Udp → Udp
set_object id c u = record u { objects = (id, c) ∷ u.objects }

-- registerConnection, unregisterConnection and getConnection of the transport's Socket.
abbrev pub register_connection : (endpoint : Bytes) → (id : ℕ) → Udp → Udp
register_connection endpoint id u = record u { connections = insert endpoint id u.connections }

abbrev pub unregister_connection : (endpoint : Bytes) → Udp → Udp
unregister_connection endpoint u = record u { connections = erase endpoint u.connections }

abbrev pub get_connection : (endpoint : Bytes) → Udp → Option ℕ
get_connection endpoint u = find endpoint u.connections

-- Connection::onConnect and onDisconnect
pub on_connect : ℕ → UdpConnection → Udp → Udp
on_connect id c u = register_connection c.endpoint id u

pub on_disconnect : UdpConnection → Udp → Udp
on_disconnect c u = unregister_connection c.endpoint u

-- The shared pointers to an object that has no further owner than a handler, when this ends: the object
-- is destroyed with its timers. The handler of connect that waits on one of them is called with
-- operation_aborted and reads the destroyed object; the other handlers only look at the error.
abbrev pub destroy : Option Waiting → ℕ → Udp → Outcome
destroy none id u = done (record u { objects = erase id u.objects }) []
destroy (some for_keepalive) id u = done (record u { objects = erase id u.objects }) []
destroy (some for_connect) id u = undefined

abbrev pub is_entry : ℕ → Option ℕ → Bool
is_entry id none = false
is_entry id (some other) = other == id

abbrev pub release_object : ℕ → Option UdpConnection → Udp → Outcome
release_object id none u = done u []
release_object id (some c) u =
    if c.sending == 0 && not (is_entry id (get_connection c.endpoint u))
    then destroy c.receive_timeout id u
    else done u []

pub release : ℕ → Udp → Outcome
release id u = release_object id (find id u.objects) u

-- send hands the object to the send handler, handleSend calls a callback that does nothing and lets
-- go of the object.
abbrev pub begin_send : UdpConnection → UdpConnection
begin_send c = record c { sending = c.sending + 1 }

pub handle_send : ℕ → UdpConnection → Udp → Outcome
unfolding release
handle_send id c u = release id (set_object id (record c { sending = c.sending - 1 }) u)

-- sendKeepAlive with no error: a datagram now, and the next one later.
pub send_keep_alive : ℕ → UdpConnection → Udp → Outcome
send_keep_alive id c u =
    done (set_object id (record (begin_send c) { send_timer = true }) u)
      (datagram c.endpoint keepalive_message ∷ [])

-- receivedConnect
pub received_connect : ℕ → UdpConnection → Udp → Outcome
received_connect id c u = send_keep_alive id (record c { m_connected = true }) (on_connect id c u)

-- The handler of connect for a cancelled wait: the connection is taken for connected.
abbrev pub answered : Option ℕ → ℕ → UdpConnection → Udp → Outcome
answered none id c u = bad_function_call
answered (some callback) id c u =
    then_do (λ u. send_keep_alive id (record c { m_connected = true }) (on_connect id c u))
      (done u (connect_result callback 0 id ∷ []))

-- Cancelling what waits on the receive timer.
abbrev pub cancel : Option Waiting → ℕ → UdpConnection → Udp → Outcome
cancel none id c u = done u []
cancel (some for_connect) id c u = answered c.connecting_callback id c u
cancel (some for_keepalive) id c u = done u []

-- receivedKeepAlive
pub received_keep_alive : ℕ → UdpConnection → Udp → Outcome
received_keep_alive id c u =
    let c' : UdpConnection = record c {
      receive_timeout = some for_keepalive;
      m_connected = true;
    } in
    cancel c.receive_timeout id c' (set_object id c' u)

-- A call of the disconnect callback, which may be empty.
abbrev pub tell_disconnect : Bool → ℕ → ℕ → Udp → Outcome
tell_disconnect false code id u = bad_function_call
tell_disconnect true code id u = done u (disconnected code id ∷ [])

abbrev pub drop_connection : ℕ → ℕ → UdpConnection → Udp → Outcome
drop_connection code id c u =
    then_do (λ u. done (on_disconnect c (set_object id (record c { m_connected = false }) u)) [])
      (tell_disconnect u.disconnect_callback code id u)

-- receivedDisconnect: both timers are cancelled.
pub received_disconnect : ℕ → UdpConnection → Udp → Outcome
received_disconnect id c u =
    let c' : UdpConnection = record c { send_timer = false; receive_timeout = none } in
    then_do (drop_connection (error_value connection_reset) id c')
      (cancel c.receive_timeout id c' u)

-- The receive timer expires. The handler of receivedKeepAlive reads the variable udp_interface of that
-- call, which it holds by reference and which is gone.
abbrev pub refused : Option ℕ → ℕ → UdpConnection → Udp → Outcome
refused none id c u = bad_function_call
refused (some callback) id c u =
    done (set_object id (record c { m_connected = false }) u)
      (connect_result callback (error_value timed_out) id ∷ [])

abbrev pub expired : Option Waiting → ℕ → UdpConnection → Udp → Outcome
expired none id c u = done u []
expired (some for_connect) id c u =
    refused c.connecting_callback id (record c { receive_timeout = none }) u
expired (some for_keepalive) id c u = undefined

pub receive_timed_out : ℕ → UdpConnection → Udp → Outcome
receive_timed_out id c u = expired c.receive_timeout id c u

-- The send timer expires.
pub send_timed_out : ℕ → UdpConnection → Udp → Outcome
send_timed_out id c u = if c.send_timer then send_keep_alive id c u else done u []

-- UDPConnection::connect; the callback is not stored.
pub connect_object : ℕ → (callback : ℕ) → UdpConnection → Udp → Outcome
connect_object id callback c u =
    let c' : UdpConnection = record c { receive_timeout = some for_connect } in
    then_do (λ u. done (set_object id (begin_send c') u) (datagram c.endpoint connect_message ∷ []))
      (cancel c.receive_timeout id c' (set_object id c' u))

-- UDPConnection(endpoint, parent_interface)
pub new_object : Bytes → UdpConnection
new_object endpoint = record {
  endpoint = endpoint;
  connecting_callback = none;
  m_connected = false;
  send_timer = false;
  receive_timeout = none;
  sending = 0;
}

-- UDPInterface::connect. Its own pointer to the new object goes at the end, when a datagram is being
-- sent that owns the object.
pub connect : Bytes → (callback : ℕ) → Udp → Outcome
connect endpoint callback u =
    connect_object u.next_object callback (new_object endpoint)
      (record u { next_object = u.next_object + 1 })

-- handleReceive for a sender with a connection, which it owns until it ends, and for one without.
abbrev pub receive_by : ℕ → UdpConnection → Bytes → Udp → Outcome
receive_by id c text u =
    if bytes_beq text keepalive_message
    then received_keep_alive id c u
    else if bytes_beq text disconnect_message
    then received_disconnect id c u
    else done u (received id text ∷ [])

abbrev pub receive_on : ℕ → Option UdpConnection → Bytes → Udp → Outcome
receive_on id none text u = done u []
receive_on id (some c) text u = then_do (release id) (receive_by id c text u)

abbrev pub receive_from : Option ℕ → Bytes → Bytes → Udp → Outcome
receive_from (some id) endpoint text u = receive_on id (find id u.objects) text u
receive_from none endpoint text u =
    if bytes_beq text connect_message && not u.outgoing_only
    then received_connect u.next_object (new_object endpoint)
        (record u { next_object = u.next_object + 1 })
    else done u []

pub handle_receive : (endpoint text : Bytes) → Udp → Outcome
handle_receive endpoint text u = receive_from (get_connection endpoint u) endpoint text u
