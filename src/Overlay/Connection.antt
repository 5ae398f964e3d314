-- ===== src/Overlay/Connection.antt =====
-- src/daemon/overlay/Connection.h and Connection.cpp, and Socket::send of
-- src/daemon/overlay/Socket.cpp. A transport connection, a callback and a processor are numbers.
-- What the transport connections answer to `connected()`, the clock, the processors of the parent
-- socket, the own TH, protobuf and the session's AES key are parameters.
pub mod States
pub mod Idle
pub mod Transports
mod Tests
use p2pnet.Base.{
  ℕ, ◌+◌, Bool, true, false, ◌&&◌, ◌||◌, not, List, [], ◌∷◌, ◌++◌, map, Option, none, some, ltb,
  ◌==◌, if◌then◌else◌,
}
use p2pnet.Crypto.Hash.{Bytes}
use p2pnet.Errors.{error_value, P2pError, no_transport, not_connected, timed_out}
use p2pnet.Overlay.Message.{
  Payload, Header, Body, OverlayMessage, Action, transmit, send_callback, post_callback,
  connect_callback, process_payload, handshake_type,
}

pub data State : Type 0 where
  closed searching_transport found_transport handshake_init_sent handshake_reply_sent established
        lost :
      State

-- Connection. `callback_timer` is what waits on the timer: the callback of the last call of
-- connect, with its time.
pub record Connection : Type 0 where
  pub state : State
  pub th : Bytes
  pub expiration_time : ℕ
  pub lose_time : ℕ
  pub transport_connections : List ℕ
  pub connect_callbacks : List (ℕ × ℕ)
  pub callback_timer : Option (ℕ × ℕ)

-- Connection(parent_socket, th)
unfoldable pub new_connection : Bytes → Connection
new_connection th = record {
  state = closed;
  th = th;
  expiration_time = 0;
  lose_time = 0;
  transport_connections = [];
  connect_callbacks = [];
  callback_timer = none;
}

-- setState; onConnect and onDisconnect do nothing.
abbrev pub set_state : State → Connection → Connection
set_state state_to_set c = record c { state = state_to_set }

abbrev pub is_established : State → Bool
is_established closed = false
is_established searching_transport = false
is_established found_transport = false
is_established handshake_init_sent = false
is_established handshake_reply_sent = false
is_established established = true
is_established lost = false

abbrev pub connected : Connection → Bool
connected c = is_established c.state

abbrev pub is_searching : State → Bool
is_searching closed = false
is_searching searching_transport = true
is_searching found_transport = false
is_searching handshake_init_sent = false
is_searching handshake_reply_sent = false
is_searching established = false
is_searching lost = false

abbrev pub has_found : State → Bool
has_found closed = false
has_found searching_transport = false
has_found found_transport = true
has_found handshake_init_sent = false
has_found handshake_reply_sent = false
has_found established = false
has_found lost = false

-- genMessageSkel(from, to)
pub gen_message_skel : Bytes → Bytes → OverlayMessage
gen_message_skel from to = record {
  header = record { src_th = from; dest_th = some to };
  body = record { open_multipayload = []; encrypted_multipayload = [] };
}

-- The transport connections that Socket::send hands the message to.
pub alive_ones : (ℕ → Bool) → List ℕ → List ℕ
alive_ones alive [] = []
alive_ones alive (t ∷ ts) = let rest = alive_ones alive ts in if alive t then t ∷ rest else rest

pub transmit_all : OverlayMessage → List ℕ → List Action
transmit_all message [] = []
transmit_all message (t ∷ ts) = transmit t message ∷ transmit_all message ts

-- Socket::send: the message goes out on every connected transport connection.
abbrev pub hand_over : List ℕ → OverlayMessage → ℕ → Connection → Connection × List Action
hand_over [] message callback c =
    (set_state searching_transport c, send_callback callback (error_value no_transport) ∷ [])
hand_over (t ∷ ts) message callback c = (c, transmit_all message (t ∷ ts))

pub socket_send : (ℕ → Bool) → OverlayMessage → ℕ → Connection → Connection × List Action
socket_send alive message callback c =
    hand_over (alive_ones alive c.transport_connections) message callback c

module _ (alive : ℕ → Bool) (local_th : Bytes) (serialize : List Payload → Bytes)
    (encrypt : Bytes → Bytes) where
  -- send(payload, callback, prio, encrypted, force_non_connected); the priority is not used.
  pub send :
      Payload
      → (callback : ℕ) → (encrypted force_non_connected : Bool) → Connection
      → Connection × List Action
  unfolding gen_message_skel
  send payload callback encrypted force_non_connected c =
      let message = gen_message_skel local_th c.th in
      if encrypted && connected c
      then socket_send alive
          (record message {
            body = record message.body {
              encrypted_multipayload = encrypt (serialize (payload ∷ []));
            };
          })
          callback c
      else if not encrypted && (connected c || force_non_connected)
      then socket_send alive
          (record message { body = record message.body { open_multipayload = payload ∷ [] } })
          callback c
      else (c, post_callback callback (error_value not_connected) ∷ [])

  -- connect. `now` is the clock, `timeout` the configured "overlay.connection.timeout", `content`
  -- the serialized handshake with the new ECDH key, `ignored` the callback that does nothing.
  unfoldable pub connect :
      (now timeout : ℕ)
      → (content : Bytes) → (ignored callback : ℕ) → Connection
      → Connection × List Action
  connect now timeout content ignored callback c =
      let waiting : Connection = record c {
        connect_callbacks = c.connect_callbacks ++ (callback, now + timeout) ∷ [];
        callback_timer = some (callback, now + timeout);
      } in
      let sent =
        send (record { payload_type = handshake_type; content = content }) ignored false true
          waiting in
      if connected c
      then (c, connect_callback callback 0 ∷ [])
      else if has_found c.state
      then (set_state handshake_init_sent sent.0, sent.1)
      else (waiting, [])

-- The timer expires: connectTimeout with no error.
abbrev pub expire : Option (ℕ × ℕ) → Connection → Connection × List Action
expire none c = (c, [])
expire (some (callback, time)) c =
    (record c { callback_timer = none }, connect_callback callback (error_value timed_out) ∷ [])

pub connect_timeout : Connection → Connection × List Action
connect_timeout c = expire c.callback_timer c

-- disconnect
abbrev pub disconnect : Connection → Connection
disconnect c = set_state closed c

-- std::find and erase on the list of transport connections.
pub erase_transport : ℕ → List ℕ → List ℕ
erase_transport tconn [] = []
erase_transport tconn (t ∷ ts) = if t == tconn then ts else t ∷ erase_transport tconn ts

pub update_transport : ℕ → (verified : Bool) → Connection → Connection
update_transport tconn verified c =
    let others = erase_transport tconn c.transport_connections in
    let updated : Connection = record c {
      transport_connections = if verified then tconn ∷ others else others ++ tconn ∷ [];
    } in
    if is_searching c.state then set_state found_transport updated else updated

pub update_expiration_time : ℕ → Connection → Connection
update_expiration_time expiry_time c =
    if ltb c.expiration_time expiry_time then record c { expiration_time = expiry_time } else c

pub update_lose_time : ℕ → Connection → Connection
update_lose_time lost_time c = record c { lose_time = lost_time }

-- The processors that get the payload, in the order of the multimap. `mandatory` is
-- isEncryptionMandatory of a processor.
pub fire : (ℕ → Bool) → List ℕ → Payload → Bool → List Action
fire mandatory [] payload encrypted = []
fire mandatory (processor ∷ ps) payload encrypted =
    let rest = fire mandatory ps payload encrypted in
    if not (mandatory processor && not encrypted)
    then process_payload processor payload ∷ rest
    else rest

pub fire_all : (ℕ → Bool) → (ℕ → List ℕ) → List Payload → Bool → List Action
fire_all mandatory processors [] encrypted = []
fire_all mandatory processors (payload ∷ ps) encrypted =
    fire mandatory (processors payload.payload_type) payload encrypted
    ++ fire_all mandatory processors ps encrypted

-- A TH that is not set, or set to nothing, is false.
abbrev pub is_addressed : Option Bytes → Bool
is_addressed none = false
is_addressed (some []) = false
is_addressed (some (x ∷ xs)) = true

-- process; processHandshake does nothing.
pub process :
    (mandatory : ℕ → Bool)
    → (processors : ℕ → List ℕ) → (parse : Bytes → List Payload) → (decrypt : Bytes → Bytes)
    → (origin : ℕ) → Header
    → Body
    → Connection
    → Connection × List Action
process mandatory processors parse decrypt origin header body c =
    let c' = update_transport origin false c in
    let opened = fire_all mandatory processors body.open_multipayload false in
    let decrypted =
      fire_all mandatory processors (parse (decrypt body.encrypted_multipayload)) true in
    if is_addressed header.dest_th
    then (c', if connected c' then opened ++ decrypted else opened)
    else (c', [])
