-- ===== src/Overlay/Message.antt =====
-- The messages of the overlay (OverlayProtocol.proto, src/daemon/overlay/PayloadParams.h) as far as
-- Connection.cpp and Socket.cpp read and write them, and what a call does besides changing a
-- connection.
use p2pnet.Base.{ℕ, List, Option}
use p2pnet.Crypto.Hash.{Bytes}

-- PayloadType
abbrev pub handshake_type : ℕ
handshake_type = 1

-- OverlayMessage_Payload: its type and its content.
pub record Payload : Type 0 where
  pub payload_type : ℕ
  pub content : Bytes

-- OverlayMessage_Header: a destination that is not set is `none`.
pub record Header : Type 0 where
  pub src_th : Bytes
  pub dest_th : Option Bytes

-- OverlayMessage_Body: a part that is not set is read as the empty one.
pub record Body : Type 0 where
  pub open_multipayload : List Payload
  pub encrypted_multipayload : Bytes

pub record OverlayMessage : Type 0 where
  pub header : Header
  pub body : Body

-- What a call of Connection or of Socket does besides changing the connection, in the order of the
-- calls: hand a message to a transport connection, call a SendCallback or a ConnectCallback with an
-- error code at once, post a SendCallback, and give a payload to a Processor.
pub data Action : Type 0 where
  transmit : (transport_connection : ℕ) → OverlayMessage → Action
  send_callback : (callback code : ℕ) → Action
  post_callback : (callback code : ℕ) → Action
  connect_callback : (callback code : ℕ) → Action
  process_payload : (processor : ℕ) → Payload → Action
