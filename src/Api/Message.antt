-- ===== src/Api/Message.antt =====
-- src/common/api/APIMessage.proto. A field of an optional sub-message is an optional field here: the
-- code never asks whether an empty sub-message is present. An absent number reads as 0.
use Prim.Native.String.{String}
use p2pnet.Base.{ℕ, Bool, [], Option, none, some}
use p2pnet.Crypto.Hash.{Bytes}

pub data MessageType : Type 0 where
  node_register node_unregister node_connect node_accept : MessageType
  node_listen node_bind socket_unregister : MessageType

pub record ErrorMessage : Type 0 where
  pub error_code : ℕ
  pub error_what : String
  pub error_category : String

pub record ApiMessage : Type 0 where
  pub type : Option MessageType
  pub message_token : Option ℕ
  pub error : Option ErrorMessage
  pub reply : Option Bool
  pub register_id : Option ℕ
  pub unregister_id : Option ℕ
  pub connect_id : Option ℕ
  pub connect_sh : Option Bytes
  pub connect_socket_id : Option ℕ
  pub accept_id : Option ℕ
  pub accept_sh : Option Bytes
  pub accept_socket_id : Option ℕ
  pub listen_id : Option ℕ
  pub listen_max_connections : Option ℕ
  pub bind_id : Option ℕ
  pub bind_binary_private_key : Option Bytes
  pub bind_b58_private_key : Option Bytes
  pub socket_node_id : Option ℕ
  pub socket_socket_id : Option ℕ

abbrev pub empty_message : ApiMessage
empty_message = record {
  type = none;
  message_token = none;
  error = none;
  reply = none;
  register_id = none;
  unregister_id = none;
  connect_id = none;
  connect_sh = none;
  connect_socket_id = none;
  accept_id = none;
  accept_sh = none;
  accept_socket_id = none;
  listen_id = none;
  listen_max_connections = none;
  bind_id = none;
  bind_binary_private_key = none;
  bind_b58_private_key = none;
  socket_node_id = none;
  socket_socket_id = none;
}

-- How an accessor reads an absent field.
abbrev pub or_zero : Option ℕ → ℕ
or_zero none = 0
or_zero (some n) = n

abbrev pub or_register : Option MessageType → MessageType
or_register none = node_register
or_register (some t) = t

abbrev pub or_empty : Option Bytes → Bytes
or_empty none = []
or_empty (some b) = b
