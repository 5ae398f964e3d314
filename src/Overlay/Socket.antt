-- ===== src/Overlay/Socket.antt =====
-- src/daemon/overlay/Socket.h and Socket.cpp, less Socket::send, which stands with the connection it
-- changes. The parser of protobuf and what the processors answer are parameters.
pub mod Dispatch
mod Tests
use p2pnet.Base.{
  ℕ, Bool, true, false, List, [], ◌∷◌, ◌++◌, Option, none, some, ◌==◌, if◌then◌else◌, Option-cases,
}
use p2pnet.Base.Maps.{bytes_eq, bytes_beq, find, insert}
use p2pnet.Crypto.Hash.{Bytes}
use p2pnet.Overlay.Message.{Payload, Header, Body, OverlayMessage, Action}
use p2pnet.Overlay.Connection.{Connection, new_connection, is_addressed}
use p2pnet.Overlay.Connection
use p2pnet.Overlay.KeyProvider.{KeyProvider, KeyInfo, get_key_info}

-- Socket. `processors` is the multimap in the order of the insertions.
pub record Socket : Type 0 where
  pub key_provider : KeyProvider
  pub connections : List (Bytes × Connection)
  pub processors : List (ℕ × ℕ)

-- How process ends: with the socket and what it did, or in undefined behaviour.
pub data Outcome : Type 0 where
  done : Socket → List Action → Outcome
  undefined : Outcome

-- registerProcessor and getProcessors: equal keys of a multimap keep the order of insertion.
pub register_processor : (payload_type processor : ℕ) → Socket → Socket
register_processor payload_type processor s = record s {
  processors = s.processors ++ (payload_type, processor) ∷ [];
}

pub equal_range : ℕ → List (ℕ × ℕ) → List ℕ
equal_range payload_type [] = []
equal_range payload_type ((t, processor) ∷ rest) =
    let others = equal_range payload_type rest in
    if t == payload_type then processor ∷ others else others

pub get_processors : ℕ → Socket → List ℕ
get_processors payload_type s = equal_range payload_type s.processors

-- What a connection's process gives, stored under the sender's TH.
abbrev pub stored : Socket → Bytes → Connection × List Action → Outcome
stored s src_th (c, did) = done (record s { connections = (src_th, c) ∷ s.connections }) did

-- The destination that process compares: where the header has one, it is read from src_th.
abbrev pub read_destination : Option Bytes → Bytes → Option Bytes
read_destination none src_th = none
read_destination (some dest_th) src_th = some src_th

abbrev pub same_th : Option Bytes → Bytes → Bool
same_th none own = bytes_beq [] own
same_th (some th) own = bytes_beq th own

module _ (mandatory : ℕ → Bool) (parse_payloads : Bytes → List Payload)
    (decrypt : Bytes → Bytes) where
  -- processSelf. For a sender without a connection, one is inserted, but the call goes through the
  -- iterator that is at the end of the map.
  abbrev pub dispatch_self : Option Connection → ℕ → Header → Body → Socket → Outcome
  dispatch_self none origin header body s = undefined
  dispatch_self (some c) origin header body s = stored s header.src_th (
      Connection.process mandatory (λ t. get_processors t s) parse_payloads decrypt origin header
        body c)

  pub process_self : ℕ → Header → Body → Socket → Outcome
  process_self origin header body s =
      dispatch_self (find header.src_th s.connections) origin header body s

  -- processRelay and processRequest do nothing. Without a current key the pointer to it is invalid.
  abbrev pub dispatch : Option KeyInfo → ℕ → OverlayMessage → Socket → Outcome
  dispatch none origin message s = undefined
  dispatch (some own) origin message s =
      if same_th (read_destination message.header.dest_th message.header.src_th) own.th
      then process_self origin message.header message.body s
      else done s []

  abbrev pub process_parsed : Option OverlayMessage → ℕ → Socket → Outcome
  process_parsed none origin s = done s []
  process_parsed (some message) origin s = dispatch (get_key_info 0 s.key_provider) origin message s

  -- process
  pub process : (Bytes → Option OverlayMessage) → ℕ → Bytes → Socket → Outcome
  process parse origin text s = process_parsed (parse text) origin s

-- What connect of a connection gives, and the socket: a new connection is not inserted.
abbrev pub connected_to :
    Option Connection
    → Bytes
    → Connection × List Action
    → Socket
    → Socket × Connection × List Action
connected_to none dest (c, did) s = (s, c, did)
connected_to (some old) dest (c, did) s =
    (record s { connections = (dest, c) ∷ s.connections }, c, did)

-- The connection of the map, or a new one.
abbrev pub connection_for : Option Connection → Bytes → Connection
connection_for none dest = new_connection dest
connection_for (some c) dest = c

module _ (alive : ℕ → Bool) (local_th : Bytes) (serialize : List Payload → Bytes)
    (encrypt : Bytes → Bytes) where
  -- connect: the socket, the connection that was asked to connect, and what that did.
  pub connect :
      (now timeout : ℕ)
      → (content : Bytes) → (ignored callback : ℕ) → (dest : Bytes) → Socket
      → Socket × Connection × List Action
  connect now timeout content ignored callback dest s =
      let it = find dest s.connections in
      connected_to it dest
        (Connection.connect alive local_th serialize encrypt now timeout content ignored callback
          (connection_for it dest))
        s
