-- ===== src/Dht/Service.antt =====
-- src/daemon/dht/DHTService.h and DHTService.cpp, and DHT.proto, less findAnyIterative. No
-- class of the sources derives from DHTService, so getClosestTo is its own; the contacts of nodes, which
-- a subclass must define, are a parameter.
pub mod Queries
mod Tests
use p2pnet.Base.{ℕ, zero, suc, Bool, true, false, List, [], ◌∷◌, ◌++◌, codes}
use p2pnet.Crypto.Hash.{Bytes}
use p2pnet.Dht.KBucket.{Run, ok, undefined, out_of_fuel, ◌>>=◌}

-- DHTPart.DHTMessageType
pub data MessageType : Type 0 where
  store find_node find_value delete find_node_reply find_value_reply : MessageType

-- DHTPart
pub record DhtPart : Type 0 where
  pub ns : Bytes
  pub message_type : MessageType
  pub hash : Bytes
  pub serialized_contact_list : List Bytes

-- The calls of send and of foundNode.
pub data Action : Type 0 where
  send : (dest : Bytes) → DhtPart → Action
  found_node : (contact : Bytes) → Action

abbrev pub system_ns : Bytes
system_ns = codes "system"

-- getClosestTo of the base class: it calls itself.
pub get_closest_to : (fuel : ℕ) → (hash : Bytes) → (count : ℕ) → Run (List ℕ)
get_closest_to zero hash count = out_of_fuel
get_closest_to (suc fuel) hash count = get_closest_to fuel hash count

-- findAny, with findNode and findValue; a namespace that is not set is read as the default one.
pub find_any : (find_hash dest_hash : Bytes) → MessageType → List Action
find_any find_hash dest_hash action =
    send dest_hash (record {
      ns = system_ns;
      message_type = action;
      hash = find_hash;
      serialized_contact_list = [];
    })
    ∷ []

pub find_node_at : (find_hash dest_hash : Bytes) → List Action
unfolding find_any
find_node_at find_hash dest_hash = find_any find_hash dest_hash find_node

pub find_value_at : (find_hash dest_hash : Bytes) → List Action
unfolding find_any
find_value_at find_hash dest_hash = find_any find_hash dest_hash find_value

abbrev pub contacts : (ℕ → Bytes) → List ℕ → List Bytes
contacts contact_of [] = []
contacts contact_of (node ∷ nodes) = contact_of node ∷ contacts contact_of nodes

-- The reply to a query: no value is ever found, so the closest contacts go into it.
abbrev pub reply_to :
    (ℕ → Bytes) → Run (List ℕ) → (from : Bytes) → MessageType → (hash : Bytes) → Run (List Action)
reply_to contact_of closest from reply_type hash = closest >>= λ nodes. ok (
    send from (record {
      ns = system_ns;
      message_type = reply_type;
      hash = hash;
      serialized_contact_list = contacts contact_of nodes;
    })
    ∷ [])

abbrev pub found_nodes : List Bytes → List Action
found_nodes [] = []
found_nodes (contact ∷ rest) = found_node contact ∷ found_nodes rest

-- process
pub process : (contact_of : ℕ → Bytes) → (fuel k : ℕ) → (from : Bytes) → DhtPart → Run (List Action)
unfolding get_closest_to
process contact_of fuel k from dht_part =
    let closest = get_closest_to fuel dht_part.hash k in
    elim dht_part.message_type [
      | find_node ↦ reply_to contact_of closest from find_node_reply dht_part.hash
      | find_value ↦ reply_to contact_of closest from find_value_reply dht_part.hash
      | find_node_reply ↦ ok (found_nodes dht_part.serialized_contact_list)
      | find_value_reply ↦ ok []
      | store ↦ ok []
      | delete ↦ ok []
    ]
