-- ===== src/Api/Session.antt =====
-- src/daemon/api/APISession.h and APISession.cpp. The session's map of nodes is kept in the order
-- of its keys, which NodeRegister walks. `send` appends to the messages sent; that the peer is
-- gone, which drops the session, is not modelled here. The node manager is the one shared by all
-- sessions.
pub mod Ids
pub mod Requests
pub mod Replies
pub mod Answers
pub mod Keys
mod Tests
use p2pnet.Base.{
  ℕ, suc, ◌+◌, ◌%◌, ◌^◌, Bool, true, false, ◌||◌, List, [], ◌∷◌, ◌++◌, Option, none, some, ltb, leb,
  ◌==◌, if◌then◌else◌,
}
use p2pnet.Base.Maps.{find, erase, nat_eq}
use p2pnet.Crypto.Hash.{Bytes}
use p2pnet.Crypto.Base58.{decode_from_base58}
use p2pnet.Errors.{
  P2pError, error_value, message_c, category_name, too_many_nodes, nonexistent_node,
}
use p2pnet.P2p.NodeManager
use p2pnet.P2p.NodeManager.{NodeManager, Outcome, create_node, destroy_node, listen, bind}
use p2pnet.Api.Message.{
  ApiMessage, ErrorMessage, MessageType, node_register, node_unregister, node_connect, node_accept,
  node_listen, node_bind, socket_unregister, empty_message, or_zero, or_register,
}

-- node_t; the map of sockets of a node is never filled.
pub record NodeEntry : Type 0 where
  pub node : ℕ
  pub next_socket_id : ℕ
  pub sockets : List (ℕ × ℕ)

pub record Session : Type 0 where
  pub nodes : List (ℕ × NodeEntry)
  pub next_node_id : ℕ
  pub sent : List ApiMessage

-- APISession::APISession
abbrev pub new_session : Session
new_session = record { nodes = []; next_node_id = 1; sent = [] }

pub record State : Type 0 where
  pub session : Session
  pub manager : NodeManager

-- The end of a handler: it returned, an exception left it, or `throw;` without an exception ended
-- the process.
pub data Ended : Type 0 where
  returned : State → Ended
  thrown : NodeManager.Error → State → Ended
  terminated : Ended

abbrev pub u32_mod : ℕ
u32_mod = 2 ^ 32

-- ++ on a uint32_t
abbrev pub increment : ℕ → ℕ
increment n = (n + 1) % u32_mod

-- nodes.insert(make_pair(id, entry))
pub insert_node : ℕ → NodeEntry → List (ℕ × NodeEntry) → List (ℕ × NodeEntry)
insert_node id entry [] = (id, entry) ∷ []
insert_node id entry ((j, e) ∷ nodes) =
    let rest = insert_node id entry nodes in
    if ltb id j
    then (id, entry) ∷ (j, e) ∷ nodes
    else if id == j
    then (j, e) ∷ nodes
    else (j, e) ∷ rest

-- The entries behind the one with this id: where the iterator that insert returns stands after ++.
pub entries_after : ℕ → List (ℕ × NodeEntry) → List (ℕ × NodeEntry)
entries_after id [] = []
entries_after id ((j, e) ∷ nodes) = if j == id then nodes else entries_after id nodes

-- The while loop at the end of NodeRegister: (next_node_id, new_iterator).
pub skip_taken : ℕ → List (ℕ × NodeEntry) → ℕ
skip_taken next_node_id [] = next_node_id
skip_taken next_node_id ((j, e) ∷ entries) =
    let rest = skip_taken (increment next_node_id) entries in
    if next_node_id == 0 then next_node_id else if leb j next_node_id then rest else next_node_id

abbrev pub send : ApiMessage → Session → Session
send message s = record s { sent = s.sent ++ message ∷ [] }

-- remoteThrow: the reply is built, and nothing sends it.
pub error_reply : ApiMessage → P2pError → ApiMessage
error_reply request error = record empty_message {
  error = some (record {
    error_code = error_value error;
    error_what = message_c (error_value error);
    error_category = category_name;
  });
  type = some (or_register request.type);
  message_token = some (or_zero request.message_token);
}

pub remote_throw : ApiMessage → P2pError → Session → Session
unfolding error_reply
remote_throw request error s = let reply_message = error_reply request error in s

-- NodeRegister
pub register_node : ℕ → ApiMessage → State → Ended
unfolding remote_throw insert_node entries_after skip_taken
register_node self request st =
    let s = st.session in
    let node_id = s.next_node_id in
    if node_id == 0
    then returned (record st { session = remote_throw request too_many_nodes s })
    else let (new_node, manager) = create_node (some self) st.manager in
      let entry : NodeEntry = record { node = new_node; next_socket_id = 1; sockets = [] } in
      let nodes = insert_node node_id entry s.nodes in
      let s' = send (record request { register_id = some node_id }) (record s { nodes = nodes }) in
      returned (record {
        session = record s' {
          next_node_id = skip_taken (increment node_id) (entries_after node_id nodes);
        };
        manager = manager;
      })

-- An exception of the node manager leaves the handler at the call.
abbrev pub after_call : State → (NodeManager → Ended) → Outcome → Ended
after_call st k (NodeManager.done m) = k m
after_call st k (NodeManager.thrown e m) = thrown e (record st { manager = m })

-- NodeUnRegister
pub unregister_node : ApiMessage → State → Ended
unfolding remote_throw
unregister_node request st =
    let s = st.session in
    let id = or_zero request.unregister_id in
    elim (find id s.nodes) [
      | none ↦ returned (record st { session = remote_throw request nonexistent_node s })
      | some entry ↦
          after_call st
            (λ m. returned (record {
              session = send request (record s {
                nodes = erase id s.nodes;
                next_node_id =
                    if ltb id s.next_node_id || (s.next_node_id == 0) then id else s.next_node_id;
              });
              manager = m;
            }))
            (destroy_node entry.node st.manager)
    ]

-- NodeListen
pub listen_node : ApiMessage → State → Ended
unfolding remote_throw
listen_node request st =
    let s = st.session in
    elim (find (or_zero request.listen_id) s.nodes) [
      | none ↦ returned (record st { session = remote_throw request nonexistent_node s })
      | some entry ↦
          after_call st (λ m. returned (record { session = send request s; manager = m }))
            (listen entry.node (or_zero request.listen_max_connections) st.manager)
    ]

-- Botan's parts: the hash of the public key of a private key, a private key read from bytes, and
-- the big-endian conversions of numbers.
module _ (derive_sh : Bytes → Bytes) (key_of_binary : Bytes → Bytes) (decode : Bytes → ℕ)
    (encode : ℕ → Bytes) where
  -- The key of the request: the binary one if it is there, else the base58 one. Botan makes a random key
  -- of bytes whose value is 0: then `key_of_binary` is what it made in this call, and the client's own
  -- reading of the same text, which is a parameter of its own, gives another key.
  pub bind_key : ApiMessage → Option Bytes
  bind_key request = elim request.bind_binary_private_key [
    | some key ↦ some (key_of_binary key)
    | none ↦ elim request.bind_b58_private_key [
      | some key ↦ some (key_of_binary (decode_from_base58 decode encode key))
      | none ↦ none
    ]
  ]

  -- NodeBind
  pub bind_node : ApiMessage → State → Ended
  unfolding remote_throw bind_key
  bind_node request st =
      let s = st.session in
      let reply =
        λ (m : NodeManager). returned (record { session = send request s; manager = m }) in
      elim (find (or_zero request.bind_id) s.nodes) [
        | none ↦ returned (record st { session = remote_throw request nonexistent_node s })
        | some entry ↦ elim (bind_key request) [
          | none ↦ reply st.manager
          | some key ↦ after_call st reply (bind derive_sh entry.node key st.manager)
        ]
      ]

  -- APISession::process
  unfoldable pub process : ℕ → ApiMessage → State → Ended
  process self request st = elim (or_register request.type) [
    | node_register ↦ register_node self request st
    | node_unregister ↦ unregister_node request st
    | node_connect ↦ terminated
    | node_accept ↦ terminated
    | node_listen ↦ listen_node request st
    | node_bind ↦ bind_node request st
    | socket_unregister ↦ returned st
  ]
