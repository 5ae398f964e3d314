-- ===== src/Client/Node.antt =====
-- src/library/P2PNode.cpp, P2PSocket.cpp, P2PContext.cpp and Impl.h: the calls of an application, and
-- their C forms, each of which is one exchange with the daemon. The daemon is a parameter `serve`: the
-- messages that it sends in answer to one, or none if that ends its process. What the log prints is left
-- out.
pub mod Exchanges
pub mod Answering
use p2pnet.Base.{ℕ, Bool, false, List, [], ◌∷◌, Option, none, some}
use p2pnet.Base.Maps.{find, erase, nat_eq}
use p2pnet.Crypto.Hash.{Bytes}
use p2pnet.Crypto.Base58.{decode_from_base58}
use p2pnet.Errors.{success, error_value}
use p2pnet.Api.Message.{
  ApiMessage, empty_message, or_zero, or_empty, node_register, node_unregister, node_connect,
  node_accept, node_listen, node_bind, socket_unregister,
}
use p2pnet.Client.Session
use p2pnet.Client.Session.{
  Session, Started, waiting, future_already_retrieved, Received, received, end_dereferenced,
  already_satisfied, Finished, blocked, broken_promise, mark_message, start_exchange,
  handle_receive, finish_exchange,
}

-- A client's session and its daemon.
pub record World (D : Type 0) : Type 0 where
  pub session : Session
  pub daemon : D

-- How a call ends: it returns, it throws a std::system_error, it waits for ever, or the client's process
-- ends by an exception that nothing catches.
pub data Result (D : Type 0) (A : Type 0) : Type 0 where
  returned : A → World D → Result D A
  thrown : (error_code : ℕ) → World D → Result D A
  hangs : World D → Result D A
  crashed : Result D A

-- P2PNode::Impl
pub record Node : Type 0 where
  pub node_id : ℕ
  pub bound_private_key : Option Bytes

-- P2PSocket::Impl; the map of contexts is never filled.
pub record Socket : Type 0 where
  pub parent_node : Node
  pub remote_sh : Bytes
  pub node_id : ℕ
  pub socket_id : ℕ

pub data ContextType : Type 0 where
  context_seqpacket context_stream context_datagram context_any : ContextType

-- P2PContext::Impl; the constructor leaves the id of the context as it is.
pub record Context : Type 0 where
  pub context_type : ContextType
  pub parent_socket : Socket
  pub context_id : ℕ

-- P2PContext::P2PContext, with the value that context_id had.
pub new_context : ContextType → Socket → ℕ → Context
new_context context_type parent_socket context_id = record {
  context_type = context_type;
  parent_socket = parent_socket;
  context_id = context_id;
}

pub get_context_type : Context → ContextType
get_context_type c = c.context_type

pub get_context_id : Context → ℕ
get_context_id c = c.context_id

pub get_parent_socket : Context → Socket
get_parent_socket c = c.parent_socket

-- P2PSocket::P2PSocket
pub new_socket : Node → ℕ → Bytes → Socket
new_socket parent_node socket_id remote_sh = record {
  parent_node = parent_node;
  remote_sh = remote_sh;
  node_id = parent_node.node_id;
  socket_id = socket_id;
}

module _ {D A B : Type 0} where
  -- What a call does after an exchange; an exception leaves it.
  abbrev pub and_then : (A → World D → Result D B) → Result D A → Result D B
  and_then k (returned a w) = k a w
  and_then k (thrown error_code w) = thrown error_code w
  and_then k (hangs w) = hangs w
  and_then k crashed = crashed

module _ {D A : Type 0} where
  -- A destructor, which catches the exception.
  abbrev pub swallow : Result D A → Result D (Unit {0})
  swallow (returned a w) = returned tt w
  swallow (thrown error_code w) = returned tt w
  swallow (hangs w) = hangs w
  swallow crashed = crashed

  -- The C functions: the code is the result, and what the call made is assigned to the parameter, which
  -- is the function's own copy of the caller's pointer.
  abbrev pub to_code : Result D A → Result D ℕ
  to_code (returned a w) = returned (error_value success) w
  to_code (thrown error_code w) = returned error_code w
  to_code (hangs w) = hangs w
  to_code crashed = crashed

-- The receive loop, for the messages that arrive.
abbrev pub receive_all : List ApiMessage → Received → Received
receive_all [] r = r
receive_all (m ∷ ms) (received s) = receive_all ms (handle_receive false m s)
receive_all (m ∷ ms) end_dereferenced = end_dereferenced
receive_all (m ∷ ms) already_satisfied = already_satisfied

module _ {D : Type 0} where
  abbrev pub of_finished : Session → D → Finished → Result D ApiMessage
  of_finished s d (Session.returned reply s') = returned reply (record { session = s'; daemon = d })
  of_finished s d (Session.thrown code s') = thrown code (record { session = s'; daemon = d })
  of_finished s d blocked = hangs (record { session = s; daemon = d })
  of_finished s d broken_promise = crashed

  -- The waiting call, when the messages have arrived.
  abbrev pub go_on : ℕ → D → Received → Result D ApiMessage
  go_on token d (received s) = of_finished s d (finish_exchange token s)
  go_on token d end_dereferenced = crashed
  go_on token d already_satisfied = crashed

  -- The daemon's answer, or its end: then only messages without a token are seen.
  abbrev pub answered : ℕ → Session → D → Option (List ApiMessage × D) → Result D ApiMessage
  answered token s d none = hangs (record { session = s; daemon = d })
  answered token s d (some (messages, d')) = go_on token d' (receive_all messages (received s))

module _ {D : Type 0} (serve : ApiMessage → D → Option (List ApiMessage × D)) where
  abbrev pub of_started : ApiMessage → D → Started → Result D ApiMessage
  of_started marked d (waiting token s) = answered token s d (serve marked d)
  of_started marked d (future_already_retrieved s) = crashed

  -- P2PDaemon::clientExchange
  pub client_exchange : ApiMessage → World D → Result D ApiMessage
  client_exchange request w =
      of_started (mark_message request w.session).1 w.daemon (start_exchange request w.session)

  -- P2PNode::P2PNode
  unfoldable pub new_node : World D → Result D Node
  new_node w =
      and_then
        (λ (reply : ApiMessage).
          returned (record { node_id = or_zero reply.register_id; bound_private_key = none }))
        (client_exchange (record empty_message { type = some node_register }) w)

  -- P2PNode::~P2PNode
  unfoldable pub destroy_node : Node → World D → Result D (Unit {0})
  destroy_node node w = swallow (
      client_exchange
        (record empty_message { type = some node_unregister; unregister_id = some node.node_id }) w)

  -- P2PNode::accept
  unfoldable pub accept : Node → World D → Result D Socket
  unfolding new_socket
  accept node w =
      and_then
        (λ (reply : ApiMessage).
          returned (new_socket node (or_zero reply.accept_id) (or_empty reply.accept_sh)))
        (client_exchange
          (record empty_message { type = some node_accept; accept_id = some node.node_id }) w)

  -- P2PNode::connect
  unfoldable pub connect : Node → Bytes → World D → Result D Socket
  unfolding new_socket
  connect node sh w =
      and_then
        (λ (reply : ApiMessage).
          returned (new_socket node (or_zero reply.accept_id) (or_empty reply.accept_sh)))
        (client_exchange
          (record empty_message {
            type = some node_connect;
            connect_id = some node.node_id;
            connect_sh = some sh;
          })
          w)

  -- P2PNode::listen
  unfoldable pub listen : Node → ℕ → World D → Result D (Unit {0})
  listen node max_conn w =
      and_then (λ (reply : ApiMessage). returned tt)
        (client_exchange
          (record empty_message {
            type = some node_listen;
            listen_id = some node.node_id;
            listen_max_connections = some max_conn;
          })
          w)

  -- P2PSocket::~P2PSocket
  unfoldable pub destroy_socket : Socket → World D → Result D (Unit {0})
  destroy_socket socket w = swallow (
      client_exchange
        (record empty_message {
          type = some socket_unregister;
          socket_node_id = some socket.node_id;
          socket_socket_id = some socket.socket_id;
        })
        w)

  -- p2p_createNode and p2p_createNodeOnDaemon
  unfoldable pub p2p_create_node : World D → Result D ℕ
  unfolding new_node
  p2p_create_node w = to_code (new_node w)

  unfoldable pub p2p_accept : Node → World D → Result D ℕ
  unfolding accept
  p2p_accept listening_node w = to_code (accept listening_node w)

  unfoldable pub p2p_connect : Node → Bytes → World D → Result D ℕ
  unfolding connect
  p2p_connect connecting_node sh w = to_code (connect connecting_node sh w)

  unfoldable pub p2p_listen_node : Node → ℕ → World D → Result D ℕ
  unfolding listen
  p2p_listen_node node max_conn w = to_code (listen node max_conn w)

  -- p2p_destroyNode, p2p_destroySocket: delete.
  unfoldable pub p2p_destroy_node : Node → World D → Result D (Unit {0})
  unfolding destroy_node
  p2p_destroy_node node w = destroy_node node w

  unfoldable pub p2p_destroy_socket : Socket → World D → Result D (Unit {0})
  unfolding destroy_socket
  p2p_destroy_socket socket w = destroy_socket socket w

  -- Botan's parts. The client reads the key for itself; where Botan makes a random key, of a text whose
  -- value is 0, the daemon gets another one.
  module _ (key_of_binary : Bytes → Bytes) (decode : Bytes → ℕ) (encode : ℕ → Bytes) where
    -- P2PNode::bind: the node with its new key.
    unfoldable pub bind : Node → Bytes → World D → Result D Node
    bind node base58_private_key w =
        and_then
          (λ (reply : ApiMessage). returned (record node {
            bound_private_key =
                some (key_of_binary (decode_from_base58 decode encode base58_private_key));
          }))
          (client_exchange
            (record empty_message {
              type = some node_bind;
              bind_id = some node.node_id;
              bind_b58_private_key = some base58_private_key;
            })
            w)

    unfoldable pub p2p_bind_node : Node → Bytes → World D → Result D ℕ
    unfolding bind
    p2p_bind_node node base58_private_key w = to_code (bind node base58_private_key w)
