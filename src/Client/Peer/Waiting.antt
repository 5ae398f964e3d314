-- ===== src/Client/Peer/Waiting.antt =====
-- The calls of src/library/P2PNode.cpp and P2PSocket.cpp that the daemon's session never answers.
use p2pnet.Base.{ℕ, List, Option, none, some, ◌≡◌, refl}
use p2pnet.Base.Maps.{find, nat_eq}
use p2pnet.Crypto.Hash.{Bytes}
use p2pnet.Api.Message.{
  ApiMessage, empty_message, node_register, node_unregister, node_listen, node_bind, node_accept,
  node_connect, socket_unregister,
}
use p2pnet.Api.Session.{State, returned, terminated, process}
use p2pnet.Api.Session.Answers.{unsent}
use p2pnet.Api.Session.Replies.{refused_unanswered}
use p2pnet.Client.Session.{pending}
use p2pnet.Client.Node
use p2pnet.Client.Node.{
  World, Result, Socket, hangs, client_exchange, new_node, destroy_node, accept, connect, listen,
  bind, destroy_socket,
}
use p2pnet.Client.Node.Exchanges.{marked, asking, find-asking, exchange-unanswered, exchange-ended}
use p2pnet.Client.Peer.{serve}

module _ {D A : Type 0} where
  -- A call that waits for ever: its promise is pending, under the token that it took.
  abbrev pub IsWaiting : World D → Result D A → Type 0
  IsWaiting w r =
      (w' : World D) × (r ≡ hangs w')
      × (find w.session.next_msg_token w'.session.awaiting_receive ≡ some pending)

module _ (derive_sh : Bytes → Bytes) (key_of_binary : Bytes → Bytes) (decode : Bytes → ℕ)
    (encode : ℕ → Bytes) (self : ℕ) (w : World State)
    (free : find w.session.next_msg_token w.session.awaiting_receive ≡ none) where
  abbrev peer : ApiMessage → State → Option (List ApiMessage × State)
  peer = serve derive_sh key_of_binary decode encode self

  -- The world while a request waits.
  abbrev waiting : ApiMessage → State → World State
  waiting request st = record { session = asking request w.session; daemon = st }

  -- A request that the session takes in silence, and one that ends the daemon.
  silent :
      (request : ApiMessage)
      → process derive_sh key_of_binary decode encode self
          (marked request w.session)
          (unsent w.daemon)
        ≡ returned (unsent w.daemon)
      → client_exchange peer request w ≡ hangs (waiting request (unsent w.daemon))
  unfolding serve
  silent request e = exchange-unanswered peer request w free (unsent w.daemon) (rw e refl)

  ending :
      (request : ApiMessage)
      → process derive_sh key_of_binary decode encode self
          (marked request w.session)
          (unsent w.daemon)
        ≡ terminated
      → client_exchange peer request w ≡ hangs (waiting request w.daemon)
  unfolding serve
  ending request e = exchange-ended peer request w free (rw e refl)

  -- With a token that is not in use, accepting, connecting and the destructor of a socket wait for ever,
  -- whatever the state of the daemon.
  pub never_answered :
      (node : Node.Node) (sh : Bytes) (socket : Socket)
      → IsWaiting w (accept peer node w)
        × IsWaiting w (connect peer node sh w)
        × IsWaiting w (destroy_socket peer socket w)
  unfolding accept connect destroy_socket process
  never_answered node sh socket =
      let accepts : ApiMessage = record empty_message {
        type = some node_accept;
        accept_id = some node.node_id;
      } in
      let connects : ApiMessage = record empty_message {
        type = some node_connect;
        connect_id = some node.node_id;
        connect_sh = some sh;
      } in
      let unregisters : ApiMessage = record empty_message {
        type = some socket_unregister;
        socket_node_id = some socket.node_id;
        socket_socket_id = some socket.socket_id;
      } in
      (
        (
          waiting accepts w.daemon,
          rw (ending accepts refl) refl,
          find-asking accepts w.session free,
        ),
        (
          waiting connects w.daemon,
          rw (ending connects refl) refl,
          find-asking connects w.session free,
        ),
        (
          waiting unregisters (unsent w.daemon),
          rw (silent unregisters refl) refl,
          find-asking unregisters w.session free,
        ),
      )

  refused :
      (request : ApiMessage)
      → (process derive_sh key_of_binary decode encode self
            (marked request w.session)
            (unsent w.daemon)
          ≡ returned (unsent w.daemon))
      → IsWaiting w (client_exchange peer request w)
  refused request e =
      (waiting request (unsent w.daemon), silent request e, find-asking request w.session free)

  -- With a token that is not in use: a call that the daemon refuses waits for ever too, if the session
  -- does not have the node: destroying it, listening for it and binding it.
  pub refused_waits :
      (node : Node.Node) (private_key : Bytes) (max_conn : ℕ)
      → find node.node_id w.daemon.session.nodes ≡ none
      → IsWaiting w (destroy_node peer node w)
        × IsWaiting w (listen peer node max_conn w)
        × IsWaiting w (bind peer key_of_binary decode encode node private_key w)
  unfolding destroy_node listen bind process
  refused_waits node private_key max_conn unknown =
      let unregisters : ApiMessage = record empty_message {
        type = some node_unregister;
        unregister_id = some node.node_id;
      } in
      let listens : ApiMessage = record empty_message {
        type = some node_listen;
        listen_id = some node.node_id;
        listen_max_connections = some max_conn;
      } in
      let binds : ApiMessage = record empty_message {
        type = some node_bind;
        bind_id = some node.node_id;
        bind_b58_private_key = some private_key;
      } in
      let refuses = λ (request : ApiMessage).
        refused_unanswered derive_sh key_of_binary decode encode self (marked request w.session)
          (unsent w.daemon) in
      let (a, e, pa) = refused unregisters ((refuses unregisters).1 unknown) in
      let (b, f, pb) = refused listens ((refuses listens).2 unknown) in
      let (c, g, pc) = refused binds ((refuses binds).3 unknown) in
      ((a, rw e refl, pa), (b, rw f refl, pb), (c, rw g refl, pc))

  -- So does the creation of a node when the session has no id left.
  pub full_waits : w.daemon.session.next_node_id ≡ 0 → IsWaiting w (new_node peer w)
  unfolding new_node process
  full_waits none_left =
      let registers : ApiMessage = record empty_message { type = some node_register } in
      let (a, e, pa) = refused registers (
        (refused_unanswered derive_sh key_of_binary decode encode self (marked registers w.session)
            (unsent w.daemon)).0
          none_left) in
      (a, rw e refl, pa)
