-- ===== src/Api/Session/Requests.antt =====
-- What the handlers do to the session, on every branch.
use p2pnet.Base.{ℕ, ◌≡◌, inl, inr, true, false, arith, ◌==◌, Option-cases}
use p2pnet.Base.Maps.{find, nat_eq}
use p2pnet.Crypto.Hash.{Bytes}
use p2pnet.P2p.NodeManager
use p2pnet.P2p.NodeManager.{NodeManager, Outcome, create_node, destroy_node, listen, bind}
use p2pnet.Api.Message.{
  ApiMessage, MessageType, node_register, node_unregister, node_connect, node_accept, node_listen,
  node_bind, socket_unregister, or_zero, or_register,
}
use p2pnet.Api.Session.Ids.{Above, IsNextFree, insert_node-IsNextFree, erase-IsNextFree}
use p2pnet.Api.Session.{
  Session, State, Ended, returned, thrown, terminated, remote_throw, register_node, unregister_node,
  listen_node, bind_node, bind_key, process, send, after_call,
}

-- The ids of the map rise and are uint32_t numbers above 0, and next_node_id is the smallest free
-- one, or 0 if every id from 1 to 2 ^ 32 - 1 is in use.
abbrev pub IsAllocating : Session → Type 0
IsAllocating s = Above 0 s.nodes × IsNextFree 1 s.next_node_id s.nodes

-- A property of the session when a handler ends, by a return or by an exception.
abbrev pub Ends : (Session → Type 0) → Ended → Type 0
Ends P (returned st) = P st.session
Ends P (thrown e st) = P st.session
Ends P terminated = Unit

pub after_call-Ends :
    (P : Session → Type 0) (st : State) (k : NodeManager → Ended) (r : Outcome)
    → P st.session
    → ((m : NodeManager) → Ends P (k m))
    → Ends P (after_call st k r)
after_call-Ends P st k (NodeManager.done m) h f = f m
after_call-Ends P st k (NodeManager.thrown e m) h f = h

pub register-IsAllocating :
    (self : ℕ) (request : ApiMessage) (st : State)
    → IsAllocating st.session
    → Ends IsAllocating (register_node self request st)
unfolding register_node remote_throw
register-IsAllocating self request st (v, inl (z, all)) =
    let none_left : (st.session.next_node_id == 0) ≡ true = ground arith in
    rw (none_left, register_node) (v, inl (z, all))
register-IsAllocating self request st (v, inr (le, lt, fr, all)) =
    let some_left : (st.session.next_node_id == 0) ≡ false = ground arith in
    rw (some_left, register_node)
      (insert_node-IsNextFree st.session.next_node_id _ st.session.nodes v le lt fr all)

unregister-IsAllocating :
    (request : ApiMessage) (st : State)
    → IsAllocating st.session
    → Ends IsAllocating (unregister_node request st)
unfolding unregister_node remote_throw
unregister-IsAllocating request st h =
    let id = or_zero request.unregister_id in
    elim (Option-cases (find id st.session.nodes)) [
      | inl e ↦ rw (e, unregister_node) h
      | inr (entry, e) ↦
          rw (e, unregister_node)
            (after_call-Ends IsAllocating st _ (destroy_node entry.node st.manager) h (λ m.
              erase-IsNextFree id st.session.next_node_id st.session.nodes h.0 (λ n. cc (e, n))
                h.1))
    ]

-- The handlers that answer and change nothing else of the session.
after_answer-Ends :
    (request : ApiMessage) (st : State) (r : Outcome)
    → IsAllocating st.session
    → Ends IsAllocating (
        after_call st (λ m. returned (record { session = send request st.session; manager = m })) r)
after_answer-Ends request st (NodeManager.done m) h = h
after_answer-Ends request st (NodeManager.thrown e m) h = h

listen-IsAllocating :
    (request : ApiMessage) (st : State)
    → IsAllocating st.session
    → Ends IsAllocating (listen_node request st)
unfolding listen_node remote_throw
listen-IsAllocating request st h =
    elim (Option-cases (find (or_zero request.listen_id) st.session.nodes)) [
      | inl e ↦ rw (e, listen_node) h
      | inr (entry, e) ↦
          rw (e, listen_node)
            (after_answer-Ends request st
              (listen entry.node (or_zero request.listen_max_connections) st.manager) h)
    ]

module _ (derive_sh : Bytes → Bytes) (key_of_binary : Bytes → Bytes) (decode : Bytes → ℕ)
    (encode : ℕ → Bytes) where
  bind-IsAllocating :
      (request : ApiMessage) (st : State)
      → IsAllocating st.session
      → Ends IsAllocating (bind_node derive_sh key_of_binary decode encode request st)
  unfolding bind_node remote_throw
  bind-IsAllocating request st h =
      elim (Option-cases (find (or_zero request.bind_id) st.session.nodes)) [
        | inl e ↦ rw (e, bind_node) h
        | inr (entry, e) ↦
            elim (Option-cases (bind_key derive_sh key_of_binary decode encode request)) [
              | inl no_key ↦ rw (e, bind_node, no_key) h
              | inr (key, k) ↦
                  rw (e, bind_node, k)
                    (after_answer-Ends request st (bind derive_sh entry.node key st.manager) h)
            ]
      ]

  -- Every request, whether it succeeds, fails or ends in an exception, leaves the ids of the session
  -- in order and next_node_id at the smallest free one (or at 0 when none is free).
  pub process-IsAllocating :
      (self : ℕ) (request : ApiMessage) (st : State)
      → IsAllocating st.session
      → Ends IsAllocating (process derive_sh key_of_binary decode encode self request st)
  unfolding process
  process-IsAllocating self request st h = go (or_register request.type)
    where
      go :
          (t : MessageType)
          → Ends IsAllocating (elim t [
            | node_register ↦ register_node self request st
            | node_unregister ↦ unregister_node request st
            | node_connect ↦ terminated
            | node_accept ↦ terminated
            | node_listen ↦ listen_node request st
            | node_bind ↦ bind_node derive_sh key_of_binary decode encode request st
            | socket_unregister ↦ returned st
          ])
      go node_register = register-IsAllocating self request st h
      go node_unregister = unregister-IsAllocating request st h
      go node_connect = tt
      go node_accept = tt
      go node_listen = listen-IsAllocating request st h
      go node_bind = bind-IsAllocating request st h
      go socket_unregister = h
