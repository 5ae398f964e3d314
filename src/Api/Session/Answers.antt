-- ===== src/Api/Session/Answers.antt =====
-- What the handlers of src/daemon/api/APISession.cpp send for a request.
use p2pnet.Base.{
  ℕ, List, [], ◌∷◌, ◌++◌, some, ◌≡◌, refl, inl, inr, ◌==◌, Bool-cases, Option-cases, if◌then◌else◌,
  ltb, ◌||◌, ap,
}
use p2pnet.Base.Maps.{find, erase, nat_eq}
use p2pnet.Crypto.Hash.{Bytes}
use p2pnet.P2p.NodeManager
use p2pnet.P2p.NodeManager.{NodeManager, Outcome, destroy_node, listen, bind}
use p2pnet.Api.Message.{
  ApiMessage, MessageType, or_zero, or_register, node_register, node_unregister, node_connect,
  node_accept, node_listen, node_bind, socket_unregister,
}
use p2pnet.Api.Session.{
  NodeEntry, Session, State, returned, thrown, terminated, process, register_node, unregister_node,
  listen_node, bind_node, bind_key, remote_throw, after_call, send,
}
use p2pnet.Api.Session.Requests.{Ends, after_call-Ends}

-- The answer to a message: nothing, or one message under its token that carries the same error.
abbrev pub IsAnswer : ApiMessage → List ApiMessage → Type 0
IsAnswer m [] = Unit
IsAnswer m (r ∷ []) = (r.message_token ≡ m.message_token) × (r.error ≡ m.error)
IsAnswer m (r ∷ r' ∷ rs) = ⊥

-- A session that has sent nothing but an answer to the request.
abbrev pub Answers : ApiMessage → Session → Type 0
Answers request s = IsAnswer request s.sent

-- The handlers, when nothing is sent yet.
module _ (request : ApiMessage) (st : State) (fresh : st.session.sent ≡ []) where
  sent_nothing : Answers request st.session
  sent_nothing = rw fresh tt

  sends :
      (r : Outcome)
      → Ends (Answers request) (
          after_call st
            (λ m. returned (record { session = send request st.session; manager = m }))
            r)
  sends r = after_call-Ends (Answers request) st _ r sent_nothing (λ m. rw fresh (refl, refl))

  register-Answers : (self : ℕ) → Ends (Answers request) (register_node self request st)
  unfolding register_node remote_throw
  register-Answers self = elim (Bool-cases (st.session.next_node_id == 0)) [
    | inl e ↦ rw (e, register_node) sent_nothing
    | inr e ↦ rw (e, register_node, fresh) (refl, refl)
  ]

  unregister-Answers : Ends (Answers request) (unregister_node request st)
  unfolding unregister_node remote_throw
  unregister-Answers = elim (Option-cases (find (or_zero request.unregister_id) st.session.nodes)) [
    | inl e ↦ rw (e, unregister_node) sent_nothing
    | inr (entry, e) ↦
        rw (e, unregister_node)
          (after_call-Ends (Answers request) st _ (destroy_node entry.node st.manager) sent_nothing
            (λ m. rw fresh (refl, refl)))
  ]

  listen-Answers : Ends (Answers request) (listen_node request st)
  unfolding listen_node remote_throw
  listen-Answers = elim (Option-cases (find (or_zero request.listen_id) st.session.nodes)) [
    | inl e ↦ rw (e, listen_node) sent_nothing
    | inr (entry, e) ↦
        rw (e, listen_node)
          (sends (listen entry.node (or_zero request.listen_max_connections) st.manager))
  ]

module _ (derive_sh : Bytes → Bytes) (key_of_binary : Bytes → Bytes) (decode : Bytes → ℕ)
    (encode : ℕ → Bytes) where
  bind-Answers :
      (request : ApiMessage) (st : State)
      → st.session.sent ≡ []
      → Ends (Answers request) (bind_node derive_sh key_of_binary decode encode request st)
  unfolding bind_node remote_throw
  bind-Answers request st fresh =
      elim (Option-cases (find (or_zero request.bind_id) st.session.nodes)) [
        | inl e ↦ rw (e, bind_node) (sent_nothing request st fresh)
        | inr (entry, e) ↦
            elim (Option-cases (bind_key derive_sh key_of_binary decode encode request)) [
              | inl no_key ↦ rw (e, bind_node, no_key, fresh) (refl, refl)
              | inr (key, k) ↦
                  rw (e, bind_node, k)
                    (sends request st fresh (bind derive_sh entry.node key st.manager))
            ]
      ]

  -- For every request a session that has sent nothing sends nothing or one message, which carries the
  -- token and the error of the request, whatever the request and however its handler ends.
  pub process-Answers :
      (self : ℕ) (request : ApiMessage) (st : State)
      → st.session.sent ≡ []
      → Ends (Answers request) (process derive_sh key_of_binary decode encode self request st)
  unfolding process
  process-Answers self request st fresh = go (or_register request.type)
    where
      go :
          (t : MessageType)
          → Ends (Answers request) (elim t [
            | node_register ↦ register_node self request st
            | node_unregister ↦ unregister_node request st
            | node_connect ↦ terminated
            | node_accept ↦ terminated
            | node_listen ↦ listen_node request st
            | node_bind ↦ bind_node derive_sh key_of_binary decode encode request st
            | socket_unregister ↦ returned st
          ])
      go node_register = register-Answers request st fresh self
      go node_unregister = unregister-Answers request st fresh
      go node_connect = tt
      go node_accept = tt
      go node_listen = listen-Answers request st fresh
      go node_bind = bind-Answers request st fresh
      go socket_unregister = sent_nothing request st fresh

-- A session that has sent nothing yet.
abbrev pub unsent : State → State
unsent st = record st { session = record st.session { sent = [] } }

-- What was sent before makes no difference to the unregistering of a node.
pub unregister-unsent :
    (request : ApiMessage) (st st'' : State) (entry : NodeEntry)
    → find (or_zero request.unregister_id) st.session.nodes ≡ some entry
    → unregister_node request st ≡ returned st''
    → (st' : State) × (unregister_node request (unsent st) ≡ returned st')
      × (st'.session.sent ≡ request ∷ [])
      × (st'.session.nodes ≡ st''.session.nodes)
      × (st'.session.next_node_id ≡ st''.session.next_node_id)
unfolding unregister_node
unregister-unsent request st st'' entry e ran = go (destroy_node entry.node st.manager) refl
  where
    id : ℕ
    id = or_zero request.unregister_id

    after : List ApiMessage → NodeManager → State
    after sent m = record {
      session = record {
        nodes = erase id st.session.nodes;
        next_node_id =
            if ltb id st.session.next_node_id || (st.session.next_node_id == 0)
            then id
            else st.session.next_node_id;
        sent = sent;
      };
      manager = m;
    }

    go :
        (r : Outcome)
        → destroy_node entry.node st.manager ≡ r
        → (st' : State) × (unregister_node request (unsent st) ≡ returned st')
          × (st'.session.sent ≡ request ∷ [])
          × (st'.session.nodes ≡ st''.session.nodes)
          × (st'.session.next_node_id ≡ st''.session.next_node_id)
    go (NodeManager.done m) d =
        let ends : unregister_node request st
            ≡ returned (after (st.session.sent ++ request ∷ []) m) =
          rw (e, unregister_node, d) refl in
        let same : after (st.session.sent ++ request ∷ []) m ≡ st'' = cc (ends, ran) in
        (
          after (request ∷ []) m,
          rw (e, unregister_node, d) refl,
          refl,
          ap (λ (s : State). s.session.nodes) same,
          ap (λ (s : State). s.session.next_node_id) same,
        )
    go (NodeManager.thrown x m) d =
        let ends : unregister_node request st ≡ thrown x (record st { manager = m }) =
          rw (e, unregister_node, d) refl in
        absurd (cc (ends, ran))
