-- ===== src/Api/Session/Replies.antt =====
-- What a client is told, and what it is not.
use mathlib.Core.Option
use p2pnet.Base.{
  ℕ, ◌<◌, ◌≤◌, ◌≡◌, ◌≢◌, refl, subst, inl, inr, true, false, [], ◌∷◌, ◌++◌, none, some, arith, ◌==◌,
  if◌then◌else◌, dec_lt, ◌||◌, ltb, ==-refl,
}
use p2pnet.Base.Maps.{find, erase, find-erase, nat_eq}
use p2pnet.Crypto.Hash.{Bytes}
use p2pnet.P2p.NodeManager
use p2pnet.P2p.NodeManager.Consistency.{destroy-create}
use p2pnet.P2p.NodeManager.{NodeManager, Outcome, create_node, destroy_node, listen, bind}
use p2pnet.Api.Message.{ApiMessage, or_zero}
use p2pnet.Api.Session.Ids.{IsNextFree, find-insert_node}
use p2pnet.Api.Session.Requests.{IsAllocating, Ends, register-IsAllocating}
use p2pnet.Api.Session.{
  NodeEntry, State, returned, insert_node, entries_after, skip_taken, increment, remote_throw,
  register_node, unregister_node, listen_node, bind_node,
}

-- The state after a registration that finds an id.
registered : ℕ → ApiMessage → State → State
registered self request st =
    let s = st.session in
    let id = s.next_node_id in
    let nodes =
      insert_node id
        (record { node = (create_node (some self) st.manager).0; next_socket_id = 1; sockets = [] })
        s.nodes in
    record {
      session = record {
        nodes = nodes;
        next_node_id = skip_taken (increment id) (entries_after id nodes);
        sent = s.sent ++ record request { register_id = some id } ∷ [];
      };
      manager = (create_node (some self) st.manager).1;
    }

module _ (self : ℕ) (request : ApiMessage) (st : State)
    (some_left : st.session.next_node_id ≢ 0) where
  register-eq : register_node self request st ≡ returned (registered self request st)
  unfolding register_node registered
  register-eq =
      let test : (st.session.next_node_id == 0) ≡ false = ground arith in rw (test, register_node)

  -- While an id is left, a registration returns, answers once, with the request's fields and the new
  -- id, and the id is the smallest one above 0 that was free; it now leads to the node that the node
  -- manager created, and every other id leads where it led.
  pub register_fresh :
      IsAllocating st.session
      → let id = st.session.next_node_id in
        (st' : State) × (register_node self request st ≡ returned st')
        × (st'.session.sent ≡ st.session.sent ++ record request { register_id = some id } ∷ [])
        × (find id st.session.nodes ≡ none)
        × ((i : ℕ) → 0 < i → i < id → find i st.session.nodes ≢ none)
        × (Option.map (λ e. e.node) (find id st'.session.nodes)
            ≡ some (create_node (some self) st.manager).0)
        × ((j : ℕ) → j ≢ id → find j st'.session.nodes ≡ find j st.session.nodes)
        × (st'.manager ≡ (create_node (some self) st.manager).1)
  unfolding registered
  register_fresh (v, inl (z, all)) = absurd (some_left z)
  register_fresh (v, inr (le, lt, fr, all)) =
      let entry : NodeEntry = record {
        node = (create_node (some self) st.manager).0;
        next_socket_id = 1;
        sockets = [];
      } in
      let id = st.session.next_node_id in
      (
        registered self request st,
        register-eq,
        refl,
        fr,
        all,
        rw (find-insert_node id id entry st.session.nodes fr, ==-refl id),
        λ j ne. ground (arith, find-insert_node id j entry st.session.nodes fr),
        refl,
      )

-- A request that the session refuses, because it names a node that the session does not have or
-- because no id is left, returns with nothing changed: not even the error reply is sent.
pub refused_unanswered :
    (derive_sh : Bytes → Bytes) (key_of_binary : Bytes → Bytes) (decode : Bytes → ℕ)
    (encode : ℕ → Bytes) (self : ℕ) (request : ApiMessage) (st : State)
    → (st.session.next_node_id ≡ 0 → register_node self request st ≡ returned st)
      × (find (or_zero request.unregister_id) st.session.nodes ≡ none
          → unregister_node request st ≡ returned st)
      × (find (or_zero request.listen_id) st.session.nodes ≡ none
          → listen_node request st ≡ returned st)
      × (find (or_zero request.bind_id) st.session.nodes ≡ none
          → bind_node derive_sh key_of_binary decode encode request st ≡ returned st)
unfolding register_node unregister_node listen_node bind_node remote_throw
refused_unanswered derive_sh key_of_binary decode encode self request st = (
  λ z. let test : (st.session.next_node_id == 0) ≡ true = ground arith in rw (test, register_node),
  λ e. rw (e, unregister_node),
  λ e. rw (e, listen_node),
  λ e. rw (e, bind_node),
)

-- The state after unregistering the id that `registered` has given out.
unregistered : ℕ → ApiMessage → ApiMessage → State → State
unregistered self request request' st =
    let id = st.session.next_node_id in
    let st' = registered self request st in
    let next = st'.session.next_node_id in
    let (p, m) = create_node (some self) st.manager in
    record {
      session = record {
        nodes = erase id st'.session.nodes;
        next_node_id = if ltb id next || (next == 0) then id else next;
        sent = st'.session.sent ++ request' ∷ [];
      };
      manager = NodeManager.manager (destroy_node p m);
    }

module _ (self : ℕ) (request request' : ApiMessage) (st : State) (inv : IsAllocating st.session)
    (some_left : st.session.next_node_id ≢ 0)
    (named : or_zero request'.unregister_id ≡ st.session.next_node_id) where
  abbrev entry : NodeEntry
  entry = record { node = (create_node (some self) st.manager).0; next_socket_id = 1; sockets = [] }

  was_free : find st.session.next_node_id st.session.nodes ≡ none
  was_free = elim inv.1 [ inl h ↦ absurd (some_left h.0) | inr h ↦ h.2 ]

  find-registered :
      (j : ℕ)
      → find j (registered self request st).session.nodes
        ≡ (if st.session.next_node_id == j then some entry else find j st.session.nodes)
  unfolding registered
  find-registered j = find-insert_node st.session.next_node_id j entry st.session.nodes was_free

  found : find st.session.next_node_id (registered self request st).session.nodes ≡ some entry
  found = rw (find-registered st.session.next_node_id, ==-refl st.session.next_node_id)

  taken :
      (i : ℕ)
      → 1 ≤ i
      → i ≤ st.session.next_node_id
      → find i (registered self request st).session.nodes ≢ none
  taken i le le' e = elim inv.1 [
    | inl h ↦ some_left h.0
    | inr h ↦ ground (arith, find-registered i, h.3 i le)
  ]

  manager-registered : (registered self request st).manager ≡ (create_node (some self) st.manager).1
  unfolding registered
  manager-registered = refl

  unregister-eq :
      unregister_node request' (registered self request st)
      ≡ returned (unregistered self request request' st)
  unfolding unregister_node unregistered
  unregister-eq = rw (
    named,
    found,
    unregister_node,
    manager-registered,
    destroy-create (some self) st.manager,
    named,
  )

  -- The next id after registering is 0 or above the id given out.
  next-unregistered :
      (unregistered self request request' st).session.next_node_id ≡ st.session.next_node_id
  unfolding unregistered
  next-unregistered =
      let inv' : Ends IsAllocating (returned (registered self request st)) =
        subst (Ends IsAllocating) (register-eq self request st some_left)
          (register-IsAllocating self request st inv) in
      go inv'.1
    where
      go :
          IsNextFree 1
            (registered self request st).session.next_node_id
            (registered self request st).session.nodes
          → (unregistered self request request' st).session.next_node_id ≡ st.session.next_node_id
      go (inl (z, all)) = ground arith
      go (inr (le, lt, fr, all)) =
          let above : st.session.next_node_id < (registered self request st).session.next_node_id =
            elim (dec_lt st.session.next_node_id
              (registered self request st).session.next_node_id) [
                | yes p ↦ p
                | no p ↦ absurd (taken _ le (omega arith) fr)
              ] in
          ground arith

  nodes-unregistered :
      (j : ℕ)
      → find j (unregistered self request request' st).session.nodes ≡ find j st.session.nodes
  unfolding unregistered registered
  nodes-unregistered j =
      let id = st.session.next_node_id in
      rw
        (
          find-erase id j (insert_node id entry st.session.nodes),
          find-insert_node id j entry st.session.nodes was_free,
        )
        (ground (arith, was_free))

-- Unregistering a node right after it was registered succeeds and undoes the registration: every id
-- leads where it led before, and the id given out is the next one again.
pub unregister-register :
    (self : ℕ) (request request' : ApiMessage) (st st' : State)
    → IsAllocating st.session
    → st.session.next_node_id ≢ 0
    → register_node self request st ≡ returned st'
    → or_zero request'.unregister_id ≡ st.session.next_node_id
    → (st'' : State) × (unregister_node request' st' ≡ returned st'')
      × (st''.session.next_node_id ≡ st.session.next_node_id)
      × ((j : ℕ) → find j st''.session.nodes ≡ find j st.session.nodes)
unregister-register self request request' st st' inv some_left ran named =
    let e : registered self request st ≡ st' = cc (ran, register-eq self request st some_left) in
    (
      unregistered self request request' st,
      subst (λ s. unregister_node request' s ≡ returned (unregistered self request request' st)) e
          (unregister-eq self request request' st inv some_left named),
      next-unregistered self request request' st inv some_left named,
      nodes-unregistered self request request' st inv some_left named,
    )
