-- ===== src/Client/Peer/Nodes.antt =====
-- P2PNode's constructor and destructor (src/library/P2PNode.cpp) against the daemon's session.
use p2pnet.Base.{ℕ, ◌<◌, List, [], ◌∷◌, Option, none, some, ◌≡◌, ◌≢◌, ◌∙◌, refl, ap}
use p2pnet.Base.Maps.{find, nat_eq}
use mathlib.Core.Option
use p2pnet.Crypto.Hash.{Bytes}
use p2pnet.P2p.NodeManager.{create_node}
use p2pnet.Api.Message.{ApiMessage, empty_message, node_register, node_unregister}
use p2pnet.Api.Session.{
  NodeEntry, State, returned, increment, register_node, unregister_node, process,
}
use p2pnet.Api.Session.Requests.{IsAllocating}
use p2pnet.Api.Session.Replies.{register_fresh, unregister-register}
use p2pnet.Api.Session.Answers.{unsent, unregister-unsent}
use p2pnet.Client.Node
use p2pnet.Client.Node.{World, and_then, new_node, destroy_node}
use p2pnet.Client.Node.Exchanges.{marked, replied_to, find-replied_to, exchange-replied}
use p2pnet.Client.Peer.{serve}

module _ (derive_sh : Bytes → Bytes) (key_of_binary : Bytes → Bytes) (decode : Bytes → ℕ)
    (encode : ℕ → Bytes) (self : ℕ) where
  abbrev pub peer : ApiMessage → State → Option (List ApiMessage × State)
  peer = serve derive_sh key_of_binary decode encode self

  serve-register :
      (request : ApiMessage) (st st' : State)
      → register_node self (record request { type = some node_register }) (unsent st) ≡ returned st'
      → peer (record request { type = some node_register }) st ≡ some (st'.session.sent, st')
  unfolding serve process
  serve-register request st st' ran = rw ran refl

  serve-unregister :
      (request : ApiMessage) (st st' : State)
      → unregister_node (record request { type = some node_unregister }) (unsent st) ≡ returned st'
      → peer (record request { type = some node_unregister }) st ≡ some (st'.session.sent, st')
  unfolding serve process
  serve-unregister request st st' ran = rw ran refl

  module _ (w : World State)
      (free : find w.session.next_msg_token w.session.awaiting_receive ≡ none)
      (inv : IsAllocating w.daemon.session) (some_left : w.daemon.session.next_node_id ≢ 0) where
    abbrev pub created : Node.Node
    created = record { node_id = w.daemon.session.next_node_id; bound_private_key = none }

    -- The message of the constructor, its reply, and the world when it has returned.
    abbrev pub asked : ApiMessage
    asked = marked (record empty_message { type = some node_register }) w.session

    abbrev pub reply : ApiMessage
    reply = record asked { register_id = some w.daemon.session.next_node_id }

    abbrev pub after : State → World State
    after st' = record {
      session =
          replied_to (record empty_message { type = some node_register }) w.session free reply;
      daemon = st';
    }

    pub new_node-eq :
        (st' : State)
        → register_node self asked (unsent w.daemon) ≡ returned st'
        → st'.session.sent ≡ reply ∷ []
        → new_node peer w ≡ Node.returned created (after st')
    unfolding new_node
    new_node-eq st' ran sent =
        rw
          (exchange-replied peer (record empty_message { type = some node_register }) w free reply
            st' (rw⁻¹ sent (serve-register asked w.daemon st' ran)) refl refl)
          refl

    -- If the token is not in use, the ids of the daemon's session are in order and one is left:
    -- creating a node returns one with the smallest free id, which at the daemon leads to the node just
    -- created there; the daemon's other ids and the client's other calls are as before.
    pub new_node_fresh :
        (w' : World State) × (new_node peer w ≡ Node.returned created w')
        × ((i : ℕ) → 0 < i → i < created.node_id → find i w.daemon.session.nodes ≢ none)
        × (find created.node_id w.daemon.session.nodes ≡ none)
        × (Option.map (λ (e : NodeEntry). e.node) (find created.node_id w'.daemon.session.nodes)
            ≡ some (create_node (some self) w.daemon.manager).0)
        × ((j : ℕ)
            → j ≢ created.node_id
            → find j w'.daemon.session.nodes ≡ find j w.daemon.session.nodes)
        × ((j : ℕ) → find j w'.session.awaiting_receive ≡ find j w.session.awaiting_receive)
    new_node_fresh =
        let (st', ran, sent, was_free, smallest, leads, others, made) =
          register_fresh self asked (unsent w.daemon) some_left inv in
        (
          after st',
          new_node-eq st' ran sent,
          smallest,
          was_free,
          leads,
          others,
          find-replied_to (record empty_message { type = some node_register }) w.session free reply,
        )

    abbrev asked_again : ApiMessage
    asked_again =
        marked
          (record empty_message {
            type = some node_unregister;
            unregister_id = some w.daemon.session.next_node_id;
          })
          (after w.daemon).session

    -- If moreover the token after it is not in use: creating a node and destroying it returns, and the
    -- daemon's ids lead where they led before, the id given out is the next one again, and the client's
    -- calls are as before.
    pub destroy-new_node :
        find (increment w.session.next_msg_token) w.session.awaiting_receive ≡ none
        → (w'' : World State) × (and_then (λ node w'. destroy_node peer node w') (new_node peer w)
            ≡ Node.returned tt w'')
          × ((j : ℕ) → find j w''.daemon.session.nodes ≡ find j w.daemon.session.nodes)
          × (w''.daemon.session.next_node_id ≡ w.daemon.session.next_node_id)
          × ((j : ℕ) → find j w''.session.awaiting_receive ≡ find j w.session.awaiting_receive)
    unfolding destroy_node
    destroy-new_node free' =
        let (st', ran, sent, was_free, smallest, leads, others, made) =
          register_fresh self asked (unsent w.daemon) some_left inv in
        let (st'', ran'', next'', nodes'') =
          unregister-register self asked asked_again (unsent w.daemon) st' inv some_left ran refl in
        let (entry, e) = found (find created.node_id st'.session.nodes) leads in
        let (st, ends, sent', nodes', next') =
          unregister-unsent asked_again st' st'' entry e ran'' in
        let same =
          find-replied_to (record empty_message { type = some node_register }) w.session free
            reply in
        let request : ApiMessage = record empty_message {
          type = some node_unregister;
          unregister_id = some w.daemon.session.next_node_id;
        } in
        let free'' : find (increment w.session.next_msg_token) (after st').session.awaiting_receive
            ≡ none =
          same (increment w.session.next_msg_token) ∙ free' in
        (
          record {
            session = replied_to request (after st').session free'' asked_again;
            daemon = st;
          },
          rw
              (
                new_node-eq st' ran sent,
                exchange-replied peer request (after st') free'' asked_again st
                    (rw⁻¹ sent' (serve-unregister asked_again st' st ends)) refl refl,
              )
              refl,
          λ j. ap (λ m. find j m) nodes' ∙ nodes'' j,
          next' ∙ next'',
          λ j. find-replied_to request (after st').session free'' asked_again j ∙ same j,
        )
      where
        found :
            (o : Option NodeEntry) {p : ℕ}
            → Option.map (λ (e : NodeEntry). e.node) o ≡ some p
            → (entry : NodeEntry) × (o ≡ some entry)
        found none h = absurd (cc h)
        found (some entry) h = (entry, refl)
