-- ===== src/Client/Peer/Binding.antt =====
-- P2PNode::bind (src/library/P2PNode.cpp) on a new node, down to the daemon's node manager.
use p2pnet.Base.{ℕ, List, Option, none, some, ◌≡◌, ◌≢◌, ◌∙◌, refl, ap, sym, subst}
use p2pnet.Base.Maps.{find, nat_eq, bytes_eq}
use mathlib.Core.Option
use p2pnet.Crypto.Hash.{Bytes}
use p2pnet.Crypto.Base58.{decode_from_base58}
use p2pnet.P2p.NodeManager
use p2pnet.P2p.NodeManager.{NodeManager, Node, create_node, get_bound_node, manager}
use p2pnet.P2p.NodeManager.Binding.{bind_first}
use p2pnet.P2p.NodeManager.Consistency.{create_node-unbound}
use p2pnet.Api.Message.{ApiMessage, empty_message, node_register, node_bind}
use p2pnet.Api.Session.{NodeEntry, State, returned, increment, bind_node, process, send}
use p2pnet.Api.Session.Requests.{IsAllocating}
use p2pnet.Api.Session.Replies.{register_fresh}
use p2pnet.Api.Session.Answers.{unsent}
use p2pnet.Api.Session.Keys.{bind_node-done}
use p2pnet.Client.Node
use p2pnet.Client.Node.{World, and_then, new_node, bind}
use p2pnet.Client.Node.Exchanges.{marked, replied_to, find-replied_to, exchange-replied}
use p2pnet.Client.Peer.{serve}
use p2pnet.Client.Peer.Nodes.{peer, reply, after, new_node-eq}

-- The entry behind an id that leads to the node p.
entry_of :
    (o : Option NodeEntry) (p : ℕ)
    → Option.map (λ (e : NodeEntry). e.node) o ≡ some p
    → (entry : NodeEntry) × (o ≡ some entry) × (entry.node ≡ p)
entry_of none p h = absurd (cc h)
entry_of (some entry) p h = (entry, refl, cc h)

module _ (derive_sh : Bytes → Bytes) (key_of_binary : Bytes → Bytes) (decode : Bytes → ℕ)
    (encode : ℕ → Bytes) (self : ℕ) where
  abbrev daemon : ApiMessage → State → Option (List ApiMessage × State)
  daemon = peer derive_sh key_of_binary decode encode self

  serve-bind :
      (request : ApiMessage) (st st' : State)
      → bind_node derive_sh key_of_binary decode encode
          (record request { type = some node_bind })
          (unsent st)
        ≡ returned st'
      → daemon (record request { type = some node_bind }) st ≡ some (st'.session.sent, st')
  unfolding serve process
  serve-bind request st st' ran = rw ran refl

  -- What the daemon makes of the key of a new node whose SH is free.
  bound_at :
      (m : NodeManager) (key : Bytes)
      → find (derive_sh key) m.nodes_bound ≡ none
      → (m' : NodeManager) × (NodeManager.bind derive_sh
            (create_node (some self) m).0
            key
            (create_node (some self) m).1
          ≡ NodeManager.done m')
        × (get_bound_node (derive_sh key) m' ≡ some (create_node (some self) m).0)
        × ((sh : Bytes) → sh ≢ derive_sh key → get_bound_node sh m' ≡ get_bound_node sh m)
  unfolding get_bound_node
  bound_at m key no_owner =
      let (unbound, stored, same) = create_node-unbound (some self) m in
      let (ends, leads, gone, others) =
        bind_first derive_sh (create_node (some self) m).0 (NodeManager.new_node (some self)) key
          (create_node (some self) m).1 stored unbound
          (subst (λ b. find (derive_sh key) b ≡ none) (sym same) no_owner) in
      (_, ends, leads, λ sh ne. others sh ne ∙ ap (λ b. find sh b) same)

  module _ (w : World State)
      (free : find w.session.next_msg_token w.session.awaiting_receive ≡ none)
      (free' : find (increment w.session.next_msg_token) w.session.awaiting_receive ≡ none)
      (inv : IsAllocating w.daemon.session) (some_left : w.daemon.session.next_node_id ≢ 0)
      (read_key : Bytes → Bytes) (text : Bytes) where
    abbrev the_key : Bytes
    the_key = key_of_binary (decode_from_base58 decode encode text)

    -- The next two tokens are not in use, the ids of the daemon's session are in order, one is left, and
    -- the SH of the key that the daemon reads from a base58 text is free: creating a node and binding
    -- it to the text returns the node with the key that the client reads from it; at the daemon the SH
    -- of its key leads to the node that was created, and every other SH leads where it led.
    pub bind-new_node :
        find (derive_sh the_key) w.daemon.manager.nodes_bound ≡ none
        → (w'' : World State) × (and_then
              (λ node w'. bind daemon read_key decode encode node text w')
              (new_node daemon w)
            ≡ Node.returned
                (record {
                  node_id = w.daemon.session.next_node_id;
                  bound_private_key = some (read_key (decode_from_base58 decode encode text));
                })
                w'')
          × (get_bound_node (derive_sh the_key) w''.daemon.manager
              ≡ some (create_node (some self) w.daemon.manager).0)
          × ((sh : Bytes)
              → sh ≢ derive_sh the_key
              → get_bound_node sh w''.daemon.manager ≡ get_bound_node sh w.daemon.manager)
    unfolding bind
    bind-new_node no_owner =
        let registers : ApiMessage = record empty_message { type = some node_register } in
        let request : ApiMessage = record empty_message {
          type = some node_bind;
          bind_id = some w.daemon.session.next_node_id;
          bind_b58_private_key = some text;
        } in
        let (st', ran, sent, was_free, smallest, leads, others, made) =
          register_fresh self (marked registers w.session) (unsent w.daemon) some_left inv in
        let (entry, found, node) =
          entry_of (find w.daemon.session.next_node_id st'.session.nodes) _ leads in
        let (m', bound, owner, rest) = bound_at w.daemon.manager the_key no_owner in
        let w' = after derive_sh key_of_binary decode encode self w free inv some_left st' in
        let free'' : find (increment w.session.next_msg_token) w'.session.awaiting_receive ≡ none =
          find-replied_to registers w.session free
            (reply derive_sh key_of_binary decode encode self w free inv some_left)
            (increment w.session.next_msg_token)
          ∙ free' in
        let asks : ApiMessage = marked request w'.session in
        let bound' : NodeManager.bind derive_sh entry.node the_key st'.manager
            ≡ NodeManager.done m' =
          rw (node, made) bound in
        let st : State = record { session = send asks (unsent st').session; manager = m' } in
        (
          record { session = replied_to request w'.session free'' asks; daemon = st },
          rw
              (
                new_node-eq derive_sh key_of_binary decode encode self w free inv some_left st' ran
                    sent,
                exchange-replied daemon request w' free'' asks st
                    (serve-bind asks st' st (
                      bind_node-done derive_sh key_of_binary decode encode asks (unsent st') entry
                        text m' found refl refl bound'))
                    refl refl,
              )
              refl,
          owner,
          rest,
        )
