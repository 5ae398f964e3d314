-- ===== src/P2p/NodeManager/Binding.antt =====
-- Binding a node to the hash of a key.
use p2pnet.Base.{ℕ, ◌≡◌, refl, ◌≢◌, none, some, arith, ◌∙◌}
use mathlib.Core.Option
use p2pnet.Base.Maps.{
  find, erase, insert, find-erase, find-insert, find-erase_ne, find-cons_ne, insert_present, nat_eq,
  bytes_eq, beq_refl,
}
use p2pnet.Crypto.Hash.{Bytes}
use p2pnet.P2p.NodeManager.{
  Node, NodeManager, done, thrown, manager, nodemanager_db_non_consistent, store, bind, bind_node,
  get_local_sh, get_bound_node, destroy_node, destroy_entry,
}

-- The node as `bind` leaves it.
abbrev pub with_key : (Bytes → Bytes) → Bytes → Node → Node
with_key derive_sh key n = record n { bound_private_key = some key; bound_sh = derive_sh key }

pub bind-unbound :
    (derive_sh : Bytes → Bytes) (node : ℕ) (n : Node) (key : Bytes) (m : NodeManager)
    → find node m.heap ≡ some n
    → find node m.nodes_unbound ≡ some tt
    → bind derive_sh node key m
      ≡ done (record (store node (with_key derive_sh key n) m) {
        nodes_bound = insert (derive_sh key) node m.nodes_bound;
        nodes_unbound = erase node m.nodes_unbound;
      })
unfolding bind bind_node
bind-unbound derive_sh node n key m h u = rw (h, bind, u, bind_node)

bind-lost :
    (derive_sh : Bytes → Bytes) (node : ℕ) (n : Node) (key : Bytes) (m : NodeManager)
    → find node m.heap ≡ some n
    → find node m.nodes_unbound ≡ none
    → find (derive_sh key) m.nodes_bound ≡ none
    → bind derive_sh node key m
      ≡ thrown nodemanager_db_non_consistent (store node (with_key derive_sh key n) m)
unfolding bind bind_node get_local_sh
bind-lost derive_sh node n key m h u f = rw (h, bind, u, bind_node, f)

destroy-bound :
    (node : ℕ) (n : Node) (bound : ℕ) (m : NodeManager)
    → find node m.heap ≡ some n
    → find node m.nodes_unbound ≡ none
    → find n.bound_sh m.nodes_bound ≡ some bound
    → destroy_node node m
      ≡ done (record m { heap = erase node m.heap; nodes_bound = erase n.bound_sh m.nodes_bound })
unfolding destroy_node destroy_entry get_local_sh
destroy-bound node n bound m h u f = rw (h, destroy_node, u, destroy_entry, f)

module _ (derive_sh : Bytes → Bytes) where
  -- The first binding of a registered, unbound node to a free SH succeeds; the SH then leads to the
  -- node, the node is no longer unbound, and every other SH leads where it led.
  pub bind_first :
      (node : ℕ) (n : Node) (key : Bytes) (m : NodeManager)
      → find node m.heap ≡ some n
      → find node m.nodes_unbound ≡ some tt
      → find (derive_sh key) m.nodes_bound ≡ none
      → let r = bind derive_sh node key m in
        (r ≡ done (manager r))
        × (get_bound_node (derive_sh key) (manager r) ≡ some node)
        × (find node (manager r).nodes_unbound ≡ none)
        × ((sh : Bytes) → sh ≢ derive_sh key → get_bound_node sh (manager r) ≡ get_bound_node sh m)
  unfolding get_bound_node
  bind_first node n key m h u f = rw (bind-unbound derive_sh node n key m h u) (
    refl,
    rw (find-insert (derive_sh key) (derive_sh key) node m.nodes_bound f, beq_refl (derive_sh key)),
    rw (find-erase node node m.nodes_unbound, beq_refl node),
    λ sh ne.
        rw (find-insert (derive_sh key) sh node m.nodes_bound f)
          (ground (arith, bytes_eq.agree_iff (derive_sh key) sh)),
  )

  -- A bound node cannot be given a second key: unless some node is already bound to the new SH, the
  -- call throws and the map of bound nodes stays as it was, while the node itself now claims the new
  -- SH.
  pub rebind_throws :
      (node : ℕ) (n : Node) (key : Bytes) (m : NodeManager)
      → find node m.heap ≡ some n
      → find node m.nodes_unbound ≡ none
      → find (derive_sh key) m.nodes_bound ≡ none
      → let r = bind derive_sh node key m in
        (r ≡ thrown nodemanager_db_non_consistent (manager r))
        × ((manager r).nodes_bound ≡ m.nodes_bound)
        × (Option.map get_local_sh (find node (manager r).heap) ≡ some (derive_sh key))
  unfolding get_local_sh find
  rebind_throws node n key m h u f =
      rw (bind-lost derive_sh node n key m h u f) (refl, refl, rw (beq_refl node))

  -- Where the SH of the key is another node's already, binding an unbound node reports success and binds nothing:
  -- the SH still leads to the other node, and this node is in neither map under its own pointer.
  -- Destroying it then takes the other node's entry out, which stays alive and cannot be found.
  pub bind_collision :
      (node other : ℕ) (n : Node) (key : Bytes) (m : NodeManager)
      → find node m.heap ≡ some n
      → find node m.nodes_unbound ≡ some tt
      → find (derive_sh key) m.nodes_bound ≡ some other
      → node ≢ other
      → let r = bind derive_sh node key m in
        let r' = destroy_node node (manager r) in
        (r ≡ done (manager r))
        × (get_bound_node (derive_sh key) (manager r) ≡ some other)
        × (find node (manager r).nodes_unbound ≡ none)
        × (r' ≡ done (manager r'))
        × (get_bound_node (derive_sh key) (manager r') ≡ none)
        × (find other (manager r').heap ≡ find other m.heap)
  unfolding get_bound_node
  bind_collision node other n key m h u f ne =
      let gone : find node (erase node m.nodes_unbound) ≡ none =
        rw (find-erase node node m.nodes_unbound, beq_refl node) in
      let sh = derive_sh key in
      let collided : NodeManager = record (store node (with_key derive_sh key n) m) {
        nodes_unbound = erase node m.nodes_unbound;
      } in
      rw
        (
          bind-unbound derive_sh node n key m h u,
          insert_present sh node other m.nodes_bound f,
          destroy-bound node (with_key derive_sh key n) other collided
              (unfold find in rw (beq_refl node)) gone f,
        )
        (
          refl,
          f,
          gone,
          refl,
          rw (find-erase sh sh m.nodes_bound, beq_refl sh),
          find-erase_ne node other collided.heap ne
              ∙ find-cons_ne node other (with_key derive_sh key n) (erase node m.heap) ne
              ∙ find-erase_ne node other m.heap ne,
        )
