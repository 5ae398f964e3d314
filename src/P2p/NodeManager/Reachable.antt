-- ===== src/P2p/NodeManager/Reachable.antt =====
-- The node manager of src/daemon/p2p/NodeManager.cpp from its start, as the nodes of Node.cpp use it.
use p2pnet.Base.{ℕ, ◌≡◌, refl, Option, some, none, arith, if-cases, ◌==◌, ==→≡, ap, ◌∙◌}
use p2pnet.Base.Maps.{find, erase, find-erase, nat_eq, bytes_eq}
use p2pnet.Crypto.Hash.{Bytes}
use p2pnet.P2p.NodeManager.{
  Node, NodeManager, manager, empty_manager, create_node, destroy_node, bind, listen, store,
}
use p2pnet.P2p.NodeManager.Consistency.{
  IsConsistent, create_node-IsConsistent, bind-IsConsistent, destroy_node-IsConsistent,
}

empty_manager-IsConsistent : IsConsistent empty_manager
unfolding find
empty_manager-IsConsistent = record {
  fresh = λ p n h. absurd (cc h);
  placed = λ p n h. absurd (cc h);
  owners = λ sh p h. absurd (cc h);
}

-- A node that is stored again under its own SH.
store-IsConsistent :
    (node : ℕ) (n n' : Node) (m : NodeManager)
    → find node m.heap ≡ some n
    → n'.bound_sh ≡ n.bound_sh
    → IsConsistent m
    → IsConsistent (store node n' m)
unfolding find
store-IsConsistent node n n' m here same c = record {
  fresh = λ p k h. ground (arith, c.fresh p k, c.fresh node n here, find-erase node p m.heap);
  placed = λ p k h. ground (arith, c.placed p k, c.placed node n here, find-erase node p m.heap);
  owners = λ sh p h.
      let (k, at, is, bound) = c.owners sh p h in
      if-cases
        (λ o. (k' : Node) × (o ≡ some k') × (k'.bound_sh ≡ sh) × (find p m.nodes_unbound ≡ none))
        (node == p) (some n') (find p (erase node m.heap))
        (λ e.
          let own : n ≡ k = cc (==→≡ node p e, here, at) in
          (n', refl, same ∙ ap Node.bound_sh own ∙ is, bound))
        (λ e. (k, rw (find-erase node p m.heap, e, at) refl, is, bound));
}

listen-IsConsistent :
    (node max_connections : ℕ) (n : Node) (m : NodeManager)
    → find node m.heap ≡ some n
    → IsConsistent m
    → IsConsistent (manager (listen node max_connections m))
unfolding listen
listen-IsConsistent node max_connections n m here c =
    rw (here, listen)
      (store-IsConsistent node n (record n { max_connections = max_connections }) m here refl c)

module _ (derive_sh : Bytes → Bytes) where
  -- The managers that the daemon comes to from the empty one when it creates nodes, binds unbound
  -- nodes to free SHs, lets nodes listen and destroys nodes.
  pub data Reachable : NodeManager → Type 0 where
    started : Reachable empty_manager
    by_create :
        (session : Option ℕ) (m : NodeManager) → Reachable m → Reachable (create_node session m).1
    by_bind :
        (node : ℕ) (n : Node) (key : Bytes) (m : NodeManager)
        → Reachable m
        → find node m.heap ≡ some n
        → find node m.nodes_unbound ≡ some tt
        → find (derive_sh key) m.nodes_bound ≡ none
        → Reachable (manager (bind derive_sh node key m))
    by_listen :
        (node max_connections : ℕ) (n : Node) (m : NodeManager)
        → Reachable m
        → find node m.heap ≡ some n
        → Reachable (manager (listen node max_connections m))
    by_destroy :
        (node : ℕ) (n : Node) (m : NodeManager)
        → Reachable m
        → find node m.heap ≡ some n
        → Reachable (manager (destroy_node node m))

  -- As long as only unbound nodes are bound and only to free SHs, whatever nodes are created, bound,
  -- listened for and destroyed: each node is unbound or is found under its own SH, each SH that is
  -- found leads to a live node that has it and is not unbound, and no node has the pointer that the
  -- next one will get.
  pub Reachable-IsConsistent : (m : NodeManager) → Reachable m → IsConsistent m
  Reachable-IsConsistent _ started = empty_manager-IsConsistent
  Reachable-IsConsistent _ (by_create session m before) =
      (create_node-IsConsistent session m (Reachable-IsConsistent m before)).0
  Reachable-IsConsistent _ (by_bind node n key m before here unbound free) =
      (bind-IsConsistent derive_sh node n key m here unbound free
        (Reachable-IsConsistent m before)).1
  Reachable-IsConsistent _ (by_listen node max_connections n m before here) =
      listen-IsConsistent node max_connections n m here (Reachable-IsConsistent m before)
  Reachable-IsConsistent _ (by_destroy node n m before here) =
      (destroy_node-IsConsistent node n m here (Reachable-IsConsistent m before)).1
