-- ===== src/P2p/NodeManager/Consistency.antt =====
-- The node manager's two maps against the nodes that exist.
use p2pnet.Base.{
  ℕ, ◌<◌, ◌≡◌, refl, ◌≢◌, ◌⊎◌, inl, inr, Option, none, some, List, arith, Option-cases, Bool-cases,
  if◌then◌else◌, ==-refl,
}
use p2pnet.Base.Maps.{
  find, erase, insert, find-erase, find-insert, insert_present, nat_eq, bytes_eq, ◌=?◌,
}
use p2pnet.Crypto.Hash.{Bytes}
use p2pnet.P2p.NodeManager.Binding.{with_key, bind-unbound}
use p2pnet.P2p.NodeManager.{
  Node, NodeManager, done, manager, new_node, create_node, destroy_node, destroy_entry, bind,
  get_local_sh, get_bound_node, store,
}

-- Every node is unbound, or bound under its own SH; every bound entry leads to a live node that has
-- this SH and is not unbound; no pointer is in use that createNode has yet to give out.
pub record IsConsistent (m : NodeManager) : Type 0 where
  pub fresh : (p : ℕ) (n : Node) → find p m.heap ≡ some n → p < m.next_node
  pub placed :
      (p : ℕ) (n : Node)
      → find p m.heap ≡ some n
      → (find p m.nodes_unbound ≡ some tt) ⊎ (find n.bound_sh m.nodes_bound ≡ some p)
  pub owners :
      (sh : Bytes) (p : ℕ)
      → find sh m.nodes_bound ≡ some p
      → (n : Node) × (find p m.heap ≡ some n) × (n.bound_sh ≡ sh) × (find p m.nodes_unbound ≡ none)

-- Where node `p` stands after it is added to the unbound ones.
find-insert_unit :
    (k j : ℕ) (u : List (ℕ × Unit {0}))
    → find j (insert k tt u) ≡ (if k =? j then some tt else find j u)
find-insert_unit k j u = elim (Option-cases (find k u)) [
  | inl e ↦ find-insert k j tt u e
  | inr (tt', e) ↦ rw (insert_present k tt tt' u e) (ground (arith, e))
]

next_node_free : (m : NodeManager) → IsConsistent m → find m.next_node m.heap ≡ none
next_node_free m c = elim (Option-cases (find m.next_node m.heap)) [
  | inl e ↦ e
  | inr (n, e) ↦ absurd (let h = c.fresh m.next_node n e in omega arith)
]

-- Registering a node keeps the manager consistent, and the new pointer leads to a new node and was
-- no node's pointer before.
pub create_node-IsConsistent :
    (session : Option ℕ) (m : NodeManager)
    → IsConsistent m
    → IsConsistent (create_node session m).1
      × (find (create_node session m).0 (create_node session m).1.heap ≡ some (new_node session))
      × (find (create_node session m).0 m.heap ≡ none)
unfolding create_node find
create_node-IsConsistent session m c = (
  record {
    fresh = λ p n h. ground (arith, c.fresh p n);
    placed = λ p n h. ground (arith, c.placed p n, find-insert_unit m.next_node p m.nodes_unbound);
    owners = λ sh p h.
        let o = c.owners sh p h in
        let below = c.fresh p o.0 o.1 in
        (
          o.0,
          ground (arith, o.1),
          o.2,
          ground (arith, o.3, find-insert_unit m.next_node p m.nodes_unbound),
        );
  },
  rw (==-refl m.next_node),
  next_node_free m c,
)

-- The node as `bind` leaves it, and the manager.
bound_result : (Bytes → Bytes) → ℕ → Node → Bytes → NodeManager → NodeManager
bound_result derive_sh node n key m = record (store node (with_key derive_sh key n) m) {
  nodes_bound = insert (derive_sh key) node m.nodes_bound;
  nodes_unbound = erase node m.nodes_unbound;
}

module _ (derive_sh : Bytes → Bytes) (node : ℕ) (n : Node) (key : Bytes) (m : NodeManager)
    (here : find node m.heap ≡ some n) (unbound : find node m.nodes_unbound ≡ some tt)
    (free : find (derive_sh key) m.nodes_bound ≡ none) where
  -- Binding an unbound node to a free SH keeps the manager consistent.
  pub bind-IsConsistent :
      IsConsistent m
      → (bind derive_sh node key m ≡ done (manager (bind derive_sh node key m)))
        × IsConsistent (manager (bind derive_sh node key m))
  unfolding find
  bind-IsConsistent c = rw (bind-unbound derive_sh node n key m here unbound) (
    refl,
    record {
      fresh = λ p k h. ground (arith, c.fresh p k, c.fresh node n here, find-erase node p m.heap);
      placed = λ p k h. ground (
        arith,
        c.placed p k,
        find-erase node p m.heap,
        find-erase node p m.nodes_unbound,
        find-insert (derive_sh key) k.bound_sh node m.nodes_bound free,
        bytes_eq.agree_iff (derive_sh key) k.bound_sh,
      );
      owners = λ sh p h. elim (Bool-cases (derive_sh key =? sh)) [
        | inl same ↦
            let e : node ≡ p =
              ground (arith, find-insert (derive_sh key) sh node m.nodes_bound free) in
            (
              with_key derive_sh key n,
              ground arith,
              (bytes_eq.agree_iff (derive_sh key) sh).0 same,
              ground (arith, find-erase node p m.nodes_unbound),
            )
        | inr other ↦
            let o =
              c.owners sh p
                (ground (arith, find-insert (derive_sh key) sh node m.nodes_bound free)) in
            (
              o.0,
              ground (arith, o.1, o.3, find-erase node p m.heap),
              o.2,
              ground (arith, o.3, find-erase node p m.nodes_unbound),
            )
      ];
    },
  )

-- What destroyNode does to the maps of a consistent manager.
destroyed : ℕ → Node → NodeManager → NodeManager
destroyed node n m = elim (find node m.nodes_unbound) [
  | some u ↦ record m { heap = erase node m.heap; nodes_unbound = erase node m.nodes_unbound }
  | none ↦ record m { heap = erase node m.heap; nodes_bound = erase n.bound_sh m.nodes_bound }
]

module _ (node : ℕ) (n : Node) (m : NodeManager) (here : find node m.heap ≡ some n)
    (c : IsConsistent m) where
  destroy-eq : destroy_node node m ≡ done (destroyed node n m)
  unfolding destroy_node destroy_entry destroyed get_local_sh
  destroy-eq = rw (here, destroy_node) (ground (arith, c.placed node n here))

  was_unbound :
      find node m.nodes_unbound ≡ some tt
      → IsConsistent
          (record m { heap = erase node m.heap; nodes_unbound = erase node m.nodes_unbound })
  was_unbound u = record {
    fresh = λ p k h. ground (arith, c.fresh p k, find-erase node p m.heap);
    placed = λ p k h.
        ground (arith, c.placed p k, find-erase node p m.heap, find-erase node p m.nodes_unbound);
    owners = λ sh p h.
        let o = c.owners sh p h in
        (
          o.0,
          ground (arith, o.1, o.3, find-erase node p m.heap),
          o.2,
          ground (arith, o.3, find-erase node p m.nodes_unbound),
        );
  }

  was_bound :
      find node m.nodes_unbound ≡ none
      → IsConsistent
          (record m { heap = erase node m.heap; nodes_bound = erase n.bound_sh m.nodes_bound })
  was_bound u = record {
    fresh = λ p k h. ground (arith, c.fresh p k, find-erase node p m.heap);
    placed = λ p k h. ground (
      arith,
      c.placed p k,
      c.placed node n here,
      find-erase node p m.heap,
      find-erase n.bound_sh k.bound_sh m.nodes_bound,
      bytes_eq.agree_iff n.bound_sh k.bound_sh,
    );
    owners = λ sh p h.
        let o = c.owners sh p (ground (arith, find-erase n.bound_sh sh m.nodes_bound)) in
        (
          o.0,
          ground (
            arith,
            o.1,
            o.2,
            find-erase node p m.heap,
            find-erase n.bound_sh sh m.nodes_bound,
            bytes_eq.agree_iff n.bound_sh sh,
          ),
          o.2,
          o.3,
        );
  }

  -- Destroying a node of a consistent manager never throws: the node is gone, no SH leads to it any
  -- more, and the manager is consistent again.
  pub destroy_node-IsConsistent :
      let r = destroy_node node m in
      (r ≡ done (manager r))
      × IsConsistent (manager r)
      × (find node (manager r).heap ≡ none)
      × ((sh : Bytes) → get_bound_node sh (manager r) ≢ some node)
  unfolding get_bound_node
  destroy_node-IsConsistent =
      let after : IsConsistent (destroyed node n m) =
        unfold destroyed in
        elim (Option-cases (find node m.nodes_unbound)) [
          | inl u ↦ rw (u, destroyed) (was_bound u)
          | inr (t, u) ↦ rw (u, destroyed) (was_unbound u)
        ] in
      let gone : find node (destroyed node n m).heap ≡ none =
        unfold destroyed in
        elim (Option-cases (find node m.nodes_unbound)) [
          | inl u ↦ rw (u, destroyed) (rw (find-erase node node m.heap, ==-refl node))
          | inr (t, u) ↦ rw (u, destroyed) (rw (find-erase node node m.heap, ==-refl node))
        ] in
      rw destroy-eq (refl, after, gone, λ sh e. let o = after.owners sh node e in cc (o.1, gone))

-- A node that has just been created can be destroyed.
pub destroy-create :
    (session : Option ℕ) (m : NodeManager)
    → let r = destroy_node (create_node session m).0 (create_node session m).1 in
      r ≡ done (manager r)
unfolding create_node destroy_node destroy_entry find
destroy-create session m =
    let unbound : find m.next_node (insert m.next_node tt m.nodes_unbound) ≡ some tt =
      rw (find-insert_unit m.next_node m.next_node m.nodes_unbound, ==-refl m.next_node) in
    rw (==-refl m.next_node, destroy_node, unbound, destroy_entry)

-- A new node is unbound, and no SH leads elsewhere than before.
pub create_node-unbound :
    (session : Option ℕ) (m : NodeManager)
    → (find (create_node session m).0 (create_node session m).1.nodes_unbound ≡ some tt)
      × (find (create_node session m).0 (create_node session m).1.heap ≡ some (new_node session))
      × ((create_node session m).1.nodes_bound ≡ m.nodes_bound)
unfolding create_node find
create_node-unbound session m = (
  rw (find-insert_unit m.next_node m.next_node m.nodes_unbound, ==-refl m.next_node) refl,
  rw (==-refl m.next_node) refl,
  refl,
)
