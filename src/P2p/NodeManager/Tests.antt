-- ===== src/P2p/NodeManager/Tests.antt =====
-- Two nodes, keys of one byte whose SH is the key itself.
use p2pnet.Base.{◌≡◌, ◌≢◌, refl, [], ◌∷◌, none, some, arith}
use p2pnet.Base.Maps.{find, erase, insert, nat_eq, bytes_eq}
use p2pnet.Crypto.Hash.{Bytes}
use p2pnet.P2p.NodeManager.{
  NodeManager, done, manager, empty_manager, new_node, create_node, destroy_node, get_bound_node,
  bind, bind_node, listen,
}
use p2pnet.P2p.NodeManager.Binding.{bind_collision}
use p2pnet.P2p.NodeManager.Reachable.{
  started, by_create, by_bind, by_listen, by_destroy, Reachable-IsConsistent,
}
use p2pnet.P2p.NodeManager.Consistency.{
  IsConsistent, create_node-IsConsistent, destroy_node-IsConsistent,
}

abbrev sh_of : Bytes → Bytes
sh_of key = key

empty_manager-IsConsistent : IsConsistent empty_manager
unfolding find
empty_manager-IsConsistent = record {
  fresh = λ p n h. absurd (cc h);
  placed = λ p n h. absurd (cc h);
  owners = λ sh p h. absurd (cc h);
}

abbrev one : NodeManager
one = (create_node (some 3) empty_manager).1

one-IsConsistent : IsConsistent one
one-IsConsistent = (create_node-IsConsistent (some 3) empty_manager empty_manager-IsConsistent).0

destroy_node-IsConsistent_example :
    let r = destroy_node 1 one in
    (r ≡ done (manager r))
    × IsConsistent (manager r)
    × (find 1 (manager r).heap ≡ none)
    × ((sh : Bytes) → get_bound_node sh (manager r) ≢ some 1)
unfolding find create_node
destroy_node-IsConsistent_example =
    destroy_node-IsConsistent 1 (new_node (some 3)) one refl one-IsConsistent

-- One node, bound to the key 9.
abbrev bound_one : NodeManager
bound_one = manager (bind sh_of 1 (9 ∷ []) one)

-- A second node beside it, not bound yet.
abbrev two : NodeManager
two = (create_node (some 3) bound_one).1

bind_collision_example :
    let r = bind sh_of 2 (9 ∷ []) two in
    let r' = destroy_node 2 (manager r) in
    (r ≡ done (manager r))
    × (get_bound_node (9 ∷ []) (manager r) ≡ some 1)
    × (find 2 (manager r).nodes_unbound ≡ none)
    × (r' ≡ done (manager r'))
    × (get_bound_node (9 ∷ []) (manager r') ≡ none)
    × (find 1 (manager r').heap ≡ find 1 two.heap)
unfolding find create_node insert erase bind bind_node
bind_collision_example =
    bind_collision sh_of 2 1 (new_node (some 3)) (9 ∷ []) two refl refl refl
      (λ e. absurd (omega (arith, e)))

-- The node 1 is bound and listens, the node 2 is made and destroyed.
abbrev listening : NodeManager
listening = manager (listen 1 20 bound_one)

Reachable-IsConsistent_example :
    IsConsistent (manager (destroy_node 2 (create_node none listening).1))
unfolding find create_node insert erase bind bind_node listen
Reachable-IsConsistent_example =
    Reachable-IsConsistent sh_of (manager (destroy_node 2 (create_node none listening).1)) (
      by_destroy 2 (new_node none) (create_node none listening).1
        (by_create none listening (
          by_listen 1 20
            (record (new_node (some 3)) { bound_private_key = some (9 ∷ []); bound_sh = 9 ∷ [] })
            bound_one
            (by_bind 1 (new_node (some 3)) (9 ∷ []) one (by_create (some 3) empty_manager started)
              refl refl refl)
            refl))
        refl)
