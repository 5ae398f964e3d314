-- ===== src/P2p/NodeManager.antt =====
-- src/daemon/p2p/Node.h, Node.cpp, NodeManager.h, NodeManager.cpp and Socket.cpp. A Node* is a number;
-- the nodes themselves stand in a heap, so that the maps share them as the pointers do. A hash (SH)
-- is its bytes. Public keys and hashing are parameters.
pub mod Binding
pub mod Consistency
pub mod Reachable
mod Tests
use p2pnet.Base.{
  ℕ, suc, ◌+◌, Bool, true, false, ◌&&◌, not, List, [], ◌∷◌, ◌++◌, Option, none, some, ◌==◌,
  if◌then◌else◌,
}
use p2pnet.Base.Maps.{find, erase, insert, nat_eq, bytes_eq}
use p2pnet.Crypto.Hash.{Bytes}

-- A p2p::Connection* is a number; the heap of the connections is not modelled beyond the remote SH.
pub record Node : Type 0 where
  pub bound_private_key : Option Bytes
  pub bound_sh : Bytes
  pub api_session : Option ℕ
  pub max_connections : ℕ
  pub loopback_param : Option Bool
  pub connected_sockets : List (Bytes × ℕ)
  pub incoming_connections : List ℕ

pub record NodeManager : Type 0 where
  pub heap : List (ℕ × Node)
  pub next_node : ℕ
  pub nodes_bound : List (Bytes × ℕ)
  pub nodes_unbound : List (ℕ × Unit {0})

pub data Error : Type 0 where
  nodemanager_db_non_consistent : Error
  -- a Node* that points to no node: undefined behaviour
  dangling : Error

-- What was written before a throw stays written, so the manager comes back in both cases.
pub data Outcome : Type 0 where
  done : NodeManager → Outcome
  thrown : Error → NodeManager → Outcome

abbrev pub manager : Outcome → NodeManager
manager (done m) = m
manager (thrown e m) = m

abbrev pub empty_manager : NodeManager
empty_manager = record { heap = []; next_node = 1; nodes_bound = []; nodes_unbound = [] }

-- Node::Node()
abbrev pub new_node : Option ℕ → Node
new_node session = record {
  bound_private_key = none;
  bound_sh = [];
  api_session = session;
  max_connections = 0;
  loopback_param = none;
  connected_sockets = [];
  incoming_connections = [];
}

abbrev pub store : ℕ → Node → NodeManager → NodeManager
store node n m = record m { heap = (node, n) ∷ erase node m.heap }

-- NodeManager::createNode(api_session): the new pointer and the manager.
pub create_node : Option ℕ → NodeManager → ℕ × NodeManager
unfolding insert
create_node session m = (
  m.next_node,
  record m {
    heap = (m.next_node, new_node session) ∷ m.heap;
    next_node = suc m.next_node;
    nodes_unbound = insert m.next_node tt m.nodes_unbound;
  },
)

pub get_local_sh : Node → Bytes
get_local_sh n = n.bound_sh

pub is_bound : Node → Bool
is_bound n = elim n.bound_sh [ [] ↦ false | x ∷ xs ↦ true ]

-- NodeManager::bindNode for a pointer whose node is `n`.
pub bind_node : ℕ → Node → Bytes → NodeManager → Outcome
unfolding get_local_sh
bind_node node n sh m = elim (find node m.nodes_unbound) [
  | some u ↦ done (record m {
    nodes_bound = insert sh node m.nodes_bound;
    nodes_unbound = erase node m.nodes_unbound;
  })
  | none ↦ elim (find (get_local_sh n) m.nodes_bound) [
    | some bound ↦
        done (record m { nodes_bound = insert sh node (erase (get_local_sh n) m.nodes_bound) })
    | none ↦ thrown nodemanager_db_non_consistent m
  ]
]

-- NodeManager::unbindNode: the entry is taken out and put in again.
pub unbind_node : ℕ → Node → NodeManager → NodeManager
unfolding get_local_sh
unbind_node node n m =
    let sh = get_local_sh n in
    elim (find sh m.nodes_bound) [
      | none ↦ m
      | some bound ↦ record m { nodes_bound = insert sh node (erase sh m.nodes_bound) }
    ]

-- NodeManager::destroyNode
destroy_entry : ℕ → Node → NodeManager → Outcome
unfolding get_local_sh
destroy_entry node n m = elim (find node m.nodes_unbound) [
  | some u ↦ done (record m { nodes_unbound = erase node m.nodes_unbound })
  | none ↦ elim (find (get_local_sh n) m.nodes_bound) [
    | some bound ↦ done (record m { nodes_bound = erase (get_local_sh n) m.nodes_bound })
    | none ↦ thrown nodemanager_db_non_consistent m
  ]
]

abbrev delete_node : ℕ → Outcome → Outcome
delete_node node (done m) = done (record m { heap = erase node m.heap })
delete_node node (thrown e m) = thrown e m

pub destroy_node : ℕ → NodeManager → Outcome
unfolding destroy_entry
destroy_node node m = elim (find node m.heap) [
  | none ↦ thrown dangling m
  | some n ↦ delete_node node (destroy_entry node n m)
]

-- NodeManager::getBoundNode; `none` is nullptr.
unfoldable pub get_bound_node : Bytes → NodeManager → Option ℕ
get_bound_node sh m = find sh m.nodes_bound

module _ (derive_sh : Bytes → Bytes) where
  -- Node::bind: the node's own SH is set before the manager is told.
  pub bind : ℕ → Bytes → NodeManager → Outcome
  unfolding bind_node
  bind node private_key m = elim (find node m.heap) [
    | none ↦ thrown dangling m
    | some n ↦
        let n' = record n {
          bound_private_key = some private_key;
          bound_sh = derive_sh private_key;
        } in
        bind_node node n' (derive_sh private_key) (store node n' m)
  ]

-- Node::listen
pub listen : ℕ → ℕ → NodeManager → Outcome
listen node max_connections m = elim (find node m.heap) [
  | none ↦ thrown dangling m
  | some n ↦ done (store node (record n { max_connections = max_connections }) m)
]

-- bool Node::loopback(), with the configured value of p2p.allow_loopback.
pub loopback : Bool → Node → Bool
loopback allow_loopback n = elim n.loopback_param [ none ↦ allow_loopback | some b ↦ b ]

pub set_loopback : Bool → Node → Node
set_loopback b n = record n { loopback_param = some b }

pub reset_loopback : Node → Node
reset_loopback n = record n { loopback_param = none }

-- Socket::Socket(Node*, SH): whether the socket gets a LoopbackConnection; `none` is a null or
-- dangling pointer that is read.
pub connects_by_loopback : Bool → ℕ → Bytes → NodeManager → Option Bool
unfolding loopback get_bound_node
connects_by_loopback allow_loopback node sh_to_connect m = elim (find node m.heap) [
  | none ↦ none
  | some parent_node ↦
      if loopback allow_loopback parent_node
      then elim (get_bound_node sh_to_connect m) [
        | none ↦ some false
        | some other ↦ elim (find other m.heap) [
          | none ↦ none
          | some other_node ↦ some (loopback allow_loopback other_node)
        ]
      ]
      else some false
]
