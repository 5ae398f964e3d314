-- ===== src/Dht/Service/Tests.antt =====
-- A query from the node 1 to the node 2; a contact is the node's number as one byte.
use p2pnet.Base.{ℕ, ◌≡◌, [], ◌∷◌}
use p2pnet.Crypto.Hash.{Bytes}
use p2pnet.Dht.KBucket.{out_of_fuel}
use p2pnet.Dht.Service.{DhtPart, send, find_node_at, find_value_at, process}
use p2pnet.Dht.Service.Queries.{queries_unanswered}

abbrev contact : ℕ → Bytes
contact node = node ∷ []

queries_unanswered_example :
    (by_node by_value : DhtPart) × (find_node_at (7 ∷ []) (2 ∷ []) ≡ send (2 ∷ []) by_node ∷ [])
    × (find_value_at (7 ∷ []) (2 ∷ []) ≡ send (2 ∷ []) by_value ∷ [])
    × ((fuel : ℕ) → process contact fuel 20 (1 ∷ []) by_node ≡ out_of_fuel)
    × ((fuel : ℕ) → process contact fuel 20 (1 ∷ []) by_value ≡ out_of_fuel)
queries_unanswered_example = queries_unanswered contact 20 (7 ∷ []) (1 ∷ []) (2 ∷ [])
