-- ===== src/Dht/Service/Queries.antt =====
-- Queries of src/daemon/dht/DHTService.cpp, at the node that is asked.
use p2pnet.Base.{ℕ, zero, suc, ◌≡◌, refl, [], ◌∷◌, ◌⊎◌, inl, inr}
use p2pnet.Crypto.Hash.{Bytes}
use p2pnet.Dht.KBucket.{out_of_fuel}
use p2pnet.Dht.Service.{
  DhtPart, send, find_node, find_value, system_ns, get_closest_to, find_any, find_node_at,
  find_value_at, process,
}

get_closest_to-spins :
    (fuel : ℕ) (hash : Bytes) (count : ℕ) → get_closest_to fuel hash count ≡ out_of_fuel
unfolding get_closest_to
get_closest_to-spins zero hash count = refl
get_closest_to-spins (suc fuel) hash count = get_closest_to-spins fuel hash count

-- A query, for a node or for a value, is never answered, however long it runs.
query_spins :
    (contact_of : ℕ → Bytes) (fuel k : ℕ) (from : Bytes) (query : DhtPart)
    → (query.message_type ≡ find_node) ⊎ (query.message_type ≡ find_value)
    → process contact_of fuel k from query ≡ out_of_fuel
unfolding process
query_spins contact_of fuel k from query (inl e) = rw (e, get_closest_to-spins fuel query.hash k)
query_spins contact_of fuel k from query (inr e) = rw (e, get_closest_to-spins fuel query.hash k)

-- findNode and findValue each send one query to the node that is asked. There the processing of the
-- query, from whomever it comes, does not end within any number of calls: getClosestTo only calls
-- itself. So no query is ever answered.
pub queries_unanswered :
    (contact_of : ℕ → Bytes) (k : ℕ) (find_hash asker asked : Bytes)
    → (by_node by_value : DhtPart) × (find_node_at find_hash asked ≡ send asked by_node ∷ [])
      × (find_value_at find_hash asked ≡ send asked by_value ∷ [])
      × ((fuel : ℕ) → process contact_of fuel k asker by_node ≡ out_of_fuel)
      × ((fuel : ℕ) → process contact_of fuel k asker by_value ≡ out_of_fuel)
unfolding find_node_at find_value_at find_any
queries_unanswered contact_of k find_hash asker asked =
    let by_node : DhtPart = record {
      ns = system_ns;
      message_type = find_node;
      hash = find_hash;
      serialized_contact_list = [];
    } in
    let by_value : DhtPart = record by_node { message_type = find_value } in
    (
      by_node,
      by_value,
      refl,
      refl,
      λ fuel. query_spins contact_of fuel k asker by_node (inl refl),
      λ fuel. query_spins contact_of fuel k asker by_value (inr refl),
    )
