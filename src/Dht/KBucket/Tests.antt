-- ===== src/Dht/KBucket/Tests.antt =====
-- Buckets for one node, in a network whose hashes are one byte; a node's number is its hash, and
-- the own hash is 0.
use p2pnet.Base.{ℕ, ◌+◌, ◌≤◌, ◌≡◌, ◌≢◌, refl, true, false, List, [], ◌∷◌, ◌⊎◌}
use p2pnet.Crypto.Hash.{Bytes}
use p2pnet.Dht.KBucket.{
  KBucket, leaf, branch, Reliability, good, ok, out_of_fuel, count, contains, add_node,
  add_node_within, add_leaf, split_and_add, distribute, get_bit, remove_if_bad, kept, remove_node,
  get_closest, bucket_for, rebuild, add_all,
}
use p2pnet.Dht.KBucket.Routing.{holds, IsRouted}
use p2pnet.Dht.KBucket.Routing.Adding.{add_node-IsRouted}
use p2pnet.Dht.KBucket.Capacity.{IsCapped}
use p2pnet.Dht.KBucket.Routing.Removing.{occurrences, remove_node-removes}
use p2pnet.Dht.KBucket.Rebuild.{rebuild-IsRouted}
use p2pnet.Dht.KBucket.Fuel.{add_node-ends}
use p2pnet.Dht.KBucket.Closest.{get_closest_spins}

abbrev one_byte : ℕ → Bytes
one_byte p = p ∷ []

abbrev all_good : ℕ → Reliability
all_good p = good

abbrev own : Bytes
own = 0 ∷ []

-- The bucket with the node 5 is full, and splits when the node 200 comes.
abbrev before : KBucket
before = leaf 0 true (5 ∷ [])

abbrev after : KBucket
after = branch 0 true (leaf 1 true (5 ∷ [])) (leaf 1 false (200 ∷ []))

split_by_200 : add_node one_byte all_good 1 own 200 false before ≡ ok after
unfolding add_node add_node_within add_leaf split_and_add distribute get_bit remove_if_bad kept
split_by_200 = refl

add_node-IsRouted_example :
    IsRouted one_byte after × ((p : ℕ) → holds p after ≡ true → (holds p before ≡ true) ⊎ (p ≡ 200))
add_node-IsRouted_example =
    add_node-IsRouted one_byte all_good 1 own 200 false before after tt split_by_200

after-IsRouted : IsRouted one_byte after
after-IsRouted =
    (add_node-IsRouted one_byte all_good 1 own 200 false before after tt split_by_200).0

-- Three nodes in buckets of two nodes, where there was another tree.
abbrev rebuilt : KBucket
rebuilt = branch 0 true (leaf 1 true (5 ∷ 9 ∷ [])) (leaf 1 false (200 ∷ []))

rebuild-IsRouted_example :
    IsRouted one_byte rebuilt
    × IsCapped 2 rebuilt
    × (count rebuilt ≤ 3)
    × ((p : ℕ)
        → holds p rebuilt ≡ true
        → (contains p (5 ∷ 9 ∷ 200 ∷ []) ≡ true)
          × ((c : List ℕ) × (bucket_for (one_byte p) rebuilt ≡ ok c) × (contains p c ≡ true)))
unfolding rebuild add_all add_node add_node_within add_leaf split_and_add distribute get_bit
    remove_if_bad kept
rebuild-IsRouted_example =
    rebuild-IsRouted one_byte all_good 2 own [] (5 ∷ 9 ∷ 200 ∷ []) after rebuilt refl

remove_node-removes_example :
    (b' : KBucket) × (remove_node one_byte 200 after ≡ ok b')
    × (count b' + 1 ≡ count after)
    × IsRouted one_byte b'
    × (occurrences 200 b' + 1 ≡ occurrences 200 after)
    × ((p : ℕ) → 200 ≢ p → occurrences p b' ≡ occurrences p after)
remove_node-removes_example = remove_node-removes one_byte 200 after after-IsRouted refl

add_node-ends_example : add_node one_byte all_good 1 own 200 false before ≢ out_of_fuel
add_node-ends_example = add_node-ends one_byte all_good 1 own 200 false before

get_closest_spins_example : get_closest 1000 (one_byte 200) 3 after ≡ out_of_fuel
unfolding bucket_for get_bit
get_closest_spins_example = get_closest_spins 1000 (one_byte 200) 3 200 [] after refl
