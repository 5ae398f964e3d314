-- ===== src/Dht/KBucket/Routing.antt =====
-- Where a node is: the bits of its hash lead from the root to the bucket that holds it.
pub mod Adding
pub mod Removing
use p2pnet.Base.{
  ℕ, zero, suc, ◌+◌, ◌*◌, ◌≤◌, ◌<◌, ◌≡◌, refl, subst, Bool, true, false, ◌&&◌, ◌||◌, not, List, [],
  ◌∷◌, ◌++◌, arith, length, drop, ltb, leb, ◌==◌, if◌then◌else◌, Bool-cases, inl, inr, ◌⊎◌, ==→≡,
}
use p2pnet.Crypto.Hash.{Bytes}
use p2pnet.Dht.KBucket.Yields.{
  Yields, Yields-ok, Yields-if, Yields-at_half, Yields-bind, Yields-then,
}
use p2pnet.Dht.KBucket.{
  KBucket, Reliability, leaf, branch, Run, ok, undefined, out_of_fuel, ◌>>=◌, get_bit, at_half,
  count, contains, erase_first, distribute, put_half, add_to_half, split_and_add, add_leaf,
  add_node_within, add_node, kept, remove_if_bad, is_bad, bucket_for, remove_node, in_first,
  in_second,
}

-- The node stands in some bucket of the tree.
abbrev pub holds : ℕ → KBucket → Bool
holds p (leaf i s c) = contains p c
holds p (branch i s f g) = holds p f || holds p g

-- Every node of the tree has the bit b at the place i.
abbrev pub AllBit : (ℕ → Bytes) → ℕ → Bool → KBucket → Type 0
AllBit hash_of i b t = (p : ℕ) → holds p t ≡ true → get_bit (hash_of p) i ≡ ok b

-- Below a split at the bit i + 1 the nodes with that bit clear stand in the first half, the others
-- in the second.
abbrev pub IsRouted : (ℕ → Bytes) → KBucket → Type 0
IsRouted hash_of (leaf i s c) = Unit
IsRouted hash_of (branch i s f g) =
    AllBit hash_of (i + 1) false f
    × AllBit hash_of (i + 1) true g
    × IsRouted hash_of f
    × IsRouted hash_of g

-- In a routed tree determineBucket leads to the bucket that holds the node.
pub bucket_for-holds :
    (hash_of : ℕ → Bytes) (b : KBucket) (p : ℕ)
    → IsRouted hash_of b
    → holds p b ≡ true
    → (c : List ℕ) × (bucket_for (hash_of p) b ≡ ok c) × (contains p c ≡ true)
unfolding bucket_for
bucket_for-holds hash_of (leaf i s c) p r h = (c, refl, h)
bucket_for-holds hash_of (branch i s f g) p r h = elim (Bool-cases (holds p f)) [
  | inl e ↦
      let found = bucket_for-holds hash_of f p r.2 e in (found.0, rw (r.0 p e, found.1), found.2)
  | inr e ↦
      let e' : holds p g ≡ true = ground (arith, h, e) in
      let found = bucket_for-holds hash_of g p r.3 e' in (found.0, rw (r.1 p e', found.1), found.2)
]

pub contains-append :
    (p : ℕ) (xs ys : List ℕ)
    → contains p (xs ++ ys) ≡ true
    → (contains p xs ≡ true) ⊎ (contains p ys ≡ true)
contains-append p [] ys h = inr h
contains-append p (x ∷ xs) ys h = elim (Bool-cases (x == p)) [
  | inl e ↦ inl (ground (arith, e))
  | inr e ↦ elim (contains-append p xs ys (ground (arith, h, e))) [
    | inl c ↦ inl (ground (arith, c))
    | inr c ↦ inr c
  ]
]

contains-drop : (p n : ℕ) (xs : List ℕ) → contains p (drop n xs) ≡ true → contains p xs ≡ true
contains-drop p zero xs h = h
contains-drop p (suc n) [] h = h
contains-drop p (suc n) (x ∷ xs) h = ground (arith, contains-drop p n xs h)

contains-kept :
    (reliability : ℕ → Reliability) (p : ℕ) (xs : List ℕ)
    → contains p (kept reliability xs) ≡ true
    → contains p xs ≡ true
unfolding kept
contains-kept reliability p [] h = h
contains-kept reliability p (x ∷ xs) h = elim (Bool-cases (is_bad reliability x)) [
  | inl e ↦ ground (arith, contains-kept reliability p xs, h, e)
  | inr e ↦ ground (arith, contains-kept reliability p xs, h, e)
]

-- The cleaning brings no node that was not there.
pub contains-remove_if_bad :
    (reliability : ℕ → Reliability) (p : ℕ) (xs : List ℕ)
    → contains p (remove_if_bad reliability xs) ≡ true
    → contains p xs ≡ true
unfolding remove_if_bad
contains-remove_if_bad reliability p xs h =
    elim (contains-append p (kept reliability xs) (drop (length (kept reliability xs)) xs) h) [
      | inl c ↦ contains-kept reliability p xs c
      | inr c ↦ contains-drop p (length (kept reliability xs)) xs c
    ]
