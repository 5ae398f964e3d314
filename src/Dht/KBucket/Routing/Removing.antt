-- ===== src/Dht/KBucket/Routing/Removing.antt =====
-- That removeNode of src/daemon/dht/KBucket.cpp takes out the node, once, and nothing else.
use p2pnet.Base.{
  ==-refl, ◌≢◌, ℕ, ◌+◌, ◌≡◌, refl, Bool, true, false, ◌||◌, List, [], ◌∷◌, arith, length, ◌==◌,
  if◌then◌else◌, Bool-cases, inl, inr, ==→≡,
}
use p2pnet.Crypto.Hash.{Bytes}
use p2pnet.Dht.KBucket.Yields.{Yields, Yields-ok, Yields-at_half, Yields-bind}
use p2pnet.Dht.KBucket.{
  KBucket, leaf, branch, ok, get_bit, count, contains, erase_first, remove_node,
}
use p2pnet.Dht.KBucket.Routing.{holds, IsRouted}

or-left : (a a' b : Bool) → (a' || b) ≡ true → (a' ≡ true → a ≡ true) → (a || b) ≡ true
or-left true a' b h f = refl
or-left false true b h f = absurd (cc (f refl))
or-left false false b h f = h

or-right : (a b b' : Bool) → (a || b') ≡ true → (b' ≡ true → b ≡ true) → (a || b) ≡ true
or-right true b b' h f = refl
or-right false b b' h f = f h

contains-erase_first :
    (p node : ℕ) (xs : List ℕ) → contains p (erase_first node xs) ≡ true → contains p xs ≡ true
contains-erase_first p node [] h = h
contains-erase_first p node (x ∷ xs) h = elim (Bool-cases (x == node)) [
  | inl e ↦ ground (arith, h, e)
  | inr e ↦ ground (arith, h, e, contains-erase_first p node xs)
]

length-erase_first :
    (p : ℕ) (xs : List ℕ) → contains p xs ≡ true → length (erase_first p xs) + 1 ≡ length xs
length-erase_first p [] h = absurd (cc h)
length-erase_first p (x ∷ xs) h = elim (Bool-cases (x == p)) [
  | inl e ↦ ground (arith, e)
  | inr e ↦ ground (arith, h, e, length-erase_first p xs)
]

-- What removing a node from a tree keeps: the routing, and no node comes.
abbrev Loses : (ℕ → Bytes) → KBucket → KBucket → Type 0
Loses hash_of b b' = IsRouted hash_of b' × ((p : ℕ) → holds p b' ≡ true → holds p b ≡ true)

remove_node-Loses :
    (hash_of : ℕ → Bytes) (node : ℕ) (b : KBucket)
    → IsRouted hash_of b
    → Yields (Loses hash_of b) (remove_node hash_of node b)
unfolding remove_node
remove_node-Loses hash_of node (leaf i s c) r = (tt, λ p h. contains-erase_first p node c h)
remove_node-Loses hash_of node (branch i s f g) r =
    let P = Loses hash_of (branch i s f g) in
    Yields-at_half P (get_bit (hash_of node) (i + 1)) _ _
      (λ _.
        Yields-bind (Loses hash_of f) P (remove_node hash_of node f) _
          (remove_node-Loses hash_of node f r.2)
          (λ f' _ v. (
            (λ p h. r.0 p (v.1 p h), r.1, v.0, r.3),
            λ p h. or-left (holds p f) (holds p f') (holds p g) h (v.1 p),
          )))
      (λ _.
        Yields-bind (Loses hash_of g) P (remove_node hash_of node g) _
          (remove_node-Loses hash_of node g r.3)
          (λ g' _ v. (
            (r.0, λ p h. r.1 p (v.1 p h), r.2, v.0),
            λ p h. or-right (holds p f) (holds p g) (holds p g') h (v.1 p),
          )))

-- How often a node stands in a list, and in a tree.
abbrev times : ℕ → List ℕ → ℕ
times p [] = 0
times p (x ∷ xs) = (if x == p then 1 else 0) + times p xs

abbrev pub occurrences : ℕ → KBucket → ℕ
occurrences p (leaf i s c) = times p c
occurrences p (branch i s f g) = occurrences p f + occurrences p g

times-erase_first :
    (p node : ℕ) (xs : List ℕ)
    → contains node xs ≡ true
    → times p (erase_first node xs) + (if node == p then 1 else 0) ≡ times p xs
times-erase_first p node [] h = absurd (cc h)
times-erase_first p node (x ∷ xs) h = elim (Bool-cases (x == node)) [
  | inl e ↦ ground (arith, e, ==→≡ x node e)
  | inr e ↦ ground (arith, h, e, times-erase_first p node xs)
]

-- The call returns, and what is left.
abbrev Removes : ℕ → KBucket → KBucket → Type 0
Removes node b b' =
    (count b' + 1 ≡ count b)
    × ((p : ℕ) → occurrences p b' + (if node == p then 1 else 0) ≡ occurrences p b)

remove_node-Removes :
    (hash_of : ℕ → Bytes) (node : ℕ) (b : KBucket)
    → IsRouted hash_of b
    → holds node b ≡ true
    → (b' : KBucket) × (remove_node hash_of node b ≡ ok b') × Removes node b b'
unfolding remove_node count
remove_node-Removes hash_of node (leaf i s c) r h = (
  leaf i s (erase_first node c),
  refl,
  (length-erase_first node c h, λ p. times-erase_first p node c h),
)
remove_node-Removes hash_of node (branch i s f g) r h = elim (Bool-cases (holds node f)) [
  | inl e ↦
      let (f', ran, (fewer, each)) = remove_node-Removes hash_of node f r.2 e in
      (branch i s f' g, rw (r.0 node e, ran), (omega arith, λ p. let o = each p in omega arith))
  | inr e ↦
      let e' : holds node g ≡ true = ground (arith, h, e) in
      let (g', ran, (fewer, each)) = remove_node-Removes hash_of node g r.3 e' in
      (branch i s f g', rw (r.1 node e', ran), (omega arith, λ p. let o = each p in omega arith))
]

-- A node that stands in a routed tree can be removed: the call returns a routed tree with exactly
-- one node less, in which the removed node stands once less and every other node as often as before.
pub remove_node-removes :
    (hash_of : ℕ → Bytes) (node : ℕ) (b : KBucket)
    → IsRouted hash_of b
    → holds node b ≡ true
    → (b' : KBucket) × (remove_node hash_of node b ≡ ok b')
      × (count b' + 1 ≡ count b)
      × IsRouted hash_of b'
      × (occurrences node b' + 1 ≡ occurrences node b)
      × ((p : ℕ) → node ≢ p → occurrences p b' ≡ occurrences p b)
remove_node-removes hash_of node b r h =
    let (b', ran, (fewer, each)) = remove_node-Removes hash_of node b r h in
    (
      b',
      ran,
      fewer,
      (Yields-ok (Loses hash_of b) _ b' (remove_node-Loses hash_of node b r) ran).0,
      let o = each node in rw (==-refl node) at o,
      λ p other. let o = each p in ground (arith, o, other),
    )
