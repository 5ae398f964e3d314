-- ===== src/Dht/KBucket/Capacity.antt =====
-- How full the buckets get, and that the cleaning of a full bucket makes no room.
use p2pnet.Base.{
  ℕ, zero, suc, ◌+◌, ◌*◌, ◌≤◌, ◌≡◌, subst, Bool, true, false, ◌&&◌, ◌||◌, not, List, [], ◌∷◌, ◌++◌,
  arith, length, drop, ltb, leb, length-append, length-drop,
}
use p2pnet.Crypto.Hash.{Bytes}
use p2pnet.Dht.KBucket.Yields.{
  Yields, Yields-ok, Yields-if, Yields-at_half, Yields-bind, Yields-then,
}
use p2pnet.Dht.KBucket.{
  KBucket, Reliability, leaf, branch, Run, ok, get_bit, count, contains, distribute, put_half,
  add_to_half, split_and_add, add_leaf, add_node_within, add_node, kept, remove_if_bad,
}

length-kept : (reliability : ℕ → Reliability) (c : List ℕ) → length (kept reliability c) ≤ length c
unfolding kept
length-kept reliability [] = omega arith
length-kept reliability (p ∷ ps) = ground (arith, length-kept reliability ps)

-- The cleaning of a full bucket leaves as many elements as there were, however many are bad.
length-remove_if_bad :
    (reliability : ℕ → Reliability) (c : List ℕ) → length (remove_if_bad reliability c) ≡ length c
unfolding remove_if_bad
length-remove_if_bad reliability c = omega (
  arith,
  length-append (kept reliability c) (drop (length (kept reliability c)) c),
  length-drop (length (kept reliability c)) c,
  length-kept reliability c,
)

-- No bucket of the tree holds more than k nodes.
abbrev pub IsCapped : ℕ → KBucket → Type 0
IsCapped k (leaf i s c) = length c ≤ k
IsCapped k (branch i s f g) = IsCapped k f × IsCapped k g

-- What one addition does to a tree that held n nodes.
abbrev Adds : ℕ → ℕ → KBucket → Type 0
Adds k n b = IsCapped k b × (n ≤ count b) × (count b ≤ n + 1)

abbrev SplitsInto : ℕ → List ℕ × List ℕ → Type 0
SplitsInto n halves = length halves.0 + length halves.1 ≡ n

put_half-SplitsInto :
    (p n : ℕ) (b : Bool) (halves : List ℕ × List ℕ)
    → SplitsInto n halves
    → SplitsInto (suc n) (put_half p b halves)
put_half-SplitsInto p n false (fs, gs) h = omega arith
put_half-SplitsInto p n true (fs, gs) h = omega arith

distribute-SplitsInto :
    (hash_of : ℕ → Bytes) (i : ℕ) (ps : List ℕ)
    → Yields (SplitsInto (length ps)) (distribute hash_of i ps)
unfolding distribute
distribute-SplitsInto hash_of i [] = omega arith
distribute-SplitsInto hash_of i (p ∷ ps) =
    Yields-then (SplitsInto (suc (length ps))) (get_bit (hash_of p) i) _ (λ b _.
      Yields-bind (SplitsInto (length ps)) (SplitsInto (suc (length ps))) (distribute hash_of i ps)
        _ (distribute-SplitsInto hash_of i ps)
        (λ halves _ h. put_half-SplitsInto p (length ps) b halves h))

module _ (hash_of : ℕ → Bytes) (reliability : ℕ → Reliability) (k : ℕ) (node_hash : Bytes) where
  add_to_half-Adds :
      (add_half : Bool → List ℕ → Run KBucket) (i : ℕ) (s my : Bool) (halves : List ℕ × List ℕ)
      (b : Bool) (n : ℕ)
      → SplitsInto n halves
      → n ≤ k
      → ((s : Bool) (c : List ℕ) → length c ≤ k → Yields (Adds k (length c)) (add_half s c))
      → Yields (Adds k n) (add_to_half add_half i s my halves b)
  unfolding count
  add_to_half-Adds add_half i s my (fs, gs) false n e h add =
      Yields-bind (Adds k (length fs)) (Adds k n) (add_half (not my) fs) _
        (add (not my) fs (omega arith))
        (λ f _ v. ((v.0, omega arith), omega (arith, v.1), omega (arith, v.2)))
  add_to_half-Adds add_half i s my (fs, gs) true n e h add =
      Yields-bind (Adds k (length gs)) (Adds k n) (add_half my gs) _ (add my gs (omega arith))
        (λ g _ v. ((omega arith, v.0), omega (arith, v.1), omega (arith, v.2)))

  split_and_add-Adds :
      (add_half : Bool → List ℕ → Run KBucket) (i : ℕ) (s : Bool) (c : List ℕ) (node : ℕ)
      → length c ≤ k
      → ((s : Bool) (c : List ℕ) → length c ≤ k → Yields (Adds k (length c)) (add_half s c))
      → Yields
          (Adds k (length c))
          (split_and_add hash_of reliability k node_hash add_half i s c node)
  unfolding split_and_add
  split_and_add-Adds add_half i s c node h add =
      Yields-then (Adds k (length c)) (get_bit node_hash (i + 1)) _ (λ my _.
        Yields-bind (SplitsInto (length c)) (Adds k (length c)) (distribute hash_of (i + 1) c) _
          (distribute-SplitsInto hash_of (i + 1) c)
          (λ halves _ e.
            Yields-then (Adds k (length c)) (get_bit (hash_of node) (i + 1)) _
              (λ b _. add_to_half-Adds add_half i s my halves b (length c) e h add)))

  full_stays : {n m : ℕ} → ltb n k ≡ false → m ≡ n → ltb m k || false ≡ true → ⊥
  full_stays h e g = ground arith

  add_leaf-Adds :
      (fuel i : ℕ) (s : Bool) (c : List ℕ) (node : ℕ)
      → length c ≤ k
      → Yields (Adds k (length c)) (add_leaf hash_of reliability k node_hash fuel i s c node false)
  unfolding add_leaf count
  add_leaf-Adds zero i s c node h = tt
  add_leaf-Adds (suc fuel) i s c node h =
      let cleaned = remove_if_bad reliability c in
      let same : length cleaned ≡ length c = length-remove_if_bad reliability c in
      let P = Adds k (length c) in
      let split : List ℕ → Run KBucket = λ c.
        split_and_add hash_of reliability k node_hash
          (λ s c. add_leaf hash_of reliability k node_hash fuel (i + 1) s c node false) i s c
          node in
      Yields-if P (ltb (length c) k) _ _
        (λ room.
          let l : length (c ++ node ∷ []) ≡ length c + 1 = length-append c (node ∷ []) in
          (ground arith, omega arith, omega arith))
        (λ full.
          Yields-if P (contains node cleaned) _ _ (λ _. (omega arith, omega arith, omega arith))
            (λ _.
              Yields-if P (leb k (length cleaned) && s) _ _
                (λ _.
                  subst (λ n. Yields (Adds k n) (split cleaned)) same
                    (split_and_add-Adds
                      (λ s c. add_leaf hash_of reliability k node_hash fuel (i + 1) s c node false)
                      i s cleaned node (omega arith)
                      (λ s c h. add_leaf-Adds fuel (i + 1) s c node h)))
                (λ _.
                  Yields-if P (ltb (length cleaned) k || false) _ _
                    (λ room. absurd (full_stays full same room))
                    (λ _. (omega arith, omega arith, omega arith)))))

  add_node_within-Adds :
      (fuel node : ℕ) (b : KBucket)
      → IsCapped k b
      → Yields
          (Adds k (count b))
          (add_node_within hash_of reliability k node_hash fuel node false b)
  unfolding add_node_within count
  add_node_within-Adds fuel node (leaf i s c) h = add_leaf-Adds fuel i s c node h
  add_node_within-Adds fuel node (branch i s f g) h =
      let P = Adds k (count f + count g) in
      Yields-at_half P (get_bit (hash_of node) (i + 1)) _ _
        (λ _.
          Yields-bind (Adds k (count f)) P
            (add_node_within hash_of reliability k node_hash fuel node false f) _
            (add_node_within-Adds fuel node f h.0)
            (λ f' _ v. ((v.0, h.1), omega (arith, v.1), omega (arith, v.2))))
        (λ _.
          Yields-bind (Adds k (count g)) P
            (add_node_within hash_of reliability k node_hash fuel node false g) _
            (add_node_within-Adds fuel node g h.1)
            (λ g' _ v. ((h.0, v.0), omega (arith, v.1), omega (arith, v.2))))

  -- If no bucket of the tree holds more than k nodes and an addition without `force` returns, then
  -- no bucket holds more than k nodes after it either, and the number of entries is the same or one
  -- more.
  pub add_node-IsCapped :
      (node : ℕ) (b b' : KBucket)
      → IsCapped k b
      → add_node hash_of reliability k node_hash node false b ≡ ok b'
      → IsCapped k b' × (count b ≤ count b') × (count b' ≤ count b + 1)
  unfolding add_node
  add_node-IsCapped node b b' h e =
      Yields-ok (Adds k (count b)) _ b' (add_node_within-Adds (suc (8 * length node_hash)) node b h)
        e

  -- A full bucket that cannot be split refuses a new node without `force` and holds as many nodes
  -- as before, however many of them are bad: the cleaning moves nodes, but makes no room.
  pub full_leaf_refuses :
      (fuel i : ℕ) (c : List ℕ) (node : ℕ)
      → k ≤ length c
      → contains node (remove_if_bad reliability c) ≡ false
      → (add_leaf hash_of reliability k node_hash (suc fuel) i false c node false
          ≡ ok (leaf i false (remove_if_bad reliability c)))
        × (length (remove_if_bad reliability c) ≡ length c)
  unfolding add_leaf
  full_leaf_refuses fuel i c node h new =
      let same : length (remove_if_bad reliability c) ≡ length c =
        length-remove_if_bad reliability c in
      (ground (arith, new, h, same), same)
