-- ===== src/Dht/KBucket/Rebuild.antt =====
-- KBucket::rebuild of src/daemon/dht/KBucket.cpp: all that additions to an emptied bucket come to.
use p2pnet.Base.{
  ℕ, ◌+◌, ◌≤◌, ◌≡◌, ◌≢◌, refl, Bool, true, false, List, [], ◌∷◌, arith, length, ◌⊎◌, inl, inr,
  ==-refl,
}
use p2pnet.Crypto.Hash.{Bytes}
use p2pnet.Dht.KBucket.Yields.{Yields, Yields-ok, Yields-then, Yields-map}
use p2pnet.Dht.KBucket.Routing.{holds, IsRouted, bucket_for-holds}
use p2pnet.Dht.KBucket.Routing.Adding.{add_node-IsRouted}
use p2pnet.Dht.KBucket.Capacity.{IsCapped, add_node-IsCapped}
use p2pnet.Dht.KBucket.Fuel.{add_node-ends}
use p2pnet.Dht.KBucket.{
  KBucket, Reliability, leaf, branch, Run, ok, undefined, out_of_fuel, ◌>>=◌, count, contains,
  add_node, add_all, cleared, rebuild, bucket_for,
}

module _ (hash_of : ℕ → Bytes) (reliability : ℕ → Reliability) (k : ℕ) (node_hash : Bytes) where
  -- What a list of additions makes of a routed tree.
  abbrev Filled : List ℕ → KBucket → KBucket → Type 0
  Filled nodes b b' =
      IsRouted hash_of b'
      × IsCapped k b'
      × (count b' ≤ count b + length nodes)
      × ((p : ℕ) → holds p b' ≡ true → (holds p b ≡ true) ⊎ (contains p nodes ≡ true))

  -- The first addition, and the others after it.
  one_more :
      (node : ℕ) (nodes : List ℕ) (b b₁ b' : KBucket)
      → IsRouted hash_of b
      → IsCapped k b
      → add_node hash_of reliability k node_hash node false b ≡ ok b₁
      → Filled nodes b₁ b'
      → Filled (node ∷ nodes) b b'
  one_more node nodes b b₁ b' routed capped e (routed', capped', few, from) =
      let (_, came) = add_node-IsRouted hash_of reliability k node_hash node false b b₁ routed e in
      let (_, _, one) = add_node-IsCapped hash_of reliability k node_hash node b b₁ capped e in
      (
        routed',
        capped',
        omega arith,
        λ p h. elim (from p h) [
          | inl there ↦ elim (came p there) [
            | inl before ↦ inl before
            | inr new ↦ inr (ground (arith, new, ==-refl node))
          ]
          | inr later ↦ inr (ground (arith, later))
        ],
      )

  add_all-Filled :
      (nodes : List ℕ) (b : KBucket)
      → IsRouted hash_of b
      → IsCapped k b
      → Yields (Filled nodes b) (add_all hash_of reliability k node_hash nodes b)
  unfolding add_all
  add_all-Filled [] b routed capped = (routed, capped, omega arith, λ p h. inl h)
  add_all-Filled (node ∷ nodes) b routed capped =
      Yields-then (Filled (node ∷ nodes) b) (add_node hash_of reliability k node_hash node false b)
        (add_all hash_of reliability k node_hash nodes)
        (λ b₁ e.
          Yields-map (Filled nodes b₁) (Filled (node ∷ nodes) b)
            (add_all hash_of reliability k node_hash nodes b₁)
            (λ b'. one_more node nodes b b₁ b' routed capped e)
            (add_all-Filled nodes b₁
              (add_node-IsRouted hash_of reliability k node_hash node false b b₁ routed e).0
              (add_node-IsCapped hash_of reliability k node_hash node b b₁ capped e).0))

  -- If rebuild returns, whatever the tree held before: the nodes of the new tree are among those of
  -- the list and no more than these, no bucket holds more than k of them, all stand where the bits of
  -- their hashes lead, and determineBucket finds the bucket of each.
  pub rebuild-IsRouted :
      (new_node_hash : Bytes) (nodes : List ℕ) (b b' : KBucket)
      → rebuild hash_of reliability k node_hash new_node_hash nodes b ≡ ok b'
      → IsRouted hash_of b'
        × IsCapped k b'
        × (count b' ≤ length nodes)
        × ((p : ℕ)
            → holds p b' ≡ true
            → (contains p nodes ≡ true)
              × ((c : List ℕ) × (bucket_for (hash_of p) b' ≡ ok c) × (contains p c ≡ true)))
  unfolding rebuild count
  rebuild-IsRouted new_node_hash nodes b b' e =
      let (i, s, is) = emptied b in
      let (routed, capped, few, from) =
        Yields-ok (Filled nodes (leaf i s []))
          (add_all hash_of reliability k node_hash nodes (leaf i s [])) b'
          (add_all-Filled nodes (leaf i s []) tt (omega arith)) (rw⁻¹ is e) in
      (
        routed,
        capped,
        omega (arith, few),
        λ p h. elim (from p h) [
          | inl nowhere ↦ absurd (cc nowhere)
          | inr listed ↦ (listed, bucket_for-holds hash_of b' p routed h)
        ],
      )
    where
      emptied :
          (b : KBucket)
          → (i : ℕ) × (s : Bool) × (cleared hash_of reliability k node_hash b ≡ leaf i s [])
      emptied (leaf i s c) = (i, s, refl)
      emptied (branch i s f g) = (i, s, refl)

  add_all-ends :
      (nodes : List ℕ) (b : KBucket) → add_all hash_of reliability k node_hash nodes b ≢ out_of_fuel
  unfolding add_all
  add_all-ends [] b = λ e. absurd (cc e)
  add_all-ends (node ∷ nodes) b =
      go (add_all-ends nodes) (add_node hash_of reliability k node_hash node false b)
        (add_node-ends hash_of reliability k node_hash node false b)
    where
      go :
          ((b' : KBucket) → add_all hash_of reliability k node_hash nodes b' ≢ out_of_fuel)
          → (r : Run KBucket) → r ≢ out_of_fuel
          → (r >>= λ b'. add_all hash_of reliability k node_hash nodes b') ≢ out_of_fuel
      go others (ok b') ends = others b'
      go others undefined ends = λ e. absurd (cc e)
      go others out_of_fuel ends = ends

  -- rebuild ends, whatever the list and the hashes.
  rebuild-ends :
      (new_node_hash : Bytes) (nodes : List ℕ) (b : KBucket)
      → rebuild hash_of reliability k node_hash new_node_hash nodes b ≢ out_of_fuel
  unfolding rebuild
  rebuild-ends new_node_hash nodes b =
      add_all-ends nodes (cleared hash_of reliability k node_hash b)
