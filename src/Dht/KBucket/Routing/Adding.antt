-- ===== src/Dht/KBucket/Routing/Adding.antt =====
-- That addNode, with the splits it makes, keeps every node where the bits of its hash lead to.
use p2pnet.Base.{
  ℕ, zero, suc, ◌+◌, ◌*◌, ◌≡◌, refl, sym, subst, Bool, true, false, ◌&&◌, ◌||◌, not, List, [], ◌∷◌,
  ◌++◌, arith, length, ltb, leb, ◌==◌, Bool-cases, inl, inr, ◌⊎◌, ==→≡,
}
use p2pnet.Crypto.Hash.{Bytes}
use p2pnet.Dht.KBucket.Yields.{
  Yields, Yields-ok, Yields-if, Yields-at_half, Yields-bind, Yields-then, Yields-map,
}
use p2pnet.Dht.KBucket.Routing.{holds, AllBit, IsRouted, contains-append, contains-remove_if_bad}
use p2pnet.Dht.KBucket.{
  KBucket, Reliability, leaf, branch, Run, ok, get_bit, contains, distribute, put_half, add_to_half,
  split_and_add, add_leaf, add_node_within, add_node, remove_if_bad,
}

-- The nodes of the list have the bit b at the place i, and stand in ps.
abbrev Half : (ℕ → Bytes) → ℕ → Bool → List ℕ → List ℕ → Type 0
Half hash_of i b ps half =
    (p : ℕ) → contains p half ≡ true → (get_bit (hash_of p) i ≡ ok b) × (contains p ps ≡ true)

abbrev Sorts : (ℕ → Bytes) → ℕ → List ℕ → List ℕ × List ℕ → Type 0
Sorts hash_of i ps halves = Half hash_of i false ps halves.0 × Half hash_of i true ps halves.1

contains-there : (p x : ℕ) (xs : List ℕ) → contains p xs ≡ true → contains p (x ∷ xs) ≡ true
contains-there p x xs h = ground (arith, h)

Half-skip :
    (hash_of : ℕ → Bytes) (i x : ℕ) (b : Bool) (ps half : List ℕ)
    → Half hash_of i b ps half
    → Half hash_of i b (x ∷ ps) half
Half-skip hash_of i x b ps half h p c = ((h p c).0, contains-there p x ps (h p c).1)

Half-take :
    (hash_of : ℕ → Bytes) (i x : ℕ) (b : Bool) (ps half : List ℕ)
    → get_bit (hash_of x) i ≡ ok b
    → Half hash_of i b ps half
    → Half hash_of i b (x ∷ ps) (x ∷ half)
Half-take hash_of i x b ps half e h p c = elim (Bool-cases (x == p)) [
  | inl same ↦ (subst (λ q. get_bit (hash_of q) i ≡ ok b) (==→≡ x p same) e, ground (arith, same))
  | inr other ↦
      let c' : contains p half ≡ true = ground (arith, c, other) in
      ((h p c').0, contains-there p x ps (h p c').1)
]

put_half-Sorts :
    (hash_of : ℕ → Bytes) (i x : ℕ) (b : Bool) (ps : List ℕ) (halves : List ℕ × List ℕ)
    → get_bit (hash_of x) i ≡ ok b
    → Sorts hash_of i ps halves
    → Sorts hash_of i (x ∷ ps) (put_half x b halves)
put_half-Sorts hash_of i x false ps (fs, gs) e h =
    (Half-take hash_of i x false ps fs e h.0, Half-skip hash_of i x true ps gs h.1)
put_half-Sorts hash_of i x true ps (fs, gs) e h =
    (Half-skip hash_of i x false ps fs h.0, Half-take hash_of i x true ps gs e h.1)

distribute-Sorts :
    (hash_of : ℕ → Bytes) (i : ℕ) (ps : List ℕ)
    → Yields (Sorts hash_of i ps) (distribute hash_of i ps)
unfolding distribute
distribute-Sorts hash_of i [] = (λ p h. absurd (cc h), λ p h. absurd (cc h))
distribute-Sorts hash_of i (x ∷ ps) =
    Yields-then (Sorts hash_of i (x ∷ ps)) (get_bit (hash_of x) i) _ (λ b e.
      Yields-bind (Sorts hash_of i ps) (Sorts hash_of i (x ∷ ps)) (distribute hash_of i ps) _
        (distribute-Sorts hash_of i ps) (λ halves _ h. put_half-Sorts hash_of i x b ps halves e h))

-- What adding a node to nodes `before` gives: a routed tree, whose nodes were there or are the new
-- one.
abbrev Gains : (ℕ → Bytes) → (ℕ → Bool) → ℕ → KBucket → Type 0
Gains hash_of before node b =
    IsRouted hash_of b × ((p : ℕ) → holds p b ≡ true → (before p ≡ true) ⊎ (p ≡ node))

-- The nodes of the half that grew all have its bit: those that were there, and the new one.
grown-AllBit :
    (hash_of : ℕ → Bytes) (i node : ℕ) (b : Bool) (before : ℕ → Bool) (t : KBucket)
    → ((p : ℕ) → before p ≡ true → get_bit (hash_of p) i ≡ ok b)
    → get_bit (hash_of node) i ≡ ok b
    → Gains hash_of before node t
    → AllBit hash_of i b t
grown-AllBit hash_of i node b before t old new v p h = elim (v.1 p h) [
  | inl was ↦ old p was
  | inr same ↦ subst (λ q. get_bit (hash_of q) i ≡ ok b) (sym same) new
]

||-true : (x y : Bool) → (x || y) ≡ true → (x ≡ true) ⊎ (y ≡ true)
||-true true y h = inl refl
||-true false y h = inr h

left-true : (x y : Bool) → x ≡ true → (x || y) ≡ true
left-true x y h = rw h

right-true : (x y : Bool) → y ≡ true → (x || y) ≡ true
right-true true y h = refl
right-true false y h = h

weaken : {x y : Bool} {C : Type 0} → (x ≡ true → y ≡ true) → (x ≡ true) ⊎ C → (y ≡ true) ⊎ C
weaken f (inl h) = inl (f h)
weaken f (inr c) = inr c

module _ (hash_of : ℕ → Bytes) where
  first_grew :
      (i : ℕ) (s : Bool) (node : ℕ) (first other : ℕ → Bool) (f g : KBucket)
      → ((p : ℕ) → first p ≡ true → (get_bit (hash_of p) (i + 1) ≡ ok false) × (other p ≡ true))
      → AllBit hash_of (i + 1) true g
      → ((p : ℕ) → holds p g ≡ true → other p ≡ true)
      → IsRouted hash_of g
      → get_bit (hash_of node) (i + 1) ≡ ok false
      → Gains hash_of first node f
      → Gains hash_of other node (branch i s f g)
  first_grew i s node first other f g old bits kept routed new v = (
    (grown-AllBit hash_of (i + 1) node false first f (λ p h. (old p h).0) new v, bits, v.0, routed),
    λ p h. elim (||-true (holds p f) (holds p g) h) [
      | inl in_f ↦ elim (v.1 p in_f) [ inl was ↦ inl (old p was).1 | inr same ↦ inr same ]
      | inr in_g ↦ inl (kept p in_g)
    ],
  )

  second_grew :
      (i : ℕ) (s : Bool) (node : ℕ) (second other : ℕ → Bool) (f g : KBucket)
      → ((p : ℕ) → second p ≡ true → (get_bit (hash_of p) (i + 1) ≡ ok true) × (other p ≡ true))
      → AllBit hash_of (i + 1) false f
      → ((p : ℕ) → holds p f ≡ true → other p ≡ true)
      → IsRouted hash_of f
      → get_bit (hash_of node) (i + 1) ≡ ok true
      → Gains hash_of second node g
      → Gains hash_of other node (branch i s f g)
  second_grew i s node second other f g old bits kept routed new v = (
    (bits, grown-AllBit hash_of (i + 1) node true second g (λ p h. (old p h).0) new v, routed, v.0),
    λ p h. elim (||-true (holds p f) (holds p g) h) [
      | inl in_f ↦ inl (kept p in_f)
      | inr in_g ↦ elim (v.1 p in_g) [ inl was ↦ inl (old p was).1 | inr same ↦ inr same ]
    ],
  )

  module _ (reliability : ℕ → Reliability) (k : ℕ) (node_hash : Bytes) (node : ℕ) where
    abbrev Grown : List ℕ → KBucket → Type 0
    Grown c = Gains hash_of (λ p. contains p c) node

    add_to_half-Gains :
        (add_half : Bool → List ℕ → Run KBucket) (i : ℕ) (s my : Bool) (c : List ℕ)
        (halves : List ℕ × List ℕ) (b : Bool)
        → Sorts hash_of (i + 1) c halves
        → get_bit (hash_of node) (i + 1) ≡ ok b
        → ((s : Bool) (c : List ℕ) → Yields (Grown c) (add_half s c))
        → Yields (Grown c) (add_to_half add_half i s my halves b)
    add_to_half-Gains add_half i s my c (fs, gs) false h new add =
        Yields-bind (Grown fs) (Grown c) (add_half (not my) fs) _ (add (not my) fs) (λ f _ v.
          first_grew i s node (λ p. contains p fs) (λ p. contains p c) f (leaf (i + 1) my gs) h.0
            (λ p g. (h.1 p g).0) (λ p g. (h.1 p g).1) tt new v)
    add_to_half-Gains add_half i s my c (fs, gs) true h new add =
        Yields-bind (Grown gs) (Grown c) (add_half my gs) _ (add my gs) (λ g _ v.
          second_grew i s node (λ p. contains p gs) (λ p. contains p c) (leaf (i + 1) (not my) fs) g
            h.1 (λ p f. (h.0 p f).0) (λ p f. (h.0 p f).1) tt new v)

    split_and_add-Gains :
        (add_half : Bool → List ℕ → Run KBucket) (i : ℕ) (s : Bool) (c : List ℕ)
        → ((s : Bool) (c : List ℕ) → Yields (Grown c) (add_half s c))
        → Yields (Grown c) (split_and_add hash_of reliability k node_hash add_half i s c node)
    unfolding split_and_add
    split_and_add-Gains add_half i s c add =
        Yields-then (Grown c) (get_bit node_hash (i + 1)) _ (λ my _.
          Yields-bind (Sorts hash_of (i + 1) c) (Grown c) (distribute hash_of (i + 1) c) _
            (distribute-Sorts hash_of (i + 1) c)
            (λ halves _ h.
              Yields-then (Grown c) (get_bit (hash_of node) (i + 1)) _
                (λ b e. add_to_half-Gains add_half i s my c halves b h e add)))

    -- One bucket that keeps its contents, or gets the node at its end.
    appended-Gains :
        (i : ℕ) (s : Bool) (c c' : List ℕ)
        → ((p : ℕ) → contains p c' ≡ true → contains p c ≡ true)
        → Grown c (leaf i s (c' ++ node ∷ []))
    appended-Gains i s c c' sub = (
      tt,
      λ p h. elim (contains-append p c' (node ∷ []) h) [
        | inl old ↦ inl (sub p old)
        | inr new ↦ inr (ground (arith, new))
      ],
    )

    add_leaf-Gains :
        (fuel i : ℕ) (s : Bool) (c : List ℕ) (force : Bool)
        → Yields (Grown c) (add_leaf hash_of reliability k node_hash fuel i s c node force)
    unfolding add_leaf
    add_leaf-Gains zero i s c force = tt
    add_leaf-Gains (suc fuel) i s c force =
        let cleaned = remove_if_bad reliability c in
        let sub : (p : ℕ) → contains p cleaned ≡ true → contains p c ≡ true =
          λ p h. contains-remove_if_bad reliability p c h in
        let same : Grown c (leaf i s cleaned) = (tt, λ p h. inl (sub p h)) in
        let add : Bool → List ℕ → Run KBucket =
          λ s c. add_leaf hash_of reliability k node_hash fuel (i + 1) s c node force in
        let P = Grown c in
        Yields-if P (ltb (length c) k) _ _ (λ _. appended-Gains i s c c (λ p h. h))
          (λ _.
            Yields-if P (contains node cleaned) _ _ (λ _. same)
              (λ _.
                Yields-if P (leb k (length cleaned) && s) _ _
                  (λ _.
                    Yields-map (Grown cleaned) P
                      (split_and_add hash_of reliability k node_hash add i s cleaned node)
                      (λ b v. (v.0, λ p h. weaken (sub p) (v.1 p h)))
                      (split_and_add-Gains add i s cleaned
                        (λ s c. add_leaf-Gains fuel (i + 1) s c force)))
                  (λ _.
                    Yields-if P (ltb (length cleaned) k || force) _ _
                      (λ _. appended-Gains i s c cleaned sub) (λ _. same))))

    add_node_within-Gains :
        (fuel : ℕ) (force : Bool) (b : KBucket)
        → IsRouted hash_of b
        → Yields
            (Gains hash_of (λ p. holds p b) node)
            (add_node_within hash_of reliability k node_hash fuel node force b)
    unfolding add_node_within
    add_node_within-Gains fuel force (leaf i s c) r = add_leaf-Gains fuel i s c force
    add_node_within-Gains fuel force (branch i s f g) r =
        let P = Gains hash_of (λ p. holds p (branch i s f g)) node in
        Yields-at_half P (get_bit (hash_of node) (i + 1)) _ _
          (λ e.
            Yields-bind (Gains hash_of (λ p. holds p f) node) P
              (add_node_within hash_of reliability k node_hash fuel node force f) _
              (add_node_within-Gains fuel force f r.2)
              (λ f' _ v.
                first_grew i s node (λ p. holds p f) (λ p. holds p f || holds p g) f' g
                  (λ p h. (r.0 p h, left-true (holds p f) (holds p g) h)) r.1
                  (λ p h. right-true (holds p f) (holds p g) h) r.3 e v))
          (λ e.
            Yields-bind (Gains hash_of (λ p. holds p g) node) P
              (add_node_within hash_of reliability k node_hash fuel node force g) _
              (add_node_within-Gains fuel force g r.3)
              (λ g' _ v.
                second_grew i s node (λ p. holds p g) (λ p. holds p f || holds p g) f g'
                  (λ p h. (r.1 p h, right-true (holds p f) (holds p g) h)) r.0
                  (λ p h. left-true (holds p f) (holds p g) h) r.2 e v))

    -- If an addition to a routed tree returns, forced or not and with all the splits it makes, the
    -- tree is routed after it, and each of its nodes was there before or is the one that was added.
    pub add_node-IsRouted :
        (force : Bool) (b b' : KBucket)
        → IsRouted hash_of b
        → add_node hash_of reliability k node_hash node force b ≡ ok b'
        → IsRouted hash_of b' × ((p : ℕ) → holds p b' ≡ true → (holds p b ≡ true) ⊎ (p ≡ node))
    unfolding add_node
    add_node-IsRouted force b b' r e =
        Yields-ok (Gains hash_of (λ p. holds p b) node) _ b'
          (add_node_within-Gains (suc (8 * length node_hash)) force b r) e
