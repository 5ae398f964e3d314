-- ===== src/Dht/KBucket/Fuel.antt =====
-- addNode ends: it splits fewer times than the own hash has bits.
use p2pnet.Base.{
  ℕ, zero, suc, ◌+◌, ◌*◌, ◌/◌, ◌%◌, ◌<◌, ◌≤◌, ◌≡◌, ◌≢◌, refl, subst, Bool, true, false, ◌&&◌, ◌||◌,
  not, List, [], ◌∷◌, Option, none, some, arith, length, ltb, leb, if◌then◌else◌, get_elem?,
  Bool-cases, inl, inr,
}
use p2pnet.Crypto.Hash.{Bytes}
use p2pnet.Dht.KBucket.{
  KBucket, Reliability, leaf, branch, Run, ok, undefined, out_of_fuel, ◌>>=◌, bit_of, get_bit,
  at_half, distribute, add_to_half, split_and_add, add_leaf, add_node_within, add_node,
  remove_if_bad, contains,
}

-- A call ends, in a result or in undefined behaviour.
abbrev Finishes {ℓ} : {A : Type ℓ} → Run A → Type 0
Finishes (ok a) = Unit
Finishes undefined = Unit
Finishes out_of_fuel = ⊥

>>=-Finishes {ℓ κ} :
    {A : Type ℓ} {B : Type κ} (m : Run A) (f : A → Run B)
    → Finishes m
    → ((a : A) → m ≡ ok a → Finishes (f a))
    → Finishes (m >>= f)
>>=-Finishes (ok a) f h k = k a refl
>>=-Finishes undefined f h k = tt
>>=-Finishes out_of_fuel f h k = h

if-Finishes {ℓ} :
    {A : Type ℓ} (b : Bool) (x y : Run A) → Finishes x → Finishes y → Finishes (if b then x else y)
if-Finishes true x y hx hy = hx
if-Finishes false x y hx hy = hy

get_bit-Finishes : (hash : Bytes) (i : ℕ) → Finishes (get_bit hash i)
unfolding get_bit
get_bit-Finishes hash i = go (get_elem? hash (i / 8))
  where
    go : (o : Option ℕ) → Finishes (bit_of o (i % 8))
    go none = tt
    go (some b) = tt

get_elem?-none : (xs : List ℕ) (i : ℕ) → length xs ≤ i → get_elem? xs i ≡ none
get_elem?-none [] i h = refl
get_elem?-none (x ∷ xs) zero h = absurd (omega arith)
get_elem?-none (x ∷ xs) (suc i) h = get_elem?-none xs i (omega arith)

-- A bit that can be read lies within the hash.
pub get_bit-inside : (hash : Bytes) (i : ℕ) (b : Bool) → get_bit hash i ≡ ok b → i < 8 * length hash
unfolding get_bit
get_bit-inside hash i b h = elim (Bool-cases (ltb i (8 * length hash))) [
  | inl e ↦ ground arith
  | inr e ↦
      let past : length hash ≤ i / 8 = ground arith in
      let r : get_elem? hash (i / 8) ≡ none = get_elem?-none hash (i / 8) past in
      let h' : bit_of none (i % 8) ≡ ok b = subst (λ o. bit_of o (i % 8) ≡ ok b) r h in
      absurd (cc h')
]

distribute-Finishes :
    (hash_of : ℕ → Bytes) (i : ℕ) (ps : List ℕ) → Finishes (distribute hash_of i ps)
unfolding distribute
distribute-Finishes hash_of i [] = tt
distribute-Finishes hash_of i (p ∷ ps) =
    >>=-Finishes (get_bit (hash_of p) i) _ (get_bit-Finishes (hash_of p) i) (λ b _.
      >>=-Finishes (distribute hash_of i ps) _ (distribute-Finishes hash_of i ps) (λ h _. tt))

module _ (hash_of : ℕ → Bytes) (reliability : ℕ → Reliability) (k : ℕ) (node_hash : Bytes) where
  add_to_half-Finishes :
      (add_half : Bool → List ℕ → Run KBucket) (i : ℕ) (s my : Bool) (halves : List ℕ × List ℕ)
      (b : Bool)
      → ((s : Bool) (c : List ℕ) → Finishes (add_half s c))
      → Finishes (add_to_half add_half i s my halves b)
  add_to_half-Finishes add_half i s my (fs, gs) false h =
      >>=-Finishes (add_half (not my) fs) _ (h (not my) fs) (λ f _. tt)
  add_to_half-Finishes add_half i s my (fs, gs) true h =
      >>=-Finishes (add_half my gs) _ (h my gs) (λ f _. tt)

  split_and_add-Finishes :
      (add_half : Bool → List ℕ → Run KBucket) (i : ℕ) (s : Bool) (c : List ℕ) (node : ℕ)
      → (i + 1 < 8 * length node_hash → (s : Bool) (c : List ℕ) → Finishes (add_half s c))
      → Finishes (split_and_add hash_of reliability k node_hash add_half i s c node)
  unfolding split_and_add
  split_and_add-Finishes add_half i s c node h =
      >>=-Finishes (get_bit node_hash (i + 1)) _ (get_bit-Finishes node_hash (i + 1)) (λ my e.
        >>=-Finishes (distribute hash_of (i + 1) c) _ (distribute-Finishes hash_of (i + 1) c)
          (λ halves _.
            >>=-Finishes (get_bit (hash_of node) (i + 1)) _
              (get_bit-Finishes (hash_of node) (i + 1))
              (λ b _.
                add_to_half-Finishes add_half i s my halves b
                  (h (get_bit-inside node_hash (i + 1) my e)))))

  add_leaf-Finishes :
      (fuel i : ℕ) (s : Bool) (c : List ℕ) (node : ℕ) (force : Bool)
      → 8 * length node_hash < fuel + i
      → 0 < fuel
      → Finishes (add_leaf hash_of reliability k node_hash fuel i s c node force)
  unfolding add_leaf
  add_leaf-Finishes zero i s c node force h pos = absurd (omega arith)
  add_leaf-Finishes (suc fuel) i s c node force h pos =
      let cleaned = remove_if_bad reliability c in
      if-Finishes (ltb (length c) k) _ _ tt (
        if-Finishes (contains node cleaned) _ _ tt (
          if-Finishes (leb k (length cleaned) && s) _ _
            (split_and_add-Finishes _ i s cleaned node (λ inside s' c'.
              add_leaf-Finishes fuel (i + 1) s' c' node force (omega arith) (omega arith)))
            (if-Finishes (ltb (length cleaned) k || force) _ _ tt tt)))

  at_half-Finishes :
      (bit : Run Bool) (x y : Run KBucket)
      → Finishes bit
      → Finishes x
      → Finishes y
      → Finishes (at_half bit x y)
  at_half-Finishes (ok false) x y h hx hy = hx
  at_half-Finishes (ok true) x y h hx hy = hy
  at_half-Finishes undefined x y h hx hy = tt
  at_half-Finishes out_of_fuel x y h hx hy = h

  within-Finishes :
      (fuel node : ℕ) (force : Bool) (b : KBucket)
      → 8 * length node_hash < fuel
      → Finishes (add_node_within hash_of reliability k node_hash fuel node force b)
  unfolding add_node_within
  within-Finishes fuel node force (leaf i s c) h =
      add_leaf-Finishes fuel i s c node force (omega arith) (omega arith)
  within-Finishes fuel node force (branch i s f g) h =
      at_half-Finishes (get_bit (hash_of node) (i + 1)) _ _
        (get_bit-Finishes (hash_of node) (i + 1))
        (>>=-Finishes _ _ (within-Finishes fuel node force f h) (λ f' _. tt))
        (>>=-Finishes _ _ (within-Finishes fuel node force g h) (λ g' _. tt))

  -- Adding a node to any tree of buckets ends: the recursion through the splits stops at the latest
  -- where the own hash has no further bit.
  pub add_node-ends :
      (node : ℕ) (force : Bool) (b : KBucket)
      → add_node hash_of reliability k node_hash node force b ≢ out_of_fuel
  unfolding add_node
  add_node-ends node force b e =
      subst Finishes e (within-Finishes (suc (8 * length node_hash)) node force b (omega arith))
