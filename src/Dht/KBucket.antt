-- ===== src/Dht/KBucket.antt =====
-- src/daemon/dht/KBucket.h, KBucket.cpp and DHTNode.h. A DHTNode* is a number; what the abstract class
-- DHTNode answers for it, its hash and its reliability, is a parameter. All buckets of a tree share
-- k and the own node's hash.
mod Yields
pub mod Routing
pub mod Fuel
pub mod Closest
pub mod Capacity
pub mod Rebuild
pub mod Keeping
mod Tests
use p2pnet.Base.{
  ℕ, zero, suc, ◌+◌, ◌-◌, ◌*◌, ◌/◌, ◌%◌, ◌^◌, Bool, true, false, ◌&&◌, ◌||◌, not, List, [], ◌∷◌,
  ◌++◌, Option, none, some, length, drop, get_elem?, ltb, leb, ◌==◌, if◌then◌else◌,
}
use p2pnet.Crypto.Hash.{Bytes}

pub data Reliability : Type 0 where
  good questionable bad : Reliability

-- A bucket that is split keeps no contents of its own.
pub data KBucket : Type 0 where
  leaf : (index : ℕ) → (splittable : Bool) → (bucket_contents : List ℕ) → KBucket
  branch : (index : ℕ) → (splittable : Bool) → (first second : KBucket) → KBucket

-- How a call ends: by returning, in undefined behaviour, or not within the fuel.
pub data Run {ℓ} (A : Type ℓ) : Type ℓ where
  ok : A → Run A
  undefined : Run A
  out_of_fuel : Run A

infixl 5 ◌>>=◌
abbrev pub ◌>>=◌ {ℓ κ} : {A : Type ℓ} {B : Type κ} → Run A → (A → Run B) → Run B
ok a >>= f = f a
undefined >>= f = undefined
out_of_fuel >>= f = out_of_fuel

abbrev pub bit_of : Option ℕ → ℕ → Run Bool
bit_of none split_bit = undefined
bit_of (some byte) split_bit = ok (byte / 2 ^ (7 - split_bit) % 2 == 1)

-- getBit: a read behind the end of the hash is undefined.
pub get_bit : Bytes → ℕ → Run Bool
get_bit hash bit_index = bit_of (get_elem? hash (bit_index / 8)) (bit_index % 8)

pub is_split : KBucket → Bool
is_split (leaf i s c) = false
is_split (branch i s f g) = true

pub count : KBucket → ℕ
count (leaf i s c) = length c
count (branch i s f g) = count f + count g

abbrev pub contains : ℕ → List ℕ → Bool
contains p [] = false
contains p (x ∷ xs) = x == p || contains p xs

-- std::find and erase: the first occurrence goes.
abbrev pub erase_first : ℕ → List ℕ → List ℕ
erase_first p [] = []
erase_first p (x ∷ xs) = if x == p then xs else x ∷ erase_first p xs

module _ (reliability : ℕ → Reliability) where
  is_bad : ℕ → Bool
  is_bad p = elim (reliability p) [ good ↦ false | questionable ↦ false | bad ↦ true ]

  pub kept : List ℕ → List ℕ
  unfolding is_bad
  kept [] = []
  kept (p ∷ ps) = let rest = kept ps in if is_bad p then rest else p ∷ rest

  -- std::remove_if without erase: the elements that stay move to the front, and the tail of the
  -- list is left as it was.
  pub remove_if_bad : List ℕ → List ℕ
  unfolding kept
  remove_if_bad contents = kept contents ++ drop (length (kept contents)) contents

-- One node goes to the half that its bit says, before the nodes behind it.
abbrev put_half : ℕ → Bool → List ℕ × List ℕ → List ℕ × List ℕ
put_half p false (fs, gs) = (p ∷ fs, gs)
put_half p true (fs, gs) = (fs, p ∷ gs)

-- The contents of the two halves after a split at the bit `index`: each node goes to its half, and
-- the order in each half is that of the bucket.
module _ (hash_of : ℕ → Bytes) where
  pub distribute : ℕ → List ℕ → Run (List ℕ × List ℕ)
  distribute index [] = ok ([], [])
  distribute index (p ∷ ps) = do
    b ← get_bit (hash_of p) index
    halves ← distribute index ps
    ok (put_half p b halves)

-- addNode goes on in the half that the node's hash asks for; the other half stays as it is.
abbrev add_to_half :
    (Bool → List ℕ → Run KBucket) → ℕ → Bool → Bool → List ℕ × List ℕ → Bool → Run KBucket
add_to_half add_half index splittable my_hash_bit (fs, gs) false = do
  first ← add_half (not my_hash_bit) fs
  ok (branch index splittable first (leaf (index + 1) my_hash_bit gs))
add_to_half add_half index splittable my_hash_bit (fs, gs) true = do
  second ← add_half my_hash_bit gs
  ok (branch index splittable (leaf (index + 1) (not my_hash_bit) fs) second)

abbrev in_first : ℕ → Bool → KBucket → KBucket → KBucket
in_first i s g f' = branch i s f' g

abbrev in_second : ℕ → Bool → KBucket → KBucket → KBucket
in_second i s f g' = branch i s f g'

-- determineBucket on a split bucket: the operation of the half that the bit asks for, and what the
-- whole bucket becomes.
abbrev pub at_half {ℓ} : {A : Type ℓ} → Run Bool → Run A → Run A → Run A
at_half (ok false) first second = first
at_half (ok true) first second = second
at_half undefined first second = undefined
at_half out_of_fuel first second = out_of_fuel

module _ (hash_of : ℕ → Bytes) (reliability : ℕ → Reliability) (k : ℕ) (node_hash : Bytes) where
  -- split(), and the call of addNode on the half that takes the node.
  pub split_and_add : (Bool → List ℕ → Run KBucket) → ℕ → Bool → List ℕ → ℕ → Run KBucket
  split_and_add add_half index splittable contents node = do
    my_hash_bit ← get_bit node_hash (index + 1)
    halves ← distribute hash_of (index + 1) contents
    b ← get_bit (hash_of node) (index + 1)
    add_to_half add_half index splittable my_hash_bit halves b

  -- addNode on a bucket that is not split. Each unit of fuel is for one more split.
  pub add_leaf : ℕ → ℕ → Bool → List ℕ → ℕ → Bool → Run KBucket
  add_leaf zero index splittable contents node force = out_of_fuel
  add_leaf (suc fuel) index splittable contents node force =
      let cleaned = remove_if_bad reliability contents in
      let split =
        split_and_add (λ s c. add_leaf fuel (index + 1) s c node force) index splittable cleaned
          node in
      if ltb (length contents) k
      then ok (leaf index splittable (contents ++ node ∷ []))
      else if contains node cleaned
      then ok (leaf index splittable cleaned)
      else if leb k (length cleaned) && splittable
      then split
      else if ltb (length cleaned) k || force
      then ok (leaf index splittable (cleaned ++ node ∷ []))
      else ok (leaf index splittable cleaned)

  pub add_node_within : ℕ → ℕ → Bool → KBucket → Run KBucket
  add_node_within fuel node force (leaf i s c) = add_leaf fuel i s c node force
  add_node_within fuel node force (branch i s f g) =
      let first = add_node_within fuel node force f in
      let second = add_node_within fuel node force g in
      at_half (get_bit (hash_of node) (i + 1)) (first >>= λ f'. ok (in_first i s g f'))
        (second >>= λ g'. ok (in_second i s f g'))

  -- addNode. A split reads the own hash at a bit that is one higher than in the bucket above, so
  -- there are fewer splits than bits.
  pub add_node : ℕ → Bool → KBucket → Run KBucket
  unfolding add_node_within add_leaf
  add_node node force b = add_node_within (suc (8 * length node_hash)) node force b

  -- rebuild: the contents go, the nodes of the list come; the argument node_hash is not used.
  pub add_all : List ℕ → KBucket → Run KBucket
  unfolding add_node
  add_all [] b = ok b
  add_all (p ∷ ps) b = add_node p false b >>= λ b'. add_all ps b'

  abbrev pub cleared : KBucket → KBucket
  cleared (leaf i s c) = leaf i s []
  cleared (branch i s f g) = leaf i s []

  pub rebuild : Bytes → List ℕ → KBucket → Run KBucket
  unfolding add_all
  rebuild new_node_hash node_list b = add_all node_list (cleared b)

module _ (hash_of : ℕ → Bytes) where
  -- removeNode
  pub remove_node : ℕ → KBucket → Run KBucket
  remove_node node (leaf i s c) = ok (leaf i s (erase_first node c))
  remove_node node (branch i s f g) =
      let first = remove_node node f in
      let second = remove_node node g in
      at_half (get_bit (hash_of node) (i + 1)) (first >>= λ f'. ok (in_first i s g f'))
        (second >>= λ g'. ok (in_second i s f g'))

-- The loop of getClosest over one bucket: `while(i < n || it != end)`. The iterator is never
-- advanced, so it stays at the first element, or at the end of an empty bucket.
pub closest_loop : ℕ → ℕ → ℕ → List ℕ → List ℕ → Run (List ℕ)
closest_loop zero i n contents result = out_of_fuel
closest_loop (suc fuel) i n [] result = if ltb i n then undefined else ok result
closest_loop (suc fuel) i n (p ∷ ps) result =
    closest_loop fuel (i + 1) n (p ∷ ps) (result ++ p ∷ [])

-- getClosest: the half of the hash first, then the other one if there are too few.
abbrev join_halves : ℕ → Run (List ℕ) → Run (List ℕ) → Run (List ℕ)
join_halves n near far = do
  result ← near
  if ltb (length result) n then (far >>= λ more. ok (result ++ more)) else ok result

pub get_closest : ℕ → Bytes → ℕ → KBucket → Run (List ℕ)
unfolding closest_loop
get_closest fuel hash n (leaf i s c) = closest_loop fuel 0 n c []
get_closest fuel hash n (branch i s f g) =
    let first = get_closest fuel hash n f in
    let second = get_closest fuel hash n g in
    at_half (get_bit hash (i + 1)) (join_halves n first second) (join_halves n second first)

-- KBucket(node_hash, k)
abbrev pub new_bucket : KBucket
new_bucket = leaf 0 true []

-- The contents of the bucket that determineBucket leads to, through all splits.
pub bucket_for : Bytes → KBucket → Run (List ℕ)
bucket_for hash (leaf i s c) = ok c
bucket_for hash (branch i s f g) =
    let first = bucket_for hash f in
    let second = bucket_for hash g in at_half (get_bit hash (i + 1)) first second
