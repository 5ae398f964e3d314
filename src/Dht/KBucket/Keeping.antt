-- ===== src/Dht/KBucket/Keeping.antt =====
-- What KBucket::addNode of src/daemon/dht/KBucket.cpp keeps of the nodes that were there.
use p2pnet.Base.{ℕ, ◌≡◌, true, false, List}
use p2pnet.Crypto.Hash.{Bytes}
use p2pnet.Dht.KBucket.Yields.{Yields}
use p2pnet.Dht.KBucket.Routing.{holds}
use p2pnet.Dht.KBucket.{KBucket, Reliability, contains, is_bad}

module _ (hash_of : ℕ → Bytes) (p : ℕ) where
  module _ (reliability : ℕ → Reliability) (fine : is_bad reliability p ≡ false) (k : ℕ)
      (node_hash : Bytes) (node : ℕ) where
    -- The tree holds the node if the list did.
    abbrev Still : List ℕ → KBucket → Type 0
    Still c b = contains p c ≡ true → holds p b ≡ true
