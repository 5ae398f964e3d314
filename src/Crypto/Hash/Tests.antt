-- ===== src/Crypto/Hash/Tests.antt =====
-- Orders and distances of hashes of two bytes.
use p2pnet.Base.{true, [], ◌∷◌}
use p2pnet.Crypto.Hash.{Hash, Bytes}

abbrev hash_of : Bytes → Hash
hash_of bytes = record { hash = bytes; hasher = true }

abbrev one_two : Hash
one_two = hash_of (1 ∷ 2 ∷ [])

abbrev one_three : Hash
one_three = hash_of (1 ∷ 3 ∷ [])

abbrev nine_two : Hash
nine_two = hash_of (9 ∷ 2 ∷ [])
