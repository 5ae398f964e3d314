-- ===== src/Crypto/Hash.antt =====
-- src/common/crypto/Hash.h, Hash.cpp and the binary part of MathString.h. A Botan byte vector is a list
-- of numbers below 256; a std::string made of one is the same list. Keccak is a parameter.
pub mod Order
pub mod Distance
mod Tests
use Prim.Native.Nat.{bit_xor, max}
use p2pnet.Base.{
  ℕ, zero, suc, Bool, true, false, ◌||◌, ◌&&◌, not, List, [], ◌∷◌, Option, none, some, ltb, ◌==◌,
  length, if◌then◌else◌,
}
use p2pnet.Base.Maps.{bytes_beq}

abbrev pub Bytes : Type 0
Bytes = List ℕ

-- `hasher` says whether the unique_ptr to the Keccak object is set.
pub record Hash : Type 0 where
  pub hash : Bytes
  pub hasher : Bool

-- Hash()
unfoldable pub empty_hash : Hash
empty_hash = record { hash = []; hasher = true }

-- Hash(const Hash&): the hasher of the new object stays null.
pub copy : Hash → Hash
copy rhash = record { hash = rhash.hash; hasher = false }

-- operator=(const Hash&): the hasher of the target is kept.
pub assign : Hash → Hash → Hash
assign this rhash = record this { hash = rhash.hash }

-- operator=(Hash&&): both members are swapped; the pair is (this, rhash).
pub move_assign : Hash → Hash → Hash × Hash
move_assign this rhash = (rhash, this)

pub set_as_binary_vector : Hash → Bytes → Hash
set_as_binary_vector this serialized_vector = record this { hash = serialized_vector }

pub to_binary_vector : Hash → Bytes
to_binary_vector this = this.hash

-- MathString::fromBinaryVector
pub from_binary_vector : Bytes → Hash
unfolding empty_hash set_as_binary_vector
from_binary_vector serialized_vector = set_as_binary_vector empty_hash serialized_vector

pub equals : Hash → Hash → Bool
equals this rhash = bytes_beq this.hash rhash.hash

-- operator bool
pub is_set : Hash → Bool
is_set this = elim this.hash [ [] ↦ false | x ∷ xs ↦ true ]

pub clear : Hash → Hash
clear this = record this { hash = [] }

module _ (keccak : Bytes → Bytes) where
  -- `none` is the call through a null `hasher`.
  pub compute : Hash → Bytes → Option Hash
  unfolding set_as_binary_vector
  compute this input = if this.hasher then some (set_as_binary_vector this (keccak input)) else none

  pub compute_new : Bytes → Option Hash
  unfolding empty_hash compute
  compute_new input = compute empty_hash input

  pub check : Hash → Bytes → Option Bool
  unfolding empty_hash compute to_binary_vector
  check this input = elim (compute empty_hash input) [
    | none ↦ none
    | some h ↦ some (bytes_beq (to_binary_vector h) (to_binary_vector this))
  ]

-- std::vector::resize: cut, or filled up with zeros.
abbrev pub resize : ℕ → Bytes → Bytes
resize zero v = []
resize (suc n) [] = 0 ∷ resize n []
resize (suc n) (x ∷ v) = x ∷ resize n v

-- for(size_t i; i < max_size; i++) result_v[i] = this_v[i] ^ right_v[i], over a zeroed `result_v`.
-- The source does not initialise `i`: `start` is the value that it happens to have.
pub xor_loop : ℕ → Bytes → Bytes → Bytes
xor_loop start [] right_v = []
xor_loop start (x ∷ this_v) [] = []
xor_loop zero (x ∷ this_v) (y ∷ right_v) = bit_xor x y ∷ xor_loop zero this_v right_v
xor_loop (suc start) (x ∷ this_v) (y ∷ right_v) = 0 ∷ xor_loop start this_v right_v

-- operator^
pub distance : ℕ → Hash → Hash → Hash
unfolding xor_loop from_binary_vector to_binary_vector
distance start this rhash =
    let max_size = max (length this.hash) (length rhash.hash) in
    from_binary_vector (xor_loop start (resize max_size this.hash) (resize max_size rhash.hash))

-- std::string's operator<: bytes compare as unsigned, and a prefix is the smaller.
pub string_lt : Bytes → Bytes → Bool
string_lt xs [] = false
string_lt [] (y ∷ ys) = true
string_lt (x ∷ xs) (y ∷ ys) = ltb x y || ((x == y) && string_lt xs ys)

-- operator<
pub less : Hash → Hash → Bool
unfolding string_lt
less this lhash = string_lt this.hash lhash.hash
