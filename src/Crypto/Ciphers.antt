-- ===== src/Crypto/Ciphers.antt =====
-- src/common/crypto/ECDH.{h,cpp} and AES.{h,cpp}. Botan's parts come with those of the keys, and its cipher
-- AES-128/CBC is a parameter. `none` is undefined behaviour, as there.
pub mod Binary
use p2pnet.Base.{
  ℕ, Bool, true, false, ◌&&◌, ◌*◌, List, [], ◌∷◌, ◌++◌, Option, none, some, length, take, drop, ltb,
  if◌then◌else◌,
}
use mathlib.Core.Option
use p2pnet.Crypto.Hash.{Bytes}
use p2pnet.Crypto.MathString.{MathString}
use p2pnet.Crypto.Keys.{Botan, is_present}

-- ECDH; a key is its private value.
pub record Ecdh : Type 0 where
  pub key_private : Option ℕ

pub new_ecdh : Ecdh
new_ecdh = record { key_private = none }

pub copy_ecdh : Ecdh → Option Ecdh
copy_ecdh rvalue = Option.map (λ key. record { key_private = some key }) rvalue.key_private

pub assign_ecdh : Ecdh → Ecdh → Option Ecdh
assign_ecdh this rvalue =
    Option.map (λ key. record this { key_private = some key }) rvalue.key_private

-- The move constructor and operator=(ECDH&&): (this, rvalue).
pub move_ecdh : Ecdh → Ecdh → Ecdh × Ecdh
move_ecdh this rvalue = (rvalue, this)

pub ecdh_present : Ecdh → Bool
ecdh_present this = is_present this.key_private

module _ (botan : Botan) where
  pub generate_ecdh : (randomness : ℕ) → Ecdh
  generate_ecdh randomness = record { key_private = some (botan.generate_private_key randomness) }

  pub derive_symmetric_key :
      Ecdh → (key_length : ℕ) → (other_pubkey session_param : Bytes) → Option Bytes
  derive_symmetric_key this key_length other_pubkey session_param =
      Option.map (λ key. botan.derive_key key key_length other_pubkey session_param)
        this.key_private

  pub ecdh_public_key : Ecdh → Option Bytes
  ecdh_public_key this = Option.map botan.public_value this.key_private

  pub set_ecdh : Bytes → Ecdh → Option Ecdh
  set_ecdh serialized_vector this =
      some (record this { key_private = botan.load_private_key serialized_vector })

  pub ecdh_to_binary : Ecdh → Option Bytes
  ecdh_to_binary this = Option.map botan.ber_encode_private this.key_private

  abbrev pub ecdh_string : MathString Ecdh
  ecdh_string = record {
    initial = record { key_private = none };
    set_as_binary_vector = set_ecdh;
    to_binary_vector = ecdh_to_binary;
  }

-- AES
pub record Aes : Type 0 where
  pub key : Bytes
  pub iv : Bytes

abbrev pub key_size : ℕ
key_size = 16

abbrev pub vector_size : ℕ
vector_size = key_size * 2

pub aes_present : Aes → Bool
aes_present this = ltb 0 (length this.key) && ltb 0 (length this.iv)

pub aes_encrypt : (cipher : (key iv input : Bytes) → Bytes) → Aes → Bytes → Bytes
aes_encrypt cipher this input = cipher this.key this.iv input

pub aes_decrypt : (cipher : (key iv input : Bytes) → Bytes) → Aes → Bytes → Bytes
aes_decrypt cipher this input = cipher this.key this.iv input

-- setAsBinaryVector: the iterators go up to vectorSize() behind the begin.
pub set_aes : Bytes → Aes → Option Aes
set_aes serialized_vector this =
    if ltb (length serialized_vector) vector_size
    then none
    else some (record {
      key = take key_size serialized_vector;
      iv = take key_size (drop key_size serialized_vector);
    })

pub aes_to_binary : Aes → Option Bytes
aes_to_binary this = some (this.key ++ this.iv)

abbrev pub aes_string : MathString Aes
aes_string = record {
  initial = record { key = []; iv = [] };
  set_as_binary_vector = set_aes;
  to_binary_vector = aes_to_binary;
}
