-- ===== src/Client/KeyPair.antt =====
-- src/library/Crypto.cpp: the texts of a new key pair, with the parts of Botan that src/common/crypto uses.
-- `none` is undefined behaviour. The C form copies the two texts, which hold no null byte.
use p2pnet.Base.{ℕ, Option, none, some}
use mathlib.Core.Option.{bind}
use p2pnet.Crypto.Hash.{Bytes}
use p2pnet.Crypto.MathString.{to_base58}
use p2pnet.Crypto.Keys.{
  Botan, generate_private_key, derive_public_key, private_key_string, public_key_string,
}

-- p2p_KeyPair
pub record KeyPair : Type 0 where
  pub private_key : Bytes
  pub public_key : Bytes

abbrev pair : Option Bytes → Option Bytes → Option KeyPair
pair (some private_key) (some public_key) =
    some (record { private_key = private_key; public_key = public_key })
pair (some private_key) none = none
pair none public_key = none

-- generateKeyPair and p2p_generateKeyPair
pub generate_key_pair : Botan → (encode : ℕ → Bytes) → (randomness : ℕ) → Option KeyPair
unfolding bind
generate_key_pair botan encode randomness =
    let new_private_key = generate_private_key botan randomness in
    pair
      (to_base58 (private_key_string botan randomness) botan.binary_decode encode new_private_key)
      (bind (derive_public_key botan new_private_key)
        (to_base58 (public_key_string botan) botan.binary_decode encode))
