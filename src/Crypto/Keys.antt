-- ===== src/Crypto/Keys.antt =====
-- src/common/crypto/PrivateKeyDSA.{h,cpp}, PublicKeyDSA.{h,cpp}, ECDH.{h,cpp} and AES.{h,cpp}. Botan's keys
-- and what it computes with them are parameters: a private key is its private value. `none` is undefined
-- behaviour: a null key is used, or bytes outside of a vector are read or written. Input that Botan
-- refuses with an exception is left out.
pub mod Binary
mod Tests
use p2pnet.Base.{
  ℕ, zero, suc, ◌-◌, Bool, true, false, ◌&&◌, not, List, [], ◌∷◌, ◌++◌, Option, none, some, length,
  take, drop, ltb, ◌==◌, if◌then◌else◌,
}
use mathlib.Core.Option
use p2pnet.Crypto.Hash.{Bytes}
use p2pnet.Crypto.MathString.{MathString}

-- A std::unique_ptr to a key.
abbrev pub is_present {ℓ} : {A : Type ℓ} → Option A → Bool
is_present none = false
is_present (some key) = true

-- PrivateKeyDSA; `key_private` is the key's private value.
pub record PrivateKeyDsa : Type 0 where
  pub key_private : Option ℕ

pub new_private_key : PrivateKeyDsa
new_private_key = record { key_private = none }

-- The copy constructor.
pub copy_private_key : PrivateKeyDsa → Option PrivateKeyDsa
copy_private_key rvalue = Option.map (λ key. record { key_private = some key }) rvalue.key_private

-- operator=(const PrivateKeyDSA&): the target and what becomes of it.
pub assign_private_key : PrivateKeyDsa → PrivateKeyDsa → Option PrivateKeyDsa
assign_private_key this rvalue =
    Option.map (λ key. record this { key_private = some key }) rvalue.key_private

-- operator=(PrivateKeyDSA&&) and the move constructor swap: (this, rvalue).
pub move_private_key : PrivateKeyDsa → PrivateKeyDsa → PrivateKeyDsa × PrivateKeyDsa
move_private_key this rvalue = (rvalue, this)

-- operator==
pub private_keys_equal : PrivateKeyDsa → PrivateKeyDsa → Option Bool
private_keys_equal this rvalue = elim this.key_private [
  | none ↦ none
  | some key ↦ Option.map (λ other. key == other) rvalue.key_private
]

abbrev pub dsa_byte_length : ℕ
dsa_byte_length = 32

abbrev zeros : ℕ → Bytes
zeros zero = []
zeros (suc n) = 0 ∷ zeros n

-- The copy of vectorized_val from its end to the end of result_vector, which has dsa_byte_length zeros.
pub right_aligned : Bytes → Option Bytes
right_aligned vectorized_val =
    if ltb dsa_byte_length (length vectorized_val)
    then none
    else some (zeros (dsa_byte_length - length vectorized_val) ++ vectorized_val)

-- The public key, and what is computed with keys: `emsa1` says whether EMSA1 or Raw is used, and the
-- randomness is an argument. A key that is read is null if it is one of another kind.
pub record Botan : Type 1 where
  pub PublicKey : Type 0
  -- ECDSA_PrivateKey(rng, group, x), which makes a random key of 0.
  pub make_private_key : (randomness x : ℕ) → ℕ
  pub generate_private_key : (randomness : ℕ) → ℕ
  pub public_key_of : ℕ → PublicKey
  pub binary_decode : Bytes → ℕ
  pub binary_encode : ℕ → Bytes
  pub load_private_key : Bytes → Option ℕ
  pub ber_encode_private : ℕ → Bytes
  pub pem_encode_private : ℕ → Bytes
  pub load_public_key : Bytes → Option PublicKey
  pub ber_encode_public : PublicKey → Bytes
  pub pem_encode_public : PublicKey → Bytes
  pub sign_message : (emsa1 : Bool) → (randomness key : ℕ) → Bytes → Bytes
  pub verify_message : (emsa1 : Bool) → PublicKey → (message signature : Bytes) → Bool
  pub encrypt_message : (randomness : ℕ) → PublicKey → Bytes → Bytes
  pub decrypt_message : (key : ℕ) → Bytes → Bytes
  pub check_key : PublicKey → Bool
  pub derive_key : (key key_length : ℕ) → (other_public_key session_param : Bytes) → Bytes
  pub public_value : ℕ → Bytes

module _ (botan : Botan) where
  -- PublicKeyDSA
  pub record PublicKeyDsa : Type 0 where
    pub key_public : Option botan.PublicKey

  pub generate_private_key : (randomness : ℕ) → PrivateKeyDsa
  generate_private_key randomness = record {
    key_private = some (botan.generate_private_key randomness);
  }

  pub set_private_key : (randomness : ℕ) → Bytes → PrivateKeyDsa → Option PrivateKeyDsa
  set_private_key randomness serialized_vector this = some (record this {
    key_private = some (botan.make_private_key randomness (botan.binary_decode serialized_vector));
  })

  pub private_key_to_binary : PrivateKeyDsa → Option Bytes
  unfolding right_aligned
  private_key_to_binary this = elim this.key_private [
    | none ↦ none
    | some key ↦ right_aligned (botan.binary_encode key)
  ]

  abbrev pub private_key_string : (randomness : ℕ) → MathString PrivateKeyDsa
  private_key_string randomness = record {
    initial = record { key_private = none };
    set_as_binary_vector = set_private_key randomness;
    to_binary_vector = private_key_to_binary;
  }

  pub decrypt : PrivateKeyDsa → Bytes → Option Bytes
  decrypt this enc_data = Option.map (λ key. botan.decrypt_message key enc_data) this.key_private

  pub sign : (randomness : ℕ) → PrivateKeyDsa → Bytes → Option Bytes
  sign randomness this message =
      Option.map (λ key. botan.sign_message true randomness key message) this.key_private

  pub sign_raw : (randomness : ℕ) → PrivateKeyDsa → Bytes → Option Bytes
  sign_raw randomness this message =
      Option.map (λ key. botan.sign_message false randomness key message) this.key_private

  -- fromPEM and fromBER, which read the same forms.
  pub private_key_from_pem : Bytes → PrivateKeyDsa → PrivateKeyDsa
  private_key_from_pem pem this = record this { key_private = botan.load_private_key pem }

  pub private_key_from_ber : Bytes → PrivateKeyDsa → PrivateKeyDsa
  private_key_from_ber ber_encoded this = record this {
    key_private = botan.load_private_key ber_encoded;
  }

  pub private_key_to_pem : PrivateKeyDsa → Option Bytes
  private_key_to_pem this = Option.map botan.pem_encode_private this.key_private

  pub private_key_to_ber : PrivateKeyDsa → Option Bytes
  private_key_to_ber this = Option.map botan.ber_encode_private this.key_private

  pub new_public_key : PublicKeyDsa
  new_public_key = record { key_public = none }

  -- PublicKeyDSA(const PrivateKeyDSA&)
  pub public_key_of : PrivateKeyDsa → Option PublicKeyDsa
  public_key_of privkey_dsa =
      Option.map (λ key. record { key_public = some (botan.public_key_of key) })
        privkey_dsa.key_private

  pub derive_public_key : PrivateKeyDsa → Option PublicKeyDsa
  unfolding public_key_of
  derive_public_key this = public_key_of this

  pub copy_public_key : PublicKeyDsa → Option PublicKeyDsa
  copy_public_key rvalue = Option.map (λ key. record { key_public = some key }) rvalue.key_public

  pub assign_public_key : PublicKeyDsa → PublicKeyDsa → Option PublicKeyDsa
  assign_public_key this rvalue =
      Option.map (λ key. record this { key_public = some key }) rvalue.key_public

  pub move_public_key : PublicKeyDsa → PublicKeyDsa → PublicKeyDsa × PublicKeyDsa
  move_public_key this rvalue = (rvalue, this)

  pub public_key_present : PublicKeyDsa → Bool
  public_key_present this = is_present this.key_public

  pub encrypt : (randomness : ℕ) → PublicKeyDsa → Bytes → Option Bytes
  encrypt randomness this message =
      Option.map (λ key. botan.encrypt_message randomness key message) this.key_public

  pub verify : PublicKeyDsa → (message signature : Bytes) → Option Bool
  verify this message signature =
      Option.map (λ key. botan.verify_message true key message signature) this.key_public

  pub verify_raw : PublicKeyDsa → (message signature : Bytes) → Option Bool
  verify_raw this message signature =
      Option.map (λ key. botan.verify_message false key message signature) this.key_public

  pub validate : PublicKeyDsa → Option Bool
  validate this = Option.map botan.check_key this.key_public

  pub public_key_from_pem : Bytes → PublicKeyDsa → PublicKeyDsa
  public_key_from_pem pem this = record this { key_public = botan.load_public_key pem }

  pub public_key_to_pem : PublicKeyDsa → Option Bytes
  public_key_to_pem this = Option.map botan.pem_encode_public this.key_public

  pub set_public_key : Bytes → PublicKeyDsa → Option PublicKeyDsa
  set_public_key serialized_vector this =
      some (record this { key_public = botan.load_public_key serialized_vector })

  pub public_key_to_binary : PublicKeyDsa → Option Bytes
  public_key_to_binary this = Option.map botan.ber_encode_public this.key_public

  abbrev pub public_key_string : MathString PublicKeyDsa
  public_key_string = record {
    initial = record { key_public = none };
    set_as_binary_vector = set_public_key;
    to_binary_vector = public_key_to_binary;
  }
