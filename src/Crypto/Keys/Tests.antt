-- ===== src/Crypto/Keys/Tests.antt =====
-- A private key of two bytes, with the numbers for Botan's keys and a big-endian codec.
use p2pnet.Base.{
  ℕ, zero, suc, ◌+◌, ◌*◌, ◌/◌, ◌%◌, ◌≡◌, true, [], ◌∷◌, ◌++◌, none, some, refl, length, ◌==◌,
  if◌then◌else◌, arith,
}
use mathlib.Core.Option.{bind}
use p2pnet.Crypto.Hash.{Bytes}
use p2pnet.Crypto.MathString.{
  Filters, to_hex, from_hex, to_base64, from_base64, to_base58, from_base58, to_binary_string,
  from_binary_string,
}
use p2pnet.Crypto.Keys.{
  Botan, PrivateKeyDsa, private_key_string, private_key_to_binary, dsa_byte_length,
}
use p2pnet.Crypto.Keys.Binary.{private_key-round_trip}

abbrev read_bytes : ℕ → Bytes → ℕ
read_bytes n [] = n
read_bytes n (b ∷ bs) = read_bytes (n * 256 + b) bs

-- The bytes of a number, as many as the fuel allows.
abbrev write_bytes : ℕ → ℕ → Bytes
write_bytes zero n = []
write_bytes (suc fuel) n =
    let rest = write_bytes fuel (n / 256) in if n == 0 then [] else rest ++ n % 256 ∷ []

abbrev botan : Botan
botan = record {
  PublicKey = ℕ;
  make_private_key = λ randomness x. x;
  generate_private_key = λ randomness. randomness;
  public_key_of = λ key. key;
  binary_decode = read_bytes 0;
  binary_encode = write_bytes 4;
  load_private_key = λ text. none;
  ber_encode_private = λ key. [];
  pem_encode_private = λ key. [];
  load_public_key = λ text. none;
  ber_encode_public = λ key. [];
  pem_encode_public = λ key. [];
  sign_message = λ emsa1 randomness key message. [];
  verify_message = λ emsa1 key message signature. true;
  encrypt_message = λ randomness key message. message;
  decrypt_message = λ key message. message;
  check_key = λ key. true;
  derive_key = λ key key_length other session. [];
  public_value = λ key. [];
}

-- A text that is the bytes themselves.
abbrev plain : Filters
plain = record { encoder = λ bs. bs; decoder = λ bs. bs }

abbrev key_300 : PrivateKeyDsa
key_300 = record { key_private = some 300 }

private_key-round_trip_example :
    let keys = private_key_string botan 0 in
    (v : Bytes) × (private_key_to_binary botan key_300 ≡ some v)
    × (length v ≡ dsa_byte_length)
    × (bind (to_binary_string keys key_300) (from_binary_string keys) ≡ some key_300)
    × (bind (to_hex keys plain key_300) (from_hex keys plain) ≡ some key_300)
    × (bind (to_base64 keys plain key_300) (from_base64 keys plain) ≡ some key_300)
    × (bind
          (to_base58 keys (read_bytes 0) (write_bytes 4) key_300)
          (from_base58 keys (read_bytes 0) (write_bytes 4))
        ≡ some key_300)
private_key-round_trip_example =
    private_key-round_trip botan 0 300 (λ bs. refl) refl refl (omega arith) plain plain
      (write_bytes 4) (λ bs. refl) (λ bs. refl) refl
