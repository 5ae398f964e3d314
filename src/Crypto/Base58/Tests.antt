-- ===== src/Crypto/Base58/Tests.antt =====
-- The base58 text of two bytes behind a zero, with a big-endian codec.
use p2pnet.Base.{
  ℕ, zero, suc, ◌+◌, ◌*◌, ◌/◌, ◌%◌, ◌≡◌, refl, [], ◌∷◌, ◌++◌, some, ◌==◌, if◌then◌else◌,
}
use p2pnet.Crypto.Hash.{Bytes}
use p2pnet.Crypto.Base58.{encode_to_base58, decode_from_base58}
use p2pnet.Crypto.Base58.RoundTrip.{decode-encode_base58}

abbrev read_bytes : ℕ → Bytes → ℕ
read_bytes n [] = n
read_bytes n (b ∷ bs) = read_bytes (n * 256 + b) bs

-- The bytes of a number, as many as the fuel allows.
abbrev write_bytes : ℕ → ℕ → Bytes
write_bytes zero n = []
write_bytes (suc fuel) n =
    let rest = write_bytes fuel (n / 256) in if n == 0 then [] else rest ++ n % 256 ∷ []

abbrev sample : Bytes
sample = 0 ∷ 1 ∷ 44 ∷ []

decode-encode_base58_example :
    (text : Bytes) × (encode_to_base58 (read_bytes 0) (write_bytes 4) sample ≡ some text)
    × (decode_from_base58 (read_bytes 0) (write_bytes 4) text ≡ 1 ∷ 44 ∷ [])
decode-encode_base58_example = decode-encode_base58 (read_bytes 0) (write_bytes 4) sample refl
