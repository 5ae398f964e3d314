-- ===== src/Crypto/Base58.antt =====
-- src/common/crypto/base58.cpp. Botan::BigInt is a natural number here; its conversions from and to
-- big-endian bytes are parameters.
pub mod RoundTrip
mod Tests
use p2pnet.Base.{
  ℕ, zero, suc, ◌+◌, ◌-◌, ◌*◌, ◌/◌, ◌%◌, ◌^◌, List, [], ◌∷◌, Option, none, some, ltb, leb, ◌==◌,
  if◌then◌else◌, codes,
}
use mathlib.Core.List.{reverse}
use p2pnet.Crypto.Hash.{Bytes}

abbrev pub base58_alphabet : Bytes
base58_alphabet = codes "123456789abcdefghijkmnopqrstuvwxyzABCDEFGHJKLMNPQRSTUVWXYZ"

-- base58_alphabet[i]; the loop below asks for i < 58 only.
pub symbol : Bytes → ℕ → ℕ
symbol [] i = 0
symbol (c ∷ cs) zero = c
symbol (c ∷ cs) (suc i) = symbol cs i

-- std::string::npos
abbrev pub npos : ℕ
npos = 2 ^ 64 - 1

find_from : ℕ → Bytes → ℕ → ℕ
find_from i [] c = npos
find_from i (x ∷ xs) c = if x == c then i else find_from (i + 1) xs c

-- base58_alphabet.find(c)
pub find_symbol : ℕ → ℕ
unfolding find_from
find_symbol c = find_from 0 base58_alphabet c

-- The while loop of encodeToBase58 and the last digit after it. `none` is running out of fuel.
pub encode_loop : ℕ → ℕ → Bytes → Option Bytes
encode_loop zero big_data result = none
encode_loop (suc fuel) big_data result =
    let rest = encode_loop fuel (big_data / 58) (symbol base58_alphabet (big_data % 58) ∷ result) in
    if leb 58 big_data
    then rest
    else some (if ltb 0 big_data then symbol base58_alphabet big_data ∷ result else result)

-- The for loop of decodeFromBase58, over the characters from the last to the first; the state is
-- (big_data, multi).
pub decode_loop : Bytes → ℕ → ℕ → ℕ × ℕ
decode_loop [] big_data multi = (big_data, multi)
decode_loop (c ∷ cs) big_data multi = decode_loop cs (big_data + multi * find_symbol c) (multi * 58)

module _ (decode : Bytes → ℕ) (encode : ℕ → Bytes) where
  -- Each round divides by 58, so as many rounds as the number's value are enough.
  pub encode_to_base58 : Bytes → Option Bytes
  unfolding encode_loop
  encode_to_base58 input = encode_loop (suc (decode input)) (decode input) []

  pub decode_from_base58 : Bytes → Bytes
  unfolding decode_loop
  decode_from_base58 base58 = encode (decode_loop (reverse base58) 0 1).0
