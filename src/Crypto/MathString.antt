-- ===== src/Crypto/MathString.antt =====
-- src/common/crypto/MathString.h, base_convert.h, base16.cpp, base64.cpp and crc32.cpp: the texts of
-- hashes and keys. A byte vector and a std::string made of it are the same list. Botan's pipes, its CRC
-- and the conversions of its BigInt are parameters.
pub mod Texts
use Prim.Native.Nat.{bit_or}
use p2pnet.Base.{ℕ, ◌*◌, ◌%◌, ◌^◌, List, [], ◌∷◌, Option, none, some}
use mathlib.Core.Option
use mathlib.Core.Option.{bind}
use p2pnet.Crypto.Hash.{Bytes}
use p2pnet.Crypto.Base58.{encode_to_base58, decode_from_base58}

-- What a class derived from MathString gives. `none` is undefined behaviour, such as a null key or a
-- vector that is too short.
pub record MathString (T : Type 0) : Type 0 where
  pub initial : T
  pub set_as_binary_vector : Bytes → T → Option T
  pub to_binary_vector : T → Option Bytes

-- A pair of Botan's filters, Hex_Encoder and Hex_Decoder or Base64_Encoder and Base64_Decoder.
pub record Filters : Type 0 where
  pub encoder : Bytes → Bytes
  pub decoder : Bytes → Bytes

pub encode_to_hex : Filters → Bytes → Bytes
encode_to_hex hex input = hex.encoder input

pub decode_from_hex : Filters → Bytes → Bytes
decode_from_hex hex hex_string = hex.decoder hex_string

pub encode_to_base64 : Filters → Bytes → Bytes
encode_to_base64 base64 input = base64.encoder input

pub decode_from_base64 : Filters → Bytes → Bytes
decode_from_base64 base64 base64_string = base64.decoder base64_string

-- crc32_v[0] << 24 | ... for the bytes of Botan's CRC-32; `none` is a vector of another length than four,
-- which Botan does not give.
abbrev joined : Bytes → Option ℕ
joined (b0 ∷ b1 ∷ b2 ∷ b3 ∷ []) =
    some (bit_or (b0 * 2 ^ 24 % 2 ^ 32) (bit_or (b1 * 2 ^ 16) (bit_or (b2 * 2 ^ 8) b3)))
joined v = none

pub compute_crc32 : (crc32 : Bytes → Bytes) → Bytes → Option ℕ
compute_crc32 crc32 input = joined (crc32 input)

module _ {T : Type 0} (m : MathString T) where
  pub from_binary_vector : Bytes → Option T
  from_binary_vector serialized_vector = m.set_as_binary_vector serialized_vector m.initial

  pub set_as_binary_string : Bytes → T → Option T
  set_as_binary_string serialized_string t = m.set_as_binary_vector serialized_string t

  pub from_binary_string : Bytes → Option T
  unfolding set_as_binary_string
  from_binary_string serialized_string = set_as_binary_string serialized_string m.initial

  pub to_binary_string : T → Option Bytes
  to_binary_string t = m.to_binary_vector t

  module _ (filters : Filters) where
    pub set_as_hex : Bytes → T → Option T
    unfolding decode_from_hex set_as_binary_string
    set_as_hex hex_string t = set_as_binary_string (decode_from_hex filters hex_string) t

    pub from_hex : Bytes → Option T
    unfolding set_as_hex
    from_hex hex_string = set_as_hex hex_string m.initial

    pub to_hex : T → Option Bytes
    unfolding encode_to_hex to_binary_string
    to_hex t = Option.map (encode_to_hex filters) (to_binary_string t)

    pub set_as_base64 : Bytes → T → Option T
    unfolding decode_from_base64 set_as_binary_string
    set_as_base64 b64_string t = set_as_binary_string (decode_from_base64 filters b64_string) t

    pub from_base64 : Bytes → Option T
    unfolding set_as_base64
    from_base64 b64_string = set_as_base64 b64_string m.initial

    pub to_base64 : T → Option Bytes
    unfolding encode_to_base64 to_binary_string
    to_base64 t = Option.map (encode_to_base64 filters) (to_binary_string t)

  module _ (decode : Bytes → ℕ) (encode : ℕ → Bytes) where
    pub set_as_base58 : Bytes → T → Option T
    unfolding set_as_binary_string
    set_as_base58 b58_string t =
        set_as_binary_string (decode_from_base58 decode encode b58_string) t

    pub from_base58 : Bytes → Option T
    unfolding set_as_base58
    from_base58 b58_string = set_as_base58 b58_string m.initial

    pub to_base58 : T → Option Bytes
    unfolding to_binary_string bind
    to_base58 t = bind (to_binary_string t) (encode_to_base58 decode encode)
