-- ===== src/Crypto/MathString/Texts.antt =====
-- Reading the texts of MathString.h back.
use p2pnet.Base.{ℕ, ◌≡◌, refl, some}
use mathlib.Core.Option.{bind}
use p2pnet.Crypto.Hash.{Bytes}
use p2pnet.Crypto.Base58.RoundTrip.{strip_zeros, decode-encode_base58}
use p2pnet.Crypto.MathString.{
  MathString, Filters, from_binary_string, to_binary_string, set_as_binary_string, set_as_hex,
  from_hex, to_hex, set_as_base64, from_base64, to_base64, set_as_base58, from_base58, to_base58,
  encode_to_hex, decode_from_hex, encode_to_base64, decode_from_base64,
}

-- Botan's decoder undoes its encoder.
abbrev pub Inverse : Filters → Type 0
Inverse filters = (bs : Bytes) → filters.decoder (filters.encoder bs) ≡ bs

module _ {T : Type 0} (m : MathString T) (t : T) (v : Bytes)
    (is : m.to_binary_vector t ≡ some v) where
  -- If an object has the bytes v, Botan's decoders undo its encoders, and BigInt writes what it reads
  -- from v without the zeros that lead it: the hexadecimal and the base64 text and the binary string of
  -- the object read back as v itself does; its base58 text is made, and reads back as v without the
  -- zeros that lead it.
  pub from_text-to_text :
      (hex base64 : Filters) (decode : Bytes → ℕ) (encode : ℕ → Bytes)
      → Inverse hex
      → Inverse base64
      → encode (decode v) ≡ strip_zeros v
      → (bind (to_hex m hex t) (from_hex m hex) ≡ m.set_as_binary_vector v m.initial)
        × (bind (to_base64 m base64 t) (from_base64 m base64) ≡ m.set_as_binary_vector v m.initial)
        × (bind (to_binary_string m t) (from_binary_string m) ≡ m.set_as_binary_vector v m.initial)
        × (bind (to_base58 m decode encode t) (from_base58 m decode encode)
            ≡ m.set_as_binary_vector (strip_zeros v) m.initial)
  unfolding bind to_hex from_hex set_as_hex encode_to_hex decode_from_hex to_base64 from_base64
      set_as_base64 encode_to_base64 decode_from_base64 to_binary_string from_binary_string
      set_as_binary_string to_base58 from_base58 set_as_base58
  from_text-to_text hex base64 decode encode hex_inverse base64_inverse back =
      let (text, made, read) = decode-encode_base58 decode encode v back in
      (
        rw (is, hex_inverse v) refl,
        rw (is, base64_inverse v) refl,
        rw is refl,
        rw (is, made, read) refl,
      )
