-- ===== src/Crypto/Keys/Binary.antt =====
-- The binary and text forms of a private key of src/common/crypto/PrivateKeyDSA.cpp.
use p2pnet.Base.{
  ℕ, zero, suc, ◌≤◌, ◌-◌, ◌≡◌, refl, ◌∙◌, ap, sym, arith, [], ◌∷◌, ◌++◌, none, some, length,
  length-append, false, ltb,
}
use mathlib.Core.Option.{bind}
use p2pnet.Crypto.Hash.{Bytes}
use p2pnet.Crypto.Base58.RoundTrip.{strip_zeros}
use p2pnet.Crypto.MathString.{
  Filters, to_hex, from_hex, to_base64, from_base64, to_binary_string, from_binary_string,
  to_base58, from_base58,
}
use p2pnet.Crypto.MathString.Texts.{Inverse, from_text-to_text}
use p2pnet.Crypto.Keys.{
  Botan, PrivateKeyDsa, private_key_string, set_private_key, private_key_to_binary, right_aligned,
  zeros, dsa_byte_length,
}

length-zeros : (n : ℕ) → length (zeros n) ≡ n
length-zeros zero = refl
length-zeros (suc n) = ap suc (length-zeros n)

-- A big-endian reading takes no notice of zeros in front.
module _ (decode : Bytes → ℕ) (zero_first : (bs : Bytes) → decode (0 ∷ bs) ≡ decode bs) where
  decode-zeros : (n : ℕ) (bs : Bytes) → decode (zeros n ++ bs) ≡ decode bs
  decode-zeros zero bs = refl
  decode-zeros (suc n) bs = zero_first (zeros n ++ bs) ∙ decode-zeros n bs

  decode-strip_zeros : (bs : Bytes) → decode (strip_zeros bs) ≡ decode bs
  decode-strip_zeros [] = refl
  decode-strip_zeros (zero ∷ bs) = decode-strip_zeros bs ∙ sym (zero_first bs)
  decode-strip_zeros (suc b ∷ bs) = refl

module _ (botan : Botan) (randomness key : ℕ)
    (zero_first : (bs : Bytes) → botan.binary_decode (0 ∷ bs) ≡ botan.binary_decode bs)
    (reads_back : botan.binary_decode (botan.binary_encode key) ≡ key)
    (kept : botan.make_private_key randomness key ≡ key)
    (fits : length (botan.binary_encode key) ≤ dsa_byte_length) where
  abbrev form : Bytes
  form = zeros (dsa_byte_length - length (botan.binary_encode key)) ++ botan.binary_encode key

  abbrev the_key : PrivateKeyDsa
  the_key = record { key_private = some key }

  form-eq : private_key_to_binary botan the_key ≡ some form
  unfolding private_key_to_binary right_aligned
  form-eq =
      let small : ltb dsa_byte_length (length (botan.binary_encode key)) ≡ false =
        ground (arith, fits) in
      rw small refl

  decode-form : botan.binary_decode form ≡ key
  decode-form =
      decode-zeros botan.binary_decode zero_first
        (dsa_byte_length - length (botan.binary_encode key)) (botan.binary_encode key)
      ∙ reads_back

  set-form :
      (bs : Bytes)
      → botan.binary_decode bs ≡ key
      → set_private_key botan randomness bs (record { key_private = none }) ≡ some the_key
  unfolding set_private_key
  set-form bs e = rw (e, kept) refl

  -- A private key whose value Botan writes in at most 32 bytes, reads back from these, and takes for the
  -- key that it makes, where zeros in front change nothing of what is read and Botan's text decoders
  -- undo its encoders: its binary form has 32 bytes, and the key is read back from the binary form and
  -- from the hexadecimal, base64 and base58 texts of it; zeros at its head, which base58 drops, do no
  -- harm.
  pub private_key-round_trip :
      (hex base64 : Filters) (encode : ℕ → Bytes)
      → Inverse hex
      → Inverse base64
      → encode (botan.binary_decode form) ≡ strip_zeros form
      → let keys = private_key_string botan randomness in
        (v : Bytes) × (private_key_to_binary botan the_key ≡ some v)
        × (length v ≡ dsa_byte_length)
        × (bind (to_binary_string keys the_key) (from_binary_string keys) ≡ some the_key)
        × (bind (to_hex keys hex the_key) (from_hex keys hex) ≡ some the_key)
        × (bind (to_base64 keys base64 the_key) (from_base64 keys base64) ≡ some the_key)
        × (bind
              (to_base58 keys botan.binary_decode encode the_key)
              (from_base58 keys botan.binary_decode encode)
            ≡ some the_key)
  private_key-round_trip hex base64 encode hex_inverse base64_inverse back =
      let keys = private_key_string botan randomness in
      let (by_hex, by_base64, by_binary, by_base58) =
        from_text-to_text keys the_key form form-eq hex base64 botan.binary_decode encode
          hex_inverse base64_inverse back in
      let whole = set-form form decode-form in
      (
        form,
        form-eq,
        length-append (zeros (dsa_byte_length - length (botan.binary_encode key)))
              (botan.binary_encode key)
            ∙ (omega
                (arith, fits, length-zeros (dsa_byte_length - length (botan.binary_encode key)))),
        by_binary ∙ whole,
        by_hex ∙ whole,
        by_base64 ∙ whole,
        by_base58
            ∙ set-form (strip_zeros form)
                (decode-strip_zeros botan.binary_decode zero_first form ∙ decode-form),
      )
