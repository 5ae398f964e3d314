-- ===== src/Crypto/Ciphers/Binary.antt =====
-- The binary form of an AES key of src/common/crypto/AES.cpp.
use p2pnet.Base.{
  ◌≡◌, refl, ap, sym, arith, true, false, ◌++◌, none, some, length, length-append, length-take,
  length-drop, take, drop, take-all, take-add, if-cases, ◌<◌, take-length-append,
  drop-length-append, ltb, subst,
}
use p2pnet.Crypto.Hash.{Bytes}
use p2pnet.Crypto.Ciphers.{Aes, set_aes, aes_to_binary, key_size, vector_size}

-- What is read of a vector: a key and an initialisation vector of 16 bytes each, which together are the
-- vector's first 32 bytes; a vector that is shorter is read behind its end.
pub aes_to_binary-set_aes :
    (v : Bytes) (this : Aes)
    → ((a : Aes)
        → set_aes v this ≡ some a
        → (length a.key ≡ key_size)
          × (length a.iv ≡ key_size)
          × (aes_to_binary a ≡ some (take vector_size v)))
      × (length v < vector_size → set_aes v this ≡ none)
unfolding set_aes aes_to_binary
aes_to_binary-set_aes v this = (
  λ a.
      if-cases
        (λ r.
          r ≡ some a
          → (length a.key ≡ key_size)
            × (length a.iv ≡ key_size)
            × (some (a.key ++ a.iv) ≡ some (take vector_size v)))
        (ltb (length v) vector_size) none
        (some (record { key = take key_size v; iv = take key_size (drop key_size v) }))
        (λ short e. absurd (cc e))
        (λ long e.
          let is : record { key = take key_size v; iv = take key_size (drop key_size v) } ≡ a =
            cc e in
          subst
            (λ (a : Aes).
              (length a.key ≡ key_size)
              × (length a.iv ≡ key_size)
              × (some (a.key ++ a.iv) ≡ some (take vector_size v)))
            is
            (
              ground (arith, long, length-take key_size v),
              ground (arith, long, length-take key_size (drop key_size v), length-drop key_size v),
              ap some (sym (take-add key_size key_size v)),
            )),
  λ short.
      let too_short : ltb (length v) vector_size ≡ true = ground (arith, short) in
      rw too_short refl,
)

-- An AES key whose two parts have 16 bytes is read back from its binary form.
pub set_aes-aes_to_binary :
    (a this : Aes) (v : Bytes)
    → length a.key ≡ key_size
    → length a.iv ≡ key_size
    → aes_to_binary a ≡ some v
    → set_aes v this ≡ some a
unfolding set_aes aes_to_binary
set_aes-aes_to_binary a this v hk hi e =
    let is : a.key ++ a.iv ≡ v = cc e in
    let whole : length (a.key ++ a.iv) ≡ vector_size =
      omega (arith, length-append a.key a.iv, hk, hi) in
    let long : ltb (length (a.key ++ a.iv)) vector_size ≡ false = ground (arith, whole) in
    let key_part : take key_size (a.key ++ a.iv) ≡ a.key =
      subst (λ n. take n (a.key ++ a.iv) ≡ a.key) hk (take-length-append a.key a.iv) in
    let iv_part : drop key_size (a.key ++ a.iv) ≡ a.iv =
      subst (λ n. drop n (a.key ++ a.iv) ≡ a.iv) hk (drop-length-append a.key a.iv) in
    rw (sym is, long, key_part, iv_part, take-all key_size a.iv (omega (arith, hi))) refl
