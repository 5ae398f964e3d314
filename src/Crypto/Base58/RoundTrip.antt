-- ===== src/Crypto/Base58/RoundTrip.antt =====
-- Decoding after encoding, and what is lost.
use mathlib.Core.List.{reverse, reverse-cons}
use p2pnet.Base.{
  ℕ, zero, suc, ◌+◌, ◌*◌, ◌/◌, ◌%◌, ◌<◌, ◌≡◌, refl, [], ◌∷◌, ◌++◌, some, arith, ap, ◌∙◌, true, ◌==◌,
  ==→≡, passes_up_to, passes-at, Bool-cases, leb, ltb, inl, inr,
}
use p2pnet.Crypto.Hash.{Bytes}
use p2pnet.Crypto.Base58.{
  base58_alphabet, symbol, find_symbol, encode_loop, decode_loop, encode_to_base58,
  decode_from_base58,
}

-- The bytes without the zeros that lead them.
abbrev pub strip_zeros : Bytes → Bytes
strip_zeros [] = []
strip_zeros (zero ∷ bs) = strip_zeros bs
strip_zeros (suc b ∷ bs) = suc b ∷ bs

symbol_table : passes_up_to (λ d. find_symbol (symbol base58_alphabet d) == d) 58 ≡ true
unfolding passes_up_to find_symbol symbol
symbol_table = refl

find_symbol-symbol : (d : ℕ) → d < 58 → find_symbol (symbol base58_alphabet d) ≡ d
find_symbol-symbol d h = ==→≡ _ _ (passes-at _ 58 h symbol_table)

decode_loop-append :
    (xs ys : Bytes) (b m : ℕ)
    → decode_loop (xs ++ ys) b m ≡ decode_loop ys (decode_loop xs b m).0 (decode_loop xs b m).1
unfolding decode_loop
decode_loop-append [] ys b m = refl
decode_loop-append (x ∷ xs) ys b m = decode_loop-append xs ys (b + m * find_symbol x) (m * 58)

-- One more digit in front of the text is one more round of the decoding loop.
decode-cons :
    (d : ℕ) (acc : Bytes) (b m : ℕ)
    → d < 58
    → decode_loop (reverse acc) 0 1 ≡ (b, m)
    → decode_loop (reverse (symbol base58_alphabet d ∷ acc)) 0 1 ≡ (b + m * d, m * 58)
unfolding decode_loop
decode-cons d acc b m h e = rw (
  reverse-cons (symbol base58_alphabet d) acc,
  decode_loop-append (reverse acc) (symbol base58_alphabet d ∷ []) 0 1,
  e,
  find_symbol-symbol d h,
)

-- A round of the loop splits off the last digit.
split_digit : (b m n : ℕ) → b + m * (n % 58) + m * 58 * (n / 58) ≡ b + m * n
split_digit b m n =
    let e : n % 58 + 58 * (n / 58) ≡ n = omega arith in omega (arith, ap (λ (t : ℕ). m * t) e)

-- With fuel above the number the loop ends, and decoding what it wrote gives the number back.
encode_loop-decodes :
    (fuel n : ℕ) (acc : Bytes) (b m : ℕ)
    → n < fuel
    → decode_loop (reverse acc) 0 1 ≡ (b, m)
    → (r : Bytes) × (encode_loop fuel n acc ≡ some r)
      × ((decode_loop (reverse r) 0 1).0 ≡ b + m * n)
unfolding encode_loop
encode_loop-decodes zero n acc b m h e = elim h [ ]
encode_loop-decodes (suc fuel) n acc b m h e = elim (Bool-cases (leb 58 n)) [
  | inl more ↦
      let next =
        encode_loop-decodes fuel (n / 58) (symbol base58_alphabet (n % 58) ∷ acc) (b + m * (n % 58))
          (m * 58) (ground arith) (decode-cons (n % 58) acc b m (omega arith) e) in
      rw more (next.0, next.1, next.2 ∙ split_digit b m n)
  | inr last ↦ rw last (elim (Bool-cases (ltb 0 n)) [
    | inl digit ↦ rw digit (
      symbol base58_alphabet n ∷ acc,
      refl,
      ap (λ (p : ℕ × ℕ). p.0) (decode-cons n acc b m (ground arith) e),
    )
    | inr zero_left ↦ rw zero_left (
      acc,
      refl,
      ap (λ (p : ℕ × ℕ). p.0) e ∙ (let z : n ≡ 0 = ground arith in rw z (omega arith)),
    )
  ])
]

-- Encoding a byte string always ends. If Botan writes the number that it reads from the string as
-- the same bytes without the zeros that lead them, then decoding the text gives the byte string
-- without these zeros.
pub decode-encode_base58 :
    (decode : Bytes → ℕ) (encode : ℕ → Bytes) (bs : Bytes)
    → encode (decode bs) ≡ strip_zeros bs
    → (text : Bytes) × (encode_to_base58 decode encode bs ≡ some text)
      × (decode_from_base58 decode encode text ≡ strip_zeros bs)
unfolding encode_to_base58 decode_from_base58
decode-encode_base58 decode encode bs back =
    let r =
      encode_loop-decodes (suc (decode bs)) (decode bs) [] 0 1 (omega arith)
        (unfold decode_loop in refl) in
    (r.0, r.1, ap encode (r.2 ∙ (omega arith)) ∙ back)
