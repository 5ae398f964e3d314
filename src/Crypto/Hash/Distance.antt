-- ===== src/Crypto/Hash/Distance.antt =====
-- What `Hash::operator^` computes, with the loop counter that it leaves uninitialised.
use Prim.Native.Nat.{bit_xor, max}
use p2pnet.Base.{
  ℕ, zero, suc, ◌≡◌, refl, sym, subst, true, ◌||◌, not, [], ◌∷◌, arith, ap, All, ◌<◌, ◌==◌, ==→≡,
  length, drop, passes_up_to, passes-at,
}
use p2pnet.Crypto.Hash.{Hash, Bytes, xor_loop, distance, resize}

abbrev pub IsByte : ℕ → Type 0
IsByte b = b < 256

abbrev pub IsZero : ℕ → Type 0
IsZero b = b ≡ 0

comm_table : passes_up_to (λ x. passes_up_to (λ y. bit_xor x y == bit_xor y x) 256) 256 ≡ true
unfolding passes_up_to
comm_table = refl

same_table :
    passes_up_to (λ x. passes_up_to (λ y. not (bit_xor x y == 0) || (x == y)) 256) 256 ≡ true
unfolding passes_up_to
same_table = refl

self_table : passes_up_to (λ x. bit_xor x x == 0) 256 ≡ true
unfolding passes_up_to
self_table = refl

bit_xor_comm : (x y : ℕ) → IsByte x → IsByte y → bit_xor x y ≡ bit_xor y x
bit_xor_comm x y hx hy = ==→≡ _ _ (passes-at _ 256 hy (passes-at _ 256 hx comm_table))

bit_xor-zero : (x y : ℕ) → IsByte x → IsByte y → bit_xor x y ≡ 0 → x ≡ y
bit_xor-zero x y hx hy h =
    let t : (not (bit_xor x y == 0) || (x == y)) ≡ true =
      passes-at _ 256 hy (passes-at _ 256 hx same_table) in
    ground arith

bit_xor_self : (x : ℕ) → IsByte x → bit_xor x x ≡ 0
bit_xor_self x hx = ==→≡ _ _ (passes-at _ 256 hx self_table)

resize-length : (v : Bytes) → resize (length v) v ≡ v
resize-length [] = refl
resize-length (x ∷ v) = ap (λ w. x ∷ w) (resize-length v)

hash-distance :
    (start : ℕ) (a b : Hash)
    → length a.hash ≡ length b.hash
    → (distance start a b).hash ≡ xor_loop start a.hash b.hash
unfolding distance
hash-distance start a b e =
    let m : max (length a.hash) (length b.hash) ≡ length a.hash = omega arith in
    rw (m, resize-length a.hash, e, resize-length b.hash)

xor_loop_comm :
    (a b : Bytes)
    → All IsByte a
    → All IsByte b
    → length a ≡ length b
    → xor_loop zero a b ≡ xor_loop zero b a
unfolding xor_loop
xor_loop_comm [] [] ha hb e = refl
xor_loop_comm [] (y ∷ b) ha hb e = absurd (omega arith)
xor_loop_comm (x ∷ a) [] ha hb e = absurd (omega arith)
xor_loop_comm (x ∷ a) (y ∷ b) ha hb e =
    cc (bit_xor_comm x y ha.0 hb.0, xor_loop_comm a b ha.1 hb.1 (omega arith))

xor_loop_self : (a : Bytes) → All IsByte a → All IsZero (xor_loop zero a a)
unfolding xor_loop
xor_loop_self [] h = tt
xor_loop_self (x ∷ a) h = (bit_xor_self x h.0, xor_loop_self a h.1)

xor_loop-zero :
    (a b : Bytes)
    → All IsByte a
    → All IsByte b
    → length a ≡ length b
    → All IsZero (xor_loop zero a b)
    → a ≡ b
unfolding xor_loop
xor_loop-zero [] [] ha hb e z = refl
xor_loop-zero [] (y ∷ b) ha hb e z = absurd (omega arith)
xor_loop-zero (x ∷ a) [] ha hb e z = absurd (omega arith)
xor_loop-zero (x ∷ a) (y ∷ b) ha hb e z =
    cc (bit_xor-zero x y ha.0 hb.0 z.0, xor_loop-zero a b ha.1 hb.1 (omega arith) z.1)

xor_loop-skips :
    (start : ℕ) (a b : Bytes)
    → All IsByte a
    → length a ≡ length b
    → drop start a ≡ drop start b
    → All IsZero (xor_loop start a b)
unfolding xor_loop
xor_loop-skips start [] b ha e d = tt
xor_loop-skips start (x ∷ a) [] ha e d = absurd (omega arith)
xor_loop-skips zero (x ∷ a) (y ∷ b) ha e d =
    subst (λ v. All IsZero (xor_loop zero (x ∷ a) v)) d (xor_loop_self (x ∷ a) ha)
xor_loop-skips (suc start) (x ∷ a) (y ∷ b) ha e d =
    (refl, xor_loop-skips start a b ha.1 (omega arith) d)

-- If the loop of `operator^` starts at 0, it gives two hashes of one length a symmetric distance,
-- whose bytes are all zero exactly when the hashes have the same bytes.
pub distance_metric :
    (a b : Hash)
    → All IsByte a.hash
    → All IsByte b.hash
    → length a.hash ≡ length b.hash
    → ((distance 0 a b).hash ≡ (distance 0 b a).hash)
      × (All IsZero (distance 0 a b).hash → a.hash ≡ b.hash)
      × (a.hash ≡ b.hash → All IsZero (distance 0 a b).hash)
distance_metric a b ha hb e =
    rw (hash-distance 0 a b e, hash-distance 0 b a (sym e))
      (
        xor_loop_comm a.hash b.hash ha hb e,
        xor_loop-zero a.hash b.hash ha hb e,
        λ same. rw (← same) (xor_loop_self a.hash ha),
      )

-- Wherever the uninitialised counter starts, the bytes before it do not count: two hashes of one
-- length that agree from `start` on are at distance zero, however they differ before.
pub distance_blind :
    (start : ℕ) (a b : Hash)
    → All IsByte a.hash
    → length a.hash ≡ length b.hash
    → drop start a.hash ≡ drop start b.hash
    → All IsZero (distance start a b).hash
distance_blind start a b ha e d =
    rw (hash-distance start a b e) (xor_loop-skips start a.hash b.hash ha e d)
