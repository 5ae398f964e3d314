-- ===== src/Dht/KBucket/Closest.antt =====
-- The search for the closest nodes.
use p2pnet.Base.{ℕ, zero, suc, ◌+◌, ◌≡◌, refl, ap, Bool, true, false, List, [], ◌∷◌, ◌++◌, arith}
use p2pnet.Crypto.Hash.{Bytes}
use p2pnet.Dht.KBucket.{
  KBucket, leaf, branch, Run, ok, undefined, out_of_fuel, get_bit, at_half, join_halves,
  closest_loop, get_closest, bucket_for,
}

closest_loop-spins :
    (fuel i n p : ℕ) (ps result : List ℕ) → closest_loop fuel i n (p ∷ ps) result ≡ out_of_fuel
unfolding closest_loop
closest_loop-spins zero i n p ps result = refl
closest_loop-spins (suc fuel) i n p ps result =
    closest_loop-spins fuel (i + 1) n p ps (result ++ p ∷ [])

join_halves-spins :
    (n : ℕ) (near far : Run (List ℕ)) → near ≡ out_of_fuel → join_halves n near far ≡ out_of_fuel
join_halves-spins n near far e = rw e

at_half-spins :
    (bit : Run Bool) (x y x' y' : Run (List ℕ)) (c : List ℕ)
    → (x ≡ ok c → x' ≡ out_of_fuel)
    → (y ≡ ok c → y' ≡ out_of_fuel)
    → at_half bit x y ≡ ok c
    → at_half bit x' y' ≡ out_of_fuel
at_half-spins (ok false) x y x' y' c f g h = f h
at_half-spins (ok true) x y x' y' c f g h = g h
at_half-spins undefined x y x' y' c f g h = cc
at_half-spins out_of_fuel x y x' y' c f g h = cc

-- Where the bucket that a hash leads to holds a node, getClosest for this hash does not return,
-- however long it runs and however many nodes are asked for.
pub get_closest_spins :
    (fuel : ℕ) (hash : Bytes) (n p : ℕ) (ps : List ℕ) (b : KBucket)
    → bucket_for hash b ≡ ok (p ∷ ps)
    → get_closest fuel hash n b ≡ out_of_fuel
unfolding get_closest bucket_for
get_closest_spins fuel hash n p ps (leaf i s c) h =
    let e : c ≡ p ∷ ps = cc in rw (e, get_closest) (closest_loop-spins fuel 0 n p ps [])
get_closest_spins fuel hash n p ps (branch i s f g) h =
    at_half-spins (get_bit hash (i + 1)) _ _ _ _ (p ∷ ps)
      (λ e.
        join_halves-spins n _ (get_closest fuel hash n g) (get_closest_spins fuel hash n p ps f e))
      (λ e.
        join_halves-spins n _ (get_closest fuel hash n f) (get_closest_spins fuel hash n p ps g e))
      h

closest_loop-returns :
    (fuel n : ℕ) (c r : List ℕ) → closest_loop fuel 0 n c [] ≡ ok r → (r ≡ []) × (n ≡ 0) × (c ≡ [])
unfolding closest_loop
closest_loop-returns zero n c r h = cc
closest_loop-returns (suc fuel) n [] r h = ground arith
closest_loop-returns (suc fuel) n (p ∷ ps) r h = cc (closest_loop-spins fuel 1 n p ps (p ∷ []))

join_halves-returns :
    (n : ℕ) (near far : Run (List ℕ)) (r : List ℕ)
    → ((c : List ℕ) → near ≡ ok c → (c ≡ []) × (n ≡ 0))
    → join_halves n near far ≡ ok r
    → (near ≡ ok []) × (n ≡ 0) × (r ≡ [])
join_halves-returns n (ok []) far r h e = let q = h [] refl in (refl, q.1, ground (arith, q.1))
join_halves-returns n (ok (x ∷ c)) far r h e = cc ((h (x ∷ c) refl).0)
join_halves-returns n undefined far r h e = cc
join_halves-returns n out_of_fuel far r h e = cc

-- What a call on one half says of its bucket, for the split bucket.
abbrev Returns : ℕ → Run (List ℕ) → Run (List ℕ) → Type 0
Returns n found bucket = (r : List ℕ) → found ≡ ok r → (r ≡ []) × (n ≡ 0) × (bucket ≡ ok [])

at_half-Returns :
    (bit : Run Bool) (n : ℕ) (x y bx by : Run (List ℕ))
    → Returns n x bx
    → Returns n y by
    → Returns n (at_half bit (join_halves n x y) (join_halves n y x)) (at_half bit bx by)
at_half-Returns (ok false) n x y bx by hx hy r e =
    let q = join_halves-returns n x y r (λ c h. ((hx c h).0, (hx c h).1)) e in
    (q.2, q.1, (hx [] q.0).2)
at_half-Returns (ok true) n x y bx by hx hy r e =
    let q = join_halves-returns n y x r (λ c h. ((hy c h).0, (hy c h).1)) e in
    (q.2, q.1, (hy [] q.0).2)
at_half-Returns undefined n x y bx by hx hy r e = cc
at_half-Returns out_of_fuel n x y bx by hx hy r e = cc

-- A call of getClosest that returns was asked for no node and returns none, and the bucket that the
-- hash leads to is empty.
pub get_closest_returns :
    (fuel : ℕ) (hash : Bytes) (n : ℕ) (b : KBucket) (r : List ℕ)
    → get_closest fuel hash n b ≡ ok r
    → (r ≡ []) × (n ≡ 0) × (bucket_for hash b ≡ ok [])
unfolding get_closest bucket_for
get_closest_returns fuel hash n (leaf i s c) r h =
    let q = closest_loop-returns fuel n c r h in (q.0, q.1, ap ok q.2)
get_closest_returns fuel hash n (branch i s f g) r h =
    at_half-Returns (get_bit hash (i + 1)) n (get_closest fuel hash n f) (get_closest fuel hash n g)
      (bucket_for hash f) (bucket_for hash g) (get_closest_returns fuel hash n f)
      (get_closest_returns fuel hash n g) r h
