-- ===== src/Dht/KBucket/Yields.antt =====
-- Partial correctness of a call: what holds of the result if there is one.
use p2pnet.Base.{◌≡◌, refl, subst, Bool, true, false, if◌then◌else◌}
use p2pnet.Dht.KBucket.{Run, ok, undefined, out_of_fuel, ◌>>=◌, at_half}

abbrev pub Yields {ℓ κ} : {A : Type ℓ} → (A → Type κ) → Run A → Type κ
Yields P (ok a) = P a
Yields P undefined = Unit
Yields P out_of_fuel = Unit

module _ {ℓ κ} {A : Type ℓ} (P : A → Type κ) where
  pub Yields-ok : (r : Run A) (a : A) → Yields P r → r ≡ ok a → P a
  Yields-ok r a h e = subst (Yields P) e h

  pub Yields-if :
      (b : Bool) (x y : Run A)
      → (b ≡ true → Yields P x)
      → (b ≡ false → Yields P y)
      → Yields P (if b then x else y)
  Yields-if true x y hx hy = hx refl
  Yields-if false x y hx hy = hy refl

  pub Yields-at_half :
      (bit : Run Bool) (x y : Run A)
      → (bit ≡ ok false → Yields P x)
      → (bit ≡ ok true → Yields P y)
      → Yields P (at_half bit x y)
  Yields-at_half (ok false) x y hx hy = hx refl
  Yields-at_half (ok true) x y hx hy = hy refl
  Yields-at_half undefined x y hx hy = tt
  Yields-at_half out_of_fuel x y hx hy = tt

pub Yields-bind {ℓ κ μ} :
    {A : Type ℓ} {B : Type κ} (Q : A → Type μ) (P : B → Type μ) (m : Run A) (f : A → Run B)
    → Yields Q m
    → ((a : A) → m ≡ ok a → Q a → Yields P (f a))
    → Yields P (m >>= f)
Yields-bind Q P (ok a) f h k = k a refl h
Yields-bind Q P undefined f h k = tt
Yields-bind Q P out_of_fuel f h k = tt

pub Yields-then {ℓ κ μ} :
    {A : Type ℓ} {B : Type κ} (P : B → Type μ) (m : Run A) (f : A → Run B)
    → ((a : A) → m ≡ ok a → Yields P (f a))
    → Yields P (m >>= f)
Yields-then P (ok a) f k = k a refl
Yields-then P undefined f k = tt
Yields-then P out_of_fuel f k = tt

pub Yields-map {ℓ κ μ} :
    {A : Type ℓ} (P : A → Type κ) (Q : A → Type μ) (r : Run A)
    → ((a : A) → P a → Q a)
    → Yields P r
    → Yields Q r
Yields-map P Q (ok a) f h = f a h
Yields-map P Q undefined f h = tt
Yields-map P Q out_of_fuel f h = tt
