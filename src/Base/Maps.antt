-- ===== src/Base/Maps.antt =====
-- `std::map` as an association list: `find`, `erase`, and `insert`, which keeps an entry that is
-- there. Keys are compared by an instance of `Eq`.
use mathlib.Core.Path.{◌≡◌, refl}
use mathlib.Core.Logic.{◌↔◌, ◌≢◌}
use mathlib.Core.Bool.{Bool, true, false, ◌&&◌}
use mathlib.Core.Option.{Option, none, some}
use mathlib.Core.List.{List, [], ◌∷◌}
use Prim.Native.Nat.{ℕ}
use native.Mathlib.Omega.{arith}
use p2pnet.Base.Tests.{◌==◌ as nat_beq, if◌then◌else◌}

pub record Eq {ℓ} (A : Type ℓ) : Type ℓ where
  pub agree : A → A → Bool
  pub agree_iff : (a b : A) → (agree a b ≡ true) ↔ (a ≡ b)

infix 50 ◌=?◌
abbrev pub ◌=?◌ {ℓ} : {A : Type ℓ} ⦃e : Eq A⦄ → A → A → Bool
◌=?◌ ⦃e⦄ = e.agree

pub nat_beq_iff : (a b : ℕ) → (nat_beq a b ≡ true) ↔ (a ≡ b)
nat_beq_iff a b = ground arith

instance abbrev pub nat_eq : Eq ℕ
nat_eq = record { agree = nat_beq; agree_iff = nat_beq_iff }

-- Equality of byte vectors, and of strings as lists of bytes.
abbrev pub bytes_beq : List ℕ → List ℕ → Bool
bytes_beq [] [] = true
bytes_beq [] (y ∷ ys) = false
bytes_beq (x ∷ xs) [] = false
bytes_beq (x ∷ xs) (y ∷ ys) = nat_beq x y && bytes_beq xs ys

pub bytes_beq_iff : (a b : List ℕ) → (bytes_beq a b ≡ true) ↔ (a ≡ b)
bytes_beq_iff [] [] = ground arith
bytes_beq_iff [] (y ∷ ys) = ground arith
bytes_beq_iff (x ∷ xs) [] = ground arith
bytes_beq_iff (x ∷ xs) (y ∷ ys) = ground (arith, bytes_beq_iff xs ys)

instance abbrev pub bytes_eq : Eq (List ℕ)
bytes_eq = record { agree = bytes_beq; agree_iff = bytes_beq_iff }

pub beq_refl {ℓ} : {A : Type ℓ} ⦃e : Eq A⦄ (a : A) → (a =? a) ≡ true
beq_refl ⦃e⦄ a = (e.agree_iff a a).1 refl

module _ {ℓ κ} {K : Type ℓ} {V : Type κ} ⦃e : Eq K⦄ where
  unfoldable pub find : K → List (K × V) → Option V
  find k [] = none
  find k ((j, v) ∷ m) = if j =? k then some v else find k m

  unfoldable pub erase : K → List (K × V) → List (K × V)
  erase k [] = []
  erase k ((j, v) ∷ m) = let rest = erase k m in if j =? k then rest else (j, v) ∷ rest

  -- m.insert(make_pair(k, v)): no effect where the key is there.
  unfoldable pub insert : K → V → List (K × V) → List (K × V)
  insert k v m = elim (find k m) [ none ↦ (k, v) ∷ m | some w ↦ m ]

  pub find-erase :
      (k j : K) (m : List (K × V)) → find j (erase k m) ≡ (if k =? j then none else find j m)
  unfolding find erase
  find-erase k j [] = ground arith
  find-erase k j ((i, v) ∷ m) =
      ground (arith, find-erase k j m, e.agree_iff i k, e.agree_iff i j, e.agree_iff k j)

  pub find-insert :
      (k j : K) (v : V) (m : List (K × V))
      → find k m ≡ none
      → find j (insert k v m) ≡ (if k =? j then some v else find j m)
  unfolding find insert
  find-insert k j v m h = ground arith

  pub insert_present : (k : K) (v w : V) (m : List (K × V)) → find k m ≡ some w → insert k v m ≡ m
  unfolding insert
  insert_present k v w m h = ground arith

  pub find-erase_ne : (k j : K) (m : List (K × V)) → k ≢ j → find j (erase k m) ≡ find j m
  find-erase_ne k j m ne = ground (arith, find-erase k j m, e.agree_iff k j)

  pub find-cons_ne : (k j : K) (v : V) (m : List (K × V)) → k ≢ j → find j ((k, v) ∷ m) ≡ find j m
  unfolding find
  find-cons_ne k j v m ne = ground (arith, e.agree_iff k j)

  pub find-cons :
      (k j : K) (v : V) (m : List (K × V))
      → find j ((k, v) ∷ m) ≡ (if k =? j then some v else find j m)
  unfolding find
  find-cons k j v m = refl
