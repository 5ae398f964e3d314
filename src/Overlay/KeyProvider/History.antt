-- ===== src/Overlay/KeyProvider/History.antt =====
-- The history of keys: how long it is, what stands in it, and under which TH the own key is known.
use p2pnet.Base.{
  ℕ, zero, suc, ◌+◌, ◌%◌, ◌^◌, ◌≤◌, ◌<◌, ◌≡◌, refl, sym, ap, ◌∙◌, subst, true, false, List, [], ◌∷◌,
  ◌++◌, none, some, length, length-take, take, take-all, ltb, if◌then◌else◌, arith, Bool-cases, inl,
  inr,
}
use p2pnet.Crypto.Hash.{Bytes}
use p2pnet.Overlay.KeyProvider.{
  KeyInfo, KeyProvider, to_protobuf, from_protobuf, pop_back, new_info, renew_keys, new_provider,
  initialized, get_key_info,
}

module _ {ℓ} {A : Type ℓ} where
  pop_back-take :
      (n : ℕ) (x : A) (xs : List A) → length xs ≡ n → pop_back (x ∷ xs) ≡ take n (x ∷ xs)
  unfolding pop_back
  pop_back-take zero x [] h = refl
  pop_back-take (suc n) x [] h = absurd (omega arith)
  pop_back-take zero x (y ∷ ys) h = absurd (omega arith)
  pop_back-take (suc n) x (y ∷ ys) h = ap (λ zs. x ∷ zs) (pop_back-take n y ys (omega arith))

  -- Dropping the last one of a list that is one too long keeps its first n.
  push-take :
      (n : ℕ) (x : A) (xs : List A)
      → length xs ≤ n
      → (if ltb n (length (x ∷ xs)) then pop_back (x ∷ xs) else x ∷ xs) ≡ take n (x ∷ xs)
  push-take n x xs h = elim (Bool-cases (ltb n (length (x ∷ xs)))) [
    | inl e ↦ rw (e, pop_back-take n x xs (ground arith))
    | inr e ↦ rw (e, take-all n (x ∷ xs) (ground arith))
  ]

  take-append_take :
      (n m : ℕ) (ys xs : List A) → n ≤ m + length ys → take n (ys ++ take m xs) ≡ take n (ys ++ xs)
  take-append_take zero m ys xs h = refl
  take-append_take (suc n) m (y ∷ ys) xs h =
      ap (λ zs. y ∷ zs) (take-append_take n m ys xs (omega arith))
  take-append_take (suc n) zero [] xs h = absurd (omega arith)
  take-append_take (suc n) (suc m) [] [] h = refl
  take-append_take (suc n) (suc m) [] (x ∷ xs) h =
      ap (λ zs. x ∷ zs) (take-append_take n m [] xs (omega arith))

-- A number of renewals, each at its time and with the private key that was generated.
abbrev pub renew_all :
    (Bytes → Bytes) → (Bytes → Bytes) → List (ℕ × Bytes) → KeyProvider → KeyProvider
renew_all derive hash [] p = p
renew_all derive hash ((now, key) ∷ rs) p =
    renew_all derive hash rs (renew_keys derive hash now key p)

-- The infos of all those keys, the newest first, before the ones of `older`.
abbrev pub infos :
    (Bytes → Bytes) → (Bytes → Bytes) → KeyProvider → List (ℕ × Bytes) → List KeyInfo → List KeyInfo
infos derive hash p [] older = older
infos derive hash p ((now, key) ∷ rs) older =
    infos derive hash p rs (new_info derive hash now key p ∷ older)

module _ (derive hash : Bytes → Bytes) where
  renew-history :
      (now : ℕ) (key : Bytes) (p : KeyProvider) (older : List KeyInfo)
      → p.history ≡ take p.max_history_size older
      → (renew_keys derive hash now key p).history
        ≡ take p.max_history_size (new_info derive hash now key p ∷ older)
  unfolding renew_keys
  renew-history now key p older h =
      let info = new_info derive hash now key p in
      let n = p.max_history_size in
      let short : length p.history ≤ n =
        subst (λ xs. length xs ≤ n) (sym h) (omega (arith, length-take n older)) in
      push-take n info p.history short
      ∙ ap (λ xs. take n (info ∷ xs)) h
      ∙ take-append_take n n (info ∷ []) older (omega arith)

  infos-same :
      (p q : KeyProvider) (rs : List (ℕ × Bytes)) (older : List KeyInfo)
      → p.expiration_interval ≡ q.expiration_interval
      → p.lose_interval ≡ q.lose_interval
      → infos derive hash p rs older ≡ infos derive hash q rs older
  unfolding new_info
  infos-same p q [] older e l = refl
  infos-same p q ((now, key) ∷ rs) older e l =
      rw (e, l, infos-same p q rs (new_info derive hash now key q ∷ older) e l)

  renew_all-from :
      (rs : List (ℕ × Bytes)) (p : KeyProvider) (older : List KeyInfo)
      → p.history ≡ take p.max_history_size older
      → (renew_all derive hash rs p).history
        ≡ take p.max_history_size (infos derive hash p rs older)
  unfolding renew_keys
  renew_all-from [] p older h = h
  renew_all-from ((now, key) ∷ rs) p older h =
      renew_all-from rs (renew_keys derive hash now key p) (new_info derive hash now key p ∷ older)
        (renew-history now key p older h)
      ∙ ap (take p.max_history_size) (
          infos-same (renew_keys derive hash now key p) p rs
            (new_info derive hash now key p ∷ older) refl refl)

  -- The keys in the history of a key provider are the last max_history_size ones that were
  -- generated, the newest first: after the construction and any number of renewals.
  pub renew_all-history :
      (now : ℕ) (key : Bytes) (history_size renew_interval : ℕ) (rs : List (ℕ × Bytes))
      → (renew_all derive hash rs
          (new_provider derive hash now key history_size renew_interval)).history
        ≡ take ((history_size + 1) % 2 ^ 32) (
            infos derive hash (new_provider derive hash now key history_size renew_interval) rs (
              new_info derive hash now key
                (new_provider derive hash now key history_size renew_interval)
              ∷ []))
  unfolding new_provider renew_keys new_info
  renew_all-history now key history_size renew_interval rs =
      renew_all-from rs (new_provider derive hash now key history_size renew_interval)
        (new_info derive hash now key (new_provider derive hash now key history_size renew_interval)
          ∷ [])
        (renew-history now key (initialized history_size renew_interval) []
          (sym (take-all ((history_size + 1) % 2 ^ 32) [] (omega arith))))

  -- There is a current key after the construction, unless the configured history size is the
  -- largest unsigned int: then the size of the history wraps to 0 and no key is kept.
  pub current_key :
      (now : ℕ) (key : Bytes) (history_size renew_interval : ℕ)
      → history_size < 2 ^ 32
      → (history_size + 1 < 2 ^ 32
          → (i : KeyInfo) × (get_key_info 0
                (new_provider derive hash now key history_size renew_interval)
              ≡ some i)
            × (i.private_key ≡ key))
        × (history_size + 1 ≡ 2 ^ 32
            → get_key_info 0 (new_provider derive hash now key history_size renew_interval) ≡ none)
  unfolding new_provider renew_keys new_info get_key_info pop_back
  current_key now key history_size renew_interval h = (
    λ small.
        let one : ltb ((history_size + 1) % 2 ^ 32) 1 ≡ false = ground (arith, small) in
        (new_info derive hash now key (initialized history_size renew_interval), rw one, refl),
    λ large.
        let none_kept : ltb ((history_size + 1) % 2 ^ 32) 1 ≡ true = ground (arith, large) in
        rw none_kept,
  )

-- What a peer reads of an own key that was sent to it: the same public key, TH and times.
pub announced_key :
    (derive hash : Bytes → Bytes) (now : ℕ) (key : Bytes) (p : KeyProvider) (i : KeyInfo)
    → from_protobuf hash (to_protobuf (new_info derive hash now key p)) i
      ≡ record (new_info derive hash now key p) { private_key = i.private_key }
unfolding from_protobuf to_protobuf new_info
announced_key derive hash now key p i = refl
