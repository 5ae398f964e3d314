-- ===== src/Overlay/KeyProvider/Tests.antt =====
-- A key provider that keeps two keys, through two renewals.
use p2pnet.Base.{ℕ, ◌≡◌, List, [], ◌∷◌, take}
use p2pnet.Crypto.Hash.{Bytes}
use p2pnet.Overlay.KeyProvider.{KeyProvider, new_provider, new_info}
use p2pnet.Overlay.KeyProvider.History.{renew_all, infos, renew_all-history}

abbrev same : Bytes → Bytes
same key = key

abbrev first_provider : KeyProvider
first_provider = new_provider same same 100 (1 ∷ []) 1 600

abbrev renewals : List (ℕ × Bytes)
renewals = (700, 2 ∷ []) ∷ (1300, 3 ∷ []) ∷ []

renew_all-history_example :
    (renew_all same same renewals first_provider).history
    ≡ take 2 (
        infos same same first_provider renewals
          (new_info same same 100 (1 ∷ []) first_provider ∷ []))
renew_all-history_example = renew_all-history same same 100 (1 ∷ []) 1 600 renewals
