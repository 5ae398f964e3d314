-- ===== src/Api/Server/Sessions.antt =====
-- Which sessions are used by the receive loops.
use p2pnet.Base.{
  ℕ, ◌≡◌, refl, Bool, true, false, ◌&&◌, List, [], ◌∷◌, ◌==◌, ==→≡, arith, Bool-cases, inl, inr,
  ◌⊎◌, subst,
}
use p2pnet.Api.Server.{
  Server, Outcome, done, use_after_free, member, without, drop_session, receive_loop, send,
  handle_receive,
}

member-without_self : (s : ℕ) (xs : List ℕ) → member s (without s xs) ≡ false
member-without_self s [] = refl
member-without_self s (x ∷ xs) = ground (arith, member-without_self s xs)

member-without_other :
    (s t : ℕ) (xs : List ℕ) → (s == t) ≡ false → member t (without s xs) ≡ member t xs
member-without_other s t [] ne = refl
member-without_other s t (x ∷ xs) ne = ground (arith, ne, member-without_other s t xs)

-- Every session whose receive is on the way exists.
abbrev pub IsListening : Server → Type 0
IsListening server =
    (t : ℕ) → member t server.receiving ≡ true → member t server.api_sessions ≡ true

abbrev pub Lives : Outcome → Type 0
Lives (done server) = IsListening server
Lives use_after_free = ⊥

module _ (s : ℕ) (server : Server) (inv : IsListening server) where
  dropped-IsListening : IsListening (record server {
    receiving = without s server.receiving;
    api_sessions = without s server.api_sessions;
  })
  dropped-IsListening t h = elim (Bool-cases (s == t)) [
    | inl e ↦
        let gone : member t (without s server.receiving) ≡ false =
          subst (λ x. member x (without s server.receiving) ≡ false) (==→≡ s t e)
            (member-without_self s server.receiving) in
        absurd (cc (h, gone))
    | inr e ↦
        let was : member t server.receiving ≡ true =
          cc (h, member-without_other s t server.receiving e) in
        cc (inv t was, member-without_other s t server.api_sessions e)
  ]

  again-IsListening :
      member s server.receiving ≡ true
      → IsListening (record server { receiving = s ∷ without s server.receiving })
  again-IsListening on t h = elim (Bool-cases (s == t)) [
    | inl e ↦ subst (λ x. member x server.api_sessions ≡ true) (==→≡ s t e) (inv s on)
    | inr e ↦
        let rest : member t (without s server.receiving) ≡ true = ground (arith, h, e) in
        inv t (cc (rest, member-without_other s t server.receiving e))
  ]

  continues-Lives :
      member s server.receiving ≡ true
      → Lives (receive_loop s (record server { receiving = without s server.receiving }))
  unfolding receive_loop
  continues-Lives on = rw (inv s on) (again-IsListening on)

-- A receive keeps every receiving session alive, if it fails, or if no reply is sent, or the reply
-- can be written: the session is dropped, or receives again. But where the write of the reply
-- fails, the session is deleted by its own send, and the receive loop then uses it.
pub handle_receive-IsListening :
    (error replies write_fails : Bool) (s : ℕ) (server : Server)
    → IsListening server
    → member s server.receiving ≡ true
    → ((error ≡ true) ⊎ ((replies && write_fails) ≡ false)
        → Lives (handle_receive error replies write_fails s server))
      × (error ≡ false
          → (replies && write_fails) ≡ true
          → handle_receive error replies write_fails s server ≡ use_after_free)
unfolding handle_receive receive_loop drop_session send
handle_receive-IsListening error replies write_fails s server inv on =
    (fine error replies write_fails, freed error replies write_fails)
  where
    fine :
        (error replies write_fails : Bool)
        → (error ≡ true) ⊎ ((replies && write_fails) ≡ false)
        → Lives (handle_receive error replies write_fails s server)
    fine true replies write_fails h = dropped-IsListening s server inv
    fine false false write_fails h = continues-Lives s server inv on
    fine false true false h = continues-Lives s server inv on
    fine false true true (inl e) = absurd (cc e)
    fine false true true (inr e) = absurd (cc e)

    freed :
        (error replies write_fails : Bool)
        → error ≡ false
        → (replies && write_fails) ≡ true
        → handle_receive error replies write_fails s server ≡ use_after_free
    freed true replies write_fails e h = absurd (cc e)
    freed false false write_fails e h = absurd (cc h)
    freed false true false e h = absurd (cc h)
    freed false true true e h = rw (member-without_self s server.api_sessions)
