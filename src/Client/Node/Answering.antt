-- ===== src/Client/Node/Answering.antt =====
-- What the calls of src/library/P2PNode.cpp and P2PSocket.cpp rely on from a daemon, and that they end in
-- no exception then. src/daemon/api/APISession.cpp keeps it.
use p2pnet.Base.{ℕ, List, [], ◌∷◌, Option, none, some, ◌≡◌, ◌∙◌, refl}
use p2pnet.Base.Maps.{find, nat_eq}
use p2pnet.Crypto.Hash.{Bytes}
use p2pnet.Api.Message.{ApiMessage}
use p2pnet.Api.Session.Answers.{IsAnswer}
use p2pnet.Client.Session.{Session}
use p2pnet.Client.Node
use p2pnet.Client.Node.{
  World, Result, Socket, hangs, crashed, and_then, swallow, client_exchange, new_node, destroy_node,
  accept, connect, listen, bind, destroy_socket,
}
use p2pnet.Client.Node.Exchanges.{
  marked, find-replied_to, exchange-replied, exchange-unanswered, exchange-ended,
}

abbrev pub IsAnswered {ℓ} : {D : Type ℓ} → ApiMessage → Option (List ApiMessage × D) → Type 0
IsAnswered m none = Unit
IsAnswered m (some (messages, d)) = IsAnswer m messages

-- The daemon ends, or sends nothing, or sends one reply, with the token and the error field of the
-- request.
pub record Answering {D : Type 0} (serve : ApiMessage → D → Option (List ApiMessage × D))
    : Type 0 where
  pub answers : (m : ApiMessage) (d : D) → IsAnswered m (serve m d)

module _ {D A : Type 0} (s : Session) where
  -- A call that ends without an exception, and returns only with the other calls of the session as
  -- they were.
  abbrev pub Settles : Result D A → Type 0
  Settles (Node.returned a w) =
      (j : ℕ) → find j w.session.awaiting_receive ≡ find j s.awaiting_receive
  Settles (Node.thrown code w) = ⊥
  Settles (hangs w) = Unit
  Settles crashed = ⊥

module _ {D A : Type 0} (s : Session) where
  swallow-Settles : (r : Result D A) → Settles s r → Settles s (swallow r)
  swallow-Settles (Node.returned a w) h = h
  swallow-Settles (Node.thrown code w) h = absurd h
  swallow-Settles (hangs w) h = h
  swallow-Settles crashed h = h

module _ {D A B : Type 0} (s : Session) where
  and_then-Settles :
      (f : A → B) (r : Result D A)
      → Settles s r
      → Settles s (and_then (λ a w. Node.returned (f a) w) r)
  and_then-Settles f (Node.returned a w) h = h
  and_then-Settles f (Node.thrown code w) h = h
  and_then-Settles f (hangs w) h = h
  and_then-Settles f crashed h = h

-- A daemon that keeps the law, and a session whose next token is not in use.
module _ {D : Type 0} (serve : ApiMessage → D → Option (List ApiMessage × D))
    (lawful : Answering serve) (w : World D)
    (free : find w.session.next_msg_token w.session.awaiting_receive ≡ none) where
  exchange-Settles :
      (request : ApiMessage)
      → request.error ≡ none
      → Settles w.session (client_exchange serve request w)
  exchange-Settles request fine =
      go (serve (marked request w.session) w.daemon) refl
        (lawful.answers (marked request w.session) w.daemon)
    where
      go :
          (r : Option (List ApiMessage × D))
          → serve (marked request w.session) w.daemon ≡ r
          → IsAnswered (marked request w.session) r
          → Settles w.session (client_exchange serve request w)
      go none e h = rw (exchange-ended serve request w free e) tt
      go (some ([], d)) e h = rw (exchange-unanswered serve request w free d e) tt
      go (some (reply ∷ [], d)) e h =
          rw (exchange-replied serve request w free reply d e h.0 (h.1 ∙ fine))
            (find-replied_to request w.session free reply)
      go (some (reply ∷ other ∷ others, d)) e h = absurd h

  -- With a daemon that answers each request at most once, under the request's token and with the request's
  -- own error field, so that no reply carries an error, and a token that is not in use: every call of the library, in the state in which it is made, returns or waits for
  -- ever; none ends in an exception. One that returns leaves the other calls of the session as they
  -- were.
  pub calls_settle :
      (key_of_binary : Bytes → Bytes) (decode : Bytes → ℕ) (encode : ℕ → Bytes) (node : Node.Node)
      (socket : Socket) (bytes : Bytes) (max_conn : ℕ)
      → Settles w.session (new_node serve w)
        × Settles w.session (destroy_node serve node w)
        × Settles w.session (accept serve node w)
        × Settles w.session (connect serve node bytes w)
        × Settles w.session (listen serve node max_conn w)
        × Settles w.session (bind serve key_of_binary decode encode node bytes w)
        × Settles w.session (destroy_socket serve socket w)
  unfolding new_node destroy_node accept connect listen bind destroy_socket
  calls_settle key_of_binary decode encode node socket bytes max_conn = (
    and_then-Settles w.session _ _ (exchange-Settles _ refl),
    swallow-Settles w.session _ (exchange-Settles _ refl),
    and_then-Settles w.session _ _ (exchange-Settles _ refl),
    and_then-Settles w.session _ _ (exchange-Settles _ refl),
    and_then-Settles w.session _ _ (exchange-Settles _ refl),
    and_then-Settles w.session _ _ (exchange-Settles _ refl),
    swallow-Settles w.session _ (exchange-Settles _ refl),
  )
