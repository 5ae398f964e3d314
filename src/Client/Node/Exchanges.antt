-- ===== src/Client/Node/Exchanges.antt =====
-- One exchange of src/library/P2PNode.cpp with a daemon that keeps the law of `Answering`.
use p2pnet.Base.{ℕ, true, false, List, [], ◌∷◌, ◌++◌, Option, ==-refl, none, some, ◌≡◌, refl, arith}
use p2pnet.Base.Maps.{find, insert, erase, nat_eq, find-insert, find-erase, find-cons, nat_beq_iff}
use p2pnet.Api.Message.{ApiMessage}
use p2pnet.Api.Session.{increment}
use p2pnet.Client.Session
use p2pnet.Client.Session.{
  Session, Promise, pending, fulfilled, Started, waiting, Received, received, Finished, blocked,
  mark_message, async_send, start_exchange, handle_receive, receive_loop, finish_exchange, prune,
  set_value, give, continue_loop, after_wait, checked,
}
use p2pnet.Client.Node.{World, returned, hangs, client_exchange}

-- The request under the token that it gets.
abbrev pub marked : ApiMessage → Session → ApiMessage
marked request s = record request { message_token = some s.next_msg_token }

-- The session of a call that waits.
abbrev pub asking : ApiMessage → Session → Session
asking request s = record s {
  awaiting_receive = insert s.next_msg_token pending s.awaiting_receive;
  next_msg_token = increment s.next_msg_token;
  sent = s.sent ++ marked request s ∷ [];
}

module _ (request : ApiMessage) (s : Session)
    (free : find s.next_msg_token s.awaiting_receive ≡ none) where
  start-eq : start_exchange request s ≡ waiting s.next_msg_token (asking request s)
  unfolding start_exchange mark_message async_send
  start-eq = rw (start_exchange, free) refl

  pub find-asking : find s.next_msg_token (asking request s).awaiting_receive ≡ some pending
  find-asking =
      ground (arith, find-insert s.next_msg_token s.next_msg_token pending s.awaiting_receive free)

  -- The session when the reply has arrived, and when the call has taken it.
  abbrev holding : ApiMessage → Session
  holding reply = record (asking request s) {
    awaiting_receive =
        (s.next_msg_token, fulfilled reply)
        ∷ erase s.next_msg_token (asking request s).awaiting_receive;
    receiving = true;
  }

  abbrev pub replied_to : ApiMessage → Session
  replied_to reply = record (holding reply) {
    awaiting_receive = erase s.next_msg_token (holding reply).awaiting_receive;
  }

  -- The call leaves the other calls of the session as they were, and none under its own token.
  pub find-replied_to :
      (reply : ApiMessage) (j : ℕ)
      → find j (replied_to reply).awaiting_receive ≡ find j s.awaiting_receive
  find-replied_to reply j = ground (
    arith,
    find-erase s.next_msg_token j (holding reply).awaiting_receive,
    find-cons s.next_msg_token j (fulfilled reply)
        (erase s.next_msg_token (asking request s).awaiting_receive),
    find-erase s.next_msg_token j (asking request s).awaiting_receive,
    find-insert s.next_msg_token j pending s.awaiting_receive free,
    nat_beq_iff s.next_msg_token j,
    free,
  )

  receive-eq :
      (reply : ApiMessage)
      → reply.message_token ≡ some s.next_msg_token
      → handle_receive false reply (asking request s) ≡ received (holding reply)
  unfolding handle_receive receive_loop
  receive-eq reply own = rw (handle_receive, own, find-asking) refl

  finish-eq :
      (reply : ApiMessage)
      → reply.error ≡ none
      → finish_exchange s.next_msg_token (holding reply) ≡ Session.returned reply (replied_to reply)
  unfolding finish_exchange find
  finish-eq reply fine = rw (finish_exchange, ==-refl s.next_msg_token, fine) refl

  finish-pending : finish_exchange s.next_msg_token (asking request s) ≡ blocked
  unfolding finish_exchange
  finish-pending = rw (finish_exchange, find-asking) refl

module _ {D : Type 0} (serve : ApiMessage → D → Option (List ApiMessage × D)) (request : ApiMessage)
    (w : World D) (free : find w.session.next_msg_token w.session.awaiting_receive ≡ none) where
  -- An exchange with a daemon that replies once, under the token of the request and without an error.
  pub exchange-replied :
      (reply : ApiMessage) (d : D)
      → serve (marked request w.session) w.daemon ≡ some (reply ∷ [], d)
      → reply.message_token ≡ some w.session.next_msg_token
      → reply.error ≡ none
      → client_exchange serve request w
        ≡ returned reply (record { session = replied_to request w.session free reply; daemon = d })
  unfolding client_exchange mark_message
  exchange-replied reply d served own fine =
      rw
        (
          client_exchange,
          start-eq request w.session free,
          served,
          receive-eq request w.session free reply own,
          finish-eq request w.session free reply fine,
        )
        refl

  -- An exchange with a daemon that sends nothing waits for ever.
  pub exchange-unanswered :
      (d : D)
      → serve (marked request w.session) w.daemon ≡ some ([], d)
      → client_exchange serve request w
        ≡ hangs (record { session = asking request w.session; daemon = d })
  unfolding client_exchange mark_message
  exchange-unanswered d served =
      rw
        (
          client_exchange,
          start-eq request w.session free,
          served,
          finish-pending request w.session free,
        )
        refl

  -- So does one with a daemon whose process ends.
  pub exchange-ended :
      serve (marked request w.session) w.daemon ≡ none
      → client_exchange serve request w
        ≡ hangs (record { session = asking request w.session; daemon = w.daemon })
  unfolding client_exchange mark_message
  exchange-ended served = rw (client_exchange, start-eq request w.session free, served) refl
