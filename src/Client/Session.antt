-- ===== src/Client/Session.antt =====
-- src/library/P2PSession.h and P2PSession.cpp, and the calls of P2PDaemon.cpp that lead there. A call of
-- clientExchange is cut in two where it waits: `start_exchange` goes up to the wait for the future,
-- `finish_exchange` goes on from there. Between them the receive loop and other threads run. The io
-- service and its thread are the caller of `handle_receive`.
pub mod Mailbox
pub mod Refinement
pub mod Replies
pub mod Tokens
mod Tests
use p2pnet.Base.{ℕ, Bool, true, false, List, [], ◌∷◌, ◌++◌, Option, none, some}
use p2pnet.Base.Maps.{find, insert, erase, nat_eq}
use p2pnet.Api.Message.{ApiMessage, ErrorMessage}
use p2pnet.Api.Session.{increment}

-- std::promise<api::APIMessage>, and the value that its future will give.
pub data Promise : Type 0 where
  pending : Promise
  fulfilled : ApiMessage → Promise

-- `sent` are the messages handed to the daemon's asyncSend; `receiving` says that an asyncReceive is on
-- the way.
pub record Session : Type 0 where
  pub awaiting_receive : List (ℕ × Promise)
  pub next_msg_token : ℕ
  pub sent : List ApiMessage
  pub receiving : Bool

-- P2PSession::P2PSession
abbrev pub new_session : Session
new_session = record { awaiting_receive = []; next_msg_token = 0; sent = []; receiving = false }

-- receiveLoop
unfoldable pub receive_loop : Session → Session
receive_loop s = record s { receiving = true }

-- markMessage: the token, and the marked message.
unfoldable pub mark_message : ApiMessage → Session → ℕ × ApiMessage × Session
mark_message message s = (
  s.next_msg_token,
  record message { message_token = some s.next_msg_token },
  record s { next_msg_token = increment s.next_msg_token },
)

-- asyncSend
unfoldable pub async_send : ApiMessage → Session → Session
async_send data_ s = record s { sent = s.sent ++ data_ ∷ [] }

-- clientExchange up to the wait: it waits for the token's promise, or the promise in the map is an
-- older one, whose future was taken already (a std::future_error, which no handler catches).
pub data Started : Type 0 where
  waiting : ℕ → Session → Started
  future_already_retrieved : Session → Started

unfoldable pub start_exchange : ApiMessage → Session → Started
unfolding mark_message async_send
start_exchange request_message s =
    let (token, message, s') = mark_message request_message s in
    elim (find token s'.awaiting_receive) [
      | none ↦ waiting token (
          async_send message
            (record s' { awaiting_receive = insert token pending s'.awaiting_receive }))
      | some promise ↦ future_already_retrieved s'
    ]

-- handleReceive: it ends, or it uses the iterator behind the map's end, or it sets a promise twice (a
-- std::future_error in the thread of the io service).
pub data Received : Type 0 where
  received : Session → Received
  end_dereferenced : Received
  already_satisfied : Received

-- The promise that promise_it points to.
abbrev pub set_value : ℕ → ApiMessage → Option Promise → Session → Received
set_value token message none s = end_dereferenced
set_value token message (some (fulfilled m)) s = already_satisfied
set_value token message (some pending) s =
    received
      (record s { awaiting_receive = (token, fulfilled message) ∷ erase token s.awaiting_receive })

-- The receive loop goes on unless the operation was aborted.
abbrev pub continue_loop : Bool → Received → Received
continue_loop operation_aborted (received s) =
    received (elim operation_aborted [ true ↦ s | false ↦ receive_loop s ])
continue_loop operation_aborted end_dereferenced = end_dereferenced
continue_loop operation_aborted already_satisfied = already_satisfied

-- The promise of the message's token, if it has one.
abbrev pub give : ApiMessage → Option ℕ → Session → Received
give message none s = received s
give message (some token) s = set_value token message (find token s.awaiting_receive) s

unfoldable pub handle_receive : (operation_aborted : Bool) → ApiMessage → Session → Received
unfolding receive_loop
handle_receive operation_aborted message s =
    continue_loop operation_aborted
      (give message message.message_token (record s { receiving = false }))

-- The catch of clientExchange: the token's entry is erased if it is there.
unfoldable pub prune : ℕ → Session → Session
prune token s = elim (find token s.awaiting_receive) [
  | none ↦ s
  | some promise ↦ record s { awaiting_receive = erase token s.awaiting_receive }
]

-- clientExchange from the wait on: the reply, the exception that the reply carries, a call that still
-- waits, or one whose promise was destroyed.
pub data Finished : Type 0 where
  returned : ApiMessage → Session → Finished
  thrown : (error_code : ℕ) → Session → Finished
  blocked : Finished
  broken_promise : Finished

abbrev pub checked : ℕ → Option ErrorMessage → ApiMessage → Session → Finished
checked token none reply_message s = returned reply_message s
checked token (some error) reply_message s = thrown error.error_code (prune token s)

abbrev pub after_wait : ℕ → Option Promise → Session → Finished
after_wait token none s = broken_promise
after_wait token (some pending) s = blocked
after_wait token (some (fulfilled reply_message)) s =
    checked token reply_message.error reply_message
      (record s { awaiting_receive = erase token s.awaiting_receive })

unfoldable pub finish_exchange : ℕ → Session → Finished
unfolding prune
finish_exchange token s = after_wait token (find token s.awaiting_receive) s
