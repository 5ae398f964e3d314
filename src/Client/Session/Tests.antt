-- ===== src/Client/Session/Tests.antt =====
-- A session whose two calls are answered in another order than they were made.
use p2pnet.Base.{ℕ, false, true, List, [], ◌∷◌, none, some, ◌≡◌, refl, arith}
use p2pnet.Base.Maps.{find, insert, erase, nat_eq}
use p2pnet.Api.Message.{ApiMessage, empty_message, node_register}
use p2pnet.Client.Session
use p2pnet.Client.Session.{
  Session, new_session, start_exchange, handle_receive, finish_exchange, mark_message, async_send,
  receive_loop,
}
use p2pnet.Client.Session.Mailbox.{Event, begins, delivers, Output, asked, taken, run, mail_step}
use p2pnet.Client.Session.Refinement.{view, view_of, step, run_refines}
use p2pnet.Client.Session.Replies.{returned_own}
use p2pnet.Client.Session.Tokens.{token_free, begun}

abbrev request : ApiMessage
request = record empty_message { type = some node_register }

abbrev reply_to : ℕ → ApiMessage
reply_to token = record empty_message { message_token = some token; register_id = some token }

abbrev out_of_order : List Event
out_of_order =
    begins request ∷ begins request ∷ delivers false (reply_to 1) ∷ delivers false (reply_to 0) ∷ []

run_refines_example :
    view_of (run step out_of_order new_session) ≡ run mail_step out_of_order (view new_session)
run_refines_example = run_refines out_of_order new_session

abbrev outputs : List Output
outputs = asked 0 ∷ asked 1 ∷ taken ∷ taken ∷ []

abbrev at_end : Session
at_end = record {
  awaiting_receive = (0, Session.fulfilled (reply_to 0)) ∷ (1, Session.fulfilled (reply_to 1)) ∷ [];
  next_msg_token = 2;
  sent = record request { message_token = some 0 } ∷ record request { message_token = some 1 } ∷ [];
  receiving = true;
}

out_of_order-runs : run step out_of_order new_session ≡ some (outputs, at_end)
unfolding start_exchange handle_receive mark_message async_send receive_loop find insert erase
out_of_order-runs = refl

abbrev first_taken : Session
first_taken = record at_end { awaiting_receive = (1, Session.fulfilled (reply_to 1)) ∷ [] }

first_taken-eq : finish_exchange 0 at_end ≡ Session.returned (reply_to 0) first_taken
unfolding finish_exchange find erase
first_taken-eq = refl

returned_own_example : (reply_to 0).message_token ≡ some 0
returned_own_example =
    returned_own out_of_order outputs at_end first_taken 0 (reply_to 0) out_of_order-runs
      first_taken-eq

token_free_example :
    (at_end.next_msg_token ≡ begun out_of_order)
    × (find at_end.next_msg_token at_end.awaiting_receive ≡ none)
token_free_example = token_free out_of_order outputs at_end (omega arith) out_of_order-runs
