-- ===== src/Api/Session/Tests.antt =====
-- A session that runs through a register request, an unregister request and one for a node that it
-- does not have.
use p2pnet.Base.{ℕ, refl, [], some, arith, inr}
use p2pnet.Base.Maps.{find, nat_eq}
use p2pnet.Crypto.Hash.{Bytes}
use p2pnet.P2p.NodeManager.{empty_manager}
use p2pnet.Api.Message.{ApiMessage, empty_message, node_register, node_unregister}
use p2pnet.Api.Session.{State, new_session, process}
use p2pnet.Api.Session.Requests.{IsAllocating, Ends, process-IsAllocating}
use p2pnet.Api.Session.Answers.{Answers, process-Answers}

abbrev start : State
start = record { session = new_session; manager = empty_manager }

new_session-IsAllocating : IsAllocating new_session
unfolding find
new_session-IsAllocating =
    (tt, inr (omega arith, omega arith, refl, λ i le lt. absurd (omega (arith, le, lt))))

abbrev register_request : ApiMessage
register_request = record empty_message { type = some node_register; message_token = some 5 }

abbrev unregister_request : ApiMessage
unregister_request = record empty_message { type = some node_unregister; unregister_id = some 1 }

-- The parts of Botan: what they give does not matter here.
abbrev same : Bytes → Bytes
same b = b

abbrev number : Bytes → ℕ
number b = 0

abbrev text : ℕ → Bytes
text n = []

process-IsAllocating_example :
    Ends IsAllocating (process same same number text 8 register_request start)
process-IsAllocating_example =
    process-IsAllocating same same number text 8 register_request start new_session-IsAllocating

process-Answers_example :
    Ends (Answers register_request) (process same same number text 8 register_request start)
process-Answers_example = process-Answers same same number text 8 register_request start refl
