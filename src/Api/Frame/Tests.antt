-- ===== src/Api/Frame/Tests.antt =====
-- The framing of messages, run on a protocol with one field.
use p2pnet.Base.{ℕ, ◌≡◌, refl, [], ◌∷◌, ◌++◌, some, arith}
use p2pnet.Crypto.Hash.{Bytes}
use p2pnet.Api.Message.{ApiMessage, empty_message, or_zero}
use p2pnet.Api.Frame.{receive, received, send, send_all, receive_loop, async_receive}
use p2pnet.Api.Frame.RoundTrip.{receive-send, receive_loop-send_all, async_receive-eq-receive}

abbrev with_token : ℕ → ApiMessage
with_token n = record empty_message { message_token = some n }

-- A message is written as its token.
abbrev serialize_token : ApiMessage → Bytes
serialize_token m = or_zero m.message_token ∷ []

abbrev parse_token : Bytes → ApiMessage
parse_token [] = empty_message
parse_token (x ∷ xs) = with_token x

receive-send_example :
    receive parse_token (send serialize_token (with_token 7) ++ 1 ∷ 2 ∷ [])
    ≡ received (with_token 7) (1 ∷ 2 ∷ [])
receive-send_example =
    receive-send serialize_token parse_token (with_token 7) (1 ∷ 2 ∷ []) refl (omega arith)

receive_loop-send_all_example :
    receive_loop parse_token 3 (send_all serialize_token (with_token 7 ∷ with_token 9 ∷ []))
    ≡ with_token 7 ∷ with_token 9 ∷ []
receive_loop-send_all_example =
    receive_loop-send_all serialize_token parse_token (with_token 7 ∷ with_token 9 ∷ []) 3
      ((refl, omega arith), ((refl, omega arith), tt)) (omega arith)

async_receive-eq-receive_example :
    async_receive parse_token (send serialize_token (with_token 7))
    ≡ receive parse_token (send serialize_token (with_token 7))
async_receive-eq-receive_example =
    async_receive-eq-receive parse_token (send serialize_token (with_token 7))
