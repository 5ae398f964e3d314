-- ===== src/Client/Peer.antt =====
-- The client library of src/library against the session of src/daemon/api/APISession.cpp, over a
-- connection that hands every message on. An exception of a handler, and `throw;` without one, end the
-- daemon.
pub mod Nodes
pub mod Waiting
pub mod Binding
mod Tests
use p2pnet.Base.{ℕ, List, [], Option, none, some, refl}
use p2pnet.Crypto.Hash.{Bytes}
use p2pnet.Api.Message.{ApiMessage}
use p2pnet.Api.Session.{State, Ended, returned, thrown, terminated, process}
use p2pnet.Api.Session.Requests.{Ends}
use p2pnet.Api.Session.Answers.{Answers, unsent, process-Answers}
use p2pnet.Client.Node.Answering.{IsAnswered, Answering}

abbrev sent_at_end : Ended → Option (List ApiMessage × State)
sent_at_end (returned st) = some (st.session.sent, st)
sent_at_end (thrown e st) = none
sent_at_end terminated = none

module _ (derive_sh : Bytes → Bytes) (key_of_binary : Bytes → Bytes) (decode : Bytes → ℕ)
    (encode : ℕ → Bytes) (self : ℕ) where
  -- The messages that the session sends for a request, and the daemon afterwards.
  pub serve : ApiMessage → State → Option (List ApiMessage × State)
  serve request st =
      sent_at_end (process derive_sh key_of_binary decode encode self request (unsent st))

  -- The daemon's session answers a request with at most one message, which carries the token and the
  -- error of the request, on every branch of every handler.
  pub serve-Answering : Answering serve
  unfolding serve
  serve-Answering = record {
    answers = λ request st.
        go request (process derive_sh key_of_binary decode encode self request (unsent st))
          (process-Answers derive_sh key_of_binary decode encode self request (unsent st) refl);
  }
    where
      go :
          (request : ApiMessage) (r : Ended)
          → Ends (Answers request) r
          → IsAnswered request (sent_at_end r)
      go request (returned st) h = h
      go request (thrown e st) h = tt
      go request terminated h = tt
