-- ===== src/Client/Session/Mailbox.antt =====
-- What the session of src/library/P2PSession.cpp promises its callers: a mailbox that holds, for each
-- token, no call, a call that waits or a call with its reply. It forgets how the map keeps them.
use p2pnet.Base.{ℕ, Bool, true, false, List, [], ◌∷◌, ◌++◌, Option, none, some, ◌==◌, if◌then◌else◌}
use p2pnet.Api.Message.{ApiMessage, ErrorMessage}
use p2pnet.Api.Session.{increment}

pub data Call : Type 0 where
  idle : Call
  waits : Call
  answered : ApiMessage → Call

pub record Mailbox : Type 0 where
  pub calls : ℕ → Call
  pub next_token : ℕ
  pub sent : List ApiMessage
  pub receiving : Bool

-- What happens at a session, in the order in which the threads do it: a call begins, the receive loop
-- delivers a message (with an aborted operation or not), a call that waited goes on.
pub data Event : Type 0 where
  begins : ApiMessage → Event
  delivers : Bool → ApiMessage → Event
  ends : ℕ → Event

-- What the callers see of it: the token of a call, nothing, a reply, or the code of an exception.
pub data Output : Type 0 where
  asked : ℕ → Output
  taken : Output
  replied : ApiMessage → Output
  failed : ℕ → Output

abbrev pub update : ℕ → Call → (ℕ → Call) → ℕ → Call
update token call calls j = if token == j then call else calls j

-- The reply of a call, or the error that it carries.
abbrev pub outcome : Option ErrorMessage → ApiMessage → Output
outcome none reply = replied reply
outcome (some error) reply = failed error.error_code

-- A begun call waits, under a token that no other call has; none is the token in use.
abbrev pub mail_begin : ApiMessage → Call → Mailbox → Option (Output × Mailbox)
mail_begin request idle b = some (
  asked b.next_token,
  record b {
    calls = update b.next_token waits b.calls;
    next_token = increment b.next_token;
    sent = b.sent ++ record request { message_token = some b.next_token } ∷ [];
  },
)
mail_begin request waits b = none
mail_begin request (answered m) b = none

-- A message with a token answers the call that waits under it, and no other.
abbrev pub mail_deliver : Bool → ApiMessage → ℕ → Call → Mailbox → Option (Output × Mailbox)
mail_deliver aborted message token idle b = none
mail_deliver aborted message token waits b = some (
  taken,
  record b {
    calls = update token (answered message) b.calls;
    receiving = elim aborted [ true ↦ false | false ↦ true ];
  },
)
mail_deliver aborted message token (answered m) b = none

-- A call with its reply ends, and its token is free again.
abbrev pub mail_end : ℕ → Call → Mailbox → Option (Output × Mailbox)
mail_end token idle b = none
mail_end token waits b = none
mail_end token (answered reply) b =
    some (outcome reply.error reply, record b { calls = update token idle b.calls })

abbrev pub mail_message : Bool → ApiMessage → Option ℕ → Mailbox → Option (Output × Mailbox)
mail_message aborted message none b =
    some (taken, record b { receiving = elim aborted [ true ↦ false | false ↦ true ] })
mail_message aborted message (some token) b = mail_deliver aborted message token (b.calls token) b

abbrev pub mail_step : Event → Mailbox → Option (Output × Mailbox)
mail_step (begins request) b = mail_begin request (b.calls b.next_token) b
mail_step (delivers aborted message) b = mail_message aborted message message.message_token b
mail_step (ends token) b = mail_end token (b.calls token) b

-- A run of events by a step function: the outputs in order, and the last state.
abbrev pub after {ℓ} : {S : Type ℓ} → Output → Option (List Output × S) → Option (List Output × S)
after o none = none
after o (some (os, s)) = some (o ∷ os, s)

abbrev pub run {ℓ} :
    {S : Type ℓ} → (Event → S → Option (Output × S)) → List Event → S → Option (List Output × S)
run step [] s = some ([], s)
run step (e ∷ es) s = elim (step e s) [ none ↦ none | some (o, s') ↦ after o (run step es s') ]
