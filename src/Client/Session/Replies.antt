-- ===== src/Client/Session/Replies.antt =====
-- Which reply a call of clientExchange returns, in every order of the events.
use p2pnet.Base.{
  ℕ, Bool, List, [], ◌∷◌, Option, none, some, ◌==◌, ◌≡◌, refl, sym, subst, ==→≡, if-cases,
}
use p2pnet.Base.Maps.{find, nat_eq}
use p2pnet.Api.Message.{ApiMessage, ErrorMessage}
use p2pnet.Client.Session.{
  Promise, fulfilled, pending, Session, new_session, returned, finish_exchange, after_wait, checked,
}
use p2pnet.Client.Session.Mailbox.{
  Call, idle, waits, answered, Mailbox, Event, begins, delivers, ends, Output, update, mail_begin,
  mail_deliver, mail_end, mail_message, mail_step, after, run,
}
use p2pnet.Client.Session.Refinement.{view, call, step, run_refines}

-- Every call that has a reply has one with its own token.
abbrev IsMatched : Mailbox → Type 0
IsMatched b = (t : ℕ) (m : ApiMessage) → b.calls t ≡ answered m → m.message_token ≡ some t

abbrev Matches {ℓ} : {A : Type ℓ} → Option (A × Mailbox) → Type 0
Matches none = Unit
Matches (some (a, b)) = IsMatched b

-- A changed call is matched if it is not answered, or answered with its token.
update-IsMatched :
    (token : ℕ) (c : Call) (b : Mailbox)
    → IsMatched b
    → ((m : ApiMessage) → c ≡ answered m → m.message_token ≡ some token)
    → (t : ℕ) (m : ApiMessage) → update token c b.calls t ≡ answered m
    → m.message_token ≡ some t
update-IsMatched token c b h new t m =
    if-cases (λ k. k ≡ answered m → m.message_token ≡ some t) (token == t) c (b.calls t)
      (λ same e. rw⁻¹ (==→≡ token t same) (new m e)) (λ other e. h t m e)

begin-IsMatched :
    (request : ApiMessage) (c : Call) (b : Mailbox) → IsMatched b → Matches (mail_begin request c b)
begin-IsMatched request idle b h = update-IsMatched b.next_token waits b h (λ m e. absurd (cc e))
begin-IsMatched request waits b h = tt
begin-IsMatched request (answered m) b h = tt

deliver-IsMatched :
    (aborted : Bool) (message : ApiMessage) (token : ℕ) (c : Call) (b : Mailbox)
    → IsMatched b
    → message.message_token ≡ some token
    → Matches (mail_deliver aborted message token c b)
deliver-IsMatched aborted message token idle b h own = tt
deliver-IsMatched aborted message token waits b h own =
    update-IsMatched token (answered message) b h
      (λ m e. let same : message ≡ m = cc e in rw⁻¹ same own)
deliver-IsMatched aborted message token (answered m) b h own = tt

message-IsMatched :
    (aborted : Bool) (message : ApiMessage) (t : Option ℕ) (b : Mailbox)
    → IsMatched b
    → message.message_token ≡ t
    → Matches (mail_message aborted message t b)
message-IsMatched aborted message none b h own = h
message-IsMatched aborted message (some token) b h own =
    deliver-IsMatched aborted message token (b.calls token) b h own

end-IsMatched : (token : ℕ) (c : Call) (b : Mailbox) → IsMatched b → Matches (mail_end token c b)
end-IsMatched token idle b h = tt
end-IsMatched token waits b h = tt
end-IsMatched token (answered reply) b h = update-IsMatched token idle b h (λ m e. absurd (cc e))

step-IsMatched : (e : Event) (b : Mailbox) → IsMatched b → Matches (mail_step e b)
step-IsMatched (begins request) b h = begin-IsMatched request (b.calls b.next_token) b h
step-IsMatched (delivers aborted message) b h =
    message-IsMatched aborted message message.message_token b h refl
step-IsMatched (ends token) b h = end-IsMatched token (b.calls token) b h

run-IsMatched : (es : List Event) (b : Mailbox) → IsMatched b → Matches (run mail_step es b)
run-IsMatched [] b h = h
run-IsMatched (e ∷ es) b h = go (run-IsMatched es) (mail_step e b) (step-IsMatched e b h)
  where
    later : (o : Output) (q : Option (List Output × Mailbox)) → Matches q → Matches (after o q)
    later o none h = h
    later o (some (os, b'')) h = h

    go :
        ((b' : Mailbox) → IsMatched b' → Matches (run mail_step es b'))
        → (r : Option (Output × Mailbox)) → Matches r
        → Matches (elim r [ none ↦ none | some (o, b') ↦ after o (run mail_step es b') ])
    go rest none h = tt
    go rest (some (o, b')) h = later o (run mail_step es b') (rest b' h)

-- Only a call whose promise is fulfilled returns, and with that reply.
returned→answered :
    (token : ℕ) (p : Option Promise) (reply : ApiMessage) (s s' : Session)
    → after_wait token p s ≡ returned reply s'
    → call p ≡ answered reply
returned→answered token none reply s s' e = absurd (cc e)
returned→answered token (some pending) reply s s' e = absurd (cc e)
returned→answered token (some (fulfilled m)) reply s s' e = go m.error _ e
  where
    go :
        (error : Option ErrorMessage) (s'' : Session)
        → checked token error m s'' ≡ returned reply s'
        → answered m ≡ answered reply
    go none s'' e = cc e
    go (some error) s'' e = absurd (cc e)

-- In every run of a new session, whatever the order of calls and messages, a call that returns gives
-- the caller a reply that carries the call's own token.
pub returned_own :
    (es : List Event) (os : List Output) (s s' : Session) (token : ℕ) (reply : ApiMessage)
    → run step es new_session ≡ some (os, s)
    → finish_exchange token s ≡ returned reply s'
    → reply.message_token ≡ some token
unfolding find finish_exchange
returned_own es os s s' token reply ran finished =
    let ends_at : run mail_step es (view new_session) ≡ some (os, view s) =
      rw (sym (run_refines es new_session), ran) refl in
    let matched : IsMatched (view s) =
      subst Matches ends_at (run-IsMatched es (view new_session) (λ t m e. absurd (cc e))) in
    matched token reply
      (returned→answered token (find token s.awaiting_receive) reply s s' finished)
