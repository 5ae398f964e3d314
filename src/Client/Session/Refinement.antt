-- ===== src/Client/Session/Refinement.antt =====
-- The session of src/library/P2PSession.cpp behaves as the mailbox.
use p2pnet.Base.{
  ℕ, Bool, true, false, List, [], ◌∷◌, ◌++◌, Option, none, some, ◌≡◌, refl, ap, arith, inl, inr,
  Option-cases,
}
use p2pnet.Base.Maps.{find, insert, erase, nat_eq, find-insert, find-erase}
use p2pnet.Api.Message.{ApiMessage, ErrorMessage}
use p2pnet.Api.Session.{increment}
use p2pnet.Client.Session.{
  Promise, pending, fulfilled, Session, Started, waiting, future_already_retrieved, Received,
  received, end_dereferenced, already_satisfied, Finished, returned, thrown, blocked,
  broken_promise, start_exchange, handle_receive, finish_exchange, mark_message, async_send,
  receive_loop, set_value, give, checked, continue_loop, after_wait, prune,
}
use p2pnet.Client.Session.Mailbox.{
  Call, idle, waits, answered, Mailbox, Event, begins, delivers, ends, Output, asked, taken,
  replied, failed, update, outcome, mail_deliver, mail_end, mail_message, mail_step, after, run,
}

-- An event at the session, with what the callers see; none is a call that does not get so far.
abbrev of_started : Started → Option (Output × Session)
of_started (waiting token s) = some (asked token, s)
of_started (future_already_retrieved s) = none

abbrev of_received : Received → Option (Output × Session)
of_received (received s) = some (taken, s)
of_received end_dereferenced = none
of_received already_satisfied = none

abbrev of_finished : Finished → Option (Output × Session)
of_finished (returned reply s) = some (replied reply, s)
of_finished (thrown code s) = some (failed code, s)
of_finished blocked = none
of_finished broken_promise = none

abbrev pub step : Event → Session → Option (Output × Session)
step (begins request) s = of_started (start_exchange request s)
step (delivers aborted message) s = of_received (handle_receive aborted message s)
step (ends token) s = of_finished (finish_exchange token s)

abbrev pub call : Option Promise → Call
call none = idle
call (some pending) = waits
call (some (fulfilled reply)) = answered reply

-- The mailbox that a session implements.
abbrev pub view : Session → Mailbox
view s = record {
  calls = λ token. call (find token s.awaiting_receive);
  next_token = s.next_msg_token;
  sent = s.sent;
  receiving = s.receiving;
}

abbrev pub view_of {ℓ} : {A : Type ℓ} → Option (A × Session) → Option (A × Mailbox)
view_of none = none
view_of (some (a, s)) = some (a, view s)

module _ (token : ℕ) (m : List (ℕ × Promise)) where
  calls-insert :
      find token m ≡ none
      → (λ j. call (find j (insert token pending m))) ≡ update token waits (λ j. call (find j m))
  calls-insert free = λ i j. go j i
    where
      go :
          (j : ℕ)
          → call (find j (insert token pending m)) ≡ update token waits (λ j. call (find j m)) j
      go j = ground (arith, find-insert token j pending m free)

  calls-set :
      (reply : ApiMessage)
      → (λ j. call (find j ((token, fulfilled reply) ∷ erase token m)))
        ≡ update token (answered reply) (λ j. call (find j m))
  unfolding find
  calls-set reply = λ i j. go j i
    where
      go :
          (j : ℕ)
          → call (find j ((token, fulfilled reply) ∷ erase token m))
            ≡ update token (answered reply) (λ j. call (find j m)) j
      go j = ground (arith, find-erase token j m)

  calls-erase : (λ j. call (find j (erase token m))) ≡ update token idle (λ j. call (find j m))
  calls-erase = λ i j. go j i
    where
      go : (j : ℕ) → call (find j (erase token m)) ≡ update token idle (λ j. call (find j m)) j
      go j = ground (arith, find-erase token j m)

begin_refines :
    (request : ApiMessage) (s : Session)
    → view_of (step (begins request) s) ≡ mail_step (begins request) (view s)
unfolding start_exchange mark_message async_send
begin_refines request s = elim (Option-cases (find s.next_msg_token s.awaiting_receive)) [
  | inl free ↦
      rw (start_exchange, free)
        (ap
          (λ f. some (
            asked s.next_msg_token,
            record (view s) {
              calls = f;
              next_token = increment s.next_msg_token;
              sent = s.sent ++ record request { message_token = some s.next_msg_token } ∷ [];
            },
          ))
          (calls-insert s.next_msg_token s.awaiting_receive free))
  | inr (pending, e) ↦ rw (start_exchange, e) refl
  | inr (fulfilled m, e) ↦ rw (start_exchange, e) refl
]

module _ (aborted : Bool) (message : ApiMessage) (s : Session) where
  -- The promise is set, with the receive loop going on or not.
  deliver_set :
      (token : ℕ) (going : Bool)
      → (let o : Option (Output × Mailbox) = some (
        taken,
        view (record s {
          awaiting_receive = (token, fulfilled message) ∷ erase token s.awaiting_receive;
          receiving = going;
        }),
      ) in
          o)
        ≡ some (
          taken,
          record (view s) {
            calls = update token (answered message) (view s).calls;
            receiving = going;
          },
        )
  deliver_set token going =
      ap (λ f. some (taken, record (view s) { calls = f; receiving = going }))
        (calls-set token s.awaiting_receive message)

  give_refines :
      (t : Option ℕ)
      → view_of
          (of_received (continue_loop aborted (give message t (record s { receiving = false }))))
        ≡ mail_message aborted message t (view s)
  unfolding receive_loop
  give_refines none = go aborted
    where
      go :
          (aborted : Bool)
          → view_of
              (of_received (continue_loop aborted (received (record s { receiving = false }))))
            ≡ mail_message aborted message none (view s)
      go true = refl
      go false = refl
  give_refines (some token) = go (find token s.awaiting_receive) aborted
    where
      go :
          (p : Option Promise) (aborted : Bool)
          → view_of (
              of_received (
                continue_loop aborted (set_value token message p (record s { receiving = false }))))
            ≡ mail_deliver aborted message token (call p) (view s)
      go none aborted = refl
      go (some pending) true = deliver_set token false
      go (some pending) false = deliver_set token true
      go (some (fulfilled m)) aborted = refl

module _ (token : ℕ) (s : Session) where
  abbrev freed : Session
  freed = record s { awaiting_receive = erase token s.awaiting_receive }

  prune-freed : prune token freed ≡ freed
  unfolding prune
  prune-freed =
      let gone : find token (erase token s.awaiting_receive) ≡ none =
        ground (arith, find-erase token token s.awaiting_receive) in
      rw (prune, gone) refl

  checked_refines :
      (error : Option ErrorMessage) (reply : ApiMessage)
      → view_of (of_finished (checked token error reply freed))
        ≡ some (outcome error reply, record (view s) { calls = update token idle (view s).calls })
  checked_refines none reply =
      ap (λ f. some (replied reply, record (view s) { calls = f }))
        (calls-erase token s.awaiting_receive)
  checked_refines (some error) reply = rw prune-freed (
      ap (λ f. some (failed error.error_code, record (view s) { calls = f }))
        (calls-erase token s.awaiting_receive))

  wait_refines :
      (p : Option Promise)
      → view_of (of_finished (after_wait token p s)) ≡ mail_end token (call p) (view s)
  wait_refines none = refl
  wait_refines (some pending) = refl
  wait_refines (some (fulfilled reply)) = checked_refines reply.error reply

step_refines : (e : Event) (s : Session) → view_of (step e s) ≡ mail_step e (view s)
unfolding handle_receive finish_exchange
step_refines (begins request) s = begin_refines request s
step_refines (delivers aborted message) s = give_refines aborted message s message.message_token
step_refines (ends token) s = wait_refines token s (find token s.awaiting_receive)

-- Whatever the order in which calls begin, messages arrive and calls go on, in as many threads as
-- there are: the session gives the callers exactly the outputs of the mailbox, stops exactly where the
-- mailbox refuses, and ends as the mailbox ends.
pub run_refines :
    (es : List Event) (s : Session) → view_of (run step es s) ≡ run mail_step es (view s)
run_refines [] s = refl
run_refines (e ∷ es) s = go (run_refines es) (step e s) (mail_step e (view s)) (step_refines e s)
  where
    later :
        (o : Output) (q : Option (List Output × Session))
        → view_of (after o q) ≡ after o (view_of q)
    later o none = refl
    later o (some (os, s'')) = refl

    go :
        ((s' : Session) → view_of (run step es s') ≡ run mail_step es (view s'))
        → (r : Option (Output × Session)) (b : Option (Output × Mailbox)) → view_of r ≡ b
        → view_of (elim r [ none ↦ none | some (o, s') ↦ after o (run step es s') ])
          ≡ elim b [ none ↦ none | some (o, b') ↦ after o (run mail_step es b') ]
    go rest none b e = rw⁻¹ e refl
    go rest (some (o, s')) b e = rw⁻¹ (e, rest s') (later o (run step es s'))
