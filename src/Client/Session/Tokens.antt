-- ===== src/Client/Session/Tokens.antt =====
-- The tokens of markMessage (src/library/P2PSession.cpp): none is given out that is in use, until the
-- uint32_t counter has gone round.
use p2pnet.Base.{
  ℕ, suc, ◌+◌, ◌≤◌, ◌<◌, Bool, List, [], ◌∷◌, Option, none, some, ◌==◌, ◌≡◌, ◌≢◌, refl, sym, subst,
  arith, dec_lt, if-cases,
}
use p2pnet.Base.Maps.{find, nat_eq}
use p2pnet.Api.Message.{ApiMessage}
use p2pnet.Api.Session.{u32_mod}
use p2pnet.Client.Session.{Promise, pending, fulfilled, Session, new_session}
use p2pnet.Client.Session.Mailbox.{
  Call, idle, waits, answered, Mailbox, Event, begins, delivers, ends, Output, update, mail_begin,
  mail_deliver, mail_end, mail_message, mail_step, after, run,
}
use p2pnet.Client.Session.Refinement.{view, call, step, run_refines}

-- The calls that begin in a run.
abbrev pub begun : List Event → ℕ
begun [] = 0
begun (begins request ∷ es) = suc (begun es)
begun (delivers aborted message ∷ es) = begun es
begun (ends token ∷ es) = begun es

-- The next token is n, and the tokens from n on are not in use.
abbrev IsBelow : ℕ → Mailbox → Type 0
IsBelow n b = (b.next_token ≡ n) × ((j : ℕ) → n ≤ j → b.calls j ≡ idle)

abbrev AreBelow {ℓ} : {A : Type ℓ} → ℕ → Option (A × Mailbox) → Type 0
AreBelow n none = Unit
AreBelow n (some (a, b)) = IsBelow n b

update-idle :
    (token : ℕ) (c : Call) (b : Mailbox) (n m : ℕ)
    → token < m
    → n ≤ m
    → ((j : ℕ) → n ≤ j → b.calls j ≡ idle)
    → (j : ℕ) → m ≤ j
    → update token c b.calls j ≡ idle
update-idle token c b n m lt le h j above =
    if-cases (λ k. k ≡ idle) (token == j) c (b.calls j)
      (λ same. absurd (ground (arith, same, lt, above))) (λ other. h j (omega (arith, le, above)))

begin-IsBelow :
    (request : ApiMessage) (c : Call) (n : ℕ) (b : Mailbox)
    → suc n < u32_mod
    → IsBelow n b
    → AreBelow (suc n) (mail_begin request c b)
begin-IsBelow request idle n b lt (next, h) = (
  ground (arith, next, lt),
  update-idle b.next_token waits b n (suc n) (omega (arith, next)) (omega arith) h,
)
begin-IsBelow request waits n b lt h = tt
begin-IsBelow request (answered m) n b lt h = tt

-- A call that is not idle has a token below n.
used_below :
    (token n : ℕ) (b : Mailbox)
    → ((j : ℕ) → n ≤ j → b.calls j ≡ idle)
    → b.calls token ≢ idle
    → token < n
used_below token n b h busy = elim (dec_lt token n) [
  | yes below ↦ below
  | no above ↦ absurd (busy (h token (omega (arith, above))))
]

deliver-IsBelow :
    (aborted : Bool) (message : ApiMessage) (token : ℕ) (c : Call) (n : ℕ) (b : Mailbox)
    → b.calls token ≡ c
    → IsBelow n b
    → AreBelow n (mail_deliver aborted message token c b)
deliver-IsBelow aborted message token idle n b e h = tt
deliver-IsBelow aborted message token waits n b e (next, h) = (
  next,
  update-idle token (answered message) b n n
      (used_below token n b h (λ free. absurd (cc (free, e)))) (omega arith) h,
)
deliver-IsBelow aborted message token (answered m) n b e h = tt

message-IsBelow :
    (aborted : Bool) (message : ApiMessage) (t : Option ℕ) (n : ℕ) (b : Mailbox)
    → IsBelow n b
    → AreBelow n (mail_message aborted message t b)
message-IsBelow aborted message none n b h = h
message-IsBelow aborted message (some token) n b h =
    deliver-IsBelow aborted message token (b.calls token) n b refl h

end-IsBelow :
    (token : ℕ) (c : Call) (n : ℕ) (b : Mailbox)
    → b.calls token ≡ c
    → IsBelow n b
    → AreBelow n (mail_end token c b)
end-IsBelow token idle n b e h = tt
end-IsBelow token waits n b e h = tt
end-IsBelow token (answered reply) n b e (next, h) = (
  next,
  update-idle token idle b n n (used_below token n b h (λ free. absurd (cc (free, e))))
      (omega arith) h,
)

later :
    (n : ℕ) (o : Output) (q : Option (List Output × Mailbox))
    → AreBelow n q
    → AreBelow n (after o q)
later n o none h = h
later n o (some (os, b)) h = h

-- A step that leads from n to m, and a run from m.
then-IsBelow :
    (es : List Event) (m k : ℕ)
    → ((b : Mailbox) → IsBelow m b → AreBelow k (run mail_step es b))
    → (r : Option (Output × Mailbox)) → AreBelow m r
    → AreBelow k (elim r [ none ↦ none | some (o, b) ↦ after o (run mail_step es b) ])
then-IsBelow es m k rest none h = tt
then-IsBelow es m k rest (some (o, b)) h = later k o (run mail_step es b) (rest b h)

run-IsBelow :
    (es : List Event) (n k : ℕ) (b : Mailbox)
    → n + begun es ≡ k
    → k < u32_mod
    → IsBelow n b
    → AreBelow k (run mail_step es b)
run-IsBelow [] n k b e lt (next, h) =
    (omega (arith, next, e), λ j above. h j (omega (arith, above, e)))
run-IsBelow (begins request ∷ es) n k b e lt h =
    then-IsBelow es (suc n) k (λ b' h'. run-IsBelow es (suc n) k b' (omega (arith, e)) lt h')
      (mail_step (begins request) b)
      (begin-IsBelow request (b.calls b.next_token) n b (omega (arith, e, lt)) h)
run-IsBelow (delivers aborted message ∷ es) n k b e lt h =
    then-IsBelow es n k (λ b' h'. run-IsBelow es n k b' e lt h')
      (mail_step (delivers aborted message) b)
      (message-IsBelow aborted message message.message_token n b h)
run-IsBelow (ends token ∷ es) n k b e lt h =
    then-IsBelow es n k (λ b' h'. run-IsBelow es n k b' e lt h') (mail_step (ends token) b)
      (end-IsBelow token (b.calls token) n b refl h)

not_idle : (p : Option Promise) → call p ≡ idle → p ≡ none
not_idle none e = refl
not_idle (some pending) e = absurd (cc e)
not_idle (some (fulfilled m)) e = absurd (cc e)

-- In every run of a new session in which fewer than 2 ^ 32 calls have begun, finished or not: the next
-- token is their number and is not in use, so the next call begins.
pub token_free :
    (es : List Event) (os : List Output) (s : Session)
    → begun es < u32_mod
    → run step es new_session ≡ some (os, s)
    → (s.next_msg_token ≡ begun es) × (find s.next_msg_token s.awaiting_receive ≡ none)
unfolding find
token_free es os s lt ran =
    let ends_at : run mail_step es (view new_session) ≡ some (os, view s) =
      rw (sym (run_refines es new_session), ran) refl in
    let below : IsBelow (begun es) (view s) =
      subst (AreBelow (begun es)) ends_at
        (run-IsBelow es 0 (begun es) (view new_session) (omega arith) lt (refl, λ j le. refl)) in
    (
      below.0,
      not_idle (find s.next_msg_token s.awaiting_receive)
          (below.1 s.next_msg_token (omega (arith, below.0))),
    )
