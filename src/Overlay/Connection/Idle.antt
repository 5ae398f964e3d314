-- ===== src/Overlay/Connection/Idle.antt =====
-- What a connection does on which nothing is sent.
use p2pnet.Base.{
  ℕ, ◌≡◌, refl, ap, Bool, true, false, ◌&&◌, not, List, [], ◌∷◌, ◌++◌, Option, none, some, arith,
  ltb, suc, ◌+◌, if-elim, if-cases,
}
use p2pnet.Crypto.Hash.{Bytes}
use p2pnet.Overlay.Message.{
  Payload, Action, transmit, send_callback, post_callback, connect_callback, process_payload,
}
use p2pnet.Overlay.Connection.{
  closed, Connection, new_connection, connected, has_found, expire, connect, connect_timeout,
  update_transport, update_expiration_time, update_lose_time, fire, fire_all, process, is_addressed,
}
use p2pnet.Overlay.Connection.States.{
  Step, Steps, none_yet, then_step, send_message, send_payload, connecting, timing_out,
  disconnecting, updating_transport, updating_expiration, updating_lose, processing,
}

-- The messages that were handed to transport connections.
abbrev pub transmissions : List Action → ℕ
transmissions [] = 0
transmissions (transmit t message ∷ did) = suc (transmissions did)
transmissions (send_callback callback code ∷ did) = transmissions did
transmissions (post_callback callback code ∷ did) = transmissions did
transmissions (connect_callback callback code ∷ did) = transmissions did
transmissions (process_payload processor payload ∷ did) = transmissions did

transmissions-append :
    (did bs : List Action) → transmissions (did ++ bs) ≡ transmissions did + transmissions bs
transmissions-append [] bs = omega arith
transmissions-append (transmit t message ∷ did) bs = omega (arith, transmissions-append did bs)
transmissions-append (send_callback callback code ∷ did) bs = transmissions-append did bs
transmissions-append (post_callback callback code ∷ did) bs = transmissions-append did bs
transmissions-append (connect_callback callback code ∷ did) bs = transmissions-append did bs
transmissions-append (process_payload processor payload ∷ did) bs = transmissions-append did bs

fire-transmissions :
    (mandatory : ℕ → Bool) (ps : List ℕ) (payload : Payload) (encrypted : Bool)
    → transmissions (fire mandatory ps payload encrypted) ≡ 0
unfolding fire
fire-transmissions mandatory [] payload encrypted = refl
fire-transmissions mandatory (p ∷ ps) payload encrypted =
    if-elim (λ did. transmissions did ≡ 0) (not (mandatory p && not encrypted)) _ _
      (fire-transmissions mandatory ps payload encrypted)
      (fire-transmissions mandatory ps payload encrypted)

fire_all-transmissions :
    (mandatory : ℕ → Bool) (processors : ℕ → List ℕ) (ps : List Payload) (encrypted : Bool)
    → transmissions (fire_all mandatory processors ps encrypted) ≡ 0
unfolding fire_all
fire_all-transmissions mandatory processors [] encrypted = refl
fire_all-transmissions mandatory processors (p ∷ ps) encrypted = omega (
  arith,
  transmissions-append (fire mandatory (processors p.payload_type) p encrypted)
      (fire_all mandatory processors ps encrypted),
  fire-transmissions mandatory (processors p.payload_type) p encrypted,
  fire_all-transmissions mandatory processors ps encrypted,
)

-- A call that leaves the connection closed and hands nothing to a transport connection.
abbrev IsIdle : Connection × List Action → Type 0
IsIdle r = (r.0.state ≡ closed) × (transmissions r.1 ≡ 0)

expire-IsIdle :
    (timer : Option (ℕ × ℕ)) (c : Connection) → c.state ≡ closed → IsIdle (expire timer c)
expire-IsIdle none c h = (h, refl)
expire-IsIdle (some (callback, time)) c h = (h, refl)

update_transport-closed :
    (tconn : ℕ) (verified : Bool) (c : Connection)
    → c.state ≡ closed
    → (update_transport tconn verified c).state ≡ closed
unfolding update_transport
update_transport-closed tconn verified c h = rw h

Step-IsIdle :
    {c c' : Connection} {now : List Action}
    → (sends : Bool) → sends ≡ false
    → Step sends c now c'
    → c.state ≡ closed
    → IsIdle (c', now)
unfolding connect connect_timeout update_expiration_time update_lose_time process
Step-IsIdle _ e (send_message alive message callback c) h = absurd (cc e)
Step-IsIdle _ e (send_payload alive local_th serialize encrypt payload callback encrypted force c)
      h =
    absurd (cc e)
Step-IsIdle _ e (connecting alive local_th serialize encrypt now timeout content ignored callback c)
      h =
    if-elim IsIdle (connected c) _ _ (h, refl)
      (if-cases IsIdle (has_found c.state) _ _ (λ e. absurd (cc (e, ap has_found h)))
        (λ _. (h, refl)))
Step-IsIdle _ e (timing_out c) h = expire-IsIdle c.callback_timer c h
Step-IsIdle _ e (disconnecting c) h = (refl, refl)
Step-IsIdle _ e (updating_transport tconn verified c) h =
    (update_transport-closed tconn verified c h, refl)
Step-IsIdle _ e (updating_expiration time c) h =
    (if-elim (λ (c : Connection). c.state ≡ closed) (ltb c.expiration_time time) _ _ h h, refl)
Step-IsIdle _ e (updating_lose time c) h = (h, refl)
Step-IsIdle _ e (processing mandatory processors parse decrypt origin header body c) h =
    let stays : (update_transport origin false c).state ≡ closed =
      update_transport-closed origin false c h in
    let opened = fire_all-transmissions mandatory processors body.open_multipayload false in
    let decrypted =
      fire_all-transmissions mandatory processors (parse (decrypt body.encrypted_multipayload))
        true in
    if-elim IsIdle (is_addressed header.dest_th) _ _
      (
        stays,
        if-elim (λ did. transmissions did ≡ 0) (connected (update_transport origin false c)) _ _
            (omega (
              arith,
              transmissions-append (fire_all mandatory processors body.open_multipayload false) (
                  fire_all mandatory processors (parse (decrypt body.encrypted_multipayload)) true),
              opened,
              decrypted,
            ))
            opened,
      )
      (stays, refl)

no_send : (a b : Bool) → b ≡ false → (a && not b) ≡ false → a ≡ false
no_send false b e h = refl
no_send true true e h = absurd (cc e)
no_send true false e h = h

Steps-IsIdle :
    {sending : Bool} {c c' : Connection} {did : List Action}
    → sending ≡ false
    → Steps sending c did c'
    → c.state ≡ closed
    → IsIdle (c', did)
Steps-IsIdle e (none_yet c) h = (h, refl)
Steps-IsIdle {sending} e (then_step c c' c'' before now sends steps step allowed) h =
    let was : IsIdle (c', before) = Steps-IsIdle e steps h in
    let stays : IsIdle (c'', now) =
      Step-IsIdle sends (no_send sends sending e allowed) step was.0 in
    (stays.0, omega (arith, transmissions-append before now, was.1, stays.1))

-- Connecting alone never starts a handshake. A new connection on which only connect, disconnect,
-- process and the updates are called, and on which the timer may expire, stays closed, and no
-- message is handed to a transport connection: the search for a transport begins only in a send.
pub idle_without_send :
    (th : Bytes) (did : List Action) (c : Connection)
    → Steps false (new_connection th) did c
    → (c.state ≡ closed) × (transmissions did ≡ 0)
unfolding new_connection
idle_without_send th did c steps = Steps-IsIdle refl steps refl
