-- ===== src/Overlay/Connection/States.antt =====
-- Which states a connection can reach, through any sequence of the calls and timers of
-- Connection.cpp and of Socket::send.
use p2pnet.Base.{
  ℕ, ◌≡◌, refl, Bool, true, false, ◌&&◌, ◌||◌, not, List, [], ◌∷◌, ◌++◌, Option, none, some, ltb,
  if-elim,
}
use p2pnet.Crypto.Hash.{Bytes}
use p2pnet.Errors.{error_value, not_connected}
use p2pnet.Overlay.Message.{Payload, Header, Body, OverlayMessage, Action, post_callback}
use p2pnet.Overlay.Connection.{
  Connection, new_connection, connected, has_found, is_searching, socket_send, hand_over, expire,
  alive_ones, send, connect, connect_timeout, disconnect, update_transport, update_expiration_time,
  update_lose_time, process, is_addressed,
}

-- One call on a connection, or its timer, with what it does besides. The index says whether it is
-- one of the two calls of send. What the outside answers may differ from step to step.
pub data Step : Bool → Connection → List Action → Connection → Type 0 where
  send_message :
      (alive : ℕ → Bool) (message : OverlayMessage) (callback : ℕ) (c : Connection)
      → Step true c
          (socket_send alive message callback c).1
          (socket_send alive message callback c).0
  send_payload :
      (alive : ℕ → Bool) (local_th : Bytes) (serialize : List Payload → Bytes)
      (encrypt : Bytes → Bytes) (payload : Payload) (callback : ℕ) (encrypted force : Bool)
      (c : Connection)
      → Step true c
          (send alive local_th serialize encrypt payload callback encrypted force c).1
          (send alive local_th serialize encrypt payload callback encrypted force c).0
  connecting :
      (alive : ℕ → Bool) (local_th : Bytes) (serialize : List Payload → Bytes)
      (encrypt : Bytes → Bytes) (now timeout : ℕ) (content : Bytes) (ignored callback : ℕ)
      (c : Connection)
      → Step false c
          (connect alive local_th serialize encrypt now timeout content ignored callback c).1
          (connect alive local_th serialize encrypt now timeout content ignored callback c).0
  timing_out : (c : Connection) → Step false c (connect_timeout c).1 (connect_timeout c).0
  disconnecting : (c : Connection) → Step false c [] (disconnect c)
  updating_transport :
      (tconn : ℕ) (verified : Bool) (c : Connection)
      → Step false c [] (update_transport tconn verified c)
  updating_expiration :
      (time : ℕ) (c : Connection) → Step false c [] (update_expiration_time time c)
  updating_lose : (time : ℕ) (c : Connection) → Step false c [] (update_lose_time time c)
  processing :
      (mandatory : ℕ → Bool) (processors : ℕ → List ℕ) (parse : Bytes → List Payload)
      (decrypt : Bytes → Bytes) (origin : ℕ) (header : Header) (body : Body) (c : Connection)
      → Step false c
          (process mandatory processors parse decrypt origin header body c).1
          (process mandatory processors parse decrypt origin header body c).0

-- A sequence of steps, with all that they did. With `false` none of them is a call of send.
pub data Steps (sending : Bool) : Connection → List Action → Connection → Type 0 where
  none_yet : (c : Connection) → Steps sending c [] c
  then_step :
      (c c' c'' : Connection) (before now : List Action) (sends : Bool)
      → Steps sending c before c'
      → Step sends c' now c''
      → (sends && not sending) ≡ false
      → Steps sending c (before ++ now) c''

hand_over-connected :
    (ts : List ℕ) (message : OverlayMessage) (callback : ℕ) (c : Connection)
    → connected c ≡ false
    → connected (hand_over ts message callback c).0 ≡ false
hand_over-connected [] message callback c h = refl
hand_over-connected (t ∷ ts) message callback c h = h

expire-connected :
    (timer : Option (ℕ × ℕ)) (c : Connection)
    → connected c ≡ false
    → connected (expire timer c).0 ≡ false
expire-connected none c h = h
expire-connected (some (callback, time)) c h = h

abbrev IsDown : Connection × List Action → Type 0
IsDown r = connected r.0 ≡ false

send-connected :
    (alive : ℕ → Bool) (local_th : Bytes) (serialize : List Payload → Bytes)
    (encrypt : Bytes → Bytes) (payload : Payload) (callback : ℕ) (encrypted force : Bool)
    (c : Connection)
    → connected c ≡ false
    → connected (send alive local_th serialize encrypt payload callback encrypted force c).0 ≡ false
unfolding send socket_send
send-connected alive local_th serialize encrypt payload callback encrypted force c h =
    if-elim IsDown (encrypted && connected c) _ _
      (hand_over-connected (alive_ones alive c.transport_connections) _ callback c h)
      (if-elim IsDown (not encrypted && (connected c || force)) _ _
        (hand_over-connected (alive_ones alive c.transport_connections) _ callback c h) h)

update_transport-connected :
    (tconn : ℕ) (verified : Bool) (c : Connection)
    → connected c ≡ false
    → connected (update_transport tconn verified c) ≡ false
unfolding update_transport
update_transport-connected tconn verified c h =
    if-elim (λ c. connected c ≡ false) (is_searching c.state) _ _ refl h

Step-connected :
    {sends : Bool} {c c' : Connection} {now : List Action}
    → Step sends c now c'
    → connected c ≡ false
    → connected c' ≡ false
unfolding connect connect_timeout update_expiration_time update_lose_time process socket_send
Step-connected (send_message alive message callback c) h =
    hand_over-connected (alive_ones alive c.transport_connections) message callback c h
Step-connected (send_payload alive local_th serialize encrypt payload callback encrypted force c)
      h =
    send-connected alive local_th serialize encrypt payload callback encrypted force c h
Step-connected (connecting alive local_th serialize encrypt now timeout content ignored callback c)
      h =
    if-elim IsDown (connected c) _ _ h (if-elim IsDown (has_found c.state) _ _ refl h)
Step-connected (timing_out c) h = expire-connected c.callback_timer c h
Step-connected (disconnecting c) h = refl
Step-connected (updating_transport tconn verified c) h =
    update_transport-connected tconn verified c h
Step-connected (updating_expiration time c) h =
    if-elim (λ c. connected c ≡ false) (ltb c.expiration_time time) _ _ h h
Step-connected (updating_lose time c) h = h
Step-connected (processing mandatory processors parse decrypt origin header body c) h =
    if-elim IsDown (is_addressed header.dest_th) _ _ (update_transport-connected origin false c h)
      (update_transport-connected origin false c h)

Steps-connected :
    {sending : Bool} {c c' : Connection} {did : List Action}
    → Steps sending c did c'
    → connected c ≡ false
    → connected c' ≡ false
Steps-connected (none_yet c) h = h
Steps-connected (then_step c c' c'' before now sends steps step allowed) h =
    Step-connected step (Steps-connected steps h)

-- No sequence of calls and timers, whatever the outside answers, makes a new connection an
-- established one; so sending a payload with encryption, which is the default, always ends in the
-- posted error "not connected" and leaves the connection as it was.
pub never_established :
    (th : Bytes) (did : List Action) (c : Connection)
    → Steps true (new_connection th) did c
    → (connected c ≡ false)
      × ((alive : ℕ → Bool) (local_th : Bytes) (serialize : List Payload → Bytes)
            (encrypt : Bytes → Bytes) (payload : Payload) (callback : ℕ) (force : Bool)
          → send alive local_th serialize encrypt payload callback true force c
            ≡ (c, post_callback callback (error_value not_connected) ∷ []))
unfolding send new_connection
never_established th did c steps =
    let down : connected c ≡ false = Steps-connected steps refl in
    (down, λ alive local_th serialize encrypt payload callback force. rw down)
