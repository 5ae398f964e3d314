-- ===== src/Overlay/Connection/Transports.antt =====
-- The transport connections of a connection, and the handshake that goes out on them.
use p2pnet.Base.{
  ℕ, ◌+◌, ◌≤◌, ◌≡◌, refl, ap, Bool, true, false, ◌||◌, ◌==◌, List, [], ◌∷◌, ◌++◌, length,
  if◌then◌else◌, arith, Bool-cases, if-elim, if-cases, inl, inr,
}
use p2pnet.Crypto.Hash.{Bytes}
use p2pnet.Overlay.Message.{Payload, OverlayMessage, Action}
use p2pnet.Overlay.Connection.Idle.{transmissions}
use p2pnet.Overlay.Connection.{
  found_transport, handshake_init_sent, Connection, is_established, connected, has_found,
  is_searching, alive_ones, transmit_all, hand_over, socket_send, send, connect, erase_transport,
  update_transport,
}

-- How often a transport connection stands in the list.
abbrev pub occurrences : ℕ → List ℕ → ℕ
occurrences t [] = 0
occurrences t (x ∷ xs) = if x == t then occurrences t xs + 1 else occurrences t xs

occurrences-append :
    (t : ℕ) (xs ys : List ℕ) → occurrences t (xs ++ ys) ≡ occurrences t xs + occurrences t ys
occurrences-append t [] ys = omega arith
occurrences-append t (x ∷ xs) ys = ground (arith, occurrences-append t xs ys)

occurrences-erase_transport :
    (t tconn : ℕ) (xs : List ℕ)
    → occurrences tconn xs ≤ 1
    → occurrences t (erase_transport tconn xs) ≡ (if tconn == t then 0 else occurrences t xs)
unfolding erase_transport
occurrences-erase_transport t tconn [] h = ground arith
occurrences-erase_transport t tconn (x ∷ xs) h = elim (Bool-cases (x == tconn)) [
  | inl e ↦ ground (arith, e, h)
  | inr e ↦ ground (arith, e, h, occurrences-erase_transport t tconn xs)
]

placed :
    (tconn t n : ℕ) (verified : Bool) (others : List ℕ)
    → occurrences t others ≡ (if tconn == t then 0 else n)
    → occurrences t (if verified then tconn ∷ others else others ++ tconn ∷ [])
      ≡ (if tconn == t then 1 else n)
placed tconn t n true others h = ground (arith, h)
placed tconn t n false others h = ground (arith, h, occurrences-append t others (tconn ∷ []))

-- A transport connection that stands in the list at most once stands there exactly once after
-- updateTransport, verified or not, and every other one as often as before; a search for a
-- transport ends, and no other state changes.
pub update_transport-occurrences :
    (tconn t : ℕ) (verified : Bool) (c : Connection)
    → occurrences tconn c.transport_connections ≤ 1
    → (occurrences t (update_transport tconn verified c).transport_connections
        ≡ (if tconn == t then 1 else occurrences t c.transport_connections))
      × ((update_transport tconn verified c).state
          ≡ (if is_searching c.state then found_transport else c.state))
unfolding update_transport
update_transport-occurrences tconn t verified c h =
    let moved =
      placed tconn t (occurrences t c.transport_connections) verified
        (erase_transport tconn c.transport_connections)
        (occurrences-erase_transport t tconn c.transport_connections h) in
    (
      if-elim
          (λ (c' : Connection).
            occurrences t c'.transport_connections
            ≡ (if tconn == t then 1 else occurrences t c.transport_connections))
          (is_searching c.state) _ _ moved moved,
      if-cases
          (λ (c' : Connection).
            c'.state ≡ (if is_searching c.state then found_transport else c.state))
          (is_searching c.state) _ _ (λ e. rw e) (λ e. rw e),
    )

transmissions-transmit_all :
    (message : OverlayMessage) (ts : List ℕ) → transmissions (transmit_all message ts) ≡ length ts
unfolding transmit_all
transmissions-transmit_all message [] = refl
transmissions-transmit_all message (t ∷ ts) = omega (arith, transmissions-transmit_all message ts)

hand_over-transmissions :
    (ts : List ℕ) (message : OverlayMessage) (callback : ℕ) (c : Connection)
    → transmissions (hand_over ts message callback c).1 ≡ length ts
hand_over-transmissions [] message callback c = refl
hand_over-transmissions (t ∷ ts) message callback c = transmissions-transmit_all message (t ∷ ts)

||-forced : (b : Bool) → (b || true) ≡ true
||-forced true = refl
||-forced false = refl

send_forced-transmissions :
    (alive : ℕ → Bool) (local_th : Bytes) (serialize : List Payload → Bytes)
    (encrypt : Bytes → Bytes) (payload : Payload) (callback : ℕ) (c : Connection)
    → transmissions (send alive local_th serialize encrypt payload callback false true c).1
      ≡ length (alive_ones alive c.transport_connections)
unfolding send socket_send
send_forced-transmissions alive local_th serialize encrypt payload callback c = rw (
  ||-forced (connected c),
  hand_over-transmissions (alive_ones alive c.transport_connections) _ callback c,
)

-- Hands the message on to n transport connections.
abbrev Transmits : ℕ → Connection × List Action → Type 0
Transmits n r = transmissions r.1 ≡ n

-- Once a transport was found, connect hands the handshake to every transport connection that is
-- connected, and the state goes on to "handshake sent" even where there is none.
pub connect-handshake :
    (alive : ℕ → Bool) (local_th : Bytes) (serialize : List Payload → Bytes)
    (encrypt : Bytes → Bytes) (now timeout : ℕ) (content : Bytes) (ignored callback : ℕ)
    (c : Connection)
    → c.state ≡ found_transport
    → ((connect alive local_th serialize encrypt now timeout content ignored callback c).0.state
        ≡ handshake_init_sent)
      × (transmissions
            (connect alive local_th serialize encrypt now timeout content ignored callback c).1
          ≡ length (alive_ones alive c.transport_connections))
unfolding connect
connect-handshake alive local_th serialize encrypt now timeout content ignored callback c h =
    let found : has_found c.state ≡ true = ap has_found h in
    let down : is_established c.state ≡ false = ap is_established h in
    let P = Transmits (length (alive_ones alive c.transport_connections)) in
    (
      rw (down, found),
      if-cases P (is_established c.state) _ _ (λ e. absurd (cc (e, down)))
          (λ _.
            if-cases P (has_found c.state) _ _
              (λ _. send_forced-transmissions alive local_th serialize encrypt _ ignored _)
              (λ e. absurd (cc (e, found)))),
    )
