-- ===== src/Overlay/Connection/Tests.antt =====
-- A connection that finds a transport and connects; every transport connection is up.
use p2pnet.Base.{ℕ, ◌≡◌, refl, Bool, true, false, List, [], ◌∷◌}
use p2pnet.Crypto.Hash.{Bytes}
use p2pnet.Errors.{error_value, not_connected}
use p2pnet.Overlay.Message.{Payload, Action, post_callback}
use p2pnet.Overlay.Connection.{
  Connection, new_connection, connected, send, connect, update_transport,
}
use p2pnet.Overlay.Connection.States.{
  Steps, none_yet, then_step, updating_transport, connecting, never_established,
}

abbrev peer : Bytes
peer = 6 ∷ []

abbrev all_up : ℕ → Bool
all_up t = true

abbrev no_bytes : List Payload → Bytes
no_bytes ps = []

abbrev plain : Bytes → Bytes
plain b = b

-- A transport connection comes, then a call of connect.
abbrev with_transport : Connection
with_transport = update_transport 3 false (new_connection peer)

abbrev connecting_one : Connection × List Action
connecting_one = connect all_up (1 ∷ []) no_bytes plain 100 120 [] 0 9 with_transport

taken_path :
    (sending : Bool) → Steps sending (new_connection peer) connecting_one.1 connecting_one.0
taken_path sending =
    then_step (new_connection peer) with_transport connecting_one.0 [] connecting_one.1 false
      (then_step (new_connection peer) (new_connection peer) with_transport [] [] false
        (none_yet (new_connection peer)) (updating_transport 3 false (new_connection peer)) refl)
      (connecting all_up (1 ∷ []) no_bytes plain 100 120 [] 0 9 with_transport) refl

never_established_example :
    (connected connecting_one.0 ≡ false)
    × ((alive : ℕ → Bool) (local_th : Bytes) (serialize : List Payload → Bytes)
          (encrypt : Bytes → Bytes) (payload : Payload) (callback : ℕ) (force : Bool)
        → send alive local_th serialize encrypt payload callback true force connecting_one.0
          ≡ (connecting_one.0, post_callback callback (error_value not_connected) ∷ []))
never_established_example =
    never_established peer connecting_one.1 connecting_one.0 (taken_path true)
