-- ===== src/Transport/Udp/Table/Handlers.antt =====
-- The handlers of src/daemon/transport/udp/UDPConnection.cpp and UDPInterface.cpp, by which the
-- connection table changes.
use p2pnet.Base.{
  ℕ, subst, ◌+◌, ◌≡◌, refl, arith, Bool, List, [], ◌∷◌, Option, none, some, if-cases, if◌then◌else◌,
  ◌&&◌, not,
}
use p2pnet.Base.Maps.{nat_eq, bytes_eq, find, bytes_beq}
use p2pnet.Crypto.Hash.{Bytes}
use p2pnet.Transport.Udp.{
  handle_send, begin_send, set_object, release, receive_by, for_connect, keepalive_message,
  connect_message, disconnect_message, UdpConnection, Action, received, Udp, Outcome, done,
  received_connect, received_keep_alive, received_disconnect, receive_timed_out, send_timed_out,
  send_keep_alive, connect_object, new_object, connect, handle_receive, receive_on, receive_from,
  get_connection,
}
use p2pnet.Transport.Udp.Table.Release.{release-AllFit, handle_send-AllFit}
use p2pnet.Transport.Udp.Table.{
  then_do-AllFit, IsTable, Fits, AllFit, set-Fits, send_keep_alive-AllFit, connected-AllFit,
  received-AllFit, expired-AllFit,
}

-- The interface with the next object's number taken.
abbrev taken : Udp → Udp
taken u = record u { next_object = u.next_object + 1 }

-- An object that is in the store.
own-Fits :
    (id : ℕ) (c : UdpConnection) (u : Udp)
    → find id u.objects ≡ some c
    → IsTable u
    → Fits id c.endpoint u
own-Fits id c u at table =
    (table, table.fresh id c at, λ c' at'. let is : c ≡ c' = cc (at, at') in rw is refl)

-- An object that is made now.
new-Fits : (endpoint : Bytes) (u : Udp) → IsTable u → Fits u.next_object endpoint (taken u)
new-Fits endpoint u table = (
  record { owned = table.owned; fresh = λ id c at. let h = table.fresh id c at in omega arith },
  omega arith,
  λ c at. let h = table.fresh u.next_object c at in absurd (omega arith),
)

-- What a handler leaves when it ends.
abbrev Leaves : (u' : Udp) → Outcome → Type 0
Leaves u' r = (did : List Action) × (r ≡ done u' did)

left : (id : ℕ) (e : Bytes) (r : Outcome) (u' : Udp) → AllFit id e r → Leaves u' r → IsTable u'
left id e r u' h (did, ends) = (subst (AllFit id e) ends h).0

-- UDPInterface::connect
connect-IsTable :
    (endpoint : Bytes) (callback : ℕ) (u u' : Udp)
    → IsTable u
    → Leaves u' (connect endpoint callback u)
    → IsTable u'
unfolding connect connect_object new_object
connect-IsTable endpoint callback u u' table ends =
    let c : UdpConnection = record (new_object endpoint) { receive_timeout = some for_connect } in
    left u.next_object endpoint (connect endpoint callback u) u'
      (set-Fits u.next_object endpoint (begin_send c) (set_object u.next_object c (taken u)) refl
        (set-Fits u.next_object endpoint c (taken u) refl (new-Fits endpoint u table)))
      ends

-- The send timer, and any handler of a connection, at an object that is in the store.
sent-AllFit :
    (id : ℕ) (c : UdpConnection) (u : Udp)
    → Fits id c.endpoint u
    → AllFit id c.endpoint (send_timed_out id c u)
unfolding send_timed_out
sent-AllFit id c u fits =
    if-cases (AllFit id c.endpoint) c.send_timer (send_keep_alive id c u) (done u [])
      (λ due. send_keep_alive-AllFit id c.endpoint c u refl fits) (λ off. fits)

heard-AllFit :
    (id : ℕ) (c : UdpConnection) (text : Bytes) (u : Udp)
    → Fits id c.endpoint u
    → AllFit id c.endpoint (receive_on id (some c) text u)
heard-AllFit id c text u fits =
    let (keeps, leaves) = received-AllFit id c.endpoint c u refl fits in
    then_do-AllFit id c.endpoint (release id) (receive_by id c text u)
      (if-cases (AllFit id c.endpoint) (bytes_beq text keepalive_message)
        (received_keep_alive id c u)
        (if bytes_beq text disconnect_message
          then received_disconnect id c u
          else done u (received id text ∷ []))
        (λ e. keeps)
        (λ e.
          if-cases (AllFit id c.endpoint) (bytes_beq text disconnect_message)
            (received_disconnect id c u) (done u (received id text ∷ [])) (λ e. leaves)
            (λ e. fits)))
      (λ u' fits'. release-AllFit id c.endpoint u' fits')

stranger-IsTable :
    (endpoint text : Bytes) (u u' : Udp)
    → IsTable u
    → Leaves u' (receive_from none endpoint text u)
    → IsTable u'
unfolding received_connect new_object
stranger-IsTable endpoint text u u' table =
    if-cases (λ r. Leaves u' r → IsTable u') (bytes_beq text connect_message && not u.outgoing_only)
      (received_connect u.next_object (new_object endpoint) (taken u)) (done u [])
      (λ e.
        left u.next_object endpoint (received_connect u.next_object (new_object endpoint) (taken u))
          u'
          (connected-AllFit u.next_object endpoint (new_object endpoint) (taken u) refl
            (new-Fits endpoint u table)))
      (λ e (did, ends). let is : u ≡ u' = cc ends in rw⁻¹ is table)

known-IsTable :
    (id : ℕ) (text : Bytes) (u u' : Udp) (o : Option UdpConnection)
    → find id u.objects ≡ o
    → IsTable u
    → Leaves u' (receive_on id o text u)
    → IsTable u'
known-IsTable id text u u' none at table (did, ends) = let is : u ≡ u' = cc ends in rw⁻¹ is table
known-IsTable id text u u' (some c) at table h =
    left id c.endpoint (receive_on id (some c) text u) u'
      (heard-AllFit id c text u (own-Fits id c u at table)) h

-- UDPInterface::handleReceive
receive-IsTable :
    (endpoint text : Bytes) (u u' : Udp)
    → IsTable u
    → Leaves u' (handle_receive endpoint text u)
    → IsTable u'
unfolding handle_receive
receive-IsTable endpoint text u u' table = go (get_connection endpoint u)
  where
    go : (o : Option ℕ) → Leaves u' (receive_from o endpoint text u) → IsTable u'
    go (some id) = known-IsTable id text u u' (find id u.objects) refl table
    go none = stranger-IsTable endpoint text u u' table

-- The states of an interface that starts with no connection, after any calls and datagrams, after the
-- ends of the sending of datagrams and after expiries of the timers of its connections that are alive.
pub data Reachable : Udp → Type 0 where
  started :
      (outgoing_only disconnect_callback : Bool)
      → Reachable (record {
        objects = [];
        connections = [];
        next_object = 0;
        outgoing_only = outgoing_only;
        disconnect_callback = disconnect_callback;
      })
  by_connect :
      (endpoint : Bytes) (callback : ℕ) (u u' : Udp) (did : List Action)
      → Reachable u
      → connect endpoint callback u ≡ done u' did
      → Reachable u'
  by_datagram :
      (endpoint text : Bytes) (u u' : Udp) (did : List Action)
      → Reachable u
      → handle_receive endpoint text u ≡ done u' did
      → Reachable u'
  by_receive_timer :
      (id : ℕ) (c : UdpConnection) (u u' : Udp) (did : List Action)
      → Reachable u
      → find id u.objects ≡ some c
      → receive_timed_out id c u ≡ done u' did
      → Reachable u'
  by_sent :
      (id : ℕ) (c : UdpConnection) (u u' : Udp) (did : List Action)
      → Reachable u
      → find id u.objects ≡ some c
      → handle_send id c u ≡ done u' did
      → Reachable u'
  by_send_timer :
      (id : ℕ) (c : UdpConnection) (u u' : Udp) (did : List Action)
      → Reachable u
      → find id u.objects ≡ some c
      → send_timed_out id c u ≡ done u' did
      → Reachable u'

-- In every state that an interface without connections reaches by connect, by datagrams from any
-- endpoints, by the end of the sending of its datagrams and by the expiry of the timers of its
-- connections, as long as nothing throws and nothing is undefined: each entry of the connection table
-- leads to a connection object that is alive and has the entry's endpoint, and no object that is alive
-- has the number that the next one will take.
pub Reachable-IsTable : (u : Udp) → Reachable u → IsTable u
unfolding receive_timed_out find
Reachable-IsTable u (started outgoing_only disconnect_callback) = record {
  owned = λ endpoint id h. absurd (cc h);
  fresh = λ id c h. absurd (cc h);
}
Reachable-IsTable u' (by_connect endpoint callback u _ did before ends) =
    connect-IsTable endpoint callback u u' (Reachable-IsTable u before) (did, ends)
Reachable-IsTable u' (by_datagram endpoint text u _ did before ends) =
    receive-IsTable endpoint text u u' (Reachable-IsTable u before) (did, ends)
Reachable-IsTable u' (by_receive_timer id c u _ did before at ends) =
    left id c.endpoint (receive_timed_out id c u) u'
      (expired-AllFit id c.endpoint c.receive_timeout c u refl
        (own-Fits id c u at (Reachable-IsTable u before)))
      (did, ends)
Reachable-IsTable u' (by_sent id c u _ did before at ends) =
    left id c.endpoint (handle_send id c u) u'
      (handle_send-AllFit id c.endpoint c u refl (own-Fits id c u at (Reachable-IsTable u before)))
      (did, ends)
Reachable-IsTable u' (by_send_timer id c u _ did before at ends) =
    left id c.endpoint (send_timed_out id c u) u'
      (sent-AllFit id c u (own-Fits id c u at (Reachable-IsTable u before))) (did, ends)
