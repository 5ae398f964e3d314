-- ===== src/Transport/Udp/Table.antt =====
-- The connection table of src/daemon/transport/Socket.cpp under the handlers of the UDP transport.
pub mod Handlers
pub mod Release
use p2pnet.Base.{
  ◌-◌, [], ◌&&◌, not, Bool-cases, ℕ, ◌+◌, ◌<◌, ◌≡◌, refl, sym, ◌∙◌, arith, Bool, true, false, List,
  ◌∷◌, Option, none, some, ==-refl, ==→≡, Option-cases, inl, inr, ◌==◌, if◌then◌else◌, if-cases,
}
use p2pnet.Base.Maps.{
  erase, nat_eq, bytes_eq, bytes_beq, bytes_beq_iff, ◌=?◌, find, insert, find-insert, find-erase,
  find-cons, insert_present,
}
use p2pnet.Crypto.Hash.{Bytes}
use p2pnet.Errors.{error_value, timed_out, connection_reset}
use p2pnet.Transport.Udp.{
  undefined, begin_send, is_entry, destroy, release_object, release, handle_send, get_connection,
  Waiting, for_connect, for_keepalive, keepalive_message, connect_message, disconnect_message,
  UdpConnection, Action, datagram, connect_result, Udp, Outcome, done, bad_function_call, then_do,
  set_object, on_connect, on_disconnect, send_keep_alive, received_connect, received_keep_alive,
  received_disconnect, receive_timed_out, send_timed_out, connect_object, new_object, connect,
  handle_receive, receive_on, receive_from, answered, cancel, tell_disconnect, drop_connection,
  refused, expired,
}

-- Every entry of the connection table leads to an object with the entry's endpoint, and the objects are
-- those that were made.
pub record IsTable (u : Udp) : Type 0 where
  pub owned :
      (endpoint : Bytes) (id : ℕ)
      → find endpoint u.connections ≡ some id
      → (c : UdpConnection) × (find id u.objects ≡ some c) × (c.endpoint ≡ endpoint)
  pub fresh : (id : ℕ) (c : UdpConnection) → find id u.objects ≡ some c → id < u.next_object

-- A table in which the object `id` is, or will be, one with the endpoint e.
abbrev pub Fits : ℕ → Bytes → Udp → Type 0
Fits id e u =
    IsTable u
    × (id < u.next_object)
    × ((c : UdpConnection) → find id u.objects ≡ some c → c.endpoint ≡ e)

abbrev pub AllFit : ℕ → Bytes → Outcome → Type 0
AllFit id e (done u did) = Fits id e u
AllFit id e bad_function_call = Unit
AllFit id e undefined = Unit

-- What is found behind an object that was set.
find-set :
    (P : Option UdpConnection → Type 0) (id j : ℕ) (c : UdpConnection)
    (objects : List (ℕ × UdpConnection))
    → (id ≡ j → P (some c))
    → P (find j objects)
    → P (find j ((id, c) ∷ objects))
unfolding find
find-set P id j c objects here there =
    if-cases P (id == j) (some c) (find j objects) (λ e. here (==→≡ id j e)) (λ e. there)

find-first :
    (id : ℕ) (c : UdpConnection) (m : List (ℕ × UdpConnection)) → find id ((id, c) ∷ m) ≡ some c
unfolding find
find-first id c m = rw (==-refl id) refl

module _ (id : ℕ) (e : Bytes) where
  pub set-Fits :
      (c : UdpConnection) (u : Udp) → c.endpoint ≡ e → Fits id e u → Fits id e (set_object id c u)
  set-Fits c u same (table, below, own) = (
    record {
      owned = λ endpoint j h.
          let (c', at, is) = table.owned endpoint j h in
          find-set (λ o. (c' : UdpConnection) × (o ≡ some c') × (c'.endpoint ≡ endpoint)) id j c
            u.objects (λ here. (c, refl, same ∙ sym (own c' (rw here at)) ∙ is)) (c', at, is);
      fresh = λ j c'.
          find-set (λ o. o ≡ some c' → j < u.next_object) id j c u.objects
            (λ here h. rw⁻¹ here below) (table.fresh j c');
    },
    below,
    λ c'.
        find-set (λ o. o ≡ some c' → c'.endpoint ≡ e) id id c u.objects
          (λ here h. let is : c ≡ c' = cc h in rw⁻¹ is same) (own c'),
  )

  -- A connection that is registered under its endpoint before its object is set.
  connect-Fits :
      (c c' : UdpConnection) (u : Udp)
      → c.endpoint ≡ e
      → c'.endpoint ≡ e
      → Fits id e u
      → Fits id e (set_object id c' (on_connect id c u))
  unfolding on_connect
  connect-Fits c c' u same same' fits =
      let (table, below, own) = set-Fits c' u same' fits in
      elim (Option-cases (find c.endpoint u.connections)) [
        | inr (other, there) ↦
            rw (insert_present c.endpoint id other u.connections there) (table, below, own)
        | inl free ↦ (
          record {
            owned = λ endpoint j h.
                if-cases
                  (λ o.
                    o ≡ some j
                    → (k : UdpConnection) × (find j ((id, c') ∷ u.objects) ≡ some k)
                      × (k.endpoint ≡ endpoint))
                  (c.endpoint =? endpoint) (some id) (find endpoint u.connections)
                  (λ here h'.
                    let is : id ≡ j = cc h' in
                    rw⁻¹ is (
                      c',
                      find-first id c' u.objects,
                      same' ∙ sym same ∙ (bytes_beq_iff c.endpoint endpoint).0 here,
                    ))
                  (λ elsewhere h'. table.owned endpoint j h')
                  (sym (find-insert c.endpoint endpoint id u.connections free) ∙ h);
            fresh = table.fresh;
          },
          below,
          own,
        )
      ]

  disconnect-Fits : (c : UdpConnection) (u : Udp) → Fits id e u → Fits id e (on_disconnect c u)
  unfolding on_disconnect
  disconnect-Fits c u (table, below, own) = (
    record {
      owned = λ endpoint j h.
          table.owned endpoint j (ground (arith, h, find-erase c.endpoint endpoint u.connections));
      fresh = table.fresh;
    },
    below,
    own,
  )

  pub then_do-AllFit :
      (next : Udp → Outcome) (r : Outcome)
      → AllFit id e r
      → ((u : Udp) → Fits id e u → AllFit id e (next u))
      → AllFit id e (then_do next r)
  then_do-AllFit next bad_function_call h k = tt
  then_do-AllFit next undefined h k = tt
  then_do-AllFit next (done u did) h k = go (next u) (k u h)
    where
      go : (r : Outcome) → AllFit id e r → AllFit id e (then_do (λ x. r) (done u did))
      go (done u' did') h = h
      go bad_function_call h = tt
      go undefined h = tt

  pub send_keep_alive-AllFit :
      (c : UdpConnection) (u : Udp)
      → c.endpoint ≡ e
      → Fits id e u
      → AllFit id e (send_keep_alive id c u)
  unfolding send_keep_alive
  send_keep_alive-AllFit c u same h =
      set-Fits (record (begin_send c) { send_timer = true }) u same h

  pub connected-AllFit :
      (c : UdpConnection) (u : Udp)
      → c.endpoint ≡ e
      → Fits id e u
      → AllFit id e (send_keep_alive id (record c { m_connected = true }) (on_connect id c u))
  unfolding send_keep_alive
  connected-AllFit c u same h =
      connect-Fits c (record (begin_send c) { m_connected = true; send_timer = true }) u same same h

  answered-AllFit :
      (callback : Option ℕ) (c : UdpConnection) (u : Udp)
      → c.endpoint ≡ e
      → Fits id e u
      → AllFit id e (answered callback id c u)
  answered-AllFit none c u same h = tt
  answered-AllFit (some callback) c u same h =
      then_do-AllFit (λ u. send_keep_alive id (record c { m_connected = true }) (on_connect id c u))
        (done u (connect_result callback 0 id ∷ [])) h (λ u' h'. connected-AllFit c u' same h')

  pub cancel-AllFit :
      (waits : Option Waiting) (c : UdpConnection) (u : Udp)
      → c.endpoint ≡ e
      → Fits id e u
      → AllFit id e (cancel waits id c u)
  cancel-AllFit none c u same h = h
  cancel-AllFit (some for_connect) c u same h = answered-AllFit c.connecting_callback c u same h
  cancel-AllFit (some for_keepalive) c u same h = h

  drop-AllFit :
      (code : ℕ) (c : UdpConnection) (u : Udp)
      → c.endpoint ≡ e
      → Fits id e u
      → AllFit id e (drop_connection code id c u)
  drop-AllFit code c u same h =
      then_do-AllFit
        (λ u. done (on_disconnect c (set_object id (record c { m_connected = false }) u)) [])
        (tell_disconnect u.disconnect_callback code id u) (told u.disconnect_callback)
        (λ u' h'. disconnect-Fits c _ (set-Fits (record c { m_connected = false }) u' same h'))
    where
      told : (set : Bool) → AllFit id e (tell_disconnect set code id u)
      told false = tt
      told true = h

  pub received-AllFit :
      (c : UdpConnection) (u : Udp)
      → c.endpoint ≡ e
      → Fits id e u
      → AllFit id e (received_keep_alive id c u) × AllFit id e (received_disconnect id c u)
  unfolding received_keep_alive received_disconnect
  received-AllFit c u same h =
      let kept : UdpConnection = record c {
        receive_timeout = some for_keepalive;
        m_connected = true;
      } in
      let left : UdpConnection = record c { send_timer = false; receive_timeout = none } in
      (
        cancel-AllFit c.receive_timeout kept (set_object id kept u) same (set-Fits kept u same h),
        then_do-AllFit (drop_connection (error_value connection_reset) id left)
            (cancel c.receive_timeout id left u) (cancel-AllFit c.receive_timeout left u same h)
            (λ u' h'. drop-AllFit (error_value connection_reset) left u' same h'),
      )

  pub expired-AllFit :
      (waits : Option Waiting) (c : UdpConnection) (u : Udp)
      → c.endpoint ≡ e
      → Fits id e u
      → AllFit id e (expired waits id c u)
  expired-AllFit none c u same h = h
  expired-AllFit (some for_connect) c u same h = go c.connecting_callback
    where
      go :
          (callback : Option ℕ)
          → AllFit id e (refused callback id (record c { receive_timeout = none }) u)
      go none = tt
      go (some callback) =
          set-Fits (record c { receive_timeout = none; m_connected = false }) u same h
  expired-AllFit (some for_keepalive) c u same h = tt
