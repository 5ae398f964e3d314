-- ===== src/Transport/Udp/Table/Release.antt =====
-- The end of an object's owners in src/daemon/transport/udp/UDPConnection.cpp and UDPInterface.cpp.
use p2pnet.Base.{
  ◌-◌, [], ◌&&◌, not, Bool-cases, ℕ, ◌≡◌, refl, sym, ◌∙◌, arith, true, false, Option, none, some,
  ==-refl, ==→≡, inl, inr, ◌==◌, if-cases,
}
use p2pnet.Base.Maps.{erase, nat_eq, bytes_eq, find, find-erase}
use p2pnet.Crypto.Hash.{Bytes}
use p2pnet.Transport.Udp.{
  is_entry, destroy, release_object, release, handle_send, get_connection, Waiting, for_connect,
  for_keepalive, UdpConnection, Udp, done, set_object,
}
use p2pnet.Transport.Udp.Table.{Fits, AllFit, set-Fits}

module _ (id : ℕ) (e : Bytes) where
  -- An object that has no owner is no entry's.
  erased-Fits :
      (c : UdpConnection) (u : Udp)
      → find id u.objects ≡ some c
      → is_entry id (find c.endpoint u.connections) ≡ false
      → Fits id e u
      → Fits id e (record u { objects = erase id u.objects })
  erased-Fits c u there unowned (table, below, own) = (
    record {
      owned = λ endpoint j h.
          let (c', at, is) = table.owned endpoint j h in
          elim (Bool-cases (id == j)) [
            | inl same ↦
                let eq : c ≡ c' = cc (==→≡ id j same, there, at) in
                let entry : find c.endpoint u.connections ≡ some id =
                  cc (eq, is, h, ==→≡ id j same) in
                absurd (not_entry entry)
            | inr other ↦ (c', rw (find-erase id j u.objects, other, at) refl, is)
          ];
      fresh = λ j c' h. table.fresh j c' (
          if-cases (λ o. o ≡ some c' → find j u.objects ≡ some c') (id == j) none (find j u.objects)
            (λ same none_there. absurd (cc none_there)) (λ other at. at)
            (sym (find-erase id j u.objects) ∙ h));
    },
    below,
    λ c' h. own c' (absurd (gone c' h)),
  )
    where
      not_entry : find c.endpoint u.connections ≡ some id → ⊥
      not_entry entry =
          let self : is_entry id (some id) ≡ true = ==-refl id in cc (entry, self, unowned)

      gone : (c' : UdpConnection) → find id (erase id u.objects) ≡ some c' → ⊥
      gone c' h =
          let none_left : find id (erase id u.objects) ≡ none =
            rw (find-erase id id u.objects, ==-refl id) refl in
          absurd (cc (none_left, h))

  destroy-AllFit :
      (waits : Option Waiting) (u : Udp)
      → Fits id e (record u { objects = erase id u.objects })
      → AllFit id e (destroy waits id u)
  destroy-AllFit none u h = h
  destroy-AllFit (some for_keepalive) u h = h
  destroy-AllFit (some for_connect) u h = tt

  release_object-AllFit :
      (o : Option UdpConnection) (u : Udp)
      → find id u.objects ≡ o
      → Fits id e u
      → AllFit id e (release_object id o u)
  release_object-AllFit none u there h = h
  release_object-AllFit (some c) u there h =
      if-cases (AllFit id e) (c.sending == 0 && not (is_entry id (get_connection c.endpoint u)))
        (destroy c.receive_timeout id u) (done u [])
        (λ lost.
          destroy-AllFit c.receive_timeout u (erased-Fits c u there (ground (arith, lost)) h))
        (λ kept. h)

  pub release-AllFit : (u : Udp) → Fits id e u → AllFit id e (release id u)
  unfolding release
  release-AllFit u h = release_object-AllFit (find id u.objects) u refl h

  pub handle_send-AllFit :
      (c : UdpConnection) (u : Udp)
      → c.endpoint ≡ e
      → Fits id e u
      → AllFit id e (handle_send id c u)
  unfolding handle_send
  handle_send-AllFit c u same h =
      let c' : UdpConnection = record c { sending = c.sending - 1 } in
      release-AllFit (set_object id c' u) (set-Fits id e c' u same h)
