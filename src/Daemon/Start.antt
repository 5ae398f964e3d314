-- ===== src/Daemon/Start.antt =====
-- The transport when src/daemon/Daemon.cpp has started it.
use p2pnet.Base.{
  ℕ, Bool, false, ◌&&◌, List, [], ◌∷◌, Option, some, ◌≡◌, refl, ◌∙◌, if-elim, subst, take,
}
use p2pnet.Base.Maps.{find, bytes_eq}
use p2pnet.Crypto.Hash.{Bytes}
use p2pnet.Transport.Endpoint.{
  IpInterfaceEndpoint, Result, returns, throws, bad_address, bad_port, socket_from_string,
}
use p2pnet.Transport.Udp.{Udp, Action}
use p2pnet.Transport.Socket.{
  Socket, Outcome, done, null_dereferenced, bad_function_call, undefined, new_socket,
  register_interface, get_interface,
}
use p2pnet.Discovery.{
  Ended, ended, escaped, and_then, with_endpoint, run, handshake, process_received,
}
use p2pnet.Discovery.Bootstrap.{Keeps, handshake-Keeps}
use p2pnet.Discovery.Multicast.{no_interface_crashes}
use p2pnet.Daemon.{
  Settings, Surroundings, Daemon, Started, running, start_udp, start_bootstrap, start_others, start,
  behind_bootstrap,
}

-- A property of the socket with which a run ends.
abbrev Leaves : (Socket → Type 0) → Ended → Type 0
Leaves P (ended (done s did)) = P s
Leaves P (ended null_dereferenced) = Unit
Leaves P (ended bad_function_call) = Unit
Leaves P (ended undefined) = Unit
Leaves P escaped = Unit

module _ (P : Socket → Type 0) where
  and_then-Leaves :
      (next : Socket → Ended) (r : Outcome)
      → ((s : Socket) (did : List Action) → r ≡ done s did → Leaves P (next s))
      → Leaves P (and_then next r)
  and_then-Leaves next (done s did) h = go (next s) (h s did refl)
    where
      go : (r : Ended) → Leaves P r → Leaves P (and_then (λ x. r) (done s did))
      go (ended (done s' did')) k = k
      go (ended null_dereferenced) k = tt
      go (ended bad_function_call) k = tt
      go (ended undefined) k = tt
      go escaped k = tt
  and_then-Leaves next null_dereferenced h = tt
  and_then-Leaves next bad_function_call h = tt
  and_then-Leaves next undefined h = tt

  behind-Leaves :
      (settings : Settings) (around : Surroundings) (r : Ended) (d : Daemon)
      → Leaves P r
      → behind_bootstrap settings around r ≡ running d
      → P d.transport_socket
  unfolding start_others
  behind-Leaves settings around (ended (done s did)) d h e =
      let same : start_others settings around s ≡ d = cc e in
      subst (λ (d : Daemon). P d.transport_socket) same h
  behind-Leaves settings around (ended null_dereferenced) d h e = absurd (cc e)
  behind-Leaves settings around (ended bad_function_call) d h e = absurd (cc e)
  behind-Leaves settings around (ended undefined) d h e = absurd (cc e)
  behind-Leaves settings around escaped d h e = absurd (cc e)

-- The socket before the bootstrap.
abbrev first_socket : Settings → Surroundings → Socket
first_socket settings around =
    start_udp settings.udp_enabled around.udp_opens (new_socket settings.udp_outgoing_only)

first-receiving :
    (settings : Settings) (around : Surroundings) → (first_socket settings around).receiving ≡ false
unfolding start_udp new_socket register_interface
first-receiving settings around =
    if-elim (λ (s : Socket). s.receiving ≡ false) (settings.udp_enabled && around.udp_opens)
      (register_interface (new_socket settings.udp_outgoing_only))
      (new_socket settings.udp_outgoing_only) refl refl

module _ {Address : Type 0} (to_text : Address → Bytes) (from_text : Bytes → Option Address)
    (print_port : ℕ → Bytes) (lexical_cast : Bytes → Option ℕ)
    (blank : IpInterfaceEndpoint Address) where
  abbrev run_lines : List Bytes → Socket → Ended
  run_lines = run to_text from_text print_port lexical_cast blank

  run-receiving :
      (lines : List Bytes) (s : Socket)
      → s.receiving ≡ false
      → Leaves (λ (s : Socket). s.receiving ≡ false) (run_lines lines s)
  unfolding run
  run-receiving [] s h = h
  run-receiving (line ∷ lines) s h =
      go (run-receiving lines) (socket_from_string to_text from_text print_port lexical_cast _ line)
    where
      go :
          ((s' : Socket)
            → s'.receiving ≡ false
            → Leaves (λ (s : Socket). s.receiving ≡ false) (run_lines lines s'))
          → (r : Result (IpInterfaceEndpoint Address))
          → Leaves
              (λ (s : Socket). s.receiving ≡ false)
              (with_endpoint to_text from_text print_port lexical_cast r
                (λ s'. run_lines lines s')
                s)
      go rest (returns e) =
          and_then-Leaves (λ (s : Socket). s.receiving ≡ false) (λ s'. run_lines lines s')
            (handshake to_text from_text print_port lexical_cast e s)
            (λ s' did ran.
              let kept : Keeps s (done s' did) =
                subst (Keeps s) ran
                  (handshake-Keeps to_text from_text print_port lexical_cast e s) in
              rest s' (kept.1 ∙ h))
      go rest (throws error) = rest s h
      go rest bad_address = tt
      go rest bad_port = tt

  -- A socket without interfaces: every line is skipped.
  run-no_interface :
      (lines : List Bytes) (u : Udp) (receiving : Bool)
      → let s : Socket = record { interfaces = []; udp = u; receiving = receiving } in
        run_lines lines s ≡ ended (done s [])
  unfolding run socket_from_string
  run-no_interface [] u receiving = refl
  run-no_interface (line ∷ lines) u receiving = run-no_interface lines u receiving

  abbrev begin : Settings → Surroundings → Started
  begin = start to_text from_text print_port lexical_cast blank

  -- When the daemon's main loop starts, whatever the settings and the surroundings are, the UDP
  -- interface waits for no datagram: nothing has set the receive callback, which starts it.
  pub never_receives :
      (settings : Settings) (around : Surroundings) (d : Daemon)
      → begin settings around ≡ running d
      → d.transport_socket.receiving ≡ false
  unfolding start start_bootstrap
  never_receives settings around d e =
      behind-Leaves (λ (s : Socket). s.receiving ≡ false) settings around
        (start_bootstrap to_text from_text print_port lexical_cast blank settings.bootstrap_filename
          around.bootstrap_lines (first_socket settings around))
        d (go settings.bootstrap_filename) e
    where
      go :
          (filename : Bytes)
          → Leaves
              (λ (s : Socket). s.receiving ≡ false)
              (start_bootstrap to_text from_text print_port lexical_cast blank filename
                around.bootstrap_lines
                (first_socket settings around))
      go [] = first-receiving settings around
      go (c ∷ cs) =
          run-receiving around.bootstrap_lines (first_socket settings around)
            (first-receiving settings around)

  -- With the UDP transport disabled the daemon reaches its main loop, whatever the bootstrap file and
  -- the other settings are, and there every datagram of the local discovery whose handler reads a
  -- message ends in a call through a null pointer.
  pub discovery_without_udp :
      (settings : Settings) (around : Surroundings) (parse : Bytes → Option ℕ) (recv_buffer : Bytes)
      (recv_bytes port : ℕ) (sender : Address)
      → settings.udp_enabled ≡ false
      → parse (take recv_bytes recv_buffer) ≡ some port
      → (d : Daemon) × (begin settings around ≡ running d)
        × (process_received to_text from_text print_port lexical_cast parse recv_buffer recv_bytes
              sender d.transport_socket
            ≡ null_dereferenced)
  unfolding start start_bootstrap start_udp new_socket get_interface find
  discovery_without_udp settings around parse recv_buffer recv_bytes port sender disabled parsed =
      let s = new_socket settings.udp_outgoing_only in
      (
        start_others settings around s,
        rw (start, disabled, go settings.bootstrap_filename) refl,
        no_interface_crashes to_text from_text print_port lexical_cast parse recv_buffer recv_bytes
            port sender s parsed refl refl,
      )
    where
      go :
          (filename : Bytes)
          → let s = new_socket settings.udp_outgoing_only in
            start_bootstrap to_text from_text print_port lexical_cast blank filename
              around.bootstrap_lines s
            ≡ ended (done s [])
      go [] = refl
      go (c ∷ cs) =
          run-no_interface around.bootstrap_lines (new_socket settings.udp_outgoing_only).udp false
