-- ===== src/Discovery/Bootstrap.antt =====
-- The lines of a bootstrap file, which src/daemon/discovery/BootstrapDiscovery.cpp reads.
use p2pnet.Base.{
  ℕ, Bool, true, false, List, [], ◌∷◌, ◌++◌, Option, ◌≡◌, ◌⊎◌, inl, inr, refl, ap, ◌∙◌,
  Option-cases,
}
use p2pnet.Base.Maps.{bytes_eq}
use p2pnet.Crypto.Hash.{Bytes}
use p2pnet.Errors.{P2pError}
use p2pnet.Transport.Endpoint.{
  IpInterfaceEndpoint, Result, returns, throws, bad_address, bad_port, socket_from_string,
  to_string,
}
use p2pnet.Transport.Udp
use p2pnet.Transport.Udp.{Action, get_connection}
use p2pnet.Transport.Socket
use p2pnet.Transport.Socket.{
  Socket, Outcome, done, null_dereferenced, bad_function_call, undefined, call_connect, of_udp,
  get_interface,
}
use p2pnet.Discovery.{Ended, ended, escaped, and_then, handshake, endpoints_of, with_endpoint, run}

-- What a call leaves of the socket: its interfaces, and whether it receives.
abbrev pub Keeps : Socket → Outcome → Type 0
Keeps s (done s' did) = (s'.interfaces ≡ s.interfaces) × (s'.receiving ≡ s.receiving)
Keeps s null_dereferenced = Unit
Keeps s bad_function_call = Unit
Keeps s undefined = Unit

of_udp-Keeps : (s : Socket) (r : Udp.Outcome) → Keeps s (of_udp s r)
of_udp-Keeps s (Udp.done u did) = (refl, refl)
of_udp-Keeps s Udp.bad_function_call = tt
of_udp-Keeps s Udp.undefined = tt

call_connect-Keeps :
    (is_set : Bool) (endpoint : Bytes) (callback : ℕ) (s : Socket)
    → Keeps s (call_connect is_set endpoint callback s)
call_connect-Keeps false endpoint callback s = tt
call_connect-Keeps true endpoint callback s = of_udp-Keeps s (Udp.connect endpoint callback s.udp)

-- A discovery's run that has ended without an exception or a crash.
abbrev pub EndsWell : Ended → Type 0
EndsWell (ended (done s did)) = Unit
EndsWell (ended null_dereferenced) = ⊥
EndsWell (ended bad_function_call) = ⊥
EndsWell (ended undefined) = ⊥
EndsWell escaped = ⊥

module _ {Address : Type 0} (to_text : Address → Bytes) (from_text : Bytes → Option Address)
    (print_port : ℕ → Bytes) (lexical_cast : Bytes → Option ℕ) where
  pub handshake-Keeps :
      (e : IpInterfaceEndpoint Address) (s : Socket)
      → Keeps s (handshake to_text from_text print_port lexical_cast e s)
  unfolding handshake Socket.connect
  handshake-Keeps e s =
      let text = to_string to_text from_text print_port lexical_cast e in
      elim (Option-cases (get_connection text s.udp)) [
        | inl no_connection ↦
            rw (handshake, no_connection) (call_connect-Keeps (get_interface e.prefix s) text 0 s)
        | inr (id, connected) ↦ rw (handshake, connected) (refl, refl)
      ]

  module _ (blank : IpInterfaceEndpoint Address) where
    abbrev read : List (Bytes × Bool) → Bytes → Result (IpInterfaceEndpoint Address)
    read interfaces line =
        socket_from_string to_text from_text print_port lexical_cast
          (endpoints_of to_text from_text print_port lexical_cast blank interfaces) line

    abbrev run_lines : List Bytes → Socket → Ended
    run_lines = run to_text from_text print_port lexical_cast blank

    -- Two ways to go on that agree where the interfaces are the same.
    with_endpoint-agree :
        (r : Result (IpInterfaceEndpoint Address)) (f g : Socket → Ended) (s : Socket)
        → ((s' : Socket) → s'.interfaces ≡ s.interfaces → f s' ≡ g s')
        → with_endpoint to_text from_text print_port lexical_cast r f s
          ≡ with_endpoint to_text from_text print_port lexical_cast r g s
    with_endpoint-agree (returns e) f g s h =
        go (handshake to_text from_text print_port lexical_cast e s) (handshake-Keeps e s)
      where
        go : (r : Outcome) → Keeps s r → and_then f r ≡ and_then g r
        go (done s' did) kept = rw (h s' kept.0) refl
        go null_dereferenced kept = refl
        go bad_function_call kept = refl
        go undefined kept = refl
    with_endpoint-agree (throws error) f g s h = h s refl
    with_endpoint-agree bad_address f g s h = refl
    with_endpoint-agree bad_port f g s h = refl

    -- A line without an interface for its prefix is skipped, wherever it stands.
    pub run-skipped :
        (before : List Bytes) (line : Bytes) (after : List Bytes) (s : Socket) (error : P2pError)
        → read s.interfaces line ≡ throws error
        → run_lines (before ++ line ∷ after) s ≡ run_lines (before ++ after) s
    unfolding run
    run-skipped [] line after s error e = rw e refl
    run-skipped (first ∷ before) line after s error e =
        with_endpoint-agree (read s.interfaces first) (λ s'. run_lines (before ++ line ∷ after) s')
          (λ s'. run_lines (before ++ after) s') s
          (λ s' same. run-skipped before line after s' error (ap (λ i. read i line) same ∙ e))

    -- If a run ends well, so does what comes after its first line, from a socket with the same
    -- interfaces.
    with_endpoint-EndsWell :
        (r : Result (IpInterfaceEndpoint Address)) (next : Socket → Ended) (s : Socket)
        → EndsWell (with_endpoint to_text from_text print_port lexical_cast r next s)
        → (s' : Socket) × (s'.interfaces ≡ s.interfaces) × EndsWell (next s')
    with_endpoint-EndsWell (returns e) next s h =
        go (handshake to_text from_text print_port lexical_cast e s) (handshake-Keeps e s) h
      where
        rest :
            (s' : Socket) (did : List Action) (r : Ended)
            → EndsWell (and_then (λ x. r) (done s' did))
            → EndsWell r
        rest s' did (ended (done s'' did')) h = tt
        rest s' did (ended null_dereferenced) h = h
        rest s' did (ended bad_function_call) h = h
        rest s' did (ended undefined) h = h
        rest s' did escaped h = h

        go :
            (r : Outcome)
            → Keeps s r
            → EndsWell (and_then next r)
            → (s' : Socket) × (s'.interfaces ≡ s.interfaces) × EndsWell (next s')
        go (done s' did) kept h = (s', kept.0, rest s' did (next s') h)
        go null_dereferenced kept h = absurd h
        go bad_function_call kept h = absurd h
        go undefined kept h = absurd h
    with_endpoint-EndsWell (throws error) next s h = (s, refl, h)
    with_endpoint-EndsWell bad_address next s h = absurd h
    with_endpoint-EndsWell bad_port next s h = absurd h

    ends :
        (line : Bytes) (after : List Bytes) (s : Socket)
        → (read s.interfaces line ≡ bad_address) ⊎ (read s.interfaces line ≡ bad_port)
        → EndsWell (run_lines (line ∷ after) s)
        → ⊥
    unfolding run
    ends line after s (inl e) = rw e (λ h. h)
    ends line after s (inr e) = rw e (λ h. h)

    -- Wherever it stands in the bootstrap file: a line with an address or a port that cannot be read
    -- keeps the run from ending well, whatever the other lines are.
    pub run-malformed :
        (before : List Bytes) (line : Bytes) (after : List Bytes) (s : Socket)
        → (read s.interfaces line ≡ bad_address) ⊎ (read s.interfaces line ≡ bad_port)
        → ¬ EndsWell (run_lines (before ++ line ∷ after) s)
    unfolding run
    run-malformed [] line after s e h = ends line after s e h
    run-malformed (first ∷ before) line after s e h =
        let (s', same, rest) =
          with_endpoint-EndsWell (read s.interfaces first)
            (λ s'. run_lines (before ++ line ∷ after) s') s h in
        run-malformed before line after s' (rw same e) rest
