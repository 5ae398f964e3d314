-- ===== src/Client/Connection/Sockets.antt =====
-- The socket that P2PUnixDaemon (src/library/daemon_conn) connects to, and what becomes of it.
use p2pnet.Base.{
  ℕ, Bool, true, false, ◌||◌, List, [], ◌∷◌, Option, none, some, ◌≡◌, ◌⊎◌, inl, inr, refl, subst,
  if-cases, if◌then◌else◌, Bool-cases, arith,
}
use p2pnet.Base.Maps.{◌=?◌, bytes_eq, bytes_beq_iff}
use p2pnet.Crypto.Hash.{Bytes}
use p2pnet.Config.{Permissions, system, user}
use p2pnet.Api.Server.{get_socket_path_list, open_first, accepting, throws}
use p2pnet.Client.Connection.{
  UnixDaemon, Outcome, done, thrown, invalid_pointer, connect, connect_loop, on_done, disconnect,
  destroy, allocated, deleted, attempt, start_receiving, is_connected, new_unix_daemon,
}
use p2pnet.Client.Session.{Session, receive_loop}

abbrev contains : Bytes → List Bytes → Bool
contains p [] = false
contains p (path ∷ paths) = path =? p || contains p paths

-- Only one path can be connected to; the others end with an error code.
abbrev pub only : Bytes → ℕ → Bytes → Option ℕ
only p error_code path = if path =? p then none else some error_code

-- A daemon that is connected to p.
abbrev IsConnected : Bytes → UnixDaemon → Type 0
IsConnected p d = (d.connected ≡ true) × (d.socket_path ≡ p) × (d.socket ≡ allocated)

connect_loop-only :
    (p : Bytes) (error_code : ℕ) (paths : List Bytes) (d : UnixDaemon)
    → d.socket ≡ allocated
    → contains p paths ≡ true
    → (d' : UnixDaemon) × (connect_loop (only p error_code) paths d ≡ done d') × IsConnected p d'
unfolding connect_loop
connect_loop-only p error_code [] d here h = absurd (cc h)
connect_loop-only p error_code (path ∷ []) d here h =
    let same : (path =? p) ≡ true = ground (arith, h) in
    (
      record d { socket_path = path; connected = true },
      rw same refl,
      (refl, (bytes_beq_iff path p).0 same, here),
    )
connect_loop-only p error_code (path ∷ next ∷ paths) d here h =
    let d' : UnixDaemon = record d { socket_path = path } in
    elim (Bool-cases (path =? p)) [
      | inl same ↦ (
        record d' { connected = true },
        rw same refl,
        (refl, (bytes_beq_iff path p).0 same, here),
      )
      | inr other ↦
          let (d'', e, is) =
            connect_loop-only p error_code (next ∷ paths) d' here (ground (arith, h, other)) in
          (d'', rw (other, e) refl, is)
    ]

contains-head : (p path : Bytes) (paths : List Bytes) → path ≡ p → contains p (path ∷ paths) ≡ true
contains-head p path paths e = ground (arith, (bytes_beq_iff path p).1 e)

-- The path that the server accepts on is one of its list.
open_first-contains :
    (opens : Bytes → Bool) (p : Bytes) (paths : List Bytes)
    → open_first opens paths ≡ accepting p
    → contains p paths ≡ true
unfolding open_first
open_first-contains opens p [] e = absurd (cc e)
open_first-contains opens p (path ∷ []) e =
    if-cases (λ o. o ≡ accepting p → contains p (path ∷ []) ≡ true) (opens path) (accepting path)
      throws (λ opened e'. contains-head p path [] (cc e')) (λ closed e'. absurd (cc e')) e
open_first-contains opens p (path ∷ next ∷ paths) e =
    if-cases (λ o. o ≡ accepting p → contains p (path ∷ next ∷ paths) ≡ true) (opens path)
      (accepting path) (open_first opens (next ∷ paths))
      (λ opened e'. contains-head p path (next ∷ paths) (cc e'))
      (λ closed e'. ground (arith, open_first-contains opens p (next ∷ paths) e')) e

-- A client with the permissions of a user tries every path that a server may have opened.
user_list-contains :
    (permissions : Permissions) (disabled : Bool) (directory name system_path p : Bytes)
    → contains p (get_socket_path_list permissions disabled directory name system_path) ≡ true
    → contains p (get_socket_path_list user disabled directory name system_path) ≡ true
user_list-contains user disabled directory name system_path p h = h
user_list-contains system true directory name system_path p h = h
user_list-contains system false directory name system_path p h = ground (arith, h)

-- A client with the permissions of a user or those of the server reaches the daemon if both have the
-- same configuration and directory: if the server accepts on a path, and that one alone can be connected
-- to, connect() ends connected to it. (Beside another daemon it can end connected to that one.)
pub connects_to_server :
    (opens : Bytes → Bool) (error_code : ℕ) (server client : Permissions) (disabled : Bool)
    (directory name system_path p : Bytes) (d : UnixDaemon)
    → open_first opens (get_socket_path_list server disabled directory name system_path)
      ≡ accepting p
    → (client ≡ user) ⊎ (client ≡ server)
    → (d' : UnixDaemon) × (connect
          (only p error_code)
          (get_socket_path_list client disabled directory name system_path)
          d
        ≡ done d')
      × (is_connected d' ≡ true)
      × (d'.socket_path ≡ p)
      × (d'.session.receiving ≡ true)
unfolding connect is_connected receive_loop
connects_to_server opens error_code server client disabled directory name system_path p d opened
      as_server =
    let there =
      open_first-contains opens p (get_socket_path_list server disabled directory name system_path)
        opened in
    let mine : contains p (get_socket_path_list client disabled directory name system_path) ≡ true =
      elim as_server [
        | inl e ↦ rw e (user_list-contains server disabled directory name system_path p there)
        | inr e ↦ rw e there
      ] in
    let (d', e, is) =
      connect_loop-only p error_code
        (get_socket_path_list client disabled directory name system_path)
        (record d { socket = allocated; connected = false }) refl mine in
    (record d' { session = receive_loop d'.session }, rw (connect, e) refl, is.0, is.1, refl)

abbrev HasSocket : Outcome → Type 0
HasSocket (done d) = d.socket ≡ allocated
HasSocket (thrown error_code d) = Unit
HasSocket invalid_pointer = Unit

module _ (connects : Bytes → Option ℕ) where
  attempt-HasSocket :
      (r : Option ℕ) (rest : List Bytes) (others : Outcome) (d : UnixDaemon)
      → d.socket ≡ allocated
      → HasSocket others
      → HasSocket (attempt connects r rest others d)
  attempt-HasSocket none rest others d h ho = h
  attempt-HasSocket (some error_code) [] others d h ho = tt
  attempt-HasSocket (some error_code) (path ∷ rest) others d h ho = ho

  connect_loop-HasSocket :
      (paths : List Bytes) (d : UnixDaemon)
      → d.socket ≡ allocated
      → HasSocket (connect_loop connects paths d)
  unfolding connect_loop
  connect_loop-HasSocket [] d h = h
  connect_loop-HasSocket (path ∷ rest) d h =
      let d' : UnixDaemon = record d { socket_path = path } in
      attempt-HasSocket (connects path) rest (connect_loop connects rest d') d' h
        (connect_loop-HasSocket rest d' h)

  connect-HasSocket : (paths : List Bytes) (d : UnixDaemon) → HasSocket (connect connects paths d)
  unfolding connect
  connect-HasSocket paths d =
      let d' : UnixDaemon = record d { socket = allocated; connected = false } in
      go (connect_loop connects paths d') (connect_loop-HasSocket paths d' refl)
    where
      go : (r : Outcome) → HasSocket r → HasSocket (start_receiving connects r)
      go (done d) h = h
      go (thrown error_code d) h = tt
      go invalid_pointer h = tt

-- A daemon that was connected and disconnected is destroyed by deleting its socket a second time; one
-- that was not disconnected, or never connected, is destroyed without fault.
pub disconnect-destroy :
    (connects : Bytes → Option ℕ) (paths : List Bytes) (d d' : UnixDaemon)
    → connect connects paths d ≡ done d'
    → (on_done destroy (disconnect d') ≡ invalid_pointer)
      × ((d'' : UnixDaemon) × (destroy d' ≡ done d''))
      × ((session : Session) → (d'' : UnixDaemon) × (destroy (new_unix_daemon session) ≡ done d''))
unfolding destroy disconnect connect new_unix_daemon
disconnect-destroy connects paths d d' e =
    let here : d'.socket ≡ allocated = subst HasSocket e (connect-HasSocket connects paths d) in
    (
      rw here refl,
      (record d' { socket = deleted; connected = false }, rw here refl),
      λ session. (record (new_unix_daemon session) { connected = false }, refl),
    )
