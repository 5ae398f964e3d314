-- ===== src/Client/Connection.antt =====
-- src/library/daemon_conn/P2PUnixDaemon.{h,cpp} and P2PAutoDaemon.{h,cpp}: the connection of a client to
-- the daemon. Which paths can be connected to is a parameter, `connects`: the error code of a path that
-- cannot.
pub mod Sockets
mod Tests
use p2pnet.Base.{ℕ, Bool, true, false, List, [], ◌∷◌, Option, none, some}
use p2pnet.Crypto.Hash.{Bytes}
use p2pnet.Api.Message.{ApiMessage}
use p2pnet.Client.Session.{Session, receive_loop, async_send, new_session}

-- The pointer m_socket.
pub data SocketPointer : Type 0 where
  null allocated deleted : SocketPointer

pub record UnixDaemon : Type 0 where
  pub session : Session
  pub socket_path : Bytes
  pub socket : SocketPointer
  pub connected : Bool

-- P2PUnixDaemon::P2PUnixDaemon(session)
pub new_unix_daemon : Session → UnixDaemon
new_unix_daemon session = record {
  session = session;
  socket_path = [];
  socket = null;
  connected = false;
}

-- A call ends, throws a std::system_error, or uses a pointer that points to no socket.
pub data Outcome : Type 0 where
  done : UnixDaemon → Outcome
  thrown : (error_code : ℕ) → UnixDaemon → Outcome
  invalid_pointer : Outcome

module _ (connects : Bytes → Option ℕ) where
  -- The loop of connect over the paths: the exception of the last path leaves it.
  abbrev pub attempt : Option ℕ → List Bytes → Outcome → UnixDaemon → Outcome
  attempt none rest others d = done (record d { connected = true })
  attempt (some error_code) [] others d = thrown error_code (record d { connected = false })
  attempt (some error_code) (path ∷ rest) others d = others

  pub connect_loop : List Bytes → UnixDaemon → Outcome
  connect_loop [] d = done d
  connect_loop (path ∷ rest) d =
      let d' : UnixDaemon = record d { socket_path = path } in
      let others = connect_loop rest d' in attempt (connects path) rest others d'

  -- receiveLoop behind the loop.
  abbrev pub start_receiving : Outcome → Outcome
  start_receiving (done d) = done (record d { session = receive_loop d.session })
  start_receiving (thrown error_code d) = thrown error_code d
  start_receiving invalid_pointer = invalid_pointer

  -- connect(): a new socket, whatever m_socket was.
  pub connect : (path_list : List Bytes) → UnixDaemon → Outcome
  unfolding connect_loop
  connect path_list d =
      start_receiving (connect_loop path_list (record d { socket = allocated; connected = false }))

  -- connect(path)
  pub connect_to : Bytes → UnixDaemon → Outcome
  connect_to path d =
      let d' : UnixDaemon = record d {
        socket = allocated;
        connected = false;
        socket_path = path;
      } in
      start_receiving (elim (connects path) [
        | none ↦ done (record d' { connected = true })
        | some error_code ↦ thrown error_code (record d' { connected = false })
      ])

pub is_connected : UnixDaemon → Bool
is_connected d = d.connected

-- asyncSend of a message that the socket takes in the first attempt to write, which is made in the call.
-- What remains of a longer one is read from a string that is destroyed when asyncSend returns.
pub async_send_to_socket : ApiMessage → UnixDaemon → Outcome
async_send_to_socket message d = elim d.socket [
  | null ↦ invalid_pointer
  | allocated ↦ done (record d { session = async_send message d.session })
  | deleted ↦ invalid_pointer
]

-- disconnect: m_socket is deleted and keeps its value.
pub disconnect : UnixDaemon → Outcome
disconnect d = elim d.socket [
  | null ↦ done (record d { connected = false })
  | allocated ↦ done (record d { socket = deleted; connected = false })
  | deleted ↦ invalid_pointer
]

-- ~P2PUnixDaemon
pub destroy : UnixDaemon → Outcome
unfolding disconnect
destroy d = disconnect d

abbrev pub on_done : (UnixDaemon → Outcome) → Outcome → Outcome
on_done k (done d) = k d
on_done k (thrown error_code d) = thrown error_code d
on_done k invalid_pointer = invalid_pointer

-- P2PAutoDaemon: every call goes to the underlying daemon.
pub record AutoDaemon : Type 0 where
  pub underlying_daemon : UnixDaemon

-- P2PAutoDaemon::P2PAutoDaemon(session)
pub new_auto_daemon : Session → AutoDaemon
unfolding new_unix_daemon
new_auto_daemon session = record { underlying_daemon = new_unix_daemon session }

-- P2PAutoDaemon::P2PAutoDaemon
pub open_auto_daemon : (connects : Bytes → Option ℕ) (path_list : List Bytes) → Outcome
unfolding connect new_unix_daemon
open_auto_daemon connects path_list = connect connects path_list (new_unix_daemon new_session)

pub is_auto_connected : AutoDaemon → Bool
unfolding is_connected
is_auto_connected d = is_connected d.underlying_daemon

pub auto_disconnect : AutoDaemon → Outcome
unfolding disconnect
auto_disconnect d = disconnect d.underlying_daemon

-- ~P2PAutoDaemon
pub destroy_auto_daemon : AutoDaemon → Outcome
unfolding destroy
destroy_auto_daemon d = destroy d.underlying_daemon
