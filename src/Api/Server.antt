-- ===== src/Api/Server.antt =====
-- src/daemon/api/APIServer.{h,cpp}, UnixAPIServer.{h,cpp}, and getSocketPathList of
-- src/common/api/UnixAPISocket.cpp. A session is a number; which socket paths can be opened and which
-- writes fail are parameters.
pub mod Sessions
mod Tests
use p2pnet.Base.{
  ℕ, ◌+◌, Bool, true, false, ◌&&◌, ◌||◌, not, List, [], ◌∷◌, ◌++◌, Option, none, some, ◌==◌,
  if◌then◌else◌, codes,
}
use p2pnet.Crypto.Hash.{Bytes}
use p2pnet.Config.{Permissions, system, user}

-- getSocketPathList, with the values that it reads of the configuration.
abbrev pub get_socket_path_list :
    Permissions
    → (disable_user_sock : Bool) → (directory user_sock_name system_sock_path : Bytes) → List Bytes
get_socket_path_list system disable_user_sock directory user_sock_name system_sock_path =
    system_sock_path ∷ []
get_socket_path_list user true directory user_sock_name system_sock_path = system_sock_path ∷ []
get_socket_path_list user false directory user_sock_name system_sock_path =
    (directory ++ user_sock_name) ∷ system_sock_path ∷ []

-- How the loop of the constructor UnixAPIServer ends: with an acceptor, with none, or by the
-- exception of the last path.
pub data Opened : Type 0 where
  accepting : (socket_path : Bytes) → Opened
  not_accepting : Opened
  throws : Opened

unfoldable pub open_first : (Bytes → Bool) → List Bytes → Opened
open_first opens [] = not_accepting
open_first opens (path ∷ []) = if opens path then accepting path else throws
open_first opens (path ∷ next ∷ rest) =
    let others = open_first opens (next ∷ rest) in if opens path then accepting path else others

-- The sessions of a server: `api_sessions` are the ones that exist, `receiving` those with an
-- asynchronous receive on the way.
pub record Server : Type 0 where
  pub api_sessions : List ℕ
  pub receiving : List ℕ
  pub next_session : ℕ

-- A handler ends, or uses a session that was deleted.
pub data Outcome : Type 0 where
  done : Server → Outcome
  use_after_free : Outcome

abbrev pub member : ℕ → List ℕ → Bool
member s [] = false
member s (x ∷ xs) = x == s || member s xs

abbrev pub without : ℕ → List ℕ → List ℕ
without s [] = []
without s (x ∷ xs) = let rest = without s xs in if x == s then rest else x ∷ rest

-- APIServer::dropSession: erase and delete.
pub drop_session : ℕ → Server → Server
drop_session s server = record server { api_sessions = without s server.api_sessions }

-- receiveLoop: a call on the session's socket.
pub receive_loop : ℕ → Server → Outcome
receive_loop s server =
    if member s server.api_sessions
    then done (record server { receiving = s ∷ server.receiving })
    else use_after_free

-- handleAccept
pub handle_accept : Server → Outcome
unfolding receive_loop
handle_accept server = receive_loop server.next_session (record server {
  api_sessions = server.next_session ∷ server.api_sessions;
  next_session = server.next_session + 1;
})

-- UnixAPISession::send: a failed write drops the session.
pub send : (write_fails : Bool) → ℕ → Server → Server
unfolding drop_session
send write_fails s server = if write_fails then drop_session s server else server

-- handleReceive for a receive that was on the way. `replies` says whether process sends a reply.
pub handle_receive : (error replies write_fails : Bool) → ℕ → Server → Outcome
unfolding drop_session send receive_loop
handle_receive error replies write_fails s server =
    let server' : Server = record server { receiving = without s server.receiving } in
    if error
    then done (drop_session s server')
    else receive_loop s (if replies then send write_fails s server' else server')
