-- ===== src/Client/Connection/Tests.antt =====
-- A server of the system and a client of a user, whose own socket path cannot be opened.
use p2pnet.Base.{Bool, true, false, [], ◌≡◌, refl, inl, codes}
use p2pnet.Crypto.Hash.{Bytes}
use p2pnet.Config.{user, system}
use p2pnet.Api.Server.{open_first, get_socket_path_list, accepting}
use p2pnet.Client.Session.{new_session}
use p2pnet.Client.Connection.{UnixDaemon, null, connect, done, is_connected}
use p2pnet.Client.Connection.Sockets.{only, connects_to_server}

abbrev system_path : Bytes
system_path = codes "/var/run/p2pnet/unix_api.sock"

abbrev unconnected : UnixDaemon
unconnected = record { session = new_session; socket_path = []; socket = null; connected = false }

abbrev always : Bytes → Bool
always path = true

server-opens :
    open_first always
      (get_socket_path_list system false (codes "/root/") (codes "api.sock") system_path)
    ≡ accepting system_path
unfolding open_first
server-opens = refl

connects_to_server_example :
    (d' : UnixDaemon) × (connect
        (only system_path 111)
        (get_socket_path_list user false (codes "/root/") (codes "api.sock") system_path)
        unconnected
      ≡ done d')
    × (is_connected d' ≡ true)
    × (d'.socket_path ≡ system_path)
    × (d'.session.receiving ≡ true)
connects_to_server_example =
    connects_to_server always 111 system user false (codes "/root/") (codes "api.sock") system_path
      system_path unconnected server-opens (inl refl)
