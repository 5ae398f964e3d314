-- ===== src/Errors.antt =====
-- src/p2pnet.h and p2pnet.cpp: the error codes and their texts.
use Prim.Native.String.{String}
use p2pnet.Base.{ℕ, ◌==◌, if◌then◌else◌}

pub data P2pError : Type 0 where
  success daemon_connection_problem too_many_nodes too_many_sockets nonexistent_node : P2pError
  nonexistent_socket nodemanager_db_non_consistent timed_out connection_reset : P2pError
  no_such_interface no_transport not_connected message_parse_error : P2pError

-- The enumerator's value, (int)P2PError::x.
unfoldable pub error_value : P2pError → ℕ
error_value success = 0
error_value daemon_connection_problem = 256
error_value too_many_nodes = 257
error_value too_many_sockets = 258
error_value nonexistent_node = 259
error_value nonexistent_socket = 260
error_value nodemanager_db_non_consistent = 261
error_value timed_out = 110
error_value connection_reset = 104
error_value no_such_interface = 180
error_value no_transport = 181
error_value not_connected = 107
error_value message_parse_error = 107

-- P2PErrorCategory_t::name
abbrev pub category_name : String
category_name = "p2pnet"

-- P2PErrorCategory_t::message_c
unfoldable pub message_c : ℕ → String
unfolding error_value
message_c v =
    if v == error_value daemon_connection_problem
    then "Daemon connection problem"
    else if v == error_value too_many_nodes
    then "Node limit exceeded"
    else if v == error_value too_many_sockets
    then "Socket limit on specific Node exceeded"
    else if v == error_value nonexistent_node
    then "Node doesn't exist"
    else if v == error_value nonexistent_socket
    then "Socket doesn't exist on specific Node"
    else if v == error_value nodemanager_db_non_consistent
    then "NodeManager DB is inconsistent"
    else "Unknown error"
