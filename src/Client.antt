-- ===== src/Client.antt =====
-- The client library, src/library: sessions, nodes and the connection to the daemon.
pub mod Session
pub mod Node
pub mod Peer
pub mod Connection
pub mod KeyPair
