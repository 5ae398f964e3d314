-- ===== src/Api.antt =====
-- The local API between clients and the daemon: messages, their frames on the Unix socket, and the
-- daemon's session (src/common/api, src/daemon/api).
pub mod Message
pub mod Frame
pub mod Session
pub mod Server
