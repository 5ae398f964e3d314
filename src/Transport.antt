-- ===== src/Transport.antt =====
-- src/daemon/transport: the addresses of peers, the interfaces, and the connections over UDP.
pub mod Endpoint
pub mod Udp
pub mod Socket
