-- ===== src/Overlay.antt =====
-- src/daemon/overlay: the connections between peers, and the keys of the own peer.
pub mod Message
pub mod Connection
pub mod KeyProvider
pub mod Socket
