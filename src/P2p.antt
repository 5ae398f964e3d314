-- ===== src/P2p.antt =====
-- src/daemon/p2p: the endpoint nodes that clients register, bind and destroy.
pub mod NodeManager
