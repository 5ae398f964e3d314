-- ===== src/Dht.antt =====
-- src/daemon/dht: the distributed hash table.
pub mod KBucket
pub mod Service
