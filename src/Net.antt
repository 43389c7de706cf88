-- ===== src/Net.antt =====
-- src/net/peer.rs, the transport between nodes, and src/config.rs, the configuration of a node.
pub mod Peer
pub mod Link
pub mod Partial
pub mod Cut
pub mod Breaks
pub mod Config
