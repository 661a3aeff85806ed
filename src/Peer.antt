-- ===== src/Peer.antt =====
-- peer and pkg/command: what stands between the protocols and the clients.
pub mod Timer
pub mod Tracker
pub mod Applier
pub mod Interface
pub mod Buffer
pub mod Node
