-- ===== src/Pbft.antt =====
-- protocols/pbft: the PBFT replica.
pub mod Messages
pub mod Quorum
pub mod Replica
pub mod Agreement
pub mod ViewChange
pub mod NewView
pub mod Protocol
