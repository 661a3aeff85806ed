-- ===== src/DqPbft.antt =====
-- protocols/dqpbft: each replica leads the agreement on its own commands, and a primary orders them.
pub mod Messages
pub mod Quorum
pub mod Replica
pub mod Ordering
pub mod Agreement
pub mod Protocol
pub mod Delivery
pub mod Exec
pub mod Orders
pub mod Majorities
pub mod Faults
