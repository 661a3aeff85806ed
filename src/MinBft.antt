-- ===== src/MinBft.antt =====
-- protocols/minbft: agreement in one phase of commits among 2f + 1 replicas, each message with a
-- unique identifier of the sender's trusted counter.
pub mod Quorum
pub mod Agreement
pub mod Identifier
pub mod Replica
pub mod Delivery
pub mod Handlers
pub mod Sound
pub mod Entries
pub mod Kept
pub mod Reach
pub mod Order
pub mod Faults
pub mod Senders
