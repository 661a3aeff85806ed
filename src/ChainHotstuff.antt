-- ===== src/ChainHotstuff.antt =====
-- protocols/chainhotstuff: a chain of blocks, each with a quorum certificate for an earlier one.
pub mod Blocks
pub mod Signer
pub mod Replica
pub mod Voting
pub mod Protocol
pub mod Ancestors
pub mod Quiet
pub mod Votes
pub mod Reach
