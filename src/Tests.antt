-- ===== src/Tests.antt =====
-- The theorems at concrete inputs, and runs of the code.
mod Scenario
mod Quorums
mod Replicas
mod Views
mod MinBftRuns
mod Peers
mod Nodes
mod Certificates
mod Chains
mod Merging
mod DqRuns
