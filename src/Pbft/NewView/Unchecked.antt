-- ===== src/Pbft/NewView/Unchecked.antt =====
-- pbft.go, `verifyNewView` and `processNewView`: what a replica that has no view change accepts, and
-- what an executed command does to a new view.
use go_consensus.Pbft.Replica.{Pbft}
