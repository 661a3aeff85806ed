-- ===== src/Peer/Node/Order.antt =====
-- peer/applier.go and peer/peer.go: the store of a peer is that of a prefix of the ordered commands.
use go_consensus.Base.{List}
use go_consensus.Peer.Node.{Peer}
