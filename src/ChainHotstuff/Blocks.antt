-- ===== src/ChainHotstuff/Blocks.antt =====
-- protocols/chainhotstuff/chainhotstuffpb and block.go: the blocks, their certificates and the votes.
use go_consensus.Base.{ℕ, zero, suc, [], ◌∷◌, Option, none, Bytes, Map}
use go_consensus.Command.{Command}

pub record Signature : Type 0 where
  pub sig : Bytes
  pub signer : ℕ

pub record QuorumCert : Type 0 where
  pub sigs : Map Signature
  pub block_hash : Bytes

pub record BlockState : Type 0 where
  pub parent : Bytes
  pub command : Option Command
  pub height : ℕ
  pub q_c : Option QuorumCert
  pub proposer : ℕ

pub record VoteMessage : Type 0 where
  pub block_hash : Bytes
  pub signature : Option Signature

unfoldable pub genesis : BlockState
genesis = record { parent = []; command = none; height = 0; q_c = none; proposer = 0 }

-- `copy` into an array: what is missing is zero, what is too much is dropped.
unfoldable pub copy_into : ℕ → Bytes → Bytes
copy_into zero b = []
copy_into (suc n) [] = 0 ∷ copy_into n []
copy_into (suc n) (x ∷ b) = x ∷ copy_into n b

-- `BlockHashSlice.Array`: the 64 bytes of SHA-512.
unfoldable pub array : Bytes → Bytes
unfolding copy_into
array b = copy_into 64 b
