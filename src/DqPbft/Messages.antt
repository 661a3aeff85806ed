-- ===== src/DqPbft/Messages.antt =====
-- protocols/dqpbft/dqpbftpb: the messages about commands, those about the global order, and the states
-- of their instances.
use go_consensus.Base.{
  ℕ, List, [], ◌∷◌, Bool, true, false, not, ◌&&◌, Option, none, some, ◌==◌, if◌then◌else◌, Bytes,
  eq_bytes,
}
use go_consensus.Command.{Command}

pub record InstanceId : Type 0 where
  pub replica_id : ℕ
  pub index : ℕ

-- The states of both kinds of instances, `None` first.
pub data Status : Type 0 where
  unset pre_prepared prepared committed executed : Status

pub record InstanceState : Type 0 where
  pub view : ℕ
  pub instance_id : InstanceId
  pub status : Status
  pub command : Option Command
  pub command_hash : Option Bytes

-- The types of both kinds of messages; proto3 lets any other number through.
pub data AgreementType : Type 0 where
  pre_prepare prepare commit : AgreementType
  other : ℕ → AgreementType

pub record AgreementMessage : Type 0 where
  pub view : ℕ
  pub instance_id : InstanceId
  pub type : AgreementType
  pub command : Option Command
  pub command_hash : Option Bytes

pub record OInstanceState : Type 0 where
  pub view : ℕ
  pub index : ℕ
  pub status : Status
  pub instances : List InstanceId
  pub command_hash : Option Bytes

pub record OAgreementMessage : Type 0 where
  pub view : ℕ
  pub index : ℕ
  pub type : AgreementType
  pub instances : List InstanceId
  pub command_hash : Option Bytes

pub data DqPbftMessage : Type 0 where
  agreement : AgreementMessage → DqPbftMessage
  o_agreement : OAgreementMessage → DqPbftMessage

unfoldable pub is_pre_prepared : Status → Bool
is_pre_prepared pre_prepared = true
is_pre_prepared s = false

unfoldable pub is_prepared : Status → Bool
is_prepared prepared = true
is_prepared s = false

unfoldable pub is_committed : Status → Bool
is_committed committed = true
is_committed s = false

-- `bytes.Equal`, for which nil and empty are the same.
abbrev pub bytes_of : Option Bytes → Bytes
bytes_of none = []
bytes_of (some b) = b

unfoldable pub equals_id : InstanceId → InstanceId → Bool
equals_id m n = m.replica_id == n.replica_id && m.index == n.index

unfoldable pub equals : AgreementMessage → AgreementMessage → Bool
unfolding equals_id
equals m n =
    if not (m.view == n.view)
    then false
    else if not (equals_id m.instance_id n.instance_id)
    then false
    else eq_bytes (bytes_of m.command_hash) (bytes_of n.command_hash)

unfoldable pub o_equals : OAgreementMessage → OAgreementMessage → Bool
o_equals m n =
    if not (m.view == n.view)
    then false
    else if not (m.index == n.index)
    then false
    else eq_bytes (bytes_of m.command_hash) (bytes_of n.command_hash)

-- `InstancesEquals`.
unfoldable pub instances_equals : List InstanceId → List InstanceId → Bool
unfolding equals_id
instances_equals [] [] = true
instances_equals [] (y ∷ b) = false
instances_equals (x ∷ a) [] = false
instances_equals (x ∷ a) (y ∷ b) = equals_id x y && instances_equals a b
