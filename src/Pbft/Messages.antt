-- ===== src/Pbft/Messages.antt =====
-- protocols/pbft/pbftpb: the messages of pbft.proto and the methods of utils.go.
use go_consensus.Base.{ℕ, List, [], Bool, Option, none, some, ◌==◌, ◌&&◌, leb, Bytes, eq_bytes, Map}
use go_consensus.Command.{Command}

pub data Status : Type 0 where
  not_started pre_prepared prepared committed executed : Status

pub data AgreementType : Type 0 where
  pre_prepare prepare commit : AgreementType
  other : ℕ → AgreementType

pub record InstanceState : Type 0 where
  pub view : ℕ
  pub index : ℕ
  pub status : Status
  pub command : Option Command
  pub command_hash : Option Bytes

pub record AgreementMessage : Type 0 where
  pub view : ℕ
  pub index : ℕ
  pub type : AgreementType
  pub command : Option Command
  pub command_hash : Option Bytes

pub record ViewChangeMessage : Type 0 where
  pub new_view : ℕ
  pub low_index : ℕ
  pub high_index : ℕ
  pub p_set : List InstanceState
  pub q_set : List InstanceState

pub record ViewChangeAckMessage : Type 0 where
  pub new_view : ℕ
  pub ack_for : ℕ
  pub digest : Bytes

pub record NewViewProof : Type 0 where
  pub ack_for : ℕ
  pub digest : Bytes

pub record NewViewMessage : Type 0 where
  pub new_view : ℕ
  pub nv_proof : List NewViewProof
  pub instances : Map InstanceState

pub data PbftMessage : Type 0 where
  agreement : AgreementMessage → PbftMessage
  view_change : ViewChangeMessage → PbftMessage
  view_change_ack : ViewChangeAckMessage → PbftMessage
  new_view : NewViewMessage → PbftMessage

-- The number of a status in pbft.proto.
abbrev pub rank : Status → ℕ
rank not_started = 0
rank pre_prepared = 1
rank prepared = 2
rank committed = 3
rank executed = 4

abbrev pub is_pre_prepared : InstanceState → Bool
is_pre_prepared s = rank s.status == rank pre_prepared

abbrev pub is_prepared : InstanceState → Bool
is_prepared s = rank s.status == rank prepared

abbrev pub is_committed : InstanceState → Bool
is_committed s = rank s.status == rank committed

abbrev pub is_atleast_pre_prepared : InstanceState → Bool
is_atleast_pre_prepared s = leb (rank pre_prepared) (rank s.status)

abbrev pub is_atleast_prepared : InstanceState → Bool
is_atleast_prepared s = leb (rank prepared) (rank s.status)

-- The contents of a byte slice; nil has none.
abbrev pub contents : Option Bytes → Bytes
contents none = []
contents (some b) = b

-- `bytes.Equal` on two slices: nil equals the empty slice.
abbrev pub eq_hash : Option Bytes → Option Bytes → Bool
eq_hash a b = eq_bytes (contents a) (contents b)

-- `AgreementMessage.Equals`.
unfoldable pub equals : AgreementMessage → AgreementMessage → Bool
equals m o = m.view == o.view && (m.index == o.index && eq_hash m.command_hash o.command_hash)

-- `InstanceState.Equals`.
unfoldable pub equals_state : InstanceState → InstanceState → Bool
equals_state m o = m.index == o.index && (eq_hash m.command_hash o.command_hash && m.view == o.view)

-- The zero value that Go reads at a missing key.
abbrev pub zero_state : InstanceState
zero_state = record {
  view = 0;
  index = 0;
  status = not_started;
  command = none;
  command_hash = none;
}
