-- ===== src/Pbft/Replica.antt =====
-- protocols/pbft/pbft.go, instance.go and messaging.go: the state of a replica, its outgoing
-- messages and the execution loop.
pub mod Execution
use go_consensus.Base.{
  ℕ, zero, suc, ◌+◌, ◌*◌, ◌-◌, ◌%◌, ◌≡◌, List, [], ◌∷◌, ◌++◌, Bool, true, false, not, ◌||◌, ◌&&◌,
  Option, none, some, ltb, leb, ◌==◌, if◌then◌else◌, inc64, u64, int_mod, is_some, length, Bytes,
  Map, lookup, insert, Outcome, ok, fault, ◌>>=◌,
}
use go_consensus.Command.{Command, Codec}
use go_consensus.Pbft.Messages.{
  InstanceState, AgreementMessage, ViewChangeMessage, ViewChangeAckMessage, NewViewMessage,
  PbftMessage, not_started, is_committed,
}
use go_consensus.Pbft.Quorum.{Quorum, new_quorum}

pub record Instance : Type 0 where
  pub is : InstanceState
  pub p_cert : Quorum
  pub c_cert : Quorum

unfoldable pub make_instance : AgreementMessage → Instance
unfolding new_quorum
make_instance m = record {
  is = record {
    view = m.view;
    index = m.index;
    status = not_started;
    command = m.command;
    command_hash = m.command_hash;
  };
  p_cert = new_quorum;
  c_cert = new_quorum;
}

-- peerpb.Message; its content is kept as the message that the bytes encode.
pub record Envelope : Type 0 where
  pub content : PbftMessage
  pub certificate : Bytes
  pub to : ℕ
  pub sender : ℕ

-- A broadcast that waits for its certificates.
pub record SignJob : Type 0 where
  pub message : PbftMessage
  pub send_to_self : Bool

-- A broadcast whose certificates are made; its callback waits in the channel.
pub record Signed : Type 0 where
  pub job : SignJob
  pub cert : Bytes

-- One entry of vcquorum.go.
pub record VcItem : Type 0 where
  pub vc_sender : ℕ
  pub vc_message : Option ViewChangeMessage
  pub vc_digest : Bytes
  pub vca_messages : Map ViewChangeAckMessage
  pub valid : Bool

pub record VcQuorum : Type 0 where
  pub messages : Map (Map VcItem)
  pub nv_message : Map NewViewMessage

pub record Pbft : Type 0 where
  pub id : ℕ
  pub nodes : List ℕ
  pub log : Map Instance
  pub execute : ℕ
  pub view : ℕ
  pub index : ℕ
  pub msgs : List Envelope
  pub executed_cmds : List Command
  pub view_changing : Bool
  pub changing_view : ℕ
  pub vc_quorum : VcQuorum
  pub f : ℕ
  pub sign_jobs : List SignJob
  pub callback_c : List Signed

-- What the replica uses of other packages: the codec of commands, sha256 over a marshalled view
-- change, and the certifier over a marshalled message.
pub record Env : Type 0 where
  pub codec : Codec
  pub digest : ViewChangeMessage → Bytes
  pub create_certificate : PbftMessage → Bytes
  pub verify_certificate : PbftMessage → Bytes → Bool

-- NewPBFT, of its configuration the fields that the replica keeps.
unfoldable pub new_pbft : ℕ → List ℕ → ℕ → ℕ → Pbft
new_pbft id nodes leader_id max_failures = record {
  id = id;
  nodes = nodes;
  log = [];
  execute = 1;
  view = leader_id;
  index = 0;
  msgs = [];
  executed_cmds = [];
  view_changing = false;
  changing_view = 0;
  vc_quorum = record { messages = []; nv_message = [] };
  f = max_failures;
  sign_jobs = [];
  callback_c = [];
}

unfoldable pub is_primary_at_view : Pbft → ℕ → ℕ → Bool
is_primary_at_view p id view = id == int_mod view (length p.nodes)

unfoldable pub is_current_primary : Pbft → ℕ → Bool
unfolding is_primary_at_view
is_current_primary p id = is_primary_at_view p id p.view

unfoldable pub enqueue_for_sending : ℕ → PbftMessage → Bytes → Pbft → Pbft
enqueue_for_sending to m cert p = record p {
  msgs = p.msgs ++ record { content = m; certificate = cert; to = to; sender = p.id } ∷ [];
}

unfoldable pub send_to : Env → ℕ → PbftMessage → Pbft → Pbft
unfolding enqueue_for_sending
send_to env to m p = enqueue_for_sending to m (env.create_certificate m) p

-- `broadcast` hands the message to the dispatcher; it is sent by the callback.
unfoldable pub broadcast : PbftMessage → Bool → Pbft → Pbft
broadcast m self p = record p {
  sign_jobs = p.sign_jobs ++ record { message = m; send_to_self = self } ∷ [];
}

unfoldable pub set_instance : ℕ → Instance → Pbft → Pbft
set_instance i inst p = record p { log = insert i inst p.log }

-- `Execute`.
unfoldable pub execute_command : Command → Pbft → Pbft
execute_command cmd p = record p { executed_cmds = p.executed_cmds ++ cmd ∷ [] }

-- The loop's test: the instance at the execution index, if it is committed and has a command.
unfoldable pub executable : Pbft → Option (Instance × Command)
executable p = elim (lookup p.execute p.log) [
  | none ↦ none
  | some inst ↦
      if not (is_committed inst.is)
      then none
      else elim inst.is.command [ none ↦ none | some cmd ↦ some (inst, cmd) ]
]

-- The loop's body.
unfoldable pub execute_one : Instance → Command → Pbft → Pbft
unfolding execute_command set_instance
execute_one inst cmd p =
    let p' = execute_command cmd p in
    let done = record inst { is = record inst.is { command = none } } in
    let p'' = set_instance p.execute done p' in record p'' { execute = inc64 p.execute }

-- `exec` on fuel: each round takes a command out of the log.
unfoldable pub exec_loop : ℕ → Pbft → Pbft
unfolding executable execute_one
exec_loop zero p = p
exec_loop (suc n) p = elim (executable p) [
  | none ↦ p
  | some (inst, cmd) ↦ exec_loop n (execute_one inst cmd p)
]

unfoldable pub exec : Pbft → Pbft
unfolding exec_loop
exec p = exec_loop (length p.log) p
