-- ===== src/MinBft/Replica.antt =====
-- protocols/minbft/minbft.go, messaging.go and the execution loop of instance.go.
use go_consensus.Base.{
  ℕ, zero, suc, ◌+◌, ◌%◌, List, [], ◌∷◌, ◌++◌, Bool, true, false, not, ◌&&◌, Option, none, some,
  ◌==◌, if◌then◌else◌, inc64, length, Bytes, Map, lookup, insert, Outcome, ok, fault, ◌>>=◌,
}
use go_consensus.Command.{Command, Codec}
use go_consensus.MinBft.Quorum.{NormalMessage, Quorum, new_quorum}
use go_consensus.MinBft.Identifier.{to_cert}

pub record Instance : Type 0 where
  pub slot : ℕ
  pub view : ℕ
  pub command : Option Command
  pub command_hash : Option Bytes
  pub prepared : Bool
  pub commit : Bool
  pub executed : Bool
  pub quorum : Option Quorum

unfoldable pub make_instance : NormalMessage → Instance
make_instance m = record {
  slot = m.order;
  view = m.view;
  command = m.command;
  command_hash = m.command_hash;
  prepared = false;
  commit = false;
  executed = false;
  quorum = some new_quorum;
}

-- peerpb.Message; its content is kept as the message that the bytes encode.
pub record Envelope : Type 0 where
  pub content : NormalMessage
  pub certificate : Bytes
  pub to : ℕ
  pub sender : ℕ

-- `created` counts the identifiers that the enclave has made.
pub record MinBft : Type 0 where
  pub id : ℕ
  pub nodes : List ℕ
  pub f : ℕ
  pub log : Map Instance
  pub execute : ℕ
  pub active : Bool
  pub slot : ℕ
  pub msgs : List Envelope
  pub executed_cmds : List Command
  pub created : ℕ
  pub stable_view : ℕ
  pub cur_view : ℕ

-- What the replica uses of other packages: the codec of commands and the enclave. `create_ui_mac n`
-- is the answer to its call number n.
pub record Env : Type 0 where
  pub codec : Codec
  pub create_ui_mac : ℕ → NormalMessage → ℕ × Bytes
  pub verify_ui_mac : NormalMessage → Bytes → ℕ → Bool

-- NewMinBFT. Slot 0 holds an empty instance, which has no quorum.
unfoldable pub new_min_bft : ℕ → List ℕ → ℕ → ℕ → MinBft
new_min_bft id nodes leader_id max_failures = record {
  id = id;
  nodes = nodes;
  f = max_failures;
  log =
      (
        0,
        record {
          slot = 0;
          view = 0;
          command = none;
          command_hash = none;
          prepared = false;
          commit = false;
          executed = false;
          quorum = none;
        },
      )
      ∷ [];
  execute = 1;
  active = false;
  slot = 0;
  msgs = [];
  executed_cmds = [];
  created = 0;
  stable_view = leader_id;
  cur_view = leader_id;
}

unfoldable pub send_to : ℕ → NormalMessage → Bytes → MinBft → MinBft
send_to to m cert p = record p {
  msgs = p.msgs ++ record { content = m; certificate = cert; to = to; sender = p.id } ∷ [];
}

-- `broadcast`, the loop over the nodes: all but the replica itself.
unfoldable pub send_all : NormalMessage → Bytes → List ℕ → MinBft → MinBft
unfolding send_to
send_all m cert [] p = p
send_all m cert (node ∷ nodes) p =
    send_all m cert nodes (if not (node == p.id) then send_to node m cert p else p)

-- `broadcastNormal`: one identifier for all copies of the message.
unfoldable pub broadcast_normal : Env → NormalMessage → MinBft → MinBft
unfolding send_all to_cert
broadcast_normal env m p =
    send_all m (to_cert (env.create_ui_mac p.created m)) p.nodes
      (record p { created = p.created + 1 })

unfoldable pub set_instance : ℕ → Instance → MinBft → MinBft
set_instance i inst p = record p { log = insert i inst p.log }

unfoldable pub execute_command : Command → MinBft → MinBft
execute_command cmd p = record p { executed_cmds = p.executed_cmds ++ cmd ∷ [] }

-- The loop's test.
unfoldable pub executable : MinBft → Option Instance
executable p = elim (lookup p.execute p.log) [
  | none ↦ none
  | some e ↦ if not e.commit then none else some e
]

-- The loop's body for a command.
unfoldable pub run_command : Command → Instance → MinBft → MinBft
unfolding execute_command set_instance
run_command cmd e p =
    let p' = set_instance p.execute (record e { executed = true }) (execute_command cmd p) in
    record p' { execute = inc64 p.execute }

-- The packet takes the command through its pointer.
unfoldable pub execute_one : Instance → MinBft → Outcome MinBft
unfolding run_command
execute_one e p = elim e.command [ none ↦ fault | some cmd ↦ ok (run_command cmd e p) ]

-- `exec` on fuel: each round goes to the next slot of the log.
unfoldable pub exec_loop : ℕ → MinBft → Outcome MinBft
unfolding executable execute_one
exec_loop zero p = ok p
exec_loop (suc n) p = elim (executable p) [ none ↦ ok p | some e ↦ execute_one e p >>= exec_loop n ]

unfoldable pub exec : MinBft → Outcome MinBft
unfolding exec_loop
exec p = exec_loop (length p.log) p

unfoldable pub has_prepared : ℕ → MinBft → Bool
has_prepared i p = elim (lookup i p.log) [ none ↦ false | some inst ↦ inst.prepared ]

unfoldable pub has_committed : ℕ → MinBft → Bool
has_committed i p = elim (lookup i p.log) [
  | none ↦ false
  | some inst ↦ inst.prepared && inst.commit
]

unfoldable pub has_executed : ℕ → MinBft → Bool
has_executed i p = elim (lookup i p.log) [
  | none ↦ false
  | some inst ↦ inst.prepared && (inst.commit && inst.executed)
]

unfoldable pub leader_of_view : ℕ → MinBft → ℕ
leader_of_view v p = v % length p.nodes

pub record Ready : Type 0 where
  pub messages : List Envelope
  pub ordered_commands : List Command

unfoldable pub make_ready : MinBft → Ready
make_ready p = record { messages = p.msgs; ordered_commands = p.executed_cmds }

unfoldable pub clear_msgs : MinBft → MinBft
clear_msgs p = record p { msgs = [] }

unfoldable pub clear_executed_commands : MinBft → MinBft
clear_executed_commands p = record p { executed_cmds = [] }
