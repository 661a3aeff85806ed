-- ===== src/DqPbft/Replica.antt =====
-- protocols/dqpbft/dqpbft.go, messaging.go and exec.go: the state of a replica, what it sends, and the
-- delivery of the ordered commands.
use go_consensus.Base.{
  ℕ, zero, suc, List, [], ◌∷◌, ◌++◌, Bool, false, ◌&&◌, Option, none, some, is_some, ◌==◌,
  if◌then◌else◌, inc64, int_mod, length, all, Bytes, Map, lookup, insert, Outcome, ok, fault, ◌>>=◌,
}
use go_consensus.Command.{Command, Codec}
use go_consensus.Peer.Timer.{TickingTimer, make_ticking_timer, reset}
use go_consensus.Peer.Interface.{Message}
use go_consensus.DqPbft.Messages.{
  InstanceId, unset, executed, InstanceState, AgreementMessage, OInstanceState, OAgreementMessage,
  DqPbftMessage, is_committed, equals_id,
}
use go_consensus.DqPbft.Quorum.{Quorum, new_quorum}

-- A map with instance ids as keys.
abbrev pub IdMap : Type 0 → Type 0
IdMap V = List (InstanceId × V)

module _ {V : Type 0} where
  unfoldable pub find_id : InstanceId → IdMap V → Option V
  unfolding equals_id
  find_id k [] = none
  find_id k ((key, x) ∷ entries) = if equals_id key k then some x else find_id k entries

  unfoldable pub put_id : InstanceId → V → IdMap V → IdMap V
  unfolding equals_id
  put_id k new [] = (k, new) ∷ []
  put_id k new ((key, x) ∷ entries) =
      if equals_id key k then (key, new) ∷ entries else (key, x) ∷ put_id k new entries

pub record Instance : Type 0 where
  pub is : InstanceState
  pub p_cert : Quorum AgreementMessage
  pub c_cert : Quorum AgreementMessage

unfoldable pub make_instance : AgreementMessage → Instance
unfolding new_quorum
make_instance m = record {
  is = record {
    view = m.view;
    instance_id = m.instance_id;
    status = unset;
    command = m.command;
    command_hash = m.command_hash;
  };
  p_cert = new_quorum;
  c_cert = new_quorum;
}

pub record OInstance : Type 0 where
  pub is : OInstanceState
  pub p_cert : Quorum OAgreementMessage
  pub c_cert : Quorum OAgreementMessage

unfoldable pub make_o_instance : OAgreementMessage → OInstance
unfolding new_quorum
make_o_instance m = record {
  is = record {
    view = m.view;
    index = m.index;
    status = unset;
    instances = m.instances;
    command_hash = m.command_hash;
  };
  p_cert = new_quorum;
  c_cert = new_quorum;
}

-- A broadcast that waits for its certificates, and one that has them.
pub record SignJob : Type 0 where
  pub message : DqPbftMessage
  pub send_to_self : Bool

pub record Signed : Type 0 where
  pub job : SignJob
  pub cert : Bytes

pub record DqPbft : Type 0 where
  pub id : ℕ
  pub peers : List ℕ
  pub f : ℕ
  pub log : IdMap Instance
  pub view : ℕ
  pub index : ℕ
  pub next_deliver_index : Map ℕ
  pub olog : Map OInstance
  pub oindex : ℕ
  pub oview : ℕ
  pub next_o_deliver_index : ℕ
  pub msgs : List (Message DqPbftMessage)
  pub to_deliver : List Command
  pub c_req_buffer : List InstanceId
  pub o_batch_size : ℕ
  pub c_req_timer : TickingTimer
  pub sign_jobs : List SignJob
  pub callback_c : List Signed

-- What the replica uses of other packages: the codec of commands, sha256 over the marshalled instance
-- ids, and the certifier over a marshalled message.
pub record Env : Type 0 where
  pub codec : Codec
  pub digest : List InstanceId → Bytes
  pub create_certificate : DqPbftMessage → Bytes
  pub verify_certificate : DqPbftMessage → Bytes → Bool

-- NewDQPBFT, of its configuration the fields that the replica keeps. The timer of initTimers runs.
unfoldable pub new_dq_pbft : ℕ → List ℕ → ℕ → ℕ → ℕ → ℕ → DqPbft
unfolding make_ticking_timer reset
new_dq_pbft id peers leader_id max_failures o_batch_size o_batch_timeout = record {
  id = id;
  peers = peers;
  f = max_failures;
  log = [];
  view = id;
  index = 0;
  next_deliver_index = [];
  olog = [];
  oindex = 0;
  oview = leader_id;
  next_o_deliver_index = 0;
  msgs = [];
  to_deliver = [];
  c_req_buffer = [];
  o_batch_size = o_batch_size;
  c_req_timer = reset (make_ticking_timer o_batch_timeout);
  sign_jobs = [];
  callback_c = [];
}

unfoldable pub is_primary_at_view : ℕ → ℕ → DqPbft → Bool
is_primary_at_view id view d = id == int_mod view (length d.peers)

unfoldable pub enqueue_for_sending : ℕ → DqPbftMessage → Bytes → DqPbft → DqPbft
enqueue_for_sending to m cert d = record d {
  msgs = d.msgs ++ record { content = m; certificate = cert; to = to; sender = d.id } ∷ [];
}

unfoldable pub send_to : Env → ℕ → DqPbftMessage → DqPbft → DqPbft
unfolding enqueue_for_sending
send_to env to m d = enqueue_for_sending to m (env.create_certificate m) d

-- `broadcast` hands the message to the dispatcher; it is sent by the callback.
unfoldable pub broadcast : DqPbftMessage → Bool → DqPbft → DqPbft
broadcast m self d = record d {
  sign_jobs = d.sign_jobs ++ record { message = m; send_to_self = self } ∷ [];
}

unfoldable pub set_instance : InstanceId → Instance → DqPbft → DqPbft
unfolding put_id
set_instance i inst d = record d { log = put_id i inst d.log }

unfoldable pub set_o_instance : ℕ → OInstance → DqPbft → DqPbft
set_o_instance i inst d = record d { olog = insert i inst d.olog }

unfoldable pub enqueue_for_delivery : Command → DqPbft → DqPbft
enqueue_for_delivery cmd d = record d { to_deliver = d.to_deliver ++ cmd ∷ [] }

-- Go gives zero for a key that a map of numbers does not have.
unfoldable pub count_at : ℕ → Map ℕ → ℕ
count_at k m = elim (lookup k m) [ none ↦ 0 | some n ↦ n ]

-- The test of an instance in the first inner loop of exec.
unfoldable pub is_deliverable : Option Instance → Bool
unfolding is_committed
is_deliverable none = false
is_deliverable (some inst) = is_committed inst.is.status && is_some inst.is.command

-- The o-instance at the delivery index, if it is committed and all its instances are.
unfoldable pub next_ready : DqPbft → Option OInstance
unfolding is_deliverable is_committed find_id
next_ready d = elim (lookup d.next_o_deliver_index d.olog) [
  | none ↦ none
  | some oinst ↦
      if is_committed oinst.is.status
        && all (λ id. is_deliverable (find_id id d.log)) oinst.is.instances
      then some oinst
      else none
]

-- The state of an instance after its delivery.
abbrev pub delivered : Instance → Instance
delivered inst = record inst { is = record inst.is { command = none; status = executed } }

-- The body of the second inner loop. A missing instance or command is a nil dereference.
unfoldable pub deliver_one : InstanceId → DqPbft → Outcome DqPbft
unfolding enqueue_for_delivery set_instance count_at find_id
deliver_one id d = elim (find_id id d.log) [
  | none ↦ fault
  | some inst ↦ elim inst.is.command [
    | none ↦ fault
    | some cmd ↦ ok (record (set_instance id (delivered inst) (enqueue_for_delivery cmd d)) {
      next_deliver_index =
          insert id.replica_id (inc64 (count_at id.replica_id d.next_deliver_index))
            d.next_deliver_index;
    })
  ]
]

unfoldable pub deliver_each : List InstanceId → DqPbft → Outcome DqPbft
unfolding deliver_one
deliver_each [] d = ok d
deliver_each (id ∷ ids) d = deliver_one id d >>= deliver_each ids

-- The end of the body of exec.
unfoldable pub finish_o : OInstance → DqPbft → DqPbft
unfolding set_o_instance
finish_o oinst d =
    record (set_o_instance d.next_o_deliver_index
      (record oinst { is = record oinst.is { status = executed } }) d) {
        next_o_deliver_index = inc64 d.next_o_deliver_index;
      }

-- `exec` on fuel: each round executes a committed o-instance.
unfoldable pub exec_loop : ℕ → DqPbft → Outcome DqPbft
unfolding next_ready deliver_each finish_o
exec_loop zero d = ok d
exec_loop (suc n) d = elim (next_ready d) [
  | none ↦ ok d
  | some oinst ↦ deliver_each oinst.is.instances d >>= λ d'. exec_loop n (finish_o oinst d')
]

unfoldable pub exec : DqPbft → Outcome DqPbft
unfolding exec_loop
exec d = exec_loop (length d.olog) d
