-- ===== src/Tests/DqRuns.antt =====
-- exec of DQPBFT at small logs.
use go_consensus.Base.{
  values, eq_bytes, ◌⊎◌, ◌++◌, ℕ, ◌≡◌, refl, List, [], ◌∷◌, none, some, arith, lookup, insert,
  Outcome, ok, fault,
}
use go_consensus.Command.{Command}
use go_consensus.DqPbft.Messages.{
  OAgreementMessage, commit, bytes_of, InstanceId, Status, committed, executed, is_committed,
  equals_id,
}
use go_consensus.DqPbft.Quorum.{Quorum, new_quorum}
use go_consensus.DqPbft.Ordering.{o_log, o_majority}
use go_consensus.DqPbft.Majorities.{as_pbft, as_quorum, Logged, empty, logs, o_majority_agreement}
use go_consensus.Pbft.Messages.{AgreementMessage, equals}
use go_consensus.Pbft.Quorum.{at_view}
use go_consensus.Pbft.Quorum.Senders.{vote}
use go_consensus.Pbft.Quorum.Certificates.{Consistent}
use go_consensus.DqPbft.Replica.{
  Instance, OInstance, DqPbft, new_dq_pbft, find_id, put_id, next_ready, is_deliverable, exec,
}
use go_consensus.DqPbft.Exec.{NoRepeats}
use go_consensus.DqPbft.Orders.{Prefix, SameOrder, SameCommands, exec_agreement}
use go_consensus.DqPbft.Faults.{exec_repeat, exec_blocked}

program : Unit {0}
unfolding new_dq_pbft find_id put_id next_ready is_deliverable exec is_committed equals_id
    new_quorum lookup insert
program = tt

abbrev cmd : ℕ → Command
cmd n = record {
  timestamp = n;
  ops = [];
  target = 0;
  meta = [];
  conflict_key = [];
  trace_info = [];
}

abbrev iid : ℕ → InstanceId
iid n = record { replica_id = n; index = 0 }

abbrev inst : ℕ → Status → Instance
inst n s = record {
  is = record {
    view = n;
    instance_id = iid n;
    status = s;
    command = some (cmd n);
    command_hash = none;
  };
  p_cert = new_quorum;
  c_cert = new_quorum;
}

abbrev order : List InstanceId → OInstance
order ids = record {
  is = record { view = 0; index = 0; status = committed; instances = ids; command_hash = none };
  p_cert = new_quorum;
  c_cert = new_quorum;
}

-- Two instances that are committed, and an o-instance at index 0.
abbrev replica : List InstanceId → DqPbft
replica ids = record (new_dq_pbft 0 (0 ∷ 1 ∷ 2 ∷ 3 ∷ []) 0 1 1 10) {
  log = (iid 1, inst 1 committed) ∷ (iid 2, inst 2 committed) ∷ [];
  olog = (0, order ids) ∷ [];
}

different : NoRepeats (replica (iid 2 ∷ iid 1 ∷ [])).olog
unfolding program
different i o h = ground arith

abbrev state_of : Outcome DqPbft → DqPbft
state_of fault = replica []
state_of (ok d) = d

delivered : (state_of (exec (replica (iid 2 ∷ iid 1 ∷ [])))).to_deliver ≡ cmd 2 ∷ cmd 1 ∷ []
unfolding program
delivered = refl

exec_repeat_example : exec (replica (iid 1 ∷ iid 2 ∷ iid 1 ∷ [])) ≡ fault
unfolding program
exec_repeat_example =
    exec_repeat (replica (iid 1 ∷ iid 2 ∷ iid 1 ∷ [])) (order (iid 1 ∷ iid 2 ∷ iid 1 ∷ [])) refl
      refl

abbrev delivered_before : DqPbft
delivered_before = record (replica (iid 2 ∷ iid 1 ∷ [])) {
  log = (iid 1, inst 1 executed) ∷ (iid 2, inst 2 committed) ∷ [];
}

exec_blocked_example : exec delivered_before ≡ ok delivered_before
unfolding program
exec_blocked_example =
    exec_blocked delivered_before (order (iid 2 ∷ iid 1 ∷ [])) (iid 1) (inst 1 executed) refl refl
      refl refl

-- A replica that is one o-instance ahead.
abbrev ahead : DqPbft
ahead = record (replica []) {
  log = (iid 1, inst 1 committed) ∷ (iid 2, inst 2 committed) ∷ (iid 3, inst 3 committed) ∷ [];
  olog = (0, order (iid 2 ∷ iid 1 ∷ [])) ∷ (1, order (iid 3 ∷ [])) ∷ [];
}

ahead_different : NoRepeats ahead.olog
unfolding program
ahead_different i o h = ground arith

ahead-SameOrder : SameOrder (replica (iid 2 ∷ iid 1 ∷ [])) ahead
unfolding program
ahead-SameOrder i o o' h k c c' = ground arith

ahead-SameCommands : SameCommands (replica (iid 2 ∷ iid 1 ∷ [])) ahead
unfolding program
ahead-SameCommands j c c' h k = ground arith

exec_agreement_example :
    (cmds cmds' : List Command) × (d' e' : DqPbft) × (exec (replica (iid 2 ∷ iid 1 ∷ [])) ≡ ok d')
    × (exec ahead ≡ ok e')
    × (d'.to_deliver ≡ (replica (iid 2 ∷ iid 1 ∷ [])).to_deliver ++ cmds)
    × (e'.to_deliver ≡ ahead.to_deliver ++ cmds')
    × (Prefix cmds cmds' ⊎ Prefix cmds' cmds)
unfolding program
exec_agreement_example =
    exec_agreement (replica (iid 2 ∷ iid 1 ∷ [])) ahead refl ahead-SameOrder ahead-SameCommands
      different ahead_different

abbrev o_vote : OAgreementMessage
o_vote = record { view = 0; index = 4; type = commit; instances = []; command_hash = some (9 ∷ []) }

abbrev votes_of : List ℕ → Quorum OAgreementMessage
votes_of [] = new_quorum
votes_of (id ∷ ids) = elim (o_log id o_vote (votes_of ids)) [ fault ↦ new_quorum | ok q ↦ q ]

abbrev nodes : List ℕ
nodes = 0 ∷ 1 ∷ 2 ∷ 3 ∷ []

first-Logged : Logged nodes (votes_of (2 ∷ 1 ∷ 0 ∷ []))
unfolding program o_log
first-Logged = logs 2 o_vote (logs 1 o_vote (logs 0 o_vote empty refl refl) refl refl) refl refl

second-Logged : Logged nodes (votes_of (3 ∷ 2 ∷ 1 ∷ []))
unfolding program o_log
second-Logged = logs 3 o_vote (logs 2 o_vote (logs 1 o_vote empty refl refl) refl refl) refl refl

first_votes :
    (v i : ℕ) (a : AgreementMessage)
    → vote v i (as_quorum (votes_of (2 ∷ 1 ∷ 0 ∷ []))) ≡ some a
    → a ≡ as_pbft o_vote
unfolding program o_log vote at_view
first_votes v i a h = ground arith

second_votes :
    (v i : ℕ) (a : AgreementMessage)
    → vote v i (as_quorum (votes_of (3 ∷ 2 ∷ 1 ∷ []))) ≡ some a
    → a ≡ as_pbft o_vote
unfolding program o_log vote at_view
second_votes v i a h = ground arith

votes-Consistent :
    Consistent
      (3 ∷ [])
      (as_quorum (votes_of (2 ∷ 1 ∷ 0 ∷ [])))
      (as_quorum (votes_of (3 ∷ 2 ∷ 1 ∷ [])))
unfolding equals eq_bytes
votes-Consistent v i a b h k l = rw (first_votes v i a k, second_votes v i b l) refl

o_majority_agreement_example :
    (o_vote.index ≡ o_vote.index) × (bytes_of o_vote.command_hash ≡ bytes_of o_vote.command_hash)
unfolding program o_log o_majority values eq_bytes
o_majority_agreement_example =
    o_majority_agreement 1 nodes (3 ∷ []) o_vote o_vote (votes_of (2 ∷ 1 ∷ 0 ∷ []))
      (votes_of (3 ∷ 2 ∷ 1 ∷ [])) (omega arith) (omega arith) first-Logged second-Logged
      votes-Consistent refl refl refl
