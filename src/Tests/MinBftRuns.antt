-- ===== src/Tests/MinBftRuns.antt =====
-- MinBFT replicas at concrete states: three replicas, the first one the leader.
use go_consensus.Base.{
  ℕ, ◌≡◌, refl, List, [], ◌∷◌, true, none, some, arith, Outcome, ok, fault, lookup, insert, keys,
  values, eq_bytes, Bytes,
}
use go_consensus.Command.{Command, hash, equal}
use go_consensus.MinBft.Quorum.{
  prepare, commit, NormalMessage, Quorum, new_quorum, equals, at_view, add_first, log, majority,
  support, vote,
}
use go_consensus.Pbft.Messages.{contents}
use go_consensus.MinBft.Agreement.{OneEach, From, SameVotes, slot_agreement}
use go_consensus.MinBft.Identifier.{to_le, of_le, to_cert, of_cert, of_cert-to_cert}
use go_consensus.MinBft.Replica.{
  Envelope, MinBft, Env, new_min_bft, make_instance, exec, has_executed,
}
use go_consensus.MinBft.Handlers.{step, request, on_commit, on_prepare}
use go_consensus.MinBft.Sound.{AllSound}
use go_consensus.MinBft.Reach.{here, next, receives, Reach-AllSound}
use go_consensus.MinBft.Order.{Executes, exec-ok}
use go_consensus.MinBft.Faults.{on_commit_poisoned, hash_at}
use go_consensus.MinBft.Senders.{on_prepare_anyone}
use go_consensus.Tests.Scenario.{codec, cmd, cmd_hash}

program : Unit {0}
unfolding step request on_commit lookup insert keys values eq_bytes hash equal equals new_quorum
    at_view add_first log majority support vote to_le of_le to_cert of_cert new_min_bft
    make_instance exec has_executed
program = tt

abbrev env : Env
env = record {
  codec = codec;
  create_ui_mac = λ n m. (n, 5 ∷ 6 ∷ []);
  verify_ui_mac = λ m mac counter. true;
}

abbrev nodes : List ℕ
nodes = 0 ∷ 1 ∷ 2 ∷ []

abbrev leader : MinBft
unfolding program
leader = new_min_bft 0 nodes 0 1

abbrev backup : MinBft
unfolding program
backup = new_min_bft 1 nodes 0 1

abbrev cert : Bytes
unfolding program
cert = to_cert (3, 5 ∷ 6 ∷ [])

abbrev prepare_one : NormalMessage
prepare_one = record {
  type = prepare;
  view = 0;
  order = 1;
  command = some cmd;
  command_hash = cmd_hash;
}

abbrev commit_one : Bytes → NormalMessage
commit_one h = record { type = commit; view = 0; order = 1; command = none; command_hash = some h }

abbrev or : MinBft → Outcome MinBft → MinBft
or p (ok q) = q
or p fault = p

-- A Prepare of the leader and the backup's own Commit are a majority of three replicas.
abbrev first : Envelope
unfolding program
first = record { content = prepare_one; certificate = cert; to = 1; sender = 0 }

abbrev done : MinBft
unfolding program
done = or backup (step env first backup)

executed : has_executed 1 done ≡ true
unfolding program
executed = refl

abbrev asked : MinBft
unfolding program
asked = or leader (request env cmd leader)

-- A backup sends the leader a Commit with another hash.
abbrev lied_to : MinBft
unfolding program
lied_to = or asked (on_commit (commit_one (9 ∷ [])) 2 asked)

Reach-AllSound_example : AllSound done
unfolding program
Reach-AllSound_example = Reach-AllSound env 1 nodes 0 1 done (next here (receives first refl))

-- The same log before the execution.
abbrev waiting : MinBft
waiting = record done { execute = 1; executed_cmds = [] }

exec-ok_example : (cs : List Command) × (q : MinBft) × (exec waiting ≡ ok q) × Executes waiting cs q
unfolding program
exec-ok_example = exec-ok waiting Reach-AllSound_example (omega arith)

on_commit_poisoned_example : on_commit (commit_one (7 ∷ 42 ∷ 97 ∷ [])) 1 lied_to ≡ fault
unfolding program
on_commit_poisoned_example =
    on_commit_poisoned env cmd leader asked lied_to (commit_one (9 ∷ []))
      (commit_one (7 ∷ 42 ∷ 97 ∷ [])) (9 ∷ []) 2 1 refl refl refl refl refl refl

abbrev two : Quorum
two = record {
  max_view = 0;
  msgs = (0, (0, prepare_one) ∷ (1, commit_one (7 ∷ 42 ∷ 97 ∷ [])) ∷ []) ∷ [];
}

of_cert-to_cert_example : of_cert (to_cert (300, 5 ∷ 6 ∷ [])) ≡ ok (300, 5 ∷ 6 ∷ [])
of_cert-to_cert_example = of_cert-to_cert 300 (5 ∷ 6 ∷ []) (omega arith)

-- A quorum that the leader's Prepare and the Commit of replica 2 make.
abbrev of_leader : Quorum
of_leader = record {
  max_view = 0;
  msgs = (0, (0, prepare_one) ∷ (2, commit_one (7 ∷ 42 ∷ 97 ∷ [])) ∷ []) ∷ [];
}

two-OneEach : OneEach two
unfolding program
two-OneEach v = ground arith

of_leader-OneEach : OneEach of_leader
unfolding program
of_leader-OneEach v = ground arith

two-From : From nodes two
unfolding program
two-From v i o h = ground arith

of_leader-From : From nodes of_leader
unfolding program
of_leader-From v i o h = ground arith

-- What all entries of the two quorums say.
abbrev Says : NormalMessage → Type 0
Says a = (a.view ≡ 0) × (a.order ≡ 1) × (a.command_hash ≡ cmd_hash)

two-Says : (v i : ℕ) (a : NormalMessage) → vote v i two ≡ some a → Says a
unfolding program
two-Says v i a h = ground arith

of_leader-Says : (v i : ℕ) (a : NormalMessage) → vote v i of_leader ≡ some a → Says a
unfolding program
of_leader-Says v i a h = ground arith

Says-equals : (a b : NormalMessage) → Says a → Says b → equals a b ≡ true
unfolding program
Says-equals a b (v, o, h) (v', o', h') = rw (v, v', o, o', h, h') refl

shared-SameVotes : SameVotes two of_leader
shared-SameVotes v i a b h k = Says-equals a b (two-Says v i a h) (of_leader-Says v i b k)

slot_agreement_example :
    (prepare_one.order ≡ (commit_one (7 ∷ 42 ∷ 97 ∷ [])).order)
    × (contents prepare_one.command_hash ≡ contents (commit_one (7 ∷ 42 ∷ 97 ∷ [])).command_hash)
unfolding program
slot_agreement_example =
    slot_agreement 1 nodes prepare_one (commit_one (7 ∷ 42 ∷ 97 ∷ [])) two of_leader (omega arith)
      two-OneEach of_leader-OneEach two-From of_leader-From shared-SameVotes refl refl refl

-- Replica 2 does not lead view 0.
on_prepare_anyone_example :
    (q : MinBft) × (on_prepare env prepare_one 2 backup ≡ ok q) × (hash_at 1 q ≡ some cmd_hash)
unfolding program
on_prepare_anyone_example =
    on_prepare_anyone env prepare_one cmd 2 backup (Reach-AllSound env 1 nodes 0 1 backup here) refl
      refl refl refl
