-- ===== src/Tests/Replicas.antt =====
-- The PBFT replica at concrete states: a backup that executes a command.
use go_consensus.Base.{
  ◌≡◌, refl, ◌↔◌, List, [], ◌∷◌, true, false, none, some, arith, Outcome, ok, fault, ◌>>=◌, lookup,
  insert, values, eq_bytes,
}
use go_consensus.Command.{Command, hash, equal, eq_bool}
use go_consensus.Command.Equality.{Agree, AllSet, equal_iff}
use go_consensus.Pbft.Messages.{pre_prepare, prepare, commit, agreement, equals}
use go_consensus.Pbft.Quorum.{new_quorum, at_view, log, majority}
use go_consensus.Pbft.Replica.{
  Pbft, make_instance, is_primary_at_view, is_current_primary, exec, new_pbft,
}
use go_consensus.Pbft.Agreement.{step_agreement, on_request}
use go_consensus.Pbft.Agreement.Certified.{AllCertified}
use go_consensus.Pbft.Protocol.{step, request, cert_vector, send_all}
use go_consensus.Pbft.Protocol.Reach.{here, next, receives, Reach-AllCertified}
use go_consensus.Pbft.Protocol.Delivery.{letter, send_all_lem}
use go_consensus.Tests.Scenario.{env, nodes, cmd, about, letter_from, backup}

program : Unit {0}
unfolding step request step_agreement on_request lookup insert values eq_bytes majority log at_view
    new_quorum equals hash make_instance is_current_primary is_primary_at_view exec equal new_pbft
    eq_bool cert_vector
program = tt

abbrev or : Pbft → Outcome Pbft → Pbft
or p (ok q) = q
or p fault = p

-- A backup that gets the PrePrepare, a Prepare and two Commits.
run : Outcome Pbft
unfolding program
run =
    ((step env (letter_from 0 (about pre_prepare (some cmd))) backup
        >>= step env (letter_from 2 (about prepare none)))
      >>= step env (letter_from 0 (about commit none)))
    >>= step env (letter_from 2 (about commit none))

outputs : Outcome Pbft → List Command
outputs (ok p) = p.executed_cmds
outputs fault = []

run_executes : outputs run ≡ cmd ∷ []
unfolding program run outputs
run_executes = refl

-- The backup after the PrePrepare.
heard : Pbft
unfolding program
heard = or backup (step env (letter_from 0 (about pre_prepare (some cmd))) backup)

heard-step : step env (letter_from 0 (about pre_prepare (some cmd))) backup ≡ ok heard
unfolding program heard
heard-step = refl

Reach-AllCertified_example : AllCertified heard
unfolding program
Reach-AllCertified_example =
    Reach-AllCertified env 1 nodes 0 1 heard
      (next here (receives (letter_from 0 (about pre_prepare (some cmd))) heard-step))

send_all_lem_example :
    send_all
      (agreement (about commit none))
      false
      (cert_vector env (agreement (about commit none)) nodes)
      nodes
      backup
    ≡ ok (record backup {
      msgs =
          letter env (agreement (about commit none)) 1 0
          ∷ letter env (agreement (about commit none)) 1 2
          ∷ letter env (agreement (about commit none)) 1 3
          ∷ [];
    })
unfolding program
send_all_lem_example =
    send_all_lem env (agreement (about commit none)) false backup refl (omega arith) (omega arith)

abbrev traced : Command
traced = record cmd { trace_info = (1 ∷ [], 2 ∷ []) ∷ [] }

equal_iff_example : (equal cmd traced ≡ true) ↔ (Agree cmd traced × AllSet cmd.ops)
equal_iff_example = equal_iff cmd traced
