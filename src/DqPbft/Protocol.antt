-- ===== src/DqPbft/Protocol.antt =====
-- protocols/dqpbft/dqpbft.go and messaging.go: the methods of peer.Protocol, and the callbacks that send
-- what was broadcast.
use go_consensus.Base.{
  ℕ, zero, suc, ◌*◌, ◌%◌, List, [], ◌∷◌, ◌++◌, Bool, true, false, not, ◌||◌, none, some, ◌==◌,
  if◌then◌else◌, u64, get_elem?, Bytes, Outcome, ok, fault, ◌>>=◌,
}
use go_consensus.Command.{Command}
use go_consensus.Peer.Timer.{tick, reset}
use go_consensus.Peer.Interface.{Message}
use go_consensus.Pbft.Protocol.{slice}
use go_consensus.DqPbft.Messages.{
  InstanceId, Status, unset, pre_prepared, prepared, committed, executed, AgreementMessage,
  OAgreementMessage, AgreementType, pre_prepare, prepare, commit, other, DqPbftMessage, agreement,
  o_agreement,
}
use go_consensus.DqPbft.Replica.{
  SignJob, Signed, DqPbft, Env, is_primary_at_view, enqueue_for_sending, find_id,
}
use go_consensus.DqPbft.Ordering.{send_c_request, on_o_pre_prepare, on_o_prepare, on_o_commit}
use go_consensus.DqPbft.Agreement.{on_pre_prepare, on_prepare, on_commit, on_request}

unfoldable pub step_normal : Env → AgreementType → AgreementMessage → ℕ → DqPbft → Outcome DqPbft
unfolding on_pre_prepare on_prepare on_commit
step_normal env pre_prepare m from d = on_pre_prepare env m from d
step_normal env prepare m from d = on_prepare m from d
step_normal env commit m from d = on_commit m from d
step_normal env (other n) m from d = fault

unfoldable pub step_o_normal : Env → AgreementType → OAgreementMessage → ℕ → DqPbft → Outcome DqPbft
unfolding on_o_pre_prepare on_o_prepare on_o_commit
step_o_normal env pre_prepare m from d = on_o_pre_prepare env m from d
step_o_normal env prepare m from d = on_o_prepare m from d
step_o_normal env commit m from d = on_o_commit m from d
step_o_normal env (other n) m from d = fault

unfoldable pub dispatch : Env → DqPbftMessage → ℕ → DqPbft → Outcome DqPbft
unfolding step_normal step_o_normal
dispatch env (agreement m) from d = step_normal env m.type m from d
dispatch env (o_agreement m) from d = step_o_normal env m.type m from d

-- `Step`: a certificate that does not verify is a panic.
unfoldable pub step : Env → Message DqPbftMessage → DqPbft → Outcome DqPbft
unfolding dispatch
step env e d =
    if not (env.verify_certificate e.content e.certificate)
    then fault
    else dispatch env e.content e.sender d

unfoldable pub request : Env → Command → DqPbft → Outcome DqPbft
unfolding on_request
request env cmd d = on_request env cmd d

-- The timer of initTimers, which goes on when it has gone off.
unfoldable pub c_req_timeout : Env → Bool → DqPbft → Outcome DqPbft
unfolding reset is_primary_at_view send_c_request
c_req_timeout env false d = ok d
c_req_timeout env true d =
    let restarted = record d { c_req_timer = reset d.c_req_timer } in
    if is_primary_at_view d.id d.oview d then send_c_request env restarted else ok restarted

unfoldable pub tick_all : Env → DqPbft → Outcome DqPbft
unfolding tick c_req_timeout
tick_all env d =
    let (t, off) = tick d.c_req_timer in c_req_timeout env off (record d { c_req_timer = t })

-- What a worker computes for a broadcast: one certificate for each node, one after the other.
unfoldable pub cert_vector : Env → DqPbftMessage → List ℕ → Bytes
cert_vector env m [] = []
cert_vector env m (node ∷ peers) = env.create_certificate m ++ cert_vector env m peers

unfoldable pub remove_at : ℕ → List SignJob → List SignJob
remove_at n [] = []
remove_at zero (j ∷ jobs) = jobs
remove_at (suc n) (j ∷ jobs) = j ∷ remove_at n jobs

-- A worker takes the `n`-th job that waits, and its callback goes into the channel.
unfoldable pub work : Env → ℕ → DqPbft → DqPbft
unfolding cert_vector remove_at
work env n d = elim (get_elem? d.sign_jobs n) [
  | none ↦ d
  | some j ↦ record d {
    sign_jobs = remove_at n d.sign_jobs;
    callback_c = d.callback_c ++ record { job = j; cert = cert_vector env j.message d.peers } ∷ [];
  }
]

-- The callback for one node: the replica itself is left out unless it is to be sent to.
unfoldable pub send_one : DqPbftMessage → Bool → Bytes → ℕ → DqPbft → Outcome DqPbft
unfolding slice enqueue_for_sending
send_one m self cert node d =
    if self || not (node == d.id)
    then (slice cert ((node * 32) % u64) >>= λ c. ok (enqueue_for_sending node m c d))
    else ok d

unfoldable pub send_all : DqPbftMessage → Bool → Bytes → List ℕ → DqPbft → Outcome DqPbft
unfolding send_one
send_all m self cert [] d = ok d
send_all m self cert (node ∷ peers) d = send_one m self cert node d >>= send_all m self cert peers

unfoldable pub run_callbacks : List Signed → DqPbft → Outcome DqPbft
unfolding send_all
run_callbacks [] d = ok d
run_callbacks (s ∷ signed) d =
    send_all s.job.message s.job.send_to_self s.cert d.peers d >>= run_callbacks signed

unfoldable pub async_callback : DqPbft → Outcome DqPbft
unfolding run_callbacks
async_callback d = run_callbacks d.callback_c (record d { callback_c = [] })

pub record Ready : Type 0 where
  pub messages : List (Message DqPbftMessage)
  pub ordered_commands : List Command

unfoldable pub make_ready : DqPbft → Ready
make_ready d = record { messages = d.msgs; ordered_commands = d.to_deliver }

unfoldable pub clear_msgs : DqPbft → DqPbft
clear_msgs d = record d { msgs = [] }

unfoldable pub clear_executed_commands : DqPbft → DqPbft
clear_executed_commands d = record d { to_deliver = [] }

abbrev pub rank : Status → ℕ
rank unset = 0
rank pre_prepared = 1
rank prepared = 2
rank committed = 3
rank executed = 4

unfoldable pub has_status : InstanceId → Status → DqPbft → Bool
unfolding find_id
has_status id status d = elim (find_id id d.log) [
  | none ↦ false
  | some inst ↦ rank inst.is.status == rank status
]

unfoldable pub has_executed : InstanceId → DqPbft → Bool
unfolding has_status
has_executed id d = has_status id executed d
