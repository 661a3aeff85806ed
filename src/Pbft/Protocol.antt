-- ===== src/Pbft/Protocol.antt =====
-- protocols/pbft/pbft.go and messaging.go: the methods of peer.Protocol, and the callbacks that send
-- what was broadcast.
pub mod Reach
pub mod Delivery
use go_consensus.Base.{
  ℕ, zero, suc, ◌+◌, ◌*◌, ◌%◌, ◌≡◌, List, [], ◌∷◌, ◌++◌, Bool, true, false, not, ◌&&◌, ◌||◌, Option,
  none, some, ◌==◌, if◌then◌else◌, u64, ltb, leb, length, Bytes, Map, lookup, take, drop, get_elem?,
  Outcome, ok, fault, ◌>>=◌,
}
use go_consensus.Command.{Command}
use go_consensus.Pbft.Messages.{
  Status, rank, pre_prepared, committed, PbftMessage, agreement, view_change, view_change_ack,
  new_view,
}
use go_consensus.Pbft.Replica.{Instance, Envelope, SignJob, Signed, Pbft, Env, enqueue_for_sending}
use go_consensus.Pbft.Agreement.{step_agreement, on_request}
use go_consensus.Pbft.NewView.{on_view_change, on_view_change_ack, on_new_view}

unfoldable pub dispatch : Env → PbftMessage → ℕ → Pbft → Outcome Pbft
unfolding step_agreement on_view_change on_view_change_ack on_new_view
dispatch env (agreement m) from p = step_agreement env m from p
dispatch env (view_change m) from p = on_view_change env m from p
dispatch env (view_change_ack m) from p = on_view_change_ack m from p
dispatch env (new_view m) from p = on_new_view env m from p

-- `Step`: a certificate that does not verify is a panic.
unfoldable pub step : Env → Envelope → Pbft → Outcome Pbft
unfolding dispatch
step env e p =
    if not (env.verify_certificate e.content e.certificate)
    then fault
    else dispatch env e.content e.sender p

unfoldable pub request : Env → Command → Pbft → Outcome Pbft
unfolding on_request
request env cmd p = on_request env cmd p

-- What a worker computes for a broadcast: one certificate for each node, one after the other.
unfoldable pub cert_vector : Env → PbftMessage → List ℕ → Bytes
cert_vector env m [] = []
cert_vector env m (node ∷ nodes) = env.create_certificate m ++ cert_vector env m nodes

-- A worker takes the `n`-th job that waits, and its callback goes into the channel.
unfoldable pub remove_at : ℕ → List SignJob → List SignJob
remove_at n [] = []
remove_at zero (j ∷ jobs) = jobs
remove_at (suc n) (j ∷ jobs) = j ∷ remove_at n jobs

unfoldable pub work : Env → ℕ → Pbft → Pbft
unfolding cert_vector remove_at
work env n p = elim (get_elem? p.sign_jobs n) [
  | none ↦ p
  | some j ↦ record p {
    sign_jobs = remove_at n p.sign_jobs;
    callback_c = p.callback_c ++ record { job = j; cert = cert_vector env j.message p.nodes } ∷ [];
  }
]

-- `cert[idx:idx+32]`; out of range is a panic.
unfoldable pub slice : Bytes → ℕ → Outcome Bytes
slice cert idx = if leb (idx + 32) (length cert) then ok (take 32 (drop idx cert)) else fault

-- The callback for one node: the replica itself is left out unless it is to be sent to.
unfoldable pub send_one : PbftMessage → Bool → Bytes → ℕ → Pbft → Outcome Pbft
unfolding slice enqueue_for_sending
send_one m self cert node p =
    if self || not (node == p.id)
    then (slice cert ((node * 32) % u64) >>= λ c. ok (enqueue_for_sending node m c p))
    else ok p

-- The callback's loop over the nodes.
unfoldable pub send_all : PbftMessage → Bool → Bytes → List ℕ → Pbft → Outcome Pbft
unfolding send_one
send_all m self cert [] p = ok p
send_all m self cert (node ∷ nodes) p = send_one m self cert node p >>= send_all m self cert nodes

-- `AsyncCallback` runs the callbacks that wait in the channel.
unfoldable pub run_callbacks : List Signed → Pbft → Outcome Pbft
unfolding send_all
run_callbacks [] p = ok p
run_callbacks (s ∷ signed) p =
    send_all s.job.message s.job.send_to_self s.cert p.nodes p >>= run_callbacks signed

unfoldable pub async_callback : Pbft → Outcome Pbft
unfolding run_callbacks
async_callback p = run_callbacks p.callback_c (record p { callback_c = [] })

pub record Ready : Type 0 where
  pub messages : List Envelope
  pub ordered_commands : List Command

unfoldable pub make_ready : Pbft → Ready
make_ready p = record { messages = p.msgs; ordered_commands = p.executed_cmds }

unfoldable pub clear_msgs : Pbft → Pbft
clear_msgs p = record p { msgs = [] }

unfoldable pub clear_executed_commands : Pbft → Pbft
clear_executed_commands p = record p { executed_cmds = [] }

unfoldable pub has_status : ℕ → Status → Pbft → Bool
has_status index status p = elim (lookup index p.log) [
  | none ↦ false
  | some inst ↦ rank inst.is.status == rank status
]

unfoldable pub has_pre_prepared : ℕ → Pbft → Bool
unfolding has_status
has_pre_prepared index p = has_status index pre_prepared p

unfoldable pub has_executed : ℕ → Pbft → Bool
unfolding has_status
has_executed index p = has_status index committed p
