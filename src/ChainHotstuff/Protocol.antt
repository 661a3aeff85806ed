-- ===== src/ChainHotstuff/Protocol.antt =====
-- protocols/chainhotstuff/chainhotstuff.go, newview.go and pacemaker.go: changing the view, the methods
-- of peer.Protocol, and the workers with their callbacks.
use go_consensus.Base.{
  ℕ, zero, suc, ◌+◌, ◌*◌, List, [], ◌∷◌, ◌++◌, Bool, true, false, none, some, ltb, ◌==◌,
  if◌then◌else◌, inc64, length, get_elem?, mem, any, write, Map, lookup, insert, Outcome, ok, fault,
  ◌>>=◌, inl, inr,
}
use go_consensus.Command.{Command, equal}
use go_consensus.Peer.Timer.{make_ticking_timer, reset}
use go_consensus.ChainHotstuff.Blocks.{QuorumCert, genesis}
use go_consensus.ChainHotstuff.Signer.{Env, create_quorum_cert, verify_quorum_cert}
use go_consensus.ChainHotstuff.Replica.{
  NewViewMessage, ChainHotstuffMessage, vote, new_view, Envelope, Job, proposal_job, vote_job,
  view_job, ChainHotstuff, send_to, dispatch_job, get_leader, store_block,
}
use go_consensus.ChainHotstuff.Voting.{
  new_block, on_propose, propose, beat, on_request, update_high_qc, on_vote, on_vote_continue,
  on_propose_continue,
}

-- The deferred part of onNewView: the views below the leaf are dropped.
unfoldable pub prune_views : ℕ → Map (List ℕ) → Map (List ℕ)
prune_views height [] = []
prune_views height ((v, senders) ∷ entries) =
    let rest = prune_views height entries in if ltb v height then rest else (v, senders) ∷ rest

unfoldable pub on_new_view : ℕ → NewViewMessage → ChainHotstuff → ChainHotstuff
unfolding dispatch_job prune_views
on_new_view from m hs =
    let hs' = dispatch_job (view_job from m) hs in
    record hs' { new_views = prune_views hs'.b_leaf.height hs'.new_views }

-- The senders of NewViews for a height, one more.
unfoldable pub add_sender : ℕ → ℕ → Map (List ℕ) → List ℕ
add_sender height from views = elim (lookup height views) [
  | none ↦ from ∷ []
  | some senders ↦ if mem from senders then senders else senders ++ from ∷ []
]

-- The part of the callback of onNewView that follows the certificate.
unfoldable pub count_new_view : Env → ℕ → NewViewMessage → ChainHotstuff → Outcome ChainHotstuff
unfolding add_sender beat
count_new_view env from m hs =
    let senders = add_sender m.height from hs.new_views in
    let counted = record hs { new_views = insert m.height senders hs.new_views } in
    if ltb (length senders) hs.quorum_size then ok counted else beat env counted

-- The callback of onNewView: a certificate that does not verify is only logged.
unfoldable pub on_new_view_continue :
    Env → ℕ → NewViewMessage → Bool → ChainHotstuff → Outcome ChainHotstuff
unfolding update_high_qc count_new_view
on_new_view_continue env from m false hs = count_new_view env from m hs
on_new_view_continue env from m true hs = elim m.q_c [
  | none ↦ fault
  | some qc ↦ update_high_qc qc hs >>= count_new_view env from m
]

unfoldable pub start_new_view : Env → ChainHotstuff → ChainHotstuff
unfolding get_leader on_new_view send_to
start_new_view env hs =
    let m : NewViewMessage = record {
      height = hs.b_leaf.height;
      q_c = some hs.high_qc;
      hash512 = env.hash hs.b_leaf;
    } in
    let leader = get_leader (inc64 hs.b_leaf.height) hs in
    if leader == hs.id then on_new_view hs.id m hs else send_to leader (new_view m) hs

unfoldable pub create_dummy : Env → ChainHotstuff → ChainHotstuff
unfolding new_block store_block
create_dummy env hs =
    let dummy = new_block (env.hash hs.b_leaf) none none (inc64 hs.b_leaf.height) hs.id in
    record (store_block env dummy hs) { b_leaf = dummy }

-- `onTimeout` of the pacemaker.
unfoldable pub on_timeout : Env → ChainHotstuff → ChainHotstuff
unfolding create_dummy start_new_view reset
on_timeout env hs =
    let hs' = start_new_view env (create_dummy env hs) in
    record hs' { pacemaker = record hs'.pacemaker { timer = reset hs'.pacemaker.timer } }

-- paceMakerTimeout.
abbrev pub pace_maker_timeout : ℕ
pace_maker_timeout = 18000

-- The state that NewChainHotstuff builds, with the certificate of the genesis block.
unfoldable pub initial : Env → ℕ → List ℕ → ℕ → QuorumCert → ChainHotstuff
unfolding genesis make_ticking_timer
initial env id peers max_failures qc = record {
  id = id;
  peers = peers;
  msgs = [];
  committed_cmds = [];
  f = max_failures;
  cmd_queue = [];
  pacemaker = record { last_beat = 0; timer = make_ticking_timer pace_maker_timeout };
  quorum_size = 2 * max_failures + 1;
  blocks = write (env.hash genesis) genesis [];
  last_vote = 0;
  b_lock = genesis;
  b_exec = genesis;
  b_leaf = genesis;
  high_qc = qc;
  verified_votes = [];
  pending_votes = [];
  pending_proposals = [];
  new_views = [];
  jobs = [];
  callback_c = [];
}

-- `NewChainHotstuff`: the leader of height 1 proposes at once.
unfoldable pub new_chain_hotstuff : Env → ℕ → List ℕ → ℕ → Outcome ChainHotstuff
unfolding create_quorum_cert initial propose get_leader
new_chain_hotstuff env id peers max_failures = create_quorum_cert env genesis [] >>= λ r. elim r [
  | inl e ↦ fault
  | inr qc ↦
      let hs = initial env id peers max_failures qc in
      if id == get_leader (inc64 hs.b_leaf.height) hs then propose env hs else ok hs
]

unfoldable pub dispatch : ChainHotstuffMessage → ℕ → ChainHotstuff → Outcome ChainHotstuff
unfolding on_propose on_vote on_new_view
dispatch (ChainHotstuffMessage.propose blk) from hs = on_propose blk hs
dispatch (vote m) from hs = on_vote m hs
dispatch (new_view m) from hs = ok (on_new_view from m hs)

unfoldable pub step : Envelope → ChainHotstuff → Outcome ChainHotstuff
unfolding dispatch
step e hs = dispatch e.content e.sender hs

unfoldable pub request : Env → Command → ChainHotstuff → Outcome ChainHotstuff
unfolding on_request
request env cmd hs = on_request env cmd hs

-- What a worker computes for a job.
unfoldable pub verdict : Env → ℕ → Job → Outcome Bool
unfolding verify_quorum_cert
verdict env quorum_size (proposal_job blk) = verify_quorum_cert env quorum_size blk.q_c
verdict env quorum_size (view_job from m) = verify_quorum_cert env quorum_size m.q_c
verdict env quorum_size (vote_job m blk) = elim m.signature [
  | none ↦ fault
  | some sg ↦ ok (env.verify (env.hash blk) sg.sig)
]

unfoldable pub remove_job : ℕ → List Job → List Job
remove_job n [] = []
remove_job zero (j ∷ jobs) = jobs
remove_job (suc n) (j ∷ jobs) = j ∷ remove_job n jobs

-- A worker takes the `n`-th job that waits, and its callback goes into the channel.
unfoldable pub work : Env → ℕ → ChainHotstuff → Outcome ChainHotstuff
unfolding verdict remove_job
work env n hs = elim (get_elem? hs.jobs n) [
  | none ↦ ok hs
  | some j ↦ verdict env hs.quorum_size j >>= λ good.
      ok (record hs { jobs = remove_job n hs.jobs; callback_c = hs.callback_c ++ (j, good) ∷ [] })
]

-- The callback of a job. A proposal or a vote that does not verify is fatal.
unfoldable pub call_back : Env → Job → Bool → ChainHotstuff → Outcome ChainHotstuff
unfolding on_propose_continue on_vote_continue on_new_view_continue
call_back env (proposal_job blk) false hs = fault
call_back env (proposal_job blk) true hs = on_propose_continue env blk hs
call_back env (vote_job m blk) false hs = fault
call_back env (vote_job m blk) true hs = on_vote_continue env m blk hs
call_back env (view_job from m) good hs = on_new_view_continue env from m good hs

unfoldable pub run_callbacks : Env → List (Job × Bool) → ChainHotstuff → Outcome ChainHotstuff
unfolding call_back
run_callbacks env [] hs = ok hs
run_callbacks env ((j, good) ∷ done) hs = call_back env j good hs >>= run_callbacks env done

-- `AsyncCallback`: the callbacks that wait, in order. What they dispatch waits for a worker.
unfoldable pub async_callback : Env → ChainHotstuff → Outcome ChainHotstuff
unfolding run_callbacks
async_callback env hs = run_callbacks env hs.callback_c (record hs { callback_c = [] })

pub record Ready : Type 0 where
  pub messages : List Envelope
  pub ordered_commands : List Command

unfoldable pub make_ready : ChainHotstuff → Ready
make_ready hs = record { messages = hs.msgs; ordered_commands = hs.committed_cmds }

unfoldable pub clear_msgs : ChainHotstuff → ChainHotstuff
clear_msgs hs = record hs { msgs = [] }

unfoldable pub clear_executed_commands : ChainHotstuff → ChainHotstuff
clear_executed_commands hs = record hs { committed_cmds = [] }

unfoldable pub has_executed : Command → ChainHotstuff → Bool
has_executed cmd hs = any (λ c. equal c cmd) hs.committed_cmds
