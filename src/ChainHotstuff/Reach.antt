-- ===== src/ChainHotstuff/Reach.antt =====
-- protocols/chainhotstuff/chainhotstuff.go: the states that a replica can reach.
use go_consensus.Base.{
  ℕ, ◌≤◌, ◌≡◌, refl, ap, inl, inr, List, [], ◌∷◌, Bool, true, false, none, some, is_some, ◌==◌,
  inc64, get_elem?, insert, read-write_self, ok, ok_of_bind, ok-injective, subst, Bool-cases,
  Option-cases,
}
use go_consensus.Command.{Command}
use go_consensus.ChainHotstuff.Blocks.{QuorumCert, array, genesis}
use go_consensus.ChainHotstuff.Signer.{Env, create_quorum_cert, collect_sigs}
use go_consensus.ChainHotstuff.Replica.{
  NewViewMessage, ChainHotstuffMessage, vote, new_view, Envelope, Job, proposal_job, vote_job,
  view_job, ChainHotstuff, dispatch_job, get_leader, store_block,
}
use go_consensus.ChainHotstuff.Voting.{propose, new_block, update_high_qc}
use go_consensus.ChainHotstuff.Protocol.{
  on_new_view, add_sender, count_new_view, on_new_view_continue, start_new_view, create_dummy,
  on_timeout, initial, new_chain_hotstuff, dispatch, step, request, verdict, work, call_back,
  run_callbacks, async_callback, clear_msgs, clear_executed_commands,
}
use go_consensus.ChainHotstuff.Quiet.{
  HighKnown, Quiet, same-Quiet, Quiet-trans, Quietly, ok-Quietly, fault-Quietly, bind-Quietly,
  if-Quietly, after-Quietly, store_block-Quiet, dispatch_job-Quiet, send_to-Quiet,
  on_propose-Quietly, propose-Quietly, beat-Quietly, on_request-Quietly,
}
use go_consensus.ChainHotstuff.Quiet.Handlers.{
  same-Quietly, update_high_qc-Quietly, update_high_qc-ok, on_vote-Quietly,
  on_vote_continue-Quietly,
}
use go_consensus.ChainHotstuff.Votes.{Rises, Quiet-Rises, Rises-trans, on_propose_continue-Rises}

-- What can happen to a replica: a message, a request, the timeout of the pacemaker, a worker that
-- finishes, the callbacks, and the peer taking the output.
pub data Move (env : Env) (p q : ChainHotstuff) : Type 0 where
  receives : (e : Envelope) → step e p ≡ ok q → Move env p q
  requested : (cmd : Command) → request env cmd p ≡ ok q → Move env p q
  timed_out : on_timeout env p ≡ q → Move env p q
  worked : (n : ℕ) → work env n p ≡ ok q → Move env p q
  called_back : async_callback env p ≡ ok q → Move env p q
  msgs_cleared : clear_msgs p ≡ q → Move env p q
  commands_cleared : clear_executed_commands p ≡ q → Move env p q

pub data Reach (env : Env) (p : ChainHotstuff) : ChainHotstuff → Type 0 where
  here : Reach env p p
  next : {q r : ChainHotstuff} → Reach env p q → Move env q r → Reach env p r

on_new_view-Quiet :
    (from : ℕ) (m : NewViewMessage) (hs : ChainHotstuff) → Quiet hs (on_new_view from m hs)
unfolding on_new_view
on_new_view-Quiet from m hs =
    Quiet-trans (dispatch_job-Quiet (view_job from m) hs)
      (same-Quiet (dispatch_job (view_job from m) hs) _ refl refl refl refl)

count_new_view-Quietly :
    (env : Env) (from : ℕ) (m : NewViewMessage) (hs : ChainHotstuff)
    → Quietly hs (count_new_view env from m hs)
unfolding count_new_view
count_new_view-Quietly env from m hs =
    let counted = record hs {
      new_views = insert m.height (add_sender m.height from hs.new_views) hs.new_views;
    } in
    let noted = same-Quiet hs counted refl refl refl refl in
    if-Quietly hs _ _ _ (ok-Quietly hs counted noted)
      (after-Quietly hs counted _ noted (beat-Quietly env counted))

on_new_view_continue-Quietly :
    (env : Env) (from : ℕ) (m : NewViewMessage) (good : Bool) (hs : ChainHotstuff)
    → Quietly hs (on_new_view_continue env from m good hs)
unfolding on_new_view_continue
on_new_view_continue-Quietly env from m false hs q e = count_new_view-Quietly env from m hs q e
on_new_view_continue-Quietly env from m true hs q e = elim (Option-cases m.q_c) [
  | inl n ↦ fault-Quietly hs q (rw (n, on_new_view_continue) at e)
  | inr (qc, s) ↦
      bind-Quietly hs (update_high_qc qc hs) (count_new_view env from m)
        (update_high_qc-Quietly qc hs) (count_new_view-Quietly env from m) q
        (rw (s, on_new_view_continue) at e)
]

start_new_view-Quiet : (env : Env) (hs : ChainHotstuff) → Quiet hs (start_new_view env hs)
unfolding start_new_view
start_new_view-Quiet env hs =
    let m : NewViewMessage = record {
      height = hs.b_leaf.height;
      q_c = some hs.high_qc;
      hash512 = env.hash hs.b_leaf;
    } in
    let leader = get_leader (inc64 hs.b_leaf.height) hs in
    elim (Bool-cases (leader == hs.id)) [
      | inl y ↦ rw (y, start_new_view) (on_new_view-Quiet hs.id m hs)
      | inr n ↦ rw (n, start_new_view) (send_to-Quiet leader (new_view m) hs)
    ]

create_dummy-Quiet : (env : Env) (hs : ChainHotstuff) → Quiet hs (create_dummy env hs)
unfolding create_dummy
create_dummy-Quiet env hs =
    let dummy = new_block (env.hash hs.b_leaf) none none (inc64 hs.b_leaf.height) hs.id in
    Quiet-trans (store_block-Quiet env dummy hs)
      (same-Quiet (store_block env dummy hs) _ refl refl refl refl)

on_timeout-Quiet : (env : Env) (hs : ChainHotstuff) → Quiet hs (on_timeout env hs)
unfolding on_timeout
on_timeout-Quiet env hs =
    let changed = start_new_view env (create_dummy env hs) in
    Quiet-trans (create_dummy-Quiet env hs) (
      Quiet-trans (start_new_view-Quiet env (create_dummy env hs))
        (same-Quiet changed _ refl refl refl refl))

dispatch-Quietly :
    (m : ChainHotstuffMessage) (from : ℕ) (hs : ChainHotstuff) → Quietly hs (dispatch m from hs)
unfolding dispatch
dispatch-Quietly (ChainHotstuffMessage.propose blk) from hs = on_propose-Quietly blk hs
dispatch-Quietly (vote m) from hs = on_vote-Quietly m hs
dispatch-Quietly (new_view m) from hs = ok-Quietly hs _ (on_new_view-Quiet from m hs)

work-Quietly : (env : Env) (n : ℕ) (hs : ChainHotstuff) → Quietly hs (work env n hs)
unfolding work
work-Quietly env n hs q e = elim (Option-cases (get_elem? hs.jobs n)) [
  | inl a ↦ same-Quietly hs q (rw (a, work) at e)
  | inr (j, a) ↦
      let (good, l, r) = ok_of_bind (verdict env hs.quorum_size j) _ (rw (a, work) at e) in
      ok-Quietly hs _ (same-Quiet hs _ refl refl refl refl) q r
]

call_back-Rises :
    (env : Env) (j : Job) (good : Bool) (hs q : ChainHotstuff)
    → call_back env j good hs ≡ ok q
    → Rises hs q
unfolding call_back
call_back-Rises env (proposal_job blk) false hs q e = cc
call_back-Rises env (proposal_job blk) true hs q e = on_propose_continue-Rises env blk hs q e
call_back-Rises env (vote_job m blk) false hs q e = cc
call_back-Rises env (vote_job m blk) true hs q e =
    Quiet-Rises (on_vote_continue-Quietly env m blk hs q e)
call_back-Rises env (view_job from m) good hs q e =
    Quiet-Rises (on_new_view_continue-Quietly env from m good hs q e)

run_callbacks-Rises :
    (env : Env) (done : List (Job × Bool)) (hs q : ChainHotstuff)
    → run_callbacks env done hs ≡ ok q
    → Rises hs q
unfolding run_callbacks
run_callbacks-Rises env [] hs q e =
    subst (Rises hs) (ok-injective e) (Quiet-Rises (same-Quiet hs hs refl refl refl refl))
run_callbacks-Rises env ((j, good) ∷ done) hs q e =
    let (mid, l, r) = ok_of_bind (call_back env j good hs) (run_callbacks env done) e in
    Rises-trans (call_back-Rises env j good hs mid l) (run_callbacks-Rises env done mid q r)

Move-Rises : {env : Env} {p q : ChainHotstuff} → Move env p q → Rises p q
unfolding step request async_callback clear_msgs clear_executed_commands
Move-Rises {env} {p} {q} (receives e h) = Quiet-Rises (dispatch-Quietly e.content e.sender p q h)
Move-Rises {env} {p} {q} (requested cmd h) = Quiet-Rises (on_request-Quietly env cmd p q h)
Move-Rises {env} {p} {q} (timed_out h) = subst (Rises p) h (Quiet-Rises (on_timeout-Quiet env p))
Move-Rises {env} {p} {q} (worked n h) = Quiet-Rises (work-Quietly env n p q h)
Move-Rises {env} {p} {q} (called_back h) =
    let taken = record p { callback_c = [] } in
    Rises-trans (Quiet-Rises (same-Quiet p taken refl refl refl refl))
      (run_callbacks-Rises env p.callback_c taken q h)
Move-Rises {env} {p} {q} (msgs_cleared h) =
    subst (Rises p) h (Quiet-Rises (same-Quiet p _ refl refl refl refl))
Move-Rises {env} {p} {q} (commands_cleared h) =
    subst (Rises p) h (Quiet-Rises (same-Quiet p _ refl refl refl refl))

Reach-Rises : {env : Env} {p q : ChainHotstuff} → Reach env p q → Rises p q
Reach-Rises {env} {p} here = Quiet-Rises (same-Quiet p p refl refl refl refl)
Reach-Rises (next r m) = Rises-trans (Reach-Rises r) (Move-Rises m)

new_chain_hotstuff-HighKnown :
    (env : Env) (id : ℕ) (peers : List ℕ) (f : ℕ) (hs : ChainHotstuff)
    → array (env.hash genesis) ≡ env.hash genesis
    → new_chain_hotstuff env id peers f ≡ ok hs
    → HighKnown hs
unfolding new_chain_hotstuff create_quorum_cert collect_sigs
new_chain_hotstuff-HighKnown env id peers f hs a e =
    let qc : QuorumCert = record { sigs = []; block_hash = env.hash genesis } in
    let started = initial env id peers f qc in
    let known : HighKnown started =
      unfold initial in rw a (ap is_some (read-write_self (env.hash genesis) genesis [])) in
    (if-Quietly started (id == get_leader (inc64 started.b_leaf.height) started)
        (propose env started) (ok started) (propose-Quietly env started) (same-Quietly started) hs
        e).known
      known

-- In every state that a new replica can reach, by any messages, requests, timeouts, workers and
-- callbacks, the block of the highest certificate is stored, so that updateHighQC returns for any
-- certificate; and the height of the lock is not below that of any state on the way. A hash fills its
-- array.
pub Reach-HighKnown :
    (env : Env) (id : ℕ) (peers : List ℕ) (f : ℕ) (p q r : ChainHotstuff)
    → array (env.hash genesis) ≡ env.hash genesis
    → new_chain_hotstuff env id peers f ≡ ok p
    → Reach env p q
    → Reach env q r
    → HighKnown r
      × ((qc : QuorumCert) → (next : ChainHotstuff) × (update_high_qc qc r ≡ ok next))
      × (q.b_lock.height ≤ r.b_lock.height)
Reach-HighKnown env id peers f p q r a e s t =
    let after = Reach-Rises t in
    let known =
      after.known ((Reach-Rises s).known (new_chain_hotstuff-HighKnown env id peers f p a e)) in
    (known, λ qc. update_high_qc-ok qc r known, after.lock)
