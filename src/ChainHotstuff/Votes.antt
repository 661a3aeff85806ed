-- ===== src/ChainHotstuff/Votes.antt =====
-- protocols/chainhotstuff/block.go: onProposeContinue, which gives the votes.
use go_consensus.Base.{
  ◌≤◌, ◌≡◌, refl, inl, inr, true, some, arith, inc64, Bytes, ok, ok_of_bind, ok-injective, subst,
  Bool-cases, Option-cases,
}
use go_consensus.Peer.Timer.{reset}
use go_consensus.ChainHotstuff.Blocks.{QuorumCert, BlockState, VoteMessage}
use go_consensus.ChainHotstuff.Signer.{Env}
use go_consensus.ChainHotstuff.Replica.{
  ChainHotstuffMessage, ChainHotstuff, store_block, send_to, get_leader,
}
use go_consensus.ChainHotstuff.Voting.{
  on_vote, is_safe, queue_block_propose, finish, vote_for, accept_propose, on_propose_continue,
}
use go_consensus.ChainHotstuff.Quiet.{
  HighKnown, Quiet, same-Quiet, Quietly, bind-Quietly, if-Quietly, after-Quietly, store_block-Quiet,
  send_to-Quiet,
}
use go_consensus.ChainHotstuff.Quiet.Handlers.{finish-Quietly, on_vote-Quietly}

-- The highest certificate stays known and the lock does not go down.
pub record Rises (p q : ChainHotstuff) : Type 0 where
  pub known : HighKnown p → HighKnown q
  pub lock : p.b_lock.height ≤ q.b_lock.height

pub Quiet-Rises : {p q : ChainHotstuff} → Quiet p q → Rises p q
Quiet-Rises a = record { known = a.known; lock = a.lock }

pub Rises-trans : {p q r : ChainHotstuff} → Rises p q → Rises q r → Rises p r
Rises-trans a b = record { known = λ h. b.known (a.known h); lock = omega (arith, a.lock, b.lock) }

vote_for-Quietly :
    (env : Env) (blk : BlockState) (sig : Bytes) (hs : ChainHotstuff)
    → Quietly hs (vote_for env blk sig hs)
unfolding vote_for
vote_for-Quietly env blk sig hs =
    let m : VoteMessage = record {
      block_hash = env.hash blk;
      signature = some (record { sig = sig; signer = hs.id });
    } in
    let leader = get_leader (inc64 hs.last_vote) hs in
    let sent = send_to leader (ChainHotstuffMessage.vote m) hs in
    if-Quietly hs _ _ _
      (bind-Quietly hs (finish env blk hs) (on_vote m) (finish-Quietly env blk hs)
        (on_vote-Quietly m))
      (after-Quietly hs sent _ (send_to-Quiet leader (ChainHotstuffMessage.vote m) hs)
        (finish-Quietly env blk sent))

-- The state in which the vote for a block is made.
voting : Env → BlockState → ChainHotstuff → ChainHotstuff
voting env blk hs =
    let started = record hs {
      pacemaker = record hs.pacemaker { timer = reset hs.pacemaker.timer };
    } in
    record (store_block env blk started) { last_vote = blk.height }

voting-Rises : (env : Env) (blk : BlockState) (hs : ChainHotstuff) → Rises hs (voting env blk hs)
unfolding voting store_block
voting-Rises env blk hs =
    let stored = Quiet-Rises (store_block-Quiet env blk hs) in
    record { known = stored.known; lock = omega arith }

accept_propose-Rises :
    (env : Env) (blk : BlockState) (hs q : ChainHotstuff)
    → accept_propose env blk hs ≡ ok q
    → Rises hs q
unfolding accept_propose voting
accept_propose-Rises env blk hs q e = elim (Option-cases (env.sign (env.hash blk))) [
  | inl n ↦
      subst (Rises hs) (ok-injective (rw (n, accept_propose) at e))
        (Quiet-Rises (same-Quiet hs _ refl refl refl refl))
  | inr (sig, s) ↦ Rises-trans (voting-Rises env blk hs) (
      Quiet-Rises
        (vote_for-Quietly env blk sig (voting env blk hs) q (rw (s, accept_propose) at e)))
]

pub on_propose_continue-Rises :
    (env : Env) (blk : BlockState) (hs q : ChainHotstuff)
    → on_propose_continue env blk hs ≡ ok q
    → Rises hs q
unfolding on_propose_continue queue_block_propose
on_propose_continue-Rises env blk hs q e = elim (Option-cases blk.q_c) [
  | inl n ↦ cc (rw (n, on_propose_continue) at e)
  | inr (qc, s) ↦
      let (safe, l, r) = ok_of_bind (is_safe env blk qc hs) _ (rw (s, on_propose_continue) at e) in
      elim (Bool-cases safe) [
        | inl y ↦ accept_propose-Rises env blk hs q (rw y at r)
        | inr n ↦
            subst (Rises hs) (ok-injective (rw n at r))
              (Quiet-Rises (same-Quiet hs _ refl refl refl refl))
      ]
]

-- A safe block that can be signed becomes the last vote, whatever block got the last vote before: with
-- a block that is lower, the height of the last vote goes down.
pub on_propose_continue_voted :
    (env : Env) (blk : BlockState) (qc : QuorumCert) (sig : Bytes) (hs q : ChainHotstuff)
    → blk.q_c ≡ some qc
    → is_safe env blk qc hs ≡ ok true
    → env.sign (env.hash blk) ≡ some sig
    → on_propose_continue env blk hs ≡ ok q
    → q.last_vote ≡ blk.height
unfolding on_propose_continue accept_propose voting
on_propose_continue_voted env blk qc sig hs q c s g e =
    (vote_for-Quietly env blk sig (voting env blk hs) q
      (rw (c, s, g, on_propose_continue, accept_propose) at e)).voted
