-- ===== src/ChainHotstuff/Quiet.antt =====
-- protocols/chainhotstuff/block.go and pacemaker.go: what the handlers keep of the certificates, the
-- lock and the last vote.
pub mod Handlers
use go_consensus.Base.{
  ℕ, ◌≤◌, ◌≡◌, refl, ap, ◌∙◌, inl, inr, List, [], ◌∷◌, ◌++◌, Bool, true, false, not, ◌||◌, some,
  is_some, arith, ◌==◌, if◌then◌else◌, inc64, read, read-write, Outcome, ok, fault, ◌>>=◌,
  ok_of_bind, ok-injective, subst, Bool-cases,
}
use go_consensus.Command.{Command}
use go_consensus.ChainHotstuff.Blocks.{BlockState, array}
use go_consensus.ChainHotstuff.Signer.{Env}
use go_consensus.ChainHotstuff.Replica.{
  ChainHotstuffMessage, Job, proposal_job, ChainHotstuff, enqueue_for_sending, send_to, send_each,
  broadcast, dispatch_job, store_block,
}
use go_consensus.ChainHotstuff.Voting.{
  new_block, on_propose, next_command, propose, beat, on_request,
}

-- The block of the highest certificate is stored.
abbrev pub HighKnown : ChainHotstuff → Type 0
HighKnown hs = is_some (read (array hs.high_qc.block_hash) hs.blocks) ≡ true

-- From `p` to `q` the highest certificate stays known, the lock does not go down, and no vote is given.
pub record Quiet (p q : ChainHotstuff) : Type 0 where
  pub known : HighKnown p → HighKnown q
  pub lock : p.b_lock.height ≤ q.b_lock.height
  pub voted : q.last_vote ≡ p.last_vote

pub same-Quiet :
    (p q : ChainHotstuff)
    → q.high_qc ≡ p.high_qc
    → q.blocks ≡ p.blocks
    → q.b_lock ≡ p.b_lock
    → q.last_vote ≡ p.last_vote
    → Quiet p q
same-Quiet p q h b l v = record {
  known = λ k. rw (h, b) k;
  lock = omega (arith, ap (λ x. x.height) l);
  voted = v;
}

pub Quiet-trans : {p q r : ChainHotstuff} → Quiet p q → Quiet q r → Quiet p r
Quiet-trans a b = record {
  known = λ h. b.known (a.known h);
  lock = omega (arith, a.lock, b.lock);
  voted = b.voted ∙ a.voted;
}

-- What a handler returns is quiet.
abbrev pub Quietly : ChainHotstuff → Outcome ChainHotstuff → Type 0
Quietly p m = (q : ChainHotstuff) → m ≡ ok q → Quiet p q

pub ok-Quietly : (p r : ChainHotstuff) → Quiet p r → Quietly p (ok r)
ok-Quietly p r a q e = subst (Quiet p) (ok-injective e) a

pub bind-Quietly :
    (p : ChainHotstuff) (m : Outcome ChainHotstuff) (rest : ChainHotstuff → Outcome ChainHotstuff)
    → Quietly p m
    → ((q : ChainHotstuff) → Quietly q (rest q))
    → Quietly p (m >>= rest)
bind-Quietly p m rest a b q e =
    let (mid, l, r) = ok_of_bind m rest e in Quiet-trans (a mid l) (b mid q r)

pub fault-Quietly : (p : ChainHotstuff) → Quietly p fault
fault-Quietly p q e = cc

pub if-Quietly :
    (p : ChainHotstuff) (b : Bool) (m n : Outcome ChainHotstuff)
    → Quietly p m
    → Quietly p n
    → Quietly p (if b then m else n)
if-Quietly p true m n a b = a
if-Quietly p false m n a b = b

-- After a quiet change.
pub after-Quietly :
    (p q : ChainHotstuff) (m : Outcome ChainHotstuff) → Quiet p q → Quietly q m → Quietly p m
after-Quietly p q m a b r e = Quiet-trans a (b r e)

pub store_block-Quiet :
    (env : Env) (blk : BlockState) (hs : ChainHotstuff) → Quiet hs (store_block env blk hs)
unfolding store_block
store_block-Quiet env blk hs = record {
  known =
      λ h. ground (arith, read-write (env.hash blk) (array hs.high_qc.block_hash) blk hs.blocks);
  lock = omega arith;
  voted = refl;
}

enqueue-Quiet :
    (to : ℕ) (m : ChainHotstuffMessage) (hs : ChainHotstuff)
    → Quiet hs (enqueue_for_sending to m hs)
unfolding enqueue_for_sending
enqueue-Quiet to m hs = same-Quiet hs _ refl refl refl refl

pub send_to-Quiet :
    (to : ℕ) (m : ChainHotstuffMessage) (hs : ChainHotstuff) → Quiet hs (send_to to m hs)
unfolding send_to
send_to-Quiet to m hs = enqueue-Quiet to m hs

send_each-Quiet :
    (m : ChainHotstuffMessage) (self : Bool) (peers : List ℕ) (hs : ChainHotstuff)
    → Quiet hs (send_each m self peers hs)
unfolding send_each
send_each-Quiet m self [] hs = same-Quiet hs hs refl refl refl refl
send_each-Quiet m self (peer ∷ peers) hs = elim (Bool-cases (self || not (peer == hs.id))) [
  | inl y ↦
      rw (y, send_each)
        (Quiet-trans (enqueue-Quiet peer m hs)
          (send_each-Quiet m self peers (enqueue_for_sending peer m hs)))
  | inr n ↦ rw (n, send_each) (send_each-Quiet m self peers hs)
]

broadcast-Quiet :
    (m : ChainHotstuffMessage) (self : Bool) (hs : ChainHotstuff) → Quiet hs (broadcast m self hs)
unfolding broadcast
broadcast-Quiet m self hs = send_each-Quiet m self hs.peers hs

pub dispatch_job-Quiet : (j : Job) (hs : ChainHotstuff) → Quiet hs (dispatch_job j hs)
unfolding dispatch_job
dispatch_job-Quiet j hs = same-Quiet hs _ refl refl refl refl

pub on_propose-Quietly : (blk : BlockState) (hs : ChainHotstuff) → Quietly hs (on_propose blk hs)
unfolding on_propose
on_propose-Quietly blk hs = if-Quietly hs _ _ _ (fault-Quietly hs) (
    if-Quietly hs _ _ _ (ok-Quietly hs hs (same-Quiet hs hs refl refl refl refl))
      (ok-Quietly hs _ (dispatch_job-Quiet (proposal_job blk) hs)))

pub propose-Quietly : (env : Env) (hs : ChainHotstuff) → Quietly hs (propose env hs)
unfolding propose
propose-Quietly env hs =
    let queue = (next_command hs.cmd_queue).1 in
    let blk =
      new_block (env.hash hs.b_leaf) (next_command hs.cmd_queue).0 (some hs.high_qc)
        (inc64 hs.b_leaf.height) hs.id in
    let started = record hs { cmd_queue = queue } in
    let stored = store_block env blk started in
    after-Quietly hs (broadcast (ChainHotstuffMessage.propose blk) false stored) _
      (Quiet-trans (same-Quiet hs started refl refl refl refl) (
        Quiet-trans (store_block-Quiet env blk started)
          (broadcast-Quiet (ChainHotstuffMessage.propose blk) false stored)))
      (on_propose-Quietly blk (broadcast (ChainHotstuffMessage.propose blk) false stored))

pub beat-Quietly : (env : Env) (hs : ChainHotstuff) → Quietly hs (beat env hs)
unfolding beat
beat-Quietly env hs =
    let same = ok-Quietly hs hs (same-Quiet hs hs refl refl refl refl) in
    let started = record hs { pacemaker = record hs.pacemaker { last_beat = hs.b_leaf.height } } in
    if-Quietly hs _ _ _ same (
      if-Quietly hs _ _ _ same (
        after-Quietly hs started _ (same-Quiet hs started refl refl refl refl)
          (propose-Quietly env started)))

pub on_request-Quietly :
    (env : Env) (cmd : Command) (hs : ChainHotstuff) → Quietly hs (on_request env cmd hs)
unfolding on_request
on_request-Quietly env cmd hs =
    let queued = record hs { cmd_queue = hs.cmd_queue ++ cmd ∷ [] } in
    after-Quietly hs queued _ (same-Quiet hs queued refl refl refl refl) (beat-Quietly env queued)
