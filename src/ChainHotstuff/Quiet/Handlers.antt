-- ===== src/ChainHotstuff/Quiet/Handlers.antt =====
-- protocols/chainhotstuff/block.go: updateHighQC, update, onVote and deliver are quiet.
use go_consensus.Base.{
  ℕ, zero, suc, ◌≡◌, refl, ◌⊎◌, inl, inr, List, [], ◌∷◌, ◌++◌, some, arith, ltb, leb, length,
  if◌then◌else◌, read, write, remove, Outcome, ok, fault, ◌>>=◌, Bool-cases, Option-cases,
}
use go_consensus.ChainHotstuff.Blocks.{QuorumCert, BlockState, VoteMessage, array}
use go_consensus.ChainHotstuff.Signer.{Env, CertError, create_quorum_cert}
use go_consensus.ChainHotstuff.Replica.{
  ChainHotstuff, parent_of, store_block, vote_job, execute, execute_if, execute_block, commit_from,
  commit,
}
use go_consensus.ChainHotstuff.Voting.{
  beat, update_high_qc, qc_ref, decide, lock, lock_and_decide, update, queue_block_vote,
  handle_vote, on_vote, on_votes, deliver_votes, deliver_proposal, deliver, finish,
  on_vote_continue, votes_at,
}
use go_consensus.ChainHotstuff.Quiet.{
  HighKnown, Quiet, same-Quiet, Quiet-trans, Quietly, ok-Quietly, bind-Quietly, fault-Quietly,
  if-Quietly, after-Quietly, store_block-Quiet, dispatch_job-Quiet, on_propose-Quietly,
  beat-Quietly,
}

pub same-Quietly : (hs : ChainHotstuff) → Quietly hs (ok hs)
same-Quietly hs = ok-Quietly hs hs (same-Quiet hs hs refl refl refl refl)

-- What follows a certificate that is made, or fails to be made.
certified : (QuorumCert → Outcome ChainHotstuff) → CertError ⊎ QuorumCert → Outcome ChainHotstuff
certified rest r = elim r [ inl e ↦ fault | inr qc ↦ rest qc ]

certified-Quietly :
    (p : ChainHotstuff) (m : Outcome (CertError ⊎ QuorumCert))
    (rest : QuorumCert → Outcome ChainHotstuff)
    → ((qc : QuorumCert) → Quietly p (rest qc))
    → Quietly p (m >>= certified rest)
unfolding certified
certified-Quietly p fault rest h q e = cc
certified-Quietly p (ok (inl err)) rest h q e = cc
certified-Quietly p (ok (inr qc)) rest h q e = h qc q e

pub update_high_qc-Quietly :
    (qc : QuorumCert) (hs : ChainHotstuff) → Quietly hs (update_high_qc qc hs)
unfolding update_high_qc
update_high_qc-Quietly qc hs q e = elim (Option-cases (read (array qc.block_hash) hs.blocks)) [
  | inl n ↦ same-Quietly hs q (rw (n, update_high_qc) at e)
  | inr (new, n) ↦ elim (Option-cases (read (array hs.high_qc.block_hash) hs.blocks)) [
    | inl o ↦ fault-Quietly hs q (rw (n, o, update_high_qc) at e)
    | inr (old, o) ↦
        let raised : Quiet hs (record hs { high_qc = qc; b_leaf = new }) = record {
          known = λ k. rw n;
          lock = omega arith;
          voted = refl;
        } in
        elim (Bool-cases (ltb old.height new.height)) [
          | inl l ↦ ok-Quietly hs _ raised q (rw (n, o, l, update_high_qc) at e)
          | inr l ↦ same-Quietly hs q (rw (n, o, l, update_high_qc) at e)
        ]
  ]
]

-- If the block of the highest certificate is stored, updateHighQC does not panic.
pub update_high_qc-ok :
    (qc : QuorumCert) (hs : ChainHotstuff)
    → HighKnown hs
    → (q : ChainHotstuff) × (update_high_qc qc hs ≡ ok q)
unfolding update_high_qc
update_high_qc-ok qc hs k = elim (Option-cases (read (array qc.block_hash) hs.blocks)) [
  | inl n ↦ (hs, rw (n, update_high_qc))
  | inr (new, n) ↦ elim (Option-cases (read (array hs.high_qc.block_hash) hs.blocks)) [
    | inl o ↦ cc (rw o at k)
    | inr (old, o) ↦ (
      if ltb old.height new.height then record hs { high_qc = qc; b_leaf = new } else hs,
      rw (n, o, update_high_qc),
    )
  ]
]

execute_block-Quiet : (blk : BlockState) (hs : ChainHotstuff) → Quiet hs (execute_block blk hs)
unfolding execute_block execute_if execute
execute_block-Quiet blk hs = elim (Option-cases blk.q_c) [
  | inl n ↦ rw (n, execute_if) (same-Quiet hs hs refl refl refl refl)
  | inr (qc, s) ↦ elim (Option-cases blk.command) [
    | inl n ↦ rw (s, n, execute_if) (same-Quiet hs hs refl refl refl refl)
    | inr (cmd, c) ↦ rw (s, c, execute_if) (same-Quiet hs _ refl refl refl refl)
  ]
]

commit_from-Quietly :
    (n : ℕ) (blk : BlockState) (hs : ChainHotstuff) → Quietly hs (commit_from n blk hs)
unfolding commit_from
commit_from-Quietly zero blk hs q e = elim (Bool-cases (ltb hs.b_exec.height blk.height)) [
  | inl l ↦ fault-Quietly hs q (rw (l, commit_from) at e)
  | inr l ↦ same-Quietly hs q (rw (l, commit_from) at e)
]
commit_from-Quietly (suc n) blk hs q e = elim (Bool-cases (ltb hs.b_exec.height blk.height)) [
  | inr l ↦ same-Quietly hs q (rw (l, commit_from) at e)
  | inl l ↦ elim (Option-cases (parent_of blk hs.blocks)) [
    | inl p ↦ ok-Quietly hs _ (execute_block-Quiet blk hs) q (rw (l, p, commit_from) at e)
    | inr (parent, p) ↦
        bind-Quietly hs (commit_from n parent hs) (λ hs'. ok (execute_block blk hs'))
          (commit_from-Quietly n parent hs) (λ hs'. ok-Quietly hs' _ (execute_block-Quiet blk hs'))
          q (rw (l, p, commit_from) at e)
  ]
]

decide-Quietly :
    (env : Env) (block1 block2 block3 : BlockState) (hs : ChainHotstuff)
    → Quietly hs (decide env block1 block2 block3 hs)
unfolding decide commit
decide-Quietly env block1 block2 block3 hs =
    if-Quietly hs _ _ _
      (bind-Quietly hs (commit block3 hs) _ (commit_from-Quietly (suc (length hs.blocks)) block3 hs)
        (λ hs'. ok-Quietly hs' _ (same-Quiet hs' _ refl refl refl refl)))
      (same-Quietly hs)

lock-Quiet : (block2 : BlockState) (hs : ChainHotstuff) → Quiet hs (lock block2 hs)
unfolding lock
lock-Quiet block2 hs = elim (Bool-cases (ltb hs.b_lock.height block2.height)) [
  | inl l ↦ rw (l, lock) (record { known = λ k. k; lock = ground arith; voted = refl })
  | inr l ↦ rw (l, lock) (same-Quiet hs hs refl refl refl refl)
]

lock_and_decide-Quietly :
    (env : Env) (block1 : BlockState) (hs : ChainHotstuff)
    → Quietly hs (lock_and_decide env block1 hs)
unfolding lock_and_decide
lock_and_decide-Quietly env block1 hs q e = elim (Option-cases (qc_ref block1.q_c hs)) [
  | inl n ↦ same-Quietly hs q (rw (n, lock_and_decide) at e)
  | inr (block2, s) ↦ elim (Option-cases (qc_ref block2.q_c (lock block2 hs))) [
    | inl n ↦ ok-Quietly hs _ (lock-Quiet block2 hs) q (rw (s, n, lock_and_decide) at e)
    | inr (block3, t) ↦
        after-Quietly hs (lock block2 hs) _ (lock-Quiet block2 hs)
          (decide-Quietly env block1 block2 block3 (lock block2 hs)) q
          (rw (s, t, lock_and_decide) at e)
  ]
]

update-Quietly :
    (env : Env) (blk : BlockState) (hs : ChainHotstuff) → Quietly hs (update env blk hs)
unfolding update
update-Quietly env blk hs q e = elim (Option-cases blk.q_c) [
  | inl n ↦ same-Quietly hs q (rw (n, update) at e)
  | inr (qc, s) ↦ elim (Option-cases (qc_ref (some qc) hs)) [
    | inl n ↦ same-Quietly hs q (rw (s, n, update) at e)
    | inr (block1, t) ↦
        bind-Quietly hs (update_high_qc qc hs) (lock_and_decide env block1)
          (update_high_qc-Quietly qc hs) (lock_and_decide-Quietly env block1) q
          (rw (s, t, update) at e)
  ]
]

handle_vote-Quiet : (m : VoteMessage) (hs : ChainHotstuff) → Quiet hs (handle_vote m hs)
unfolding handle_vote queue_block_vote
handle_vote-Quiet m hs = elim (Option-cases (read (array m.block_hash) hs.blocks)) [
  | inl n ↦ rw (n, handle_vote) (same-Quiet hs _ refl refl refl refl)
  | inr (blk, s) ↦ elim (Bool-cases (leb blk.height hs.b_leaf.height)) [
    | inl l ↦ rw (s, l, handle_vote) (same-Quiet hs hs refl refl refl refl)
    | inr l ↦ rw (s, l, handle_vote) (dispatch_job-Quiet (vote_job m blk) hs)
  ]
]

pub on_vote-Quietly : (m : VoteMessage) (hs : ChainHotstuff) → Quietly hs (on_vote m hs)
unfolding on_vote
on_vote-Quietly m hs q e = elim (Option-cases m.signature) [
  | inl n ↦ fault-Quietly hs q (rw (n, on_vote) at e)
  | inr (sg, s) ↦
      let handled = handle_vote m hs in
      ok-Quietly hs _
        (Quiet-trans (handle_vote-Quiet m hs) (same-Quiet handled _ refl refl refl refl)) q
        (rw (s, on_vote) at e)
]

on_votes-Quietly : (votes : List VoteMessage) (hs : ChainHotstuff) → Quietly hs (on_votes votes hs)
unfolding on_votes
on_votes-Quietly [] hs = same-Quietly hs
on_votes-Quietly (m ∷ votes) hs =
    bind-Quietly hs (on_vote m hs) (on_votes votes) (on_vote-Quietly m hs) (on_votes-Quietly votes)

deliver_votes-Quietly :
    (env : Env) (blk : BlockState) (hs : ChainHotstuff) → Quietly hs (deliver_votes env blk hs)
unfolding deliver_votes
deliver_votes-Quietly env blk hs q e = elim (Option-cases (read (env.hash blk) hs.pending_votes)) [
  | inl n ↦ same-Quietly hs q (rw (n, deliver_votes) at e)
  | inr (votes, s) ↦
      let taken = record hs { pending_votes = remove (env.hash blk) hs.pending_votes } in
      let stored = store_block env blk taken in
      after-Quietly hs stored _
        (Quiet-trans (same-Quiet hs taken refl refl refl refl) (store_block-Quiet env blk taken))
        (on_votes-Quietly votes stored) q (rw (s, deliver_votes) at e)
]

deliver_proposal-Quietly :
    (env : Env) (blk : BlockState) (hs : ChainHotstuff) → Quietly hs (deliver_proposal env blk hs)
unfolding deliver_proposal
deliver_proposal-Quietly env blk hs q e =
    elim (Option-cases (read (env.hash blk) hs.pending_proposals)) [
      | inl n ↦ same-Quietly hs q (rw (n, deliver_proposal) at e)
      | inr (next, s) ↦
          let taken = record hs {
            pending_proposals = remove (env.hash blk) hs.pending_proposals;
          } in
          after-Quietly hs taken _ (same-Quiet hs taken refl refl refl refl)
            (on_propose-Quietly next taken) q (rw (s, deliver_proposal) at e)
    ]

pub finish-Quietly :
    (env : Env) (blk : BlockState) (hs : ChainHotstuff) → Quietly hs (finish env blk hs)
unfolding finish deliver
finish-Quietly env blk hs =
    bind-Quietly hs (update env blk hs) (deliver env blk) (update-Quietly env blk hs) (λ p.
      bind-Quietly p (deliver_votes env blk p) (deliver_proposal env blk)
        (deliver_votes-Quietly env blk p) (deliver_proposal-Quietly env blk))

pub on_vote_continue-Quietly :
    (env : Env) (m : VoteMessage) (blk : BlockState) (hs : ChainHotstuff)
    → Quietly hs (on_vote_continue env m blk hs)
unfolding on_vote_continue certified
on_vote_continue-Quietly env m blk hs =
    let votes = votes_at (env.hash blk) hs.verified_votes ++ m ∷ [] in
    let counted = record hs { verified_votes = write (env.hash blk) votes hs.verified_votes } in
    let taken = record counted { verified_votes = remove (env.hash blk) counted.verified_votes } in
    if-Quietly hs _ _ _ (ok-Quietly hs counted (same-Quiet hs counted refl refl refl refl)) (
      certified-Quietly hs (create_quorum_cert env blk votes)
        (λ qc. update_high_qc qc taken >>= beat env)
        (λ qc. after-Quietly hs taken _ (same-Quiet hs taken refl refl refl refl) (
          bind-Quietly taken (update_high_qc qc taken) (beat env) (update_high_qc-Quietly qc taken)
            (beat-Quietly env))))
