-- ===== src/ChainHotstuff/Voting.antt =====
-- protocols/chainhotstuff/block.go, pacemaker.go and request.go: proposing, voting, and what a
-- certificate changes.
use go_consensus.Base.{
  ℕ, ◌+◌, ◌*◌, List, [], ◌∷◌, ◌++◌, Bool, true, false, not, ◌&&◌, Option, none, some, ltb, leb,
  ◌==◌, if◌then◌else◌, inc64, length, Bytes, eq_bytes, ByteMap, read, write, remove, Outcome, ok,
  fault, ◌>>=◌, inl, inr,
}
use go_consensus.Command.{Command}
use go_consensus.Peer.Timer.{reset}
use go_consensus.ChainHotstuff.Blocks.{QuorumCert, BlockState, VoteMessage, array}
use go_consensus.ChainHotstuff.Signer.{Env, create_quorum_cert}
use go_consensus.ChainHotstuff.Replica.{
  proposal_job, vote_job, ChainHotstuff, send_to, broadcast, dispatch_job, get_leader, store_block,
  extends_lock, commit,
}
use go_consensus.ChainHotstuff.Replica.ChainHotstuffMessage.{propose as propose_message, vote}

-- `newBlock`. The height is a `uint64`.
unfoldable pub new_block : Bytes → Option Command → Option QuorumCert → ℕ → ℕ → BlockState
new_block parent cmd qc height proposer = record {
  parent = parent;
  command = cmd;
  height = height;
  q_c = qc;
  proposer = proposer;
}

-- A block that the leader of its height did not propose is a panic. Its certificate is verified by a
-- worker.
unfoldable pub on_propose : BlockState → ChainHotstuff → Outcome ChainHotstuff
unfolding get_leader dispatch_job
on_propose blk hs =
    if not (blk.proposer == get_leader blk.height hs)
    then fault
    else if leb blk.height hs.last_vote
    then ok hs
    else ok (dispatch_job (proposal_job blk) hs)

-- The first command of the queue, if there is one, and the rest.
unfoldable pub next_command : List Command → Option Command × List Command
next_command [] = (none, [])
next_command (cmd ∷ queue) = (some cmd, queue)

unfoldable pub propose : Env → ChainHotstuff → Outcome ChainHotstuff
unfolding next_command new_block store_block broadcast on_propose
propose env hs =
    let (cmd, queue) = next_command hs.cmd_queue in
    let blk = new_block (env.hash hs.b_leaf) cmd (some hs.high_qc) (inc64 hs.b_leaf.height) hs.id in
    on_propose blk (
      broadcast (propose_message blk) false (store_block env blk (record hs { cmd_queue = queue })))

-- `beat`: the leader of the next height proposes once for the height of its leaf.
unfoldable pub beat : Env → ChainHotstuff → Outcome ChainHotstuff
unfolding get_leader propose
beat env hs =
    let height = hs.b_leaf.height in
    if leb height hs.pacemaker.last_beat
    then ok hs
    else if not (hs.id == get_leader (inc64 height) hs)
    then ok hs
    else propose env (record hs { pacemaker = record hs.pacemaker { last_beat = height } })

unfoldable pub on_request : Env → Command → ChainHotstuff → Outcome ChainHotstuff
unfolding beat
on_request env cmd hs = beat env (record hs { cmd_queue = hs.cmd_queue ++ cmd ∷ [] })

-- `updateHighQC`: a higher certified block becomes the leaf.
unfoldable pub update_high_qc : QuorumCert → ChainHotstuff → Outcome ChainHotstuff
unfolding array
update_high_qc qc hs = elim (read (array qc.block_hash) hs.blocks) [
  | none ↦ ok hs
  | some new ↦ elim (read (array hs.high_qc.block_hash) hs.blocks) [
    | none ↦ fault
    | some old ↦
        ok (if ltb old.height new.height then record hs { high_qc = qc; b_leaf = new } else hs)
  ]
]

-- `qcRef`.
unfoldable pub qc_ref : Option QuorumCert → ChainHotstuff → Option BlockState
unfolding array
qc_ref none hs = none
qc_ref (some qc) hs = read (array qc.block_hash) hs.blocks

-- `update`, once the third block is known: a chain of direct parents is committed.
unfoldable pub decide :
    Env → BlockState → BlockState → BlockState → ChainHotstuff → Outcome ChainHotstuff
unfolding array commit
decide env block1 block2 block3 hs =
    if eq_bytes (array block1.parent) (env.hash block2)
      && eq_bytes (array block2.parent) (env.hash block3)
    then (commit block3 hs >>= λ hs'. ok (record hs' { b_exec = block3 }))
    else ok hs

unfoldable pub lock : BlockState → ChainHotstuff → ChainHotstuff
lock block2 hs = if ltb hs.b_lock.height block2.height then record hs { b_lock = block2 } else hs

-- `update`, once the first block is known and the certificate is taken over.
unfoldable pub lock_and_decide : Env → BlockState → ChainHotstuff → Outcome ChainHotstuff
unfolding qc_ref lock decide
lock_and_decide env block1 hs = elim (qc_ref block1.q_c hs) [
  | none ↦ ok hs
  | some block2 ↦
      let locked = lock block2 hs in
      elim (qc_ref block2.q_c locked) [
        | none ↦ ok locked
        | some block3 ↦ decide env block1 block2 block3 locked
      ]
]

unfoldable pub update : Env → BlockState → ChainHotstuff → Outcome ChainHotstuff
unfolding qc_ref update_high_qc lock_and_decide
update env blk hs = elim blk.q_c [
  | none ↦ ok hs
  | some qc ↦ elim (qc_ref (some qc) hs) [
    | none ↦ ok hs
    | some block1 ↦ update_high_qc qc hs >>= lock_and_decide env block1
  ]
]

-- The deferred part of onVote: votes for blocks that are not stored or not above the leaf are dropped.
unfoldable pub prune_votes :
    ByteMap BlockState → ℕ → ByteMap (List VoteMessage) → ByteMap (List VoteMessage)
prune_votes blocks height [] = []
prune_votes blocks height ((k, votes) ∷ entries) =
    let rest = prune_votes blocks height entries in
    elim (read k blocks) [
      | none ↦ rest
      | some block ↦ if leb block.height height then rest else (k, votes) ∷ rest
    ]

-- The votes that a map has for a hash, one more.
unfoldable pub add_vote :
    Bytes → VoteMessage → ByteMap (List VoteMessage) → ByteMap (List VoteMessage)
add_vote k m votes = elim (read k votes) [
  | none ↦ write k (m ∷ []) votes
  | some old ↦ write k (old ++ m ∷ []) votes
]

unfoldable pub queue_block_vote : VoteMessage → ChainHotstuff → ChainHotstuff
unfolding add_vote array
queue_block_vote m hs = record hs {
  pending_votes = add_vote (array m.block_hash) m hs.pending_votes;
}

unfoldable pub handle_vote : VoteMessage → ChainHotstuff → ChainHotstuff
unfolding array queue_block_vote dispatch_job
handle_vote m hs = elim (read (array m.block_hash) hs.blocks) [
  | none ↦ queue_block_vote m hs
  | some blk ↦ if leb blk.height hs.b_leaf.height then hs else dispatch_job (vote_job m blk) hs
]

-- `onVote`. The signer is read through the pointer of the signature.
unfoldable pub on_vote : VoteMessage → ChainHotstuff → Outcome ChainHotstuff
unfolding handle_vote prune_votes
on_vote m hs = elim m.signature [
  | none ↦ fault
  | some sg ↦
      let hs' = handle_vote m hs in
      ok (record hs' {
        verified_votes = prune_votes hs'.blocks hs'.b_leaf.height hs'.verified_votes;
      })
]

-- The votes for a hash, none if the map has none.
unfoldable pub votes_at : Bytes → ByteMap (List VoteMessage) → List VoteMessage
votes_at k votes = elim (read k votes) [ none ↦ [] | some old ↦ old ]

-- `onVoteContinue`: with 2f + 1 votes a certificate is made; that it cannot be made is fatal.
unfoldable pub on_vote_continue :
    Env → VoteMessage → BlockState → ChainHotstuff → Outcome ChainHotstuff
unfolding add_vote votes_at create_quorum_cert update_high_qc beat
on_vote_continue env m blk hs =
    let votes = votes_at (env.hash blk) hs.verified_votes ++ m ∷ [] in
    let counted = record hs { verified_votes = write (env.hash blk) votes hs.verified_votes } in
    if ltb (length votes) (2 * hs.f + 1)
    then ok counted
    else create_quorum_cert env blk votes >>= λ r. elim r [
      | inl e ↦ fault
      | inr qc ↦
          update_high_qc qc
            (record counted { verified_votes = remove (env.hash blk) counted.verified_votes })
          >>= beat env
    ]

-- The pending votes for a block, one after the other.
unfoldable pub on_votes : List VoteMessage → ChainHotstuff → Outcome ChainHotstuff
unfolding on_vote
on_votes [] hs = ok hs
on_votes (m ∷ votes) hs = on_vote m hs >>= on_votes votes

unfoldable pub deliver_votes : Env → BlockState → ChainHotstuff → Outcome ChainHotstuff
unfolding store_block on_votes
deliver_votes env blk hs = elim (read (env.hash blk) hs.pending_votes) [
  | none ↦ ok hs
  | some votes ↦
      on_votes votes
        (store_block env blk (record hs { pending_votes = remove (env.hash blk) hs.pending_votes }))
]

unfoldable pub deliver_proposal : Env → BlockState → ChainHotstuff → Outcome ChainHotstuff
unfolding on_propose
deliver_proposal env blk hs = elim (read (env.hash blk) hs.pending_proposals) [
  | none ↦ ok hs
  | some next ↦
      on_propose next (record hs { pending_proposals = remove (env.hash blk) hs.pending_proposals })
]

unfoldable pub deliver : Env → BlockState → ChainHotstuff → Outcome ChainHotstuff
unfolding deliver_votes deliver_proposal
deliver env blk hs = deliver_votes env blk hs >>= deliver_proposal env blk

-- Whether a block may get a vote: its certificate is for a block above the lock, or it extends the
-- lock.
unfoldable pub is_safe : Env → BlockState → QuorumCert → ChainHotstuff → Outcome Bool
unfolding array extends_lock
is_safe env blk qc hs = elim (read (array qc.block_hash) hs.blocks) [
  | none ↦ extends_lock env blk hs
  | some block ↦ if ltb hs.b_lock.height block.height then ok true else extends_lock env blk hs
]

unfoldable pub queue_block_propose : BlockState → QuorumCert → ChainHotstuff → ChainHotstuff
unfolding array
queue_block_propose blk qc hs = record hs {
  pending_proposals = write (array qc.block_hash) blk hs.pending_proposals;
}

-- `finish`.
unfoldable pub finish : Env → BlockState → ChainHotstuff → Outcome ChainHotstuff
unfolding update deliver
finish env blk hs = update env blk hs >>= deliver env blk

-- The vote for a block goes to the leader of the next height, which may be the replica itself.
unfoldable pub vote_for : Env → BlockState → Bytes → ChainHotstuff → Outcome ChainHotstuff
unfolding get_leader finish on_vote send_to
vote_for env blk sig hs =
    let m : VoteMessage = record {
      block_hash = env.hash blk;
      signature = some (record { sig = sig; signer = hs.id });
    } in
    let leader = get_leader (inc64 hs.last_vote) hs in
    if leader == hs.id
    then finish env blk hs >>= on_vote m
    else finish env blk (send_to leader (vote m) hs)

-- The part of onProposeContinue after the test: the block is signed and stored.
unfoldable pub accept_propose : Env → BlockState → ChainHotstuff → Outcome ChainHotstuff
unfolding reset store_block vote_for
accept_propose env blk hs =
    let started = record hs {
      pacemaker = record hs.pacemaker { timer = reset hs.pacemaker.timer };
    } in
    elim (env.sign (env.hash blk)) [
      | none ↦ ok started
      | some sig ↦
          vote_for env blk sig (record (store_block env blk started) { last_vote = blk.height })
    ]

-- `onProposeContinue`. The certificate is read through its pointer.
unfoldable pub on_propose_continue : Env → BlockState → ChainHotstuff → Outcome ChainHotstuff
unfolding is_safe queue_block_propose accept_propose
on_propose_continue env blk hs = elim blk.q_c [
  | none ↦ fault
  | some qc ↦ is_safe env blk qc hs >>= λ safe.
      if not safe then ok (queue_block_propose blk qc hs) else accept_propose env blk hs
]
