-- ===== src/ChainHotstuff/Replica.antt =====
-- protocols/chainhotstuff/chainhotstuff.go and messaging.go: the state of a replica, the messages and
-- the walks along the parents of a block.
use go_consensus.Base.{
  ℕ, zero, suc, ◌%◌, List, [], ◌∷◌, ◌++◌, Bool, true, false, not, ◌||◌, Option, none, some, ltb,
  ◌==◌, if◌then◌else◌, length, Bytes, eq_bytes, ByteMap, read, write, Map, Outcome, ok, fault,
  ◌>>=◌,
}
use go_consensus.Command.{Command}
use go_consensus.Peer.Timer.{TickingTimer}
use go_consensus.ChainHotstuff.Blocks.{QuorumCert, BlockState, VoteMessage, array}
use go_consensus.ChainHotstuff.Signer.{Env}

pub record NewViewMessage : Type 0 where
  pub height : ℕ
  pub q_c : Option QuorumCert
  pub hash512 : Bytes

-- A ProposeMessage is the block that it embeds.
pub data ChainHotstuffMessage : Type 0 where
  propose : BlockState → ChainHotstuffMessage
  vote : VoteMessage → ChainHotstuffMessage
  new_view : NewViewMessage → ChainHotstuffMessage

-- peerpb.Message; its content is kept as the message that the bytes encode.
pub record Envelope : Type 0 where
  pub content : ChainHotstuffMessage
  pub to : ℕ
  pub sender : ℕ

-- What waits for a worker: the verification of a proposal, of a vote for a block, and of a NewView
-- with its sender.
pub data Job : Type 0 where
  proposal_job : BlockState → Job
  vote_job : VoteMessage → BlockState → Job
  view_job : ℕ → NewViewMessage → Job

pub record Pacemaker : Type 0 where
  pub last_beat : ℕ
  pub timer : TickingTimer

pub record ChainHotstuff : Type 0 where
  pub id : ℕ
  pub peers : List ℕ
  pub msgs : List Envelope
  pub committed_cmds : List Command
  pub f : ℕ
  pub cmd_queue : List Command
  pub pacemaker : Pacemaker
  pub quorum_size : ℕ
  pub blocks : ByteMap BlockState
  pub last_vote : ℕ
  pub b_lock : BlockState
  pub b_exec : BlockState
  pub b_leaf : BlockState
  pub high_qc : QuorumCert
  pub verified_votes : ByteMap (List VoteMessage)
  pub pending_votes : ByteMap (List VoteMessage)
  pub pending_proposals : ByteMap BlockState
  pub new_views : Map (List ℕ)
  pub jobs : List Job
  pub callback_c : List (Job × Bool)

unfoldable pub enqueue_for_sending : ℕ → ChainHotstuffMessage → ChainHotstuff → ChainHotstuff
enqueue_for_sending to m hs = record hs {
  msgs = hs.msgs ++ record { content = m; to = to; sender = hs.id } ∷ [];
}

unfoldable pub send_to : ℕ → ChainHotstuffMessage → ChainHotstuff → ChainHotstuff
unfolding enqueue_for_sending
send_to to m hs = enqueue_for_sending to m hs

unfoldable pub send_each : ChainHotstuffMessage → Bool → List ℕ → ChainHotstuff → ChainHotstuff
unfolding enqueue_for_sending
send_each m self [] hs = hs
send_each m self (peer ∷ peers) hs =
    send_each m self peers
      (if self || not (peer == hs.id) then enqueue_for_sending peer m hs else hs)

unfoldable pub broadcast : ChainHotstuffMessage → Bool → ChainHotstuff → ChainHotstuff
unfolding send_each
broadcast m self hs = send_each m self hs.peers hs

-- `verifyDispatcher.Exec`.
unfoldable pub dispatch_job : Job → ChainHotstuff → ChainHotstuff
dispatch_job j hs = record hs { jobs = hs.jobs ++ j ∷ [] }

unfoldable pub get_leader : ℕ → ChainHotstuff → ℕ
get_leader view hs = view % length hs.peers

unfoldable pub store_block : Env → BlockState → ChainHotstuff → ChainHotstuff
store_block env blk hs = record hs { blocks = write (env.hash blk) blk hs.blocks }

-- `hs.blocks[b.Parent.Array()]`.
unfoldable pub parent_of : BlockState → ByteMap BlockState → Option BlockState
unfolding array
parent_of blk blocks = read (array blk.parent) blocks

-- Where the walk to the parents ends: at a block that is not above a height, at a parent that is not
-- stored, or nowhere within the fuel.
pub data Walk : Type 0 where
  lost endless : Walk
  found : BlockState → Walk

-- The loop of onProposeContinue.
unfoldable pub walk : ℕ → ℕ → ByteMap BlockState → BlockState → Walk
unfolding parent_of
walk zero height blocks b = elim (ltb height b.height) [ false ↦ found b | true ↦ endless ]
walk (suc n) height blocks b = elim (ltb height b.height) [
  | false ↦ found b
  | true ↦ elim (parent_of b blocks) [ none ↦ lost | some parent ↦ walk n height blocks parent ]
]

-- Whether a block extends the lock. A loop that does not end has no state after it.
unfoldable pub is_lock : Env → BlockState → Walk → Outcome Bool
is_lock env b_lock lost = ok false
is_lock env b_lock endless = fault
is_lock env b_lock (found b) = ok (eq_bytes (env.hash b) (env.hash b_lock))

unfoldable pub extends_lock : Env → BlockState → ChainHotstuff → Outcome Bool
unfolding walk is_lock
extends_lock env blk hs =
    is_lock env hs.b_lock (walk (suc (length hs.blocks)) hs.b_lock.height hs.blocks blk)

unfoldable pub execute : Command → ChainHotstuff → ChainHotstuff
execute cmd hs = record hs { committed_cmds = hs.committed_cmds ++ cmd ∷ [] }

-- A dummy block, with no certificate or no command, is not executed.
unfoldable pub execute_if : Option QuorumCert → Option Command → ChainHotstuff → ChainHotstuff
unfolding execute
execute_if none cmd hs = hs
execute_if (some qc) none hs = hs
execute_if (some qc) (some cmd) hs = execute cmd hs

unfoldable pub execute_block : BlockState → ChainHotstuff → ChainHotstuff
unfolding execute_if
execute_block blk hs = execute_if blk.q_c blk.command hs

-- `commit`, on fuel: the parents above the last executed height first.
unfoldable pub commit_from : ℕ → BlockState → ChainHotstuff → Outcome ChainHotstuff
unfolding parent_of execute_block
commit_from zero blk hs = elim (ltb hs.b_exec.height blk.height) [ false ↦ ok hs | true ↦ fault ]
commit_from (suc n) blk hs = elim (ltb hs.b_exec.height blk.height) [
  | false ↦ ok hs
  | true ↦ elim (parent_of blk hs.blocks) [
    | none ↦ ok (execute_block blk hs)
    | some parent ↦ commit_from n parent hs >>= λ hs'. ok (execute_block blk hs')
  ]
]

unfoldable pub commit : BlockState → ChainHotstuff → Outcome ChainHotstuff
unfolding commit_from
commit blk hs = commit_from (suc (length hs.blocks)) blk hs
