-- ===== src/Tests/Chains.antt =====
-- The walks of ChainHotstuff along the parents at a chain of two blocks above the genesis block.
use go_consensus.Base.{
  ℕ, suc, ◌≡◌, ◌<◌, ◌≤◌, refl, List, [], ◌∷◌, Bool, true, Option, none, some, arith, ltb, ltb→lt,
  subst, Outcome, ok, fault, write, remove, Bytes, all, ByteMap, read, eq_bytes,
}
use go_consensus.Command.{Command}
use go_consensus.ChainHotstuff.Blocks.{QuorumCert, BlockState, genesis, array}
use go_consensus.ChainHotstuff.Signer.{Env, create_quorum_cert, collect_sigs, verify_quorum_cert}
use go_consensus.ChainHotstuff.Replica.{
  Envelope, propose, ChainHotstuff, get_leader, parent_of, walk, extends_lock, commit,
}
use go_consensus.ChainHotstuff.Voting.{update_high_qc, on_propose_continue, update, deliver}
use go_consensus.Peer.Timer.{reset, make_ticking_timer}
use go_consensus.ChainHotstuff.Protocol.{initial, new_chain_hotstuff, step, work, async_callback}
use go_consensus.ChainHotstuff.Reach.{
  Reach, here, next, receives, worked, called_back, Reach-HighKnown,
}
use go_consensus.ChainHotstuff.Quiet.{HighKnown}
use go_consensus.ChainHotstuff.Votes.{on_propose_continue_voted}
use go_consensus.ChainHotstuff.Ancestors.{
  NoCycle, Lineage, commands, commit-Lineage, extends_lock-ok,
}

program : Unit {0}
unfolding genesis array eq_bytes read write remove parent_of walk extends_lock commit initial
    new_chain_hotstuff create_quorum_cert collect_sigs step work async_callback on_propose_continue
    get_leader verify_quorum_cert reset update deliver make_ticking_timer
program = tt

-- The hash is one more than the height.
abbrev env : Env
env = record {
  hash = λ b. array (suc b.height ∷ []);
  sign = λ hash. some hash;
  verify = λ hash sig. eq_bytes hash sig;
  verify_batch = λ jobs. none;
}

abbrev qc : QuorumCert
qc = record { sigs = []; block_hash = 1 ∷ [] }

abbrev cmd : ℕ → Command
cmd t = record {
  timestamp = t;
  ops = [];
  target = 0;
  meta = [];
  conflict_key = [];
  trace_info = [];
}

abbrev block : ℕ → BlockState
block n = record {
  parent = n ∷ [];
  command = some (cmd n);
  height = n;
  q_c = some qc;
  proposer = 1;
}

abbrev chain : ByteMap BlockState
chain = (array (1 ∷ []), genesis) ∷ (array (2 ∷ []), block 1) ∷ (array (3 ∷ []), block 2) ∷ []

abbrev replica : ChainHotstuff
replica = record (initial env 0 (0 ∷ 1 ∷ 2 ∷ 3 ∷ []) 1 qc) { blocks = chain }

abbrev older : BlockState → Option BlockState → Bool
older blk none = true
older blk (some parent) = ltb parent.height blk.height

read_all :
    (p : BlockState → Bool) (k : Bytes) (blk : BlockState) (blocks : ByteMap BlockState)
    → all (λ (e : Bytes × BlockState). p e.1) blocks ≡ true
    → read k blocks ≡ some blk
    → p blk ≡ true
unfolding read
read_all p k blk [] h r = cc
read_all p k blk ((j, x) ∷ blocks) h r = ground (arith, read_all p k blk blocks)

older_lt : (blk parent : BlockState) → older blk (some parent) ≡ true → parent.height < blk.height
older_lt blk parent h = ltb→lt _ _ h

chain-NoCycle : NoCycle (λ b. b.height) chain
unfolding program
chain-NoCycle k blk parent r p = older_lt blk parent (
    subst (λ o. older blk o ≡ true) p
      (read_all (λ b. older b (parent_of b chain)) k blk chain refl r))

commit-Lineage_example :
    (line : List BlockState) × Lineage chain 0 (block 2) line
    × (commit (block 2) replica ≡ ok (record replica { committed_cmds = commands line }))
unfolding program
commit-Lineage_example = commit-Lineage (λ b. b.height) (block 2) replica chain-NoCycle

committed : commit (block 2) replica ≡ ok (record replica { committed_cmds = cmd 1 ∷ cmd 2 ∷ [] })
unfolding program
committed = refl

extends_lock-ok_example : (b : Bool) × (extends_lock env (block 2) replica ≡ ok b)
unfolding program
extends_lock-ok_example = extends_lock-ok (λ b. b.height) env (block 2) replica chain-NoCycle

extends : extends_lock env (block 2) replica ≡ ok true
unfolding program
extends = refl

abbrev state_of : Outcome ChainHotstuff → ChainHotstuff
state_of fault = replica
state_of (ok hs) = hs

-- A replica gets the first proposal, verifies it and votes for it.
abbrev started : ChainHotstuff
started = state_of (new_chain_hotstuff env 0 (0 ∷ 1 ∷ 2 ∷ 3 ∷ []) 1)

abbrev first : BlockState
first = record (block 1) { q_c = some qc }

abbrev proposed : Envelope
proposed = record { content = propose first; to = 0; sender = 1 }

abbrev asked : ChainHotstuff
asked = state_of (step proposed started)

abbrev verified : ChainHotstuff
verified = state_of (work env 0 asked)

abbrev voted : ChainHotstuff
voted = state_of (async_callback env verified)

asking : Reach env started asked
unfolding program
asking = next here (receives proposed refl)

voting : Reach env asked voted
unfolding program
voting = next (next here (worked 0 refl)) (called_back refl)

vote_sent : voted.last_vote ≡ 1
unfolding program
vote_sent = refl

Reach-HighKnown_example :
    HighKnown voted
    × ((c : QuorumCert) → (r : ChainHotstuff) × (update_high_qc c voted ≡ ok r))
    × (asked.b_lock.height ≤ voted.b_lock.height)
unfolding program
Reach-HighKnown_example =
    Reach-HighKnown env 0 (0 ∷ 1 ∷ 2 ∷ 3 ∷ []) 1 started asked voted refl refl asking voting

-- A replica that has voted at height 7 votes at height 1.
abbrev later : ChainHotstuff
later = record started { last_vote = 7 }

on_propose_continue_voted_example : (state_of (on_propose_continue env first later)).last_vote ≡ 1
unfolding program
on_propose_continue_voted_example =
    on_propose_continue_voted env first qc (array (2 ∷ [])) later
      (state_of (on_propose_continue env first later)) refl refl refl refl
