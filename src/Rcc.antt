-- ===== src/Rcc.antt =====
-- protocols/rcc/rcc.go: one instance of a protocol for each node as its leader, and the commands that
-- they order merged round by round.
pub mod Rounds
pub mod Queues
pub mod Take
pub mod Streams
pub mod Merge
pub mod Runs
pub mod Orders
pub mod Replicators
use go_consensus.Base.{
  ℕ, ◌≡◌, List, [], ◌∷◌, ◌++◌, Bool, true, false, not, Option, none, some, if◌then◌else◌, all, any,
  Map, lookup, insert, values, Outcome, ok, fault, ◌>>=◌,
}
use go_consensus.Command.{Command, equal}
use go_consensus.Peer.Applier.{ExecPacket}
use go_consensus.Peer.Interface.{Message, ExecCallback, Ready, Protocol}

-- The algorithms of peerpb that an instance can run, and all others.
pub data Algorithm : Type 0 where
  pbft sbft other : Algorithm

-- The kind of a message is never set.
pub record RccMessage (C : Type 0) : Type 0 where
  pub message : Message C
  pub peer_id : ℕ

-- The field execIdx is never used.
pub record Rcc (S : Type 0) : Type 0 where
  pub id : ℕ
  pub nodes : List ℕ
  pub replicators : Map S
  pub exec_pkts : Map (List ExecPacket)
  pub global_ordered_commands : List ExecPacket

abbrev pub has_some : Option (List ExecPacket) → Bool
has_some none = false
has_some (some []) = false
has_some (some (pkt ∷ pkts)) = true

-- The instance that a node leads; another algorithm is a panic.
unfoldable pub replicator_for : {S : Type 0} → (ℕ → S) → (ℕ → S) → Algorithm → ℕ → Outcome S
replicator_for new_pbft new_sbft pbft leader = ok (new_pbft leader)
replicator_for new_pbft new_sbft sbft leader = ok (new_sbft leader)
replicator_for new_pbft new_sbft other leader = fault

module _ {S : Type 0} where
  -- The loop of NewRCC.
  unfoldable pub add_replicators : (ℕ → Outcome S) → List ℕ → Rcc S → Outcome (Rcc S)
  add_replicators new [] d = ok d
  add_replicators new (leader ∷ peers) d = new leader >>= λ rp.
      add_replicators new peers (record d {
        replicators = insert leader rp d.replicators;
        exec_pkts = insert leader [] d.exec_pkts;
      })

  -- `NewRCC`, with the constructors of the two protocols for a leader.
  unfoldable pub new_rcc : (ℕ → S) → (ℕ → S) → Algorithm → ℕ → List ℕ → Outcome (Rcc S)
  unfolding add_replicators replicator_for
  new_rcc new_pbft new_sbft algorithm id peers =
      add_replicators (replicator_for new_pbft new_sbft algorithm) peers (record {
        id = id;
        nodes = peers;
        replicators = [];
        exec_pkts = [];
        global_ordered_commands = [];
      })

  -- A call of one instance. The method of an instance that is not there is a nil dereference.
  unfoldable pub on_replicator : ℕ → (S → Outcome S) → Rcc S → Outcome (Rcc S)
  on_replicator id f d = elim (lookup id d.replicators) [
    | none ↦ fault
    | some r ↦ f r >>= λ r'. ok (record d { replicators = insert id r' d.replicators })
  ]

  -- A call of every instance, in an order of the map.
  unfoldable pub on_each : (S → Outcome S) → List ℕ → Rcc S → Outcome (Rcc S)
  unfolding on_replicator
  on_each f [] d = ok d
  on_each f (id ∷ order) d = on_replicator id f d >>= on_each f order

  -- An instance's ordered commands: those to be executed wait in its queue, the others are output.
  unfoldable pub push : ℕ → ExecPacket → Rcc S → Outcome (Rcc S)
  push id pkt d =
      if not pkt.no_exec
      then elim (lookup id d.exec_pkts) [
        | none ↦ fault
        | some pkts ↦ ok (record d { exec_pkts = insert id (pkts ++ pkt ∷ []) d.exec_pkts })
      ]
      else ok (record d { global_ordered_commands = d.global_ordered_commands ++ pkt ∷ [] })

  unfoldable pub push_all : ℕ → List ExecPacket → Rcc S → Outcome (Rcc S)
  unfolding push
  push_all id [] d = ok d
  push_all id (pkt ∷ pkts) d = push id pkt d >>= push_all id pkts

  -- The second loop of MakeReady: whether every queue has a command.
  unfoldable pub present : List ℕ → Rcc S → Bool
  present order d = all (λ id. has_some (lookup id d.exec_pkts)) order

  -- The front of a queue is output.
  unfoldable pub pop_front : ℕ → List ExecPacket → Rcc S → Rcc S
  pop_front id [] d = d
  pop_front id (pkt ∷ pkts) d = record d {
    exec_pkts = insert id pkts d.exec_pkts;
    global_ordered_commands = d.global_ordered_commands ++ pkt ∷ [];
  }

  unfoldable pub pop : ℕ → Rcc S → Rcc S
  unfolding pop_front
  pop id d = elim (lookup id d.exec_pkts) [ none ↦ d | some pkts ↦ pop_front id pkts d ]

  unfoldable pub pop_each : List ℕ → Rcc S → Rcc S
  unfolding pop
  pop_each [] d = d
  pop_each (id ∷ order) d = pop_each order (pop id d)

  -- The end of MakeReady: a round is output if every queue has a command.
  unfoldable pub take_round : List ℕ → List ℕ → Rcc S → Rcc S
  unfolding present pop_each
  take_round order order' d = if present order d then pop_each order' d else d

  unfoldable pub clear_executed_commands : Rcc S → Rcc S
  clear_executed_commands d = record d { global_ordered_commands = [] }

  unfoldable pub has_executed : Command → Rcc S → Bool
  has_executed cmd d = any (λ (pkt : ExecPacket). equal pkt.cmd cmd) d.global_ordered_commands

module _ {C : Type 0} where
  -- The messages of an instance, in the envelope of RCC, which has no certificate.
  unfoldable pub wrap : ℕ → List (Message C) → List (Message (RccMessage C))
  wrap id [] = []
  wrap id (m ∷ msgs) =
      record {
        content = record { message = m; peer_id = id };
        certificate = [];
        to = m.to;
        sender = m.sender;
      }
      ∷ wrap id msgs

module _ {S C : Type 0} (p : Protocol S C) where
  unfoldable pub step : Message (RccMessage C) → Rcc S → Outcome (Rcc S)
  unfolding on_replicator
  step m d = on_replicator m.content.peer_id (p.step m.content.message) d

  unfoldable pub request : Command → Rcc S → Outcome (Rcc S)
  unfolding on_replicator
  request cmd d = on_replicator cmd.target (p.request cmd) d

  unfoldable pub callback : ExecCallback → Rcc S → Outcome (Rcc S)
  unfolding on_replicator
  callback cb d = on_replicator cb.cmd.target (p.callback cb) d

  unfoldable pub tick : List ℕ → Rcc S → Outcome (Rcc S)
  unfolding on_each
  tick order d = on_each p.tick order d

  unfoldable pub async_callback : List ℕ → Rcc S → Outcome (Rcc S)
  unfolding on_each
  async_callback order d = on_each p.async_callback order d

  unfoldable pub clear_msgs : List ℕ → Rcc S → Outcome (Rcc S)
  unfolding on_each
  clear_msgs order d = on_each (λ r. ok (p.clear_msgs r)) order d

  -- The body of the first loop of MakeReady, for one instance.
  unfoldable pub collect_one : ℕ → Rcc S → Outcome (List (Message (RccMessage C)) × Rcc S)
  unfolding push_all wrap
  collect_one id d = elim (lookup id d.replicators) [
    | none ↦ fault
    | some r ↦ p.make_ready r >>= λ (rd, r'). push_all id rd.ordered_commands d >>= λ d'. ok (
      wrap id rd.messages,
      record d' { replicators = insert id (p.clear_executed_commands r') d'.replicators },
    )
  ]

  unfoldable pub collect : List ℕ → Rcc S → Outcome (List (Message (RccMessage C)) × Rcc S)
  unfolding collect_one
  collect [] d = ok ([], d)
  collect (id ∷ order) d =
      collect_one id d >>= λ (msgs, d'). collect order d' >>= λ (rest, d''). ok (msgs ++ rest, d'')

  -- `MakeReady`. Each loop runs over its map in an order of its own.
  unfoldable pub make_ready :
      List ℕ → List ℕ → List ℕ → Rcc S → Outcome (Ready (RccMessage C) × Rcc S)
  unfolding collect take_round
  make_ready order order' order'' d = collect order d >>= λ (msgs, d').
      let out = take_round order' order'' d' in
      ok (record { messages = msgs; ordered_commands = out.global_ordered_commands }, out)
