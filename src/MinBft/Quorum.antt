-- ===== src/MinBft/Quorum.antt =====
-- protocols/minbft/quorum.go and minbftpb: the messages, and those that the replicas sent for one
-- slot, by view and by sender.
use go_consensus.Base.{
  ℕ, ◌≤◌, ◌<◌, ◌≡◌, ◌↔◌, [], ◌∷◌, Bool, true, false, ◌&&◌, Option, none, some, arith, ltb, leb,
  ◌==◌, if◌then◌else◌, length, count, Bytes, Map, lookup, insert, values, lookup-insert, Outcome,
  ok, fault,
}
use go_consensus.Command.{Command}
use go_consensus.Pbft.Messages.{eq_hash}

pub data NormalType : Type 0 where
  prepare : NormalType
  commit : NormalType
  other : ℕ → NormalType

pub record NormalMessage : Type 0 where
  pub type : NormalType
  pub view : ℕ
  pub order : ℕ
  pub command : Option Command
  pub command_hash : Option Bytes

-- `Equals`: the type and the command are not compared.
unfoldable pub equals : NormalMessage → NormalMessage → Bool
equals m o = m.view == o.view && (m.order == o.order && eq_hash m.command_hash o.command_hash)

pub record Quorum : Type 0 where
  pub max_view : ℕ
  pub msgs : Map (Map NormalMessage)

unfoldable pub new_quorum : Quorum
new_quorum = record { max_view = 0; msgs = [] }

unfoldable pub at_view : ℕ → Map (Map NormalMessage) → Map NormalMessage
at_view v msgs = elim (lookup v msgs) [ none ↦ [] | some pairs ↦ pairs ]

unfoldable pub add_first : ℕ → NormalMessage → Map NormalMessage → Map NormalMessage
add_first id m pairs = elim (lookup id pairs) [ none ↦ insert id m pairs | some old ↦ pairs ]

-- `log`: a message of an older view is a panic; of a sender's messages the first one stays.
unfoldable pub log : ℕ → NormalMessage → Quorum → Outcome Quorum
unfolding at_view add_first
log id m q =
    if ltb m.view q.max_view
    then fault
    else ok (record {
      max_view = m.view;
      msgs = insert m.view (add_first id m (at_view m.view q.msgs)) q.msgs;
    })

unfoldable pub majority : ℕ → NormalMessage → Quorum → Bool
majority f m q = elim (lookup m.view q.msgs) [
  | none ↦ false
  | some pairs ↦ if leb (length pairs) f then false else ltb f (count (equals m) (values pairs))
]

-- How many of the recorded messages equal a message.
unfoldable pub support : NormalMessage → Quorum → ℕ
support m q = count (equals m) (values (at_view m.view q.msgs))

count-values :
    (m : NormalMessage) (pairs : Map NormalMessage) → count (equals m) (values pairs) ≤ length pairs
unfolding values
count-values m [] = omega arith
count-values m ((i, o) ∷ pairs) = ground (arith, count-values m pairs)

-- `Majority` holds exactly when more than f of the messages recorded for the view equal the message.
pub majority_iff_support :
    (f : ℕ) (m : NormalMessage) (q : Quorum) → (majority f m q ≡ true) ↔ (f < support m q)
unfolding majority support at_view values
majority_iff_support f m q = ground (arith, count-values m (at_view m.view q.msgs))

count-insert :
    (m o : NormalMessage) (id : ℕ) (pairs : Map NormalMessage)
    → lookup id pairs ≡ none
    → count (equals m) (values pairs) ≤ count (equals m) (values (insert id o pairs))
unfolding values insert lookup
count-insert m o id [] h = omega arith
count-insert m o id ((j, x) ∷ pairs) h = ground (arith, count-insert m o id pairs)

count-add_first :
    (m o : NormalMessage) (id : ℕ) (pairs : Map NormalMessage)
    → count (equals m) (values pairs) ≤ count (equals m) (values (add_first id o pairs))
unfolding add_first
count-add_first m o id pairs = ground (arith, count-insert m o id pairs)

support-log :
    (id : ℕ) (m o : NormalMessage) (q q' : Quorum) → log id o q ≡ ok q' → support m q ≤ support m q'
unfolding log support at_view
support-log id m o q q' h = ground (
  arith,
  lookup-insert o.view m.view (add_first id o (at_view o.view q.msgs)) q.msgs,
  count-add_first m o id (at_view o.view q.msgs),
)

-- A majority that is reached is not lost by a further message, whoever sends it.
pub majority-log_first :
    (f id : ℕ) (m o : NormalMessage) (q q' : Quorum)
    → log id o q ≡ ok q'
    → majority f m q ≡ true
    → majority f m q' ≡ true
majority-log_first f id m o q q' h t =
    (majority_iff_support f m q').1
      (omega (arith, (majority_iff_support f m q).0 t, support-log id m o q q' h))

-- The message that a sender's entry holds.
unfoldable pub vote : ℕ → ℕ → Quorum → Option NormalMessage
vote v i q = lookup i (at_view v q.msgs)

-- After a successful `log` the sender has an entry in the view of the message, the old one if there
-- was one; every other entry is as before.
pub vote-log_first :
    (id v i : ℕ) (m : NormalMessage) (q q' : Quorum)
    → log id m q ≡ ok q'
    → vote v i q' ≡ (
        if m.view == v && id == i
        then elim (vote v i q) [ none ↦ some m | some old ↦ some old ]
        else vote v i q)
unfolding log vote at_view add_first
vote-log_first id v i m q q' h = ground (
  arith,
  lookup-insert m.view v (add_first id m (at_view m.view q.msgs)) q.msgs,
  lookup-insert id i m (at_view m.view q.msgs),
)
