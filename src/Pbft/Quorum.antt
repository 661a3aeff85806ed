-- ===== src/Pbft/Quorum.antt =====
-- protocols/pbft/quorum.go: the messages that the replicas sent for one instance, by view and by
-- sender. The replica's `f` is an argument.
pub mod Senders
pub mod Certificates
use go_consensus.Base.{
  ℕ, ◌*◌, ◌≡◌, List, [], Bool, true, false, Option, none, some, ltb, leb, if◌then◌else◌, length,
  count, Map, lookup, insert, values, Outcome, ok, fault,
}
use go_consensus.Pbft.Messages.{AgreementMessage, equals}

pub record Quorum : Type 0 where
  pub max_view : ℕ
  pub msgs : Map (Map AgreementMessage)

unfoldable pub new_quorum : Quorum
new_quorum = record { max_view = 0; msgs = [] }

-- The map of a view, made when it is missing.
unfoldable pub at_view : ℕ → Map (Map AgreementMessage) → Map AgreementMessage
at_view v msgs = elim (lookup v msgs) [ none ↦ [] | some pairs ↦ pairs ]

-- `log`: a message of an older view, or a second one from the same sender, is a panic.
unfoldable pub log : ℕ → AgreementMessage → Quorum → Outcome Quorum
unfolding at_view
log id m q = if ltb m.view q.max_view then fault else elim (lookup id (at_view m.view q.msgs)) [
  | none ↦ ok (record {
    max_view = m.view;
    msgs = insert m.view (insert id m (at_view m.view q.msgs)) q.msgs;
  })
  | some _ ↦ fault
]

unfoldable pub majority : ℕ → AgreementMessage → Quorum → Bool
majority f m q = elim (lookup m.view q.msgs) [
  | none ↦ false
  | some pairs ↦
      if leb (length pairs) (2 * f) then false else ltb (2 * f) (count (equals m) (values pairs))
]
