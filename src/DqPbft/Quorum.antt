-- ===== src/DqPbft/Quorum.antt =====
-- protocols/dqpbft/quorum.go: the messages of the replicas for one instance, by view and by sender. The
-- two types of the source have one text, over the two types of messages.
use go_consensus.Base.{
  ℕ, ◌*◌, [], Bool, false, none, some, ltb, leb, if◌then◌else◌, length, count, Map, lookup, insert,
  values, Outcome, ok, fault,
}

pub record Quorum (M : Type 0) : Type 0 where
  pub max_view : ℕ
  pub msgs : Map (Map M)

unfoldable pub new_quorum : {M : Type 0} → Quorum M
new_quorum = record { max_view = 0; msgs = [] }

-- The map of a view, made when it is missing.
unfoldable pub at_view : {M : Type 0} → ℕ → Map (Map M) → Map M
at_view v msgs = elim (lookup v msgs) [ none ↦ [] | some pairs ↦ pairs ]

module _ {M : Type 0} (view : M → ℕ) where
  -- `log`: a message of an older view, or a second one of the same sender, is a panic.
  unfoldable pub log : ℕ → M → Quorum M → Outcome (Quorum M)
  unfolding at_view
  log id m q =
      if ltb (view m) q.max_view then fault else elim (lookup id (at_view (view m) q.msgs)) [
        | none ↦ ok (record {
          max_view = view m;
          msgs = insert (view m) (insert id m (at_view (view m) q.msgs)) q.msgs;
        })
        | some _ ↦ fault
      ]

  -- `Majority`, with `Equals` of the messages and the replica's `f`.
  unfoldable pub majority : (M → M → Bool) → ℕ → M → Quorum M → Bool
  majority equals f m q = elim (lookup (view m) q.msgs) [
    | none ↦ false
    | some pairs ↦
        if leb (length pairs) (2 * f) then false else ltb (2 * f) (count (equals m) (values pairs))
  ]
