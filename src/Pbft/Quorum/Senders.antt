-- ===== src/Pbft/Quorum/Senders.antt =====
-- protocols/pbft/quorum.go: who supports a message, and what a majority means.
use go_consensus.Base.{
  ℕ, ◌*◌, ◌≤◌, ◌<◌, ◌≡◌, refl, ◌↔◌, inl, inr, List, [], ◌∷◌, true, Option, none, some, arith, ◌==◌,
  ◌&&◌, if◌then◌else◌, length, count, Map, lookup, insert, keys, values, lookup-insert, mem,
  Distinct, mem-keys-lookup, ok, is_ok, Bool-cases, ap,
}
use go_consensus.Pbft.Messages.{AgreementMessage, equals}
use go_consensus.Pbft.Quorum.{Quorum, new_quorum, at_view, log, majority}

-- The message that a sender's entry holds.
unfoldable pub vote : ℕ → ℕ → Quorum → Option AgreementMessage
vote v i q = lookup i (at_view v q.msgs)

unfoldable pub backers : AgreementMessage → Map AgreementMessage → List ℕ
backers m [] = []
backers m ((i, o) ∷ pairs) = let rest = backers m pairs in if equals m o then i ∷ rest else rest

-- The senders whose entry equals the message.
unfoldable pub supporters : AgreementMessage → Quorum → List ℕ
supporters m q = backers m (at_view m.view q.msgs)

-- No sender has two entries in a view, and no view is past `max_view`.
pub record IsQuorum (q : Quorum) : Type 0 where
  pub distinct : (v : ℕ) → Distinct (keys (at_view v q.msgs))
  pub newest :
      (v i : ℕ) (m : AgreementMessage) → vote v i q ≡ some m → (m.view ≡ v) × (v ≤ q.max_view)

length-backers :
    (m : AgreementMessage) (pairs : Map AgreementMessage)
    → length (backers m pairs) ≡ count (equals m) (values pairs)
unfolding backers values
length-backers m [] = refl
length-backers m ((i, o) ∷ pairs) = ground (arith, length-backers m pairs)

count-pairs :
    (m : AgreementMessage) (pairs : Map AgreementMessage)
    → count (equals m) (values pairs) ≤ length pairs
unfolding values
count-pairs m [] = omega arith
count-pairs m ((i, o) ∷ pairs) = ground (arith, count-pairs m pairs)

-- `Majority` holds exactly when more than 2f senders support the message.
pub majority_iff :
    (f : ℕ) (m : AgreementMessage) (q : Quorum)
    → (majority f m q ≡ true) ↔ (2 * f < length (supporters m q))
unfolding majority supporters at_view backers
majority_iff f m q =
    let pairs = at_view m.view q.msgs in ground (arith, length-backers m pairs, count-pairs m pairs)

mem-backers_key :
    (m : AgreementMessage) (i : ℕ) (pairs : Map AgreementMessage)
    → mem i (backers m pairs) ≡ true
    → mem i (keys pairs) ≡ true
unfolding backers keys
mem-backers_key m i [] h = h
mem-backers_key m i ((j, o) ∷ pairs) h = ground (arith, mem-backers_key m i pairs)

backers-Distinct :
    (m : AgreementMessage) (pairs : Map AgreementMessage)
    → Distinct (keys pairs)
    → Distinct (backers m pairs)
unfolding backers keys
backers-Distinct m [] d = tt
backers-Distinct m ((j, o) ∷ pairs) d =
    ground (arith, backers-Distinct m pairs, mem-backers_key m j pairs)

backers-lookup :
    (m : AgreementMessage) (i : ℕ) (pairs : Map AgreementMessage)
    → Distinct (keys pairs)
    → mem i (backers m pairs) ≡ true
    → (o : AgreementMessage) × (lookup i pairs ≡ some o) × (equals m o ≡ true)
unfolding backers keys lookup
backers-lookup m i [] d h = cc
backers-lookup m i ((j, o) ∷ pairs) d h = elim (Bool-cases (j == i)) [
  | inl e ↦ (o, rw e, ground (arith, mem-backers_key m i pairs, mem-keys-lookup i pairs))
  | inr e ↦ rw e (backers-lookup m i pairs d.1 (ground arith))
]

lookup-backers :
    (m o : AgreementMessage) (i : ℕ) (pairs : Map AgreementMessage)
    → lookup i pairs ≡ some o
    → equals m o ≡ true
    → mem i (backers m pairs) ≡ true
unfolding backers lookup
lookup-backers m o i [] e h = cc
lookup-backers m o i ((j, o') ∷ pairs) e h =
    ground (arith, lookup-backers m o i pairs, ap (equals m) {x = o'} {y = o})

pub new_quorum-IsQuorum : IsQuorum new_quorum
unfolding new_quorum at_view vote lookup keys
new_quorum-IsQuorum = record { distinct = λ v. tt; newest = λ v i m h. cc }

-- After a successful `log` the sender's entry is the message and every other entry is as before.
pub vote-log :
    (id v i : ℕ) (m : AgreementMessage) (q q' : Quorum)
    → log id m q ≡ ok q'
    → vote v i q' ≡ (if m.view == v && id == i then some m else vote v i q)
unfolding log vote at_view
vote-log id v i m q q' h = ground (
  arith,
  lookup-insert m.view v (insert id m (at_view m.view q.msgs)) q.msgs,
  lookup-insert id i m (at_view m.view q.msgs),
)

-- A message is recorded exactly when it is not older than the newest view seen and its sender has
-- no entry in its view; anything else is a panic.
pub log-ok_iff :
    (id : ℕ) (m : AgreementMessage) (q : Quorum)
    → (is_ok (log id m q) ≡ true) ↔ ((q.max_view ≤ m.view) × (vote m.view id q ≡ none))
unfolding log vote
log-ok_iff id m q = ground arith

pub supporters-vote :
    (m : AgreementMessage) (q : Quorum) (i : ℕ)
    → IsQuorum q
    → mem i (supporters m q) ≡ true
    → (o : AgreementMessage) × (vote m.view i q ≡ some o) × (equals m o ≡ true)
unfolding supporters vote
supporters-vote m q i w h = backers-lookup m i (at_view m.view q.msgs) (w.distinct m.view) h

pub supporters-Distinct :
    (m : AgreementMessage) (q : Quorum) → IsQuorum q → Distinct (supporters m q)
unfolding supporters
supporters-Distinct m q w = backers-Distinct m (at_view m.view q.msgs) (w.distinct m.view)

pub vote-supporters :
    (m o : AgreementMessage) (q : Quorum) (i : ℕ)
    → vote m.view i q ≡ some o
    → equals m o ≡ true
    → mem i (supporters m q) ≡ true
unfolding supporters vote
vote-supporters m o q i = lookup-backers m o i (at_view m.view q.msgs)
