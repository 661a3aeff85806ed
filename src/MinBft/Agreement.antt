-- ===== src/MinBft/Agreement.antt =====
-- protocols/minbft/quorum.go: the quorums of two replicas side by side.
use go_consensus.Base.{
  ℕ, ◌+◌, ◌*◌, ◌≤◌, ◌<◌, ◌≡◌, refl, inl, inr, List, [], ◌∷◌, true, some, arith, ◌==◌, if◌then◌else◌,
  length, count, Map, lookup, keys, values, lookup-insert, mem, Distinct, mem-keys-lookup,
  keys-insert-Distinct, Subset, common, length-common, exists_outside, select-Distinct, mem-select,
  ok, subst, sym, Bool-cases, eq_bytes_iff,
}
use go_consensus.Pbft.Messages.{contents}
use go_consensus.MinBft.Quorum.{
  NormalMessage, equals, Quorum, at_view, add_first, log, majority, support, majority_iff_support,
  vote,
}

-- The senders whose entry equals the message.
unfoldable pub backers : NormalMessage → Map NormalMessage → List ℕ
backers m [] = []
backers m ((i, o) ∷ pairs) = let rest = backers m pairs in if equals m o then i ∷ rest else rest

length-backers :
    (m : NormalMessage) (pairs : Map NormalMessage)
    → length (backers m pairs) ≡ count (equals m) (values pairs)
unfolding backers values
length-backers m [] = refl
length-backers m ((i, o) ∷ pairs) = ground (arith, length-backers m pairs)

mem-backers_key :
    (m : NormalMessage) (i : ℕ) (pairs : Map NormalMessage)
    → mem i (backers m pairs) ≡ true
    → mem i (keys pairs) ≡ true
unfolding backers keys
mem-backers_key m i [] h = h
mem-backers_key m i ((j, o) ∷ pairs) h = ground (arith, mem-backers_key m i pairs)

backers-Distinct :
    (m : NormalMessage) (pairs : Map NormalMessage)
    → Distinct (keys pairs)
    → Distinct (backers m pairs)
unfolding backers keys
backers-Distinct m [] d = tt
backers-Distinct m ((j, o) ∷ pairs) d =
    ground (arith, backers-Distinct m pairs, mem-backers_key m j pairs)

backers-lookup :
    (m : NormalMessage) (i : ℕ) (pairs : Map NormalMessage)
    → Distinct (keys pairs)
    → mem i (backers m pairs) ≡ true
    → (o : NormalMessage) × (lookup i pairs ≡ some o) × (equals m o ≡ true)
unfolding backers keys lookup
backers-lookup m i [] d h = cc
backers-lookup m i ((j, o) ∷ pairs) d h = elim (Bool-cases (j == i)) [
  | inl e ↦ (o, rw e, ground (arith, mem-backers_key m i pairs, mem-keys-lookup i pairs))
  | inr e ↦ rw e (backers-lookup m i pairs d.1 (ground arith))
]

-- No sender has two entries in a view.
abbrev pub OneEach : Quorum → Type 0
OneEach q = (v : ℕ) → Distinct (keys (at_view v q.msgs))

add_first-Distinct :
    (id : ℕ) (m : NormalMessage) (pairs : Map NormalMessage)
    → Distinct (keys pairs)
    → Distinct (keys (add_first id m pairs))
unfolding add_first
add_first-Distinct id m pairs d = ground (arith, keys-insert-Distinct id m pairs)

-- `log` keeps one entry for each sender and view.
pub log-OneEach :
    (id : ℕ) (m : NormalMessage) (q q' : Quorum) → log id m q ≡ ok q' → OneEach q → OneEach q'
unfolding log at_view
log-OneEach id m q q' h d v = ground (
  arith,
  lookup-insert m.view v (add_first id m (at_view m.view q.msgs)) q.msgs,
  add_first-Distinct id m (at_view m.view q.msgs) (d m.view),
  d v,
)

-- The senders recorded in a quorum are among `nodes`.
abbrev pub From : List ℕ → Quorum → Type 0
From nodes q = (v i : ℕ) (o : NormalMessage) → vote v i q ≡ some o → mem i nodes ≡ true

-- A sender that is recorded in both quorums sent the same to both.
abbrev pub SameVotes : Quorum → Quorum → Type 0
SameVotes q r =
    (v i : ℕ) (a b : NormalMessage) → vote v i q ≡ some a → vote v i r ≡ some b → equals a b ≡ true

supporters : NormalMessage → Quorum → List ℕ
supporters m q = backers m (at_view m.view q.msgs)

supporters-vote :
    (m : NormalMessage) (q : Quorum) (i : ℕ)
    → OneEach q
    → mem i (supporters m q) ≡ true
    → (o : NormalMessage) × (vote m.view i q ≡ some o) × (equals m o ≡ true)
unfolding supporters vote
supporters-vote m q i d h = backers-lookup m i (at_view m.view q.msgs) (d m.view) h

supporters-Distinct : (m : NormalMessage) (q : Quorum) → OneEach q → Distinct (supporters m q)
unfolding supporters
supporters-Distinct m q d = backers-Distinct m (at_view m.view q.msgs) (d m.view)

supporters-From :
    (nodes : List ℕ) (m : NormalMessage) (q : Quorum)
    → OneEach q
    → From nodes q
    → Subset (supporters m q) nodes
supporters-From nodes m q d from i h = let s = supporters-vote m q i d h in from m.view i s.0 s.1

majority-supporters :
    (f : ℕ) (m : NormalMessage) (q : Quorum) → majority f m q ≡ true → f < length (supporters m q)
unfolding supporters support
majority-supporters f m q h =
    omega (arith, (majority_iff_support f m q).0 h, length-backers m (at_view m.view q.msgs))

equals_hash :
    (m o a b : NormalMessage)
    → equals m a ≡ true
    → equals o b ≡ true
    → equals a b ≡ true
    → (m.order ≡ o.order) × (contents m.command_hash ≡ contents o.command_hash)
unfolding equals
equals_hash m o a b p q r = ground (
  arith,
  eq_bytes_iff (contents m.command_hash) (contents a.command_hash),
  eq_bytes_iff (contents o.command_hash) (contents b.command_hash),
  eq_bytes_iff (contents a.command_hash) (contents b.command_hash),
)

-- Among 2f + 1 replicas, two majorities share a sender.
majority-shared :
    (f : ℕ) (nodes : List ℕ) (m o : NormalMessage) (q r : Quorum)
    → length nodes ≤ 2 * f + 1
    → OneEach q
    → OneEach r
    → From nodes q
    → From nodes r
    → majority f m q ≡ true
    → majority f o r ≡ true
    → (i : ℕ) × (mem i (supporters o r) ≡ true) × (mem i (supporters m q) ≡ true)
majority-shared f nodes m o q r n dq dr fq fr hq hr =
    let shared =
      length-common nodes (supporters m q) (supporters o r) (supporters-Distinct m q dq)
        (supporters-Distinct o r dr) (supporters-From nodes m q dq fq)
        (supporters-From nodes o r dr fr) in
    let found =
      exists_outside (common (supporters o r) (supporters m q)) []
        (select-Distinct (λ x. mem x (supporters o r)) (supporters m q)
          (supporters-Distinct m q dq))
        (omega (arith, shared, majority-supporters f m q hq, majority-supporters f o r hr)) in
    let (in_r, in_q) = mem-select (λ x. mem x (supporters o r)) found.0 (supporters m q) found.1 in
    (found.0, in_r, in_q)

-- Two MinBFT replicas of at most 2f + 1, whose senders told both of them the same, which is what the
-- counters of the enclaves are for, that both see a majority in one view see it for the same slot and
-- the same command hash.
pub slot_agreement :
    (f : ℕ) (nodes : List ℕ) (m o : NormalMessage) (q r : Quorum)
    → length nodes ≤ 2 * f + 1
    → OneEach q
    → OneEach r
    → From nodes q
    → From nodes r
    → SameVotes q r
    → m.view ≡ o.view
    → majority f m q ≡ true
    → majority f o r ≡ true
    → (m.order ≡ o.order) × (contents m.command_hash ≡ contents o.command_hash)
slot_agreement f nodes m o q r n dq dr fq fr same v hq hr =
    let (i, in_r, in_q) = majority-shared f nodes m o q r n dq dr fq fr hq hr in
    let (a, va, ma) = supporters-vote m q i dq in_q in
    let (b, vb, mb) = supporters-vote o r i dr in_r in
    equals_hash m o a b ma mb (same m.view i a b va (subst (λ x. vote x i r ≡ some b) (sym v) vb))
