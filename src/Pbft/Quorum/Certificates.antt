-- ===== src/Pbft/Quorum/Certificates.antt =====
-- protocols/pbft/quorum.go: quorums over time, and the quorums of two replicas side by side.
use go_consensus.Base.{
  ℕ, ◌+◌, ◌*◌, ◌≤◌, ◌<◌, ◌≡◌, List, true, false, some, arith, length, insert, keys, lookup-insert,
  keys-insert-Distinct, mem, Distinct, Subset, ok, common, length-common, exists_outside,
  select-Distinct, mem-select, eq_bytes_iff, length_le_of_Subset,
}
use go_consensus.Pbft.Messages.{AgreementMessage, equals, contents}
use go_consensus.Pbft.Quorum.{Quorum, at_view, log, majority}
use go_consensus.Pbft.Quorum.Senders.{
  vote, supporters, IsQuorum, majority_iff, vote-log, log-ok_iff, supporters-vote, vote-supporters,
  supporters-Distinct,
}

max_view-log :
    (id : ℕ) (m : AgreementMessage) (q q' : Quorum)
    → log id m q ≡ ok q'
    → (q'.max_view ≡ m.view) × (q.max_view ≤ m.view)
unfolding log
max_view-log id m q q' h = ground arith

log-Distinct :
    (id : ℕ) (m : AgreementMessage) (q q' : Quorum) (v : ℕ)
    → Distinct (keys (at_view v q.msgs))
    → Distinct (keys (at_view m.view q.msgs))
    → log id m q ≡ ok q'
    → Distinct (keys (at_view v q'.msgs))
unfolding log at_view
log-Distinct id m q q' v d e h = ground (
  arith,
  lookup-insert m.view v (insert id m (at_view m.view q.msgs)) q.msgs,
  keys-insert-Distinct id m (at_view m.view q.msgs),
)

log-newest :
    (id : ℕ) (m : AgreementMessage) (q q' : Quorum) (v i : ℕ) (o : AgreementMessage)
    → IsQuorum q
    → log id m q ≡ ok q'
    → vote v i q' ≡ some o
    → (o.view ≡ v) × (v ≤ q'.max_view)
log-newest id m q q' v i o w h e =
    ground (arith, vote-log id v i m q q', max_view-log id m q q', w.newest v i o)

-- `log` keeps one entry for each sender and view.
pub log-IsQuorum :
    (id : ℕ) (m : AgreementMessage) (q q' : Quorum) → IsQuorum q → log id m q ≡ ok q' → IsQuorum q'
log-IsQuorum id m q q' w h = record {
  distinct = λ v. log-Distinct id m q q' v (w.distinct v) (w.distinct m.view) h;
  newest = λ v i o. log-newest id m q q' v i o w h;
}

supporters-log :
    (id : ℕ) (m o : AgreementMessage) (q q' : Quorum)
    → IsQuorum q
    → log id o q ≡ ok q'
    → Subset (supporters m q) (supporters m q')
supporters-log id m o q q' w h i s =
    let b = supporters-vote m q i w s in
    vote-supporters m b.0 q' i
      (ground (arith, b.1, vote-log id m.view i o q q' h, (log-ok_iff id o q).0)) b.2

-- A majority once reached is never lost by further messages.
pub majority-log :
    (f id : ℕ) (m o : AgreementMessage) (q q' : Quorum)
    → IsQuorum q
    → log id o q ≡ ok q'
    → majority f m q ≡ true
    → majority f m q' ≡ true
majority-log f id m o q q' w h t =
    let more =
      length_le_of_Subset (supporters m q) (supporters m q') (supporters-Distinct m q w)
        (supporters-log id m o q q' w h) in
    (majority_iff f m q').1 (omega (arith, (majority_iff f m q).0 t))

-- The senders recorded in a quorum are among `nodes`.
abbrev pub From : List ℕ → Quorum → Type 0
From nodes q = (v i : ℕ) (o : AgreementMessage) → vote v i q ≡ some o → mem i nodes ≡ true

supporters-From :
    (nodes : List ℕ) (m : AgreementMessage) (q : Quorum)
    → IsQuorum q
    → From nodes q
    → Subset (supporters m q) nodes
supporters-From nodes m q w from i h = let s = supporters-vote m q i w h in from m.view i s.0 s.1

-- Among 3f + 1 replicas, two majorities share more than f senders.
pub majority-common :
    (f : ℕ) (nodes : List ℕ) (m o : AgreementMessage) (q r : Quorum)
    → length nodes ≤ 3 * f + 1
    → IsQuorum q
    → IsQuorum r
    → From nodes q
    → From nodes r
    → majority f m q ≡ true
    → majority f o r ≡ true
    → f < length (common (supporters o r) (supporters m q))
majority-common f nodes m o q r n wq wr fq fr hq hr =
    let shared =
      length-common nodes (supporters m q) (supporters o r) (supporters-Distinct m q wq)
        (supporters-Distinct o r wr) (supporters-From nodes m q wq fq)
        (supporters-From nodes o r wr fr) in
    omega (arith, (majority_iff f m q).0 hq, (majority_iff f o r).0 hr)

-- A sender that is not faulty voted for the same thing in both quorums.
abbrev pub Consistent : List ℕ → Quorum → Quorum → Type 0
Consistent faulty q r =
    (v i : ℕ) (a b : AgreementMessage)
    → mem i faulty ≡ false
    → vote v i q ≡ some a
    → vote v i r ≡ some b
    → equals a b ≡ true

equals_hash :
    (m o a b : AgreementMessage)
    → equals m a ≡ true
    → equals o b ≡ true
    → equals a b ≡ true
    → (m.index ≡ o.index) × (contents m.command_hash ≡ contents o.command_hash)
unfolding equals
equals_hash m o a b p q r = ground (
  arith,
  eq_bytes_iff (contents m.command_hash) (contents a.command_hash),
  eq_bytes_iff (contents o.command_hash) (contents b.command_hash),
  eq_bytes_iff (contents a.command_hash) (contents b.command_hash),
)

-- Two replicas of 3f + 1, at most f of them faulty, that both see a majority in one view see it for
-- the same index and the same command hash.
pub majority_agreement :
    (f : ℕ) (nodes faulty : List ℕ) (m o : AgreementMessage) (q r : Quorum)
    → length nodes ≤ 3 * f + 1
    → length faulty ≤ f
    → IsQuorum q
    → IsQuorum r
    → From nodes q
    → From nodes r
    → Consistent faulty q r
    → m.view ≡ o.view
    → majority f m q ≡ true
    → majority f o r ≡ true
    → (m.index ≡ o.index) × (contents m.command_hash ≡ contents o.command_hash)
majority_agreement f nodes faulty m o q r n l wq wr fq fr same v hq hr =
    let both = common (supporters o r) (supporters m q) in
    let honest =
      exists_outside both faulty
        (select-Distinct (λ x. mem x (supporters o r)) (supporters m q)
          (supporters-Distinct m q wq))
        (omega (arith, majority-common f nodes m o q r n wq wr fq fr hq hr)) in
    let (inr', inq) = mem-select (λ x. mem x (supporters o r)) honest.0 (supporters m q) honest.1 in
    let a = supporters-vote m q honest.0 wq inq in
    let b = supporters-vote o r honest.0 wr inr' in
    equals_hash m o a.0 b.0 a.2 b.2 (same m.view honest.0 a.0 b.0 honest.2 a.1 (rw v b.1))
