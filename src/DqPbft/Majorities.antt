-- ===== src/DqPbft/Majorities.antt =====
-- protocols/dqpbft/quorum.go: the quorums of the global order are quorums of PBFT.
use go_consensus.Base.{
  mem, Bytes, ℕ, ◌+◌, ◌*◌, ◌≤◌, ◌≡◌, refl, sym, ap, ◌∙◌, List, [], ◌∷◌, true, Option, none, some,
  arith, ltb, length, count, Map, lookup, insert, values, ok, Option-cases, inl, inr, ok-injective,
  if_ok,
}
use go_consensus.DqPbft.Messages.{OAgreementMessage, o_equals, bytes_of}
use go_consensus.DqPbft.Quorum.{Quorum, new_quorum}
use go_consensus.DqPbft.Quorum
use go_consensus.DqPbft.Ordering.{o_log, o_majority}
use go_consensus.Pbft.Messages.{AgreementMessage, prepare, equals, contents}
use go_consensus.Pbft.Quorum.{
  new_quorum as empty_pbft, Quorum as PbftQuorum, log, majority, at_view,
}
use go_consensus.Pbft.Quorum.Senders.{IsQuorum, vote, vote-log, new_quorum-IsQuorum}
use go_consensus.Pbft.Quorum.Certificates.{From, Consistent, majority_agreement, log-IsQuorum}

-- The message of PBFT with the view, the index and the hash of a message about the global order.
abbrev pub as_pbft : OAgreementMessage → AgreementMessage
as_pbft m = record {
  view = m.view;
  index = m.index;
  type = prepare;
  command = none;
  command_hash = m.command_hash;
}

module _ {V W : Type 0} (f : V → W) where
  abbrev pub map_values : Map V → Map W
  map_values [] = []
  map_values ((k, x) ∷ m) = (k, f x) ∷ map_values m

  abbrev pub map_option : Option V → Option W
  map_option none = none
  map_option (some x) = some (f x)

  lookup-map_values : (k : ℕ) (m : Map V) → lookup k (map_values m) ≡ map_option (lookup k m)
  unfolding lookup
  lookup-map_values k [] = refl
  lookup-map_values k ((j, x) ∷ m) = ground (arith, lookup-map_values k m)

  insert-map_values :
      (k : ℕ) (x : V) (m : Map V) → map_values (insert k x m) ≡ insert k (f x) (map_values m)
  unfolding insert
  insert-map_values k x [] = refl
  insert-map_values k x ((j, y) ∷ m) = ground (arith, insert-map_values k x m)

  length-map_values : (m : Map V) → length (map_values m) ≡ length m
  length-map_values [] = refl
  length-map_values ((j, y) ∷ m) = omega (arith, length-map_values m)

-- The quorum of PBFT with the same messages.
abbrev pub as_quorum : Quorum OAgreementMessage → PbftQuorum
as_quorum q = record { max_view = q.max_view; msgs = map_values (map_values as_pbft) q.msgs }

equals-as_pbft : (m o : OAgreementMessage) → equals (as_pbft m) (as_pbft o) ≡ o_equals m o
unfolding equals o_equals
equals-as_pbft m o = ground arith

count-as_pbft :
    (m : OAgreementMessage) (pairs : Map OAgreementMessage)
    → count (equals (as_pbft m)) (values (map_values as_pbft pairs))
      ≡ count (o_equals m) (values pairs)
unfolding values
count-as_pbft m [] = refl
count-as_pbft m ((i, o) ∷ pairs) = ground (arith, equals-as_pbft m o, count-as_pbft m pairs)

-- A majority for the global order is one of PBFT.
majority-as_quorum :
    (f : ℕ) (m : OAgreementMessage) (q : Quorum OAgreementMessage)
    → majority f (as_pbft m) (as_quorum q) ≡ o_majority f m q
unfolding majority o_majority
majority-as_quorum f m q = elim (Option-cases (lookup m.view q.msgs)) [
  | inl e ↦
      let e' =
        lookup-map_values (map_values as_pbft) m.view q.msgs
        ∙ ap (map_option (map_values as_pbft)) e in
      rw (e, e', majority, Quorum.majority) refl
  | inr (pairs, e) ↦
      let e' =
        lookup-map_values (map_values as_pbft) m.view q.msgs
        ∙ ap (map_option (map_values as_pbft)) e in
      rw (e, e', majority, Quorum.majority)
        (rw (length-map_values as_pbft pairs, count-as_pbft m pairs) refl)
]

at_view-as_quorum :
    (v : ℕ) (msgs : Map (Map OAgreementMessage))
    → at_view v (map_values (map_values as_pbft) msgs) ≡ map_values as_pbft (Quorum.at_view v msgs)
unfolding at_view Quorum.at_view
at_view-as_quorum v msgs = elim (Option-cases (lookup v msgs)) [
  | inl e ↦
      let e' =
        lookup-map_values (map_values as_pbft) v msgs ∙ ap (map_option (map_values as_pbft)) e in
      rw (e, e', at_view, Quorum.at_view) refl
  | inr (pairs, e) ↦
      let e' =
        lookup-map_values (map_values as_pbft) v msgs ∙ ap (map_option (map_values as_pbft)) e in
      rw (e, e', at_view, Quorum.at_view) refl
]

log-as_quorum :
    (id : ℕ) (m : OAgreementMessage) (q q' : Quorum OAgreementMessage)
    → o_log id m q ≡ ok q'
    → log id (as_pbft m) (as_quorum q) ≡ ok (as_quorum q')
unfolding log o_log
log-as_quorum id m q q' h = elim (if_ok (ltb m.view q.max_view) _ _ h) [
  | inl (b, g) ↦ cc
  | inr (b, g) ↦ elim (Option-cases (lookup id (Quorum.at_view m.view q.msgs))) [
    | inr (old, e) ↦ let k = rw (e, o_log) at g in cc (k)
    | inl e ↦
        let same = ok-injective (rw (e, o_log) at g) in
        let a = at_view-as_quorum m.view q.msgs in
        let free : lookup id (at_view m.view (as_quorum q).msgs) ≡ none =
          ap (lookup id) a
          ∙ lookup-map_values as_pbft id (Quorum.at_view m.view q.msgs)
          ∙ ap (map_option as_pbft) e in
        let entry =
          ap (insert id (as_pbft m)) a
          ∙ sym (insert-map_values as_pbft id m (Quorum.at_view m.view q.msgs)) in
        let table =
          ap (λ x. insert m.view x (as_quorum q).msgs) entry
          ∙ sym (
              insert-map_values (map_values as_pbft) m.view
                (insert id m (Quorum.at_view m.view q.msgs)) q.msgs) in
        rw (b, free, log)
          (ap (λ x. ok (record { max_view = m.view; msgs = x })) table
            ∙ ap (λ x. ok (as_quorum x)) same)
  ]
]

-- The quorums that messages of `nodes` build.
pub data Logged (nodes : List ℕ) : Quorum OAgreementMessage → Type 0 where
  empty : Logged nodes new_quorum
  logs :
      {q q' : Quorum OAgreementMessage} (id : ℕ) (m : OAgreementMessage)
      → Logged nodes q
      → mem id nodes ≡ true
      → o_log id m q ≡ ok q'
      → Logged nodes q'

Logged-IsQuorum :
    (nodes : List ℕ) (q : Quorum OAgreementMessage) → Logged nodes q → IsQuorum (as_quorum q)
unfolding new_quorum empty_pbft
Logged-IsQuorum nodes q empty = new_quorum-IsQuorum
Logged-IsQuorum nodes q (logs {q = p} id m l i h) =
    log-IsQuorum id (as_pbft m) (as_quorum p) (as_quorum q) (Logged-IsQuorum nodes p l)
      (log-as_quorum id m p q h)

Logged-From :
    (nodes : List ℕ) (q : Quorum OAgreementMessage) → Logged nodes q → From nodes (as_quorum q)
unfolding new_quorum vote at_view lookup
Logged-From nodes q empty v j o e = cc
Logged-From nodes q (logs {q = p} id m l i h) v j o e = ground (
  arith,
  vote-log id v j (as_pbft m) (as_quorum p) (as_quorum q) (log-as_quorum id m p q h),
  Logged-From nodes p l v j o,
)

bytes_of-contents : (h : Option Bytes) → bytes_of h ≡ contents h
bytes_of-contents none = refl
bytes_of-contents (some b) = refl

-- Two replicas of at most 3f + 1, of whose senders at most f are faulty, that both see a majority
-- for the global order in one view see it for the same index and the same hash of the instances.
pub o_majority_agreement :
    (f : ℕ) (nodes faulty : List ℕ) (m o : OAgreementMessage) (q r : Quorum OAgreementMessage)
    → length nodes ≤ 3 * f + 1
    → length faulty ≤ f
    → Logged nodes q
    → Logged nodes r
    → Consistent faulty (as_quorum q) (as_quorum r)
    → m.view ≡ o.view
    → o_majority f m q ≡ true
    → o_majority f o r ≡ true
    → (m.index ≡ o.index) × (bytes_of m.command_hash ≡ bytes_of o.command_hash)
o_majority_agreement f nodes faulty m o q r n l a b c v h k =
    let (i, e) =
      majority_agreement f nodes faulty (as_pbft m) (as_pbft o) (as_quorum q) (as_quorum r) n l
        (Logged-IsQuorum nodes q a) (Logged-IsQuorum nodes r b) (Logged-From nodes q a)
        (Logged-From nodes r b) c v (majority-as_quorum f m q ∙ h) (majority-as_quorum f o r ∙ k) in
    (i, bytes_of-contents m.command_hash ∙ e ∙ sym (bytes_of-contents o.command_hash))
