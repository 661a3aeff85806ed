-- ===== src/Tests/Quorums.antt =====
-- pbft/quorum.go at concrete quorums.
use go_consensus.Base.{
  ℕ, ◌≡◌, refl, [], ◌∷◌, true, none, some, arith, Outcome, ok, fault, ◌>>=◌, lookup, insert, keys,
  values, eq_bytes,
}
use go_consensus.Pbft.Messages.{AgreementMessage, commit, equals, contents}
use go_consensus.Pbft.Quorum.{Quorum, new_quorum, at_view, log, majority}
use go_consensus.Pbft.Quorum.Senders.{vote, IsQuorum, new_quorum-IsQuorum}
use go_consensus.Pbft.Quorum.Certificates.{log-IsQuorum, From, Consistent, majority_agreement}
use go_consensus.Tests.Scenario.{about}

program : Unit {0}
unfolding new_quorum at_view log majority equals lookup insert keys values eq_bytes
program = tt

abbrev m : AgreementMessage
m = about commit none

abbrev pub or_empty : Outcome Quorum → Quorum
or_empty (ok q) = q
or_empty fault = record { max_view = 0; msgs = [] }

-- Senders 0, 1 and 2 have sent the commit.
abbrev three : Quorum
three = record { max_view = 0; msgs = (0, (0, m) ∷ (1, m) ∷ (2, m) ∷ []) ∷ [] }

logged : (log 0 m new_quorum >>= log 1 m) >>= log 2 m ≡ ok three
unfolding program
logged = refl

three-majority : majority 1 m three ≡ true
unfolding program
three-majority = refl

twice : log 2 m three ≡ fault
unfolding program
twice = refl

abbrev one : Quorum
one = record { max_view = 0; msgs = (0, (0, m) ∷ []) ∷ [] }

abbrev two : Quorum
two = record { max_view = 0; msgs = (0, (0, m) ∷ (1, m) ∷ []) ∷ [] }

pub three-IsQuorum : IsQuorum three
unfolding program
three-IsQuorum =
    log-IsQuorum 2 m two three
      (log-IsQuorum 1 m one two (log-IsQuorum 0 m new_quorum one new_quorum-IsQuorum refl) refl)
      refl

three-From : From (0 ∷ 1 ∷ 2 ∷ 3 ∷ []) three
unfolding program vote
three-From v i o h = ground arith

votes_of_three : (v i : ℕ) (o : AgreementMessage) → vote v i three ≡ some o → o ≡ m
unfolding program vote
votes_of_three v i o h = ground arith

-- Another replica's view of the same commits.
abbrev others : Quorum
others = record { max_view = 0; msgs = (0, (1, m) ∷ (2, m) ∷ (3, m) ∷ []) ∷ [] }

others-IsQuorum : IsQuorum others
unfolding program
others-IsQuorum =
    log-IsQuorum 3 m (record { max_view = 0; msgs = (0, (1, m) ∷ (2, m) ∷ []) ∷ [] }) others
      (log-IsQuorum 2 m (record { max_view = 0; msgs = (0, (1, m) ∷ []) ∷ [] }) _
        (log-IsQuorum 1 m new_quorum _ new_quorum-IsQuorum refl) refl)
      refl

others-From : From (0 ∷ 1 ∷ 2 ∷ 3 ∷ []) others
unfolding program vote
others-From v i o h = ground arith

votes_of_others : (v i : ℕ) (o : AgreementMessage) → vote v i others ≡ some o → o ≡ m
unfolding program vote
votes_of_others v i o h = ground arith

others-majority : majority 1 m others ≡ true
unfolding program
others-majority = refl

both-Consistent : Consistent (3 ∷ []) three others
unfolding program
both-Consistent v i a b honest p q = rw (votes_of_three v i a p, votes_of_others v i b q)

majority_agreement_example :
    (m.index ≡ m.index) × (contents m.command_hash ≡ contents m.command_hash)
majority_agreement_example =
    majority_agreement 1 (0 ∷ 1 ∷ 2 ∷ 3 ∷ []) (3 ∷ []) m m three others (omega arith) (omega arith)
      three-IsQuorum others-IsQuorum three-From others-From both-Consistent refl three-majority
      others-majority

abbrev four : Quorum
four = record { max_view = 0; msgs = (0, (0, m) ∷ (1, m) ∷ (2, m) ∷ (3, m) ∷ []) ∷ [] }
