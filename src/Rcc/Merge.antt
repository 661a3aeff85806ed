-- ===== src/Rcc/Merge.antt =====
-- protocols/rcc/rcc.go: MakeReady merges the commands of the instances in rounds.
use go_consensus.Base.{
  ℕ, suc, ◌≤◌, ◌≡◌, refl, sym, ap, subst, ◌∙◌, inl, inr, List, ◌++◌, true, Option, none, some,
  arith, if◌then◌else◌, ltb, length, all, mem, lookup, map, drop, length-append, Bool-cases,
  Outcome, ok, fault,
}
use mathlib.Core.Path.{fun_ext}
use mathlib.Core.List.{append_assoc}
use go_consensus.Peer.Applier.{ExecPacket}
use go_consensus.Peer.Interface.{Message, Ready, Protocol}
use go_consensus.Rcc.{RccMessage, Rcc, has_some, present, take_round, pop_each, collect}
use go_consensus.Rcc.Rounds.{IsOrder, Streams, nth, Rounds, round}
use go_consensus.Rcc.Queues.{runs, executed, select-append, ordered, asked, collect-Collected}
use go_consensus.Rcc.Take.{Popped, pop_each-Popped, all-mem}
use go_consensus.Rcc.Streams.{
  drop-append_le, all-append, all-executed, executed_all, Rounds-grow, head-drop, drop-drop,
  has_some-drop, all_of_mem, all-runs_line,
}

-- After `k` rounds the queue of an instance is what it has ordered, less its first `k` commands, and
-- the output, of which `out` is taken already, is that of `k` rounds.
pub record Merges {S : Type 0} (nodes : List ℕ) (streams : Streams) (k : ℕ) (out : List ExecPacket)
    (d : Rcc S) : Type 0 where
  pub queues : (j : ℕ) → mem j nodes ≡ true → lookup j d.exec_pkts ≡ some (drop k (streams j))
  pub enough : (j : ℕ) → mem j nodes ≡ true → k ≤ length (streams j)
  pub runnable : (j : ℕ) → all runs (streams j) ≡ true
  pub rounds : Rounds nodes streams k (executed (out ++ d.global_ordered_commands))

-- The streams, when MakeReady has asked every instance.
unfoldable pub grow : {S C : Type 0} → Protocol S C → Rcc S → Streams → Streams
grow p d streams j = streams j ++ asked p (lookup j d.replicators)

-- One more round if every instance has a command for it.
unfoldable pub next_round : List ℕ → Streams → ℕ → ℕ
next_round nodes streams k = if all (λ j. ltb k (length (streams j))) nodes then suc k else k

all_ordered : {S C : Type 0} (r : Outcome (Ready C × S)) → all runs (ordered r) ≡ true
all_ordered fault = refl
all_ordered (ok (rd, r)) = all-executed rd.ordered_commands

all-asked : {S C : Type 0} (p : Protocol S C) (r : Option S) → all runs (asked p r) ≡ true
all-asked p none = refl
all-asked p (some r) = all_ordered (p.make_ready r)

pub collect-Merges :
    {S C : Type 0} (p : Protocol S C) (nodes order : List ℕ) (streams : Streams) (k : ℕ)
    (out : List ExecPacket) (d d' : Rcc S) (msgs : List (Message (RccMessage C)))
    → IsOrder nodes order
    → Merges nodes streams k out d
    → collect p order d ≡ ok (msgs, d')
    → Merges nodes (grow p d streams) k out d'
unfolding grow
collect-Merges p nodes order streams k out d d' msgs o a e =
    let c =
      collect-Collected p order (λ j. drop k (streams j)) d d' msgs o.distinct
        (λ j m. a.queues j (sym (o.covers j) ∙ m)) e in
    let new = λ (j : ℕ). asked p (lookup j d.replicators) in
    record {
      queues = λ j m.
          c.queues j
          ∙ rw (o.covers j ∙ m)
              (ap some (sym (drop-append_le k (streams j) (new j) (a.enough j m))));
      enough = λ j m. omega (arith, a.enough j m, length-append (streams j) (new j));
      runnable =
          λ j. all-append (streams j) (new j) (a.runnable j) (all-asked p (lookup j d.replicators));
      rounds =
          subst (Rounds nodes (grow p d streams) k)
            (select-append out d.global_ordered_commands
              ∙ ap (λ l. executed out ++ l) (sym c.output)
              ∙ sym (select-append out d'.global_ordered_commands))
            (Rounds-grow nodes streams new k _ a.rounds);
    }

-- A round that is taken.
Popped-Merges :
    {S : Type 0} (nodes order : List ℕ) (streams : Streams) (k : ℕ) (out line : List ExecPacket)
    (d d' : Rcc S)
    → IsOrder nodes order
    → ((j : ℕ) → mem j nodes ≡ true → ltb k (length (streams j)) ≡ true)
    → Merges nodes streams k out d
    → Popped order (λ j. drop k (streams j)) line d d'
    → Merges nodes streams (suc k) out d'
Popped-Merges nodes order streams k out line d d' o more a b =
    let fronts : map (nth streams k) order ≡ map some line =
      ap (λ (f : ℕ → Option ExecPacket). map f order) (fun_ext (λ j. sym (head-drop k (streams j))))
      ∙ b.fronts in
    let runs_all = executed_all line (all-runs_line streams k order line a.runnable fronts) in
    record {
      queues = λ j m. b.queues j ∙ rw (o.covers j ∙ m) (ap some (drop-drop k (streams j)));
      enough = λ j m. ground (arith, more j m);
      runnable = a.runnable;
      rounds = round {order = order} line a.rounds o fronts (
          ap (λ l. executed (out ++ l)) b.output
          ∙ ap executed (sym (append_assoc out d.global_ordered_commands line))
          ∙ select-append (out ++ d.global_ordered_commands) line
          ∙ ap (λ l. executed (out ++ d.global_ordered_commands) ++ l) runs_all);
    }

module _ {S : Type 0} (nodes order : List ℕ) (streams : Streams) (k : ℕ) (out : List ExecPacket)
    (d : Rcc S) (o : IsOrder nodes order) (a : Merges nodes streams k out d) where
  has_some-queue :
      (j : ℕ) → mem j nodes ≡ true → has_some (lookup j d.exec_pkts) ≡ ltb k (length (streams j))
  has_some-queue j m = ap has_some (a.queues j m) ∙ has_some-drop k (streams j)

  present_lem : present order d ≡ all (λ j. ltb k (length (streams j))) nodes
  unfolding present
  present_lem = elim (Bool-cases (all (λ j. ltb k (length (streams j))) nodes)) [
    | inl y ↦
        all_of_mem (λ id. has_some (lookup id d.exec_pkts)) order
          (λ j m.
            let n = sym (o.covers j) ∙ m in
            has_some-queue j n ∙ all-mem (λ j. ltb k (length (streams j))) nodes j y n)
        ∙ sym y
    | inr n ↦ elim (Bool-cases (all (λ id. has_some (lookup id d.exec_pkts)) order)) [
      | inr m ↦ m ∙ sym n
      | inl y ↦ cc (
          all_of_mem (λ j. ltb k (length (streams j))) nodes
            (λ j m.
              sym (has_some-queue j m)
              ∙ all-mem (λ id. has_some (lookup id d.exec_pkts)) order j y (o.covers j ∙ m)))
    ]
  ]

pub take_round-Merges :
    {S : Type 0} (nodes order order' : List ℕ) (streams : Streams) (k : ℕ) (out : List ExecPacket)
    (d : Rcc S)
    → IsOrder nodes order
    → IsOrder nodes order'
    → Merges nodes streams k out d
    → Merges nodes streams (next_round nodes streams k) out (take_round order order' d)
unfolding take_round next_round
take_round-Merges nodes order order' streams k out d o o' a =
    let full = present_lem nodes order streams k out d o a in
    elim (Bool-cases (all (λ j. ltb k (length (streams j))) nodes)) [
      | inr n ↦ rw (full ∙ n, n, take_round, next_round) a
      | inl y ↦
          let more = λ (j : ℕ) (m : mem j nodes ≡ true).
            all-mem (λ j. ltb k (length (streams j))) nodes j y m in
          let (line, b) =
            pop_each-Popped order' (λ j. drop k (streams j)) d o'.distinct
              (λ j m. a.queues j (sym (o'.covers j) ∙ m))
              (λ j m. has_some-drop k (streams j) ∙ more j (sym (o'.covers j) ∙ m)) in
          rw (full ∙ y, y, take_round, next_round)
            (Popped-Merges nodes order' streams k out line d (pop_each order' d) o' more a b)
    ]
