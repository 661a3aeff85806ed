-- ===== src/Rcc/Take.antt =====
-- protocols/rcc/rcc.go: the end of MakeReady, which takes one command of every instance.
use go_consensus.Base.{
  ℕ, ◌≡◌, refl, sym, ap, ◌∙◌, List, [], ◌∷◌, ◌++◌, Bool, true, false, some, arith, if◌then◌else◌,
  all, mem, Distinct, lookup, lookup-insert, map, get_elem?, drop,
}
use mathlib.Core.List.{append-nil, append_assoc}
use go_consensus.Peer.Applier.{ExecPacket}
use go_consensus.Rcc.{Rcc, has_some, pop, pop_front, pop_each}

pub record Popped {S : Type 0} (order : List ℕ) (q : ℕ → List ExecPacket) (line : List ExecPacket)
    (d d' : Rcc S) : Type 0 where
  pub queues :
      (j : ℕ)
      → lookup j d'.exec_pkts ≡ (if mem j order then some (drop 1 (q j)) else lookup j d.exec_pkts)
  pub fronts : map (λ j. get_elem? (q j) 0) order ≡ map some line
  pub output : d'.global_ordered_commands ≡ d.global_ordered_commands ++ line
  pub kept : d'.replicators ≡ d.replicators

-- A test that holds of a list holds of its members.
pub all-mem : (f : ℕ → Bool) (xs : List ℕ) (j : ℕ) → all f xs ≡ true → mem j xs ≡ true → f j ≡ true
all-mem f [] j h m = cc
all-mem f (x ∷ xs) j h m = ground (arith, all-mem f xs j)

module _ {S : Type 0} where
  pop_front-Popped :
      (id : ℕ) (q : ℕ → List ExecPacket) (pkts : List ExecPacket) (d : Rcc S)
      → q id ≡ pkts
      → has_some (some pkts) ≡ true
      → (x : ExecPacket) × Popped (id ∷ []) q (x ∷ []) d (pop_front id pkts d)
  unfolding pop_front
  pop_front-Popped id q [] d e h = cc
  pop_front-Popped id q (x ∷ pkts) d e h = (
    x,
    record {
      queues = λ j. ground (arith, lookup-insert id j pkts d.exec_pkts);
      fronts = rw e;
      output = refl;
      kept = refl;
    },
  )

  pop-Popped :
      (id : ℕ) (q : ℕ → List ExecPacket) (d : Rcc S)
      → lookup id d.exec_pkts ≡ some (q id)
      → has_some (some (q id)) ≡ true
      → (x : ExecPacket) × Popped (id ∷ []) q (x ∷ []) d (pop id d)
  unfolding pop
  pop-Popped id q d l h = rw (l, pop) (pop_front-Popped id q (q id) d refl h)

  Popped-cons :
      (id : ℕ) (order : List ℕ) (q : ℕ → List ExecPacket) (x : ExecPacket) (line : List ExecPacket)
      (d d1 d' : Rcc S)
      → mem id order ≡ false
      → Popped (id ∷ []) q (x ∷ []) d d1
      → Popped order q line d1 d'
      → Popped (id ∷ order) q (x ∷ line) d d'
  Popped-cons id order q x line d d1 d' n a b = record {
    queues = λ j. b.queues j ∙ ground (arith, a.queues j);
    fronts =
        ap (λ l. l ++ map (λ j. get_elem? (q j) 0) order) a.fronts ∙ ap (λ l. some x ∷ l) b.fronts;
    output =
        b.output
        ∙ ap (λ l. l ++ line) a.output
        ∙ append_assoc d.global_ordered_commands (x ∷ []) line;
    kept = b.kept ∙ a.kept;
  }

  pub pop_each-Popped :
      (order : List ℕ) (q : ℕ → List ExecPacket) (d : Rcc S)
      → Distinct order
      → ((j : ℕ) → mem j order ≡ true → lookup j d.exec_pkts ≡ some (q j))
      → ((j : ℕ) → mem j order ≡ true → has_some (some (q j)) ≡ true)
      → (line : List ExecPacket) × Popped order q line d (pop_each order d)
  unfolding pop_each
  pop_each-Popped [] q d t l h = (
    [],
    record {
      queues = λ j. refl;
      fronts = refl;
      output = sym (append-nil d.global_ordered_commands);
      kept = refl;
    },
  )
  pop_each-Popped (id ∷ order) q d t l h =
      let (x, a) = pop-Popped id q d (l id (ground arith)) (h id (ground arith)) in
      let (line, b) =
        pop_each-Popped order q (pop id d) t.1 (λ j n. a.queues j ∙ ground (arith, l j))
          (λ j n. h j (ground arith)) in
      (x ∷ line, Popped-cons id order q x line d (pop id d) (pop_each order (pop id d)) t.0 a b)
