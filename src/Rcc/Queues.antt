-- ===== src/Rcc/Queues.antt =====
-- protocols/rcc/rcc.go: what the loops of MakeReady do to the queues.
use go_consensus.Base.{
  ℕ, ◌≡◌, refl, ap, subst, ◌∙◌, inl, inr, List, [], ◌∷◌, ◌++◌, Bool, true, false, not, Option, none,
  some, is_some, arith, ◌==◌, if◌then◌else◌, select, mem, Distinct, Map, lookup, insert,
  lookup-insert, Bool-cases, Option-cases, Outcome, ok, fault, ok_of_bind, ok-injective,
}
use mathlib.Core.List.{append-nil, append_assoc}
use go_consensus.Peer.Applier.{ExecPacket}
use go_consensus.Peer.Interface.{Message, Ready, Protocol}
use go_consensus.Rcc.{RccMessage, Rcc, push, push_all, collect_one, collect}

-- A command to be executed.
abbrev pub runs : ExecPacket → Bool
runs pkt = not pkt.no_exec

abbrev pub executed : List ExecPacket → List ExecPacket
executed pkts = select runs pkts

pub select-append : (xs ys : List ExecPacket) → executed (xs ++ ys) ≡ executed xs ++ executed ys
select-append [] ys = refl
select-append (x ∷ xs) ys = ground (arith, select-append xs ys)

-- What an instance has ordered when MakeReady asks it.
abbrev pub ordered : {S C : Type 0} → Outcome (Ready C × S) → List ExecPacket
ordered fault = []
ordered (ok (rd, r)) = executed rd.ordered_commands

abbrev pub asked : {S C : Type 0} → Protocol S C → Option S → List ExecPacket
asked p none = []
asked p (some r) = ordered (p.make_ready r)

module _ {S : Type 0} where
  -- The packets go to the queue of the instance, or are output.
  pub record Pushed (id : ℕ) (q pkts : List ExecPacket) (d d' : Rcc S) : Type 0 where
    pub queues :
        (j : ℕ)
        → lookup j d'.exec_pkts
          ≡ (if id == j then some (q ++ executed pkts) else lookup j d.exec_pkts)
    pub output : executed d'.global_ordered_commands ≡ executed d.global_ordered_commands
    pub kept : d'.replicators ≡ d.replicators

  push-Pushed :
      (id : ℕ) (q : List ExecPacket) (pkt : ExecPacket) (d d' : Rcc S)
      → lookup id d.exec_pkts ≡ some q
      → push id pkt d ≡ ok d'
      → Pushed id q (pkt ∷ []) d d'
  unfolding push
  push-Pushed id q pkt d d' l e = elim (Bool-cases (not pkt.no_exec)) [
    | inl y ↦ subst (Pushed id q (pkt ∷ []) d) (ok-injective (rw (y, l, push) at e)) (record {
      queues = λ j. ground (arith, lookup-insert id j (q ++ pkt ∷ []) d.exec_pkts);
      output = refl;
      kept = refl;
    })
    | inr n ↦ subst (Pushed id q (pkt ∷ []) d) (ok-injective (rw (n, push) at e)) (record {
      queues = λ j. ground (arith, append-nil q);
      output =
          select-append d.global_ordered_commands (pkt ∷ [])
          ∙ rw n (append-nil (executed d.global_ordered_commands));
      kept = refl;
    })
  ]

  Pushed-trans :
      (id : ℕ) (q : List ExecPacket) (pkt : ExecPacket) (pkts : List ExecPacket) (d d1 d' : Rcc S)
      → Pushed id q (pkt ∷ []) d d1
      → Pushed id (q ++ executed (pkt ∷ [])) pkts d1 d'
      → Pushed id q (pkt ∷ pkts) d d'
  Pushed-trans id q pkt pkts d d1 d' a b = record {
    queues = λ j.
        b.queues j
        ∙ ground (arith, a.queues j, append_assoc q (executed (pkt ∷ [])) (executed pkts));
    output = b.output ∙ a.output;
    kept = b.kept ∙ a.kept;
  }

  pub push_all-Pushed :
      (id : ℕ) (q pkts : List ExecPacket) (d d' : Rcc S)
      → lookup id d.exec_pkts ≡ some q
      → push_all id pkts d ≡ ok d'
      → Pushed id q pkts d d'
  unfolding push_all
  push_all-Pushed id q [] d d' l e =
      subst (Pushed id q [] d) (ok-injective e)
        (record { queues = λ j. ground (arith, append-nil q); output = refl; kept = refl })
  push_all-Pushed id q (pkt ∷ pkts) d d' l e =
      let (d1, f, r) = ok_of_bind (push id pkt d) (push_all id pkts) e in
      let a = push-Pushed id q pkt d d1 l f in
      Pushed-trans id q pkt pkts d d1 d' a
        (push_all-Pushed id (q ++ executed (pkt ∷ [])) pkts d1 d' (a.queues id ∙ ground arith) r)

module _ {S C : Type 0} (p : Protocol S C) where
  record Asked (id : ℕ) (q : List ExecPacket) (d d' : Rcc S) : Type 0 where
    queues :
        (j : ℕ)
        → lookup j d'.exec_pkts ≡ (
            if id == j then some (q ++ asked p (lookup id d.replicators)) else lookup j d.exec_pkts)
    output : executed d'.global_ordered_commands ≡ executed d.global_ordered_commands
    keys : (j : ℕ) → is_some (lookup j d'.replicators) ≡ is_some (lookup j d.replicators)
    others : (j : ℕ) → (id == j) ≡ false → lookup j d'.replicators ≡ lookup j d.replicators

  after_ready :
      (id : ℕ) (q : List ExecPacket) (d d1 : Rcc S) (r r' : S) (rd : Ready C)
      → lookup id d.replicators ≡ some r
      → p.make_ready r ≡ ok (rd, r')
      → Pushed id q rd.ordered_commands d d1
      → Asked id q d
          (record d1 { replicators = insert id (p.clear_executed_commands r') d1.replicators })
  after_ready id q d d1 r r' rd s m pushed =
      let stored = λ (j : ℕ).
        lookup-insert id j (p.clear_executed_commands r') d1.replicators
        ∙ ap (λ (l : Map S). if id == j then some (p.clear_executed_commands r') else lookup j l)
            pushed.kept in
      let from : asked p (lookup id d.replicators) ≡ executed rd.ordered_commands = rw (s, m) in
      record {
        queues = λ j. rw from (pushed.queues j);
        output = pushed.output;
        keys = λ j. ground (arith, stored j);
        others = λ j o. ground (arith, stored j);
      }

  collect_one-Asked :
      (id : ℕ) (q : List ExecPacket) (d d' : Rcc S) (msgs : List (Message (RccMessage C)))
      → lookup id d.exec_pkts ≡ some q
      → collect_one p id d ≡ ok (msgs, d')
      → Asked id q d d'
  unfolding collect_one
  collect_one-Asked id q d d' msgs l e = elim (Option-cases (lookup id d.replicators)) [
    | inl n ↦ cc (rw (n, collect_one) at e)
    | inr (r, s) ↦
        let ((rd, r'), m, f) = ok_of_bind (p.make_ready r) _ (rw (s, collect_one) at e) in
        let (d1, g, h) = ok_of_bind (push_all id rd.ordered_commands d) _ f in
        let same = ap (λ (x : List (Message (RccMessage C)) × Rcc S). x.1) (ok-injective h) in
        subst (Asked id q d) same
          (after_ready id q d d1 r r' rd s m (push_all-Pushed id q rd.ordered_commands d d1 l g))
  ]

  -- After the first loop of MakeReady over an order, what an instance of it had ordered stands at the
  -- end of its queue.
  pub record Collected (order : List ℕ) (q : ℕ → List ExecPacket) (d d' : Rcc S) : Type 0 where
    pub queues :
        (j : ℕ)
        → lookup j d'.exec_pkts ≡ (
            if mem j order
            then some (q j ++ asked p (lookup j d.replicators))
            else lookup j d.exec_pkts)
    pub output : executed d'.global_ordered_commands ≡ executed d.global_ordered_commands
    pub keys : (j : ℕ) → is_some (lookup j d'.replicators) ≡ is_some (lookup j d.replicators)

  Collected-trans :
      (id : ℕ) (order : List ℕ) (q : ℕ → List ExecPacket) (d d1 d' : Rcc S)
      → mem id order ≡ false
      → Asked id (q id) d d1
      → Collected order q d1 d'
      → Collected (id ∷ order) q d d'
  Collected-trans id order q d d1 d' n a b = record {
    queues = λ j. b.queues j ∙ ground (arith, a.queues j, a.others j);
    output = b.output ∙ a.output;
    keys = λ j. b.keys j ∙ a.keys j;
  }

  pub collect-Collected :
      (order : List ℕ) (q : ℕ → List ExecPacket) (d d' : Rcc S)
      (msgs : List (Message (RccMessage C)))
      → Distinct order
      → ((j : ℕ) → mem j order ≡ true → lookup j d.exec_pkts ≡ some (q j))
      → collect p order d ≡ ok (msgs, d')
      → Collected order q d d'
  unfolding collect
  collect-Collected [] q d d' msgs t l e =
      subst (Collected [] q d)
        (ap (λ (x : List (Message (RccMessage C)) × Rcc S). x.1) (ok-injective e))
        (record { queues = λ j. refl; output = refl; keys = λ j. refl })
  collect-Collected (id ∷ order) q d d' msgs t l e =
      let ((m, d1), f, g) = ok_of_bind (collect_one p id d) _ e in
      let ((rest, d2), h, k) = ok_of_bind (collect p order d1) _ g in
      let a = collect_one-Asked id (q id) d d1 m (l id (ground arith)) f in
      let b =
        collect-Collected order q d1 d2 rest t.1 (λ j n. a.queues j ∙ ground (arith, l j)) h in
      subst (Collected (id ∷ order) q d)
        (ap (λ (x : List (Message (RccMessage C)) × Rcc S). x.1) (ok-injective k))
        (Collected-trans id order q d d1 d2 t.0 a b)
