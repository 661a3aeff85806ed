-- ===== src/DqPbft/Exec.antt =====
-- protocols/dqpbft/exec.go: exec runs to its end, and what it outputs.
use go_consensus.Base.{
  ℕ, zero, suc, ◌≤◌, ◌≡◌, refl, sym, ap, subst, ◌∙◌, inl, inr, List, [], ◌∷◌, ◌++◌, true, Option,
  none, some, arith, ◌==◌, if◌then◌else◌, inc64, length, map, Map, lookup, insert, lookup-insert,
  Bool-cases, Option-cases, ok,
}
use mathlib.Core.List.{append-nil, append_assoc}
use go_consensus.Command.{Command}
use go_consensus.DqPbft.Messages.{InstanceId, executed, is_committed}
use go_consensus.DqPbft.Replica.{
  OInstance, DqPbft, next_ready, set_o_instance, finish_o, exec_loop, exec,
}
use go_consensus.DqPbft.Delivery.{
  waiting, waiting-le, waiting-insert, IsNext, next_ready-IsNext, ready_at, mem_id, DistinctIds,
  Delivered, deliver_each-Delivered,
}

-- The o-instances `os` are committed, at consecutive indices from `i` on.
abbrev pub Consecutive : Map OInstance → ℕ → List OInstance → Type 0
Consecutive m i [] = Unit {0}
Consecutive m i (o ∷ os) =
    (lookup i m ≡ some o) × (is_committed o.is.status ≡ true) × Consecutive m (inc64 i) os

-- The instances that they order.
abbrev pub named : List OInstance → List InstanceId
named [] = []
named (o ∷ os) = o.is.instances ++ named os

-- The index after `n` rounds.
abbrev pub advance : ℕ → ℕ → ℕ
advance zero i = i
advance (suc n) i = advance n (inc64 i)

-- No o-instance names an instance twice.
abbrev pub NoRepeats : Map OInstance → Type 0
NoRepeats olog = (i : ℕ) (o : OInstance) → lookup i olog ≡ some o → DistinctIds o.is.instances

-- `d'` is `d` with the o-instances `os` executed, and none is left to execute.
pub record Delivers (d : DqPbft) (os : List OInstance) (cmds : List Command) (d' : DqPbft)
    : Type 0 where
  pub ordered : Consecutive d.olog d.next_o_deliver_index os
  pub commands : map (λ id. ready_at id d.log) (named os) ≡ map some cmds
  pub output : d'.to_deliver ≡ d.to_deliver ++ cmds
  pub taken :
      (j : InstanceId)
      → ready_at j d'.log ≡ (if mem_id j (named os) then none else ready_at j d.log)
  pub next : d'.next_o_deliver_index ≡ advance (length os) d.next_o_deliver_index
  pub finished : next_ready d' ≡ none

done : OInstance → OInstance
done o = record o { is = record o.is { status = executed } }

Consecutive-insert :
    (k : ℕ) (o : OInstance) (m : Map OInstance) (i : ℕ) (os : List OInstance)
    → Consecutive (insert k (done o) m) i os
    → Consecutive m i os
unfolding done is_committed
Consecutive-insert k o m i [] h = tt
Consecutive-insert k o m i (x ∷ os) (f, c, r) =
    (ground (arith, lookup-insert k i (done o) m), c, Consecutive-insert k o m (inc64 i) os r)

NoRepeats-insert :
    (k : ℕ) (o : OInstance) (m : Map OInstance)
    → lookup k m ≡ some o
    → NoRepeats m
    → NoRepeats (insert k (done o) m)
unfolding done
NoRepeats-insert k o m f h i x e = elim (Bool-cases (k == i)) [
  | inl y ↦
      let same : done o ≡ x = cc (rw y at (sym (lookup-insert k i (done o) m) ∙ e)) in
      subst (λ (w : OInstance). DistinctIds w.is.instances) same (h k o f)
  | inr n ↦ h i x (rw n at (sym (lookup-insert k i (done o) m) ∙ e))
]

mem_id-append :
    (j : InstanceId) (a b : List InstanceId)
    → mem_id j (a ++ b) ≡ (if mem_id j a then true else mem_id j b)
mem_id-append j [] b = refl
mem_id-append j (x ∷ a) b = ground (arith, mem_id-append j a b)

map-append :
    (f : InstanceId → Option Command) (a b : List InstanceId) → map f (a ++ b) ≡ map f a ++ map f b
map-append f [] b = refl
map-append f (x ∷ a) b = ap (λ l. f x ∷ l) (map-append f a b)

some-append :
    (a b : List Command) → map {B = Option Command} some (a ++ b) ≡ map some a ++ map some b
some-append [] b = refl
some-append (x ∷ a) b = ap (λ l. some x ∷ l) (some-append a b)

ready_one :
    (ids : List InstanceId) (j : InstanceId) (d d1 : DqPbft) (c : Command)
    → ready_at j d1.log ≡ (if mem_id j ids then none else ready_at j d.log)
    → ready_at j d1.log ≡ some c
    → ready_at j d.log ≡ some c
ready_one ids j d d1 c t h = elim (Bool-cases (mem_id j ids)) [
  | inl y ↦ cc (rw y at (sym t ∙ h))
  | inr n ↦ rw n at (sym t ∙ h)
]

-- What was ready after a delivery was ready before.
ready_before :
    (ids : List InstanceId) (cmds : List Command) (d d1 : DqPbft) (l : List InstanceId)
    (cs : List Command)
    → Delivered ids cmds d d1
    → map (λ id. ready_at id d1.log) l ≡ map some cs
    → map (λ id. ready_at id d.log) l ≡ map some cs
ready_before ids cmds d d1 [] [] a h = refl
ready_before ids cmds d d1 [] (c ∷ cs) a h = cc
ready_before ids cmds d d1 (j ∷ l) [] a h = cc
ready_before ids cmds d d1 (j ∷ l) (c ∷ cs) a h =
    let first : ready_at j d.log ≡ some c = ready_one ids j d d1 c (a.taken j) (cc) in
    cc (first, ready_before ids cmds d d1 l cs a (cc))

none-Delivers : (d : DqPbft) → next_ready d ≡ none → Delivers d [] [] d
none-Delivers d h = record {
  ordered = tt;
  commands = refl;
  output = sym (append-nil d.to_deliver);
  taken = λ j. refl;
  next = refl;
  finished = h;
}

step-Delivers :
    (d d1 d' : DqPbft) (o : OInstance) (os : List OInstance) (cmds cs : List Command)
    → IsNext d o
    → Delivered o.is.instances cmds d d1
    → Delivers (finish_o o d1) os cs d'
    → Delivers d (o ∷ os) (cmds ++ cs) d'
unfolding finish_o set_o_instance done
step-Delivers d d1 d' o os cmds cs n a b = record {
  ordered = (
    n.found,
    n.committed,
    Consecutive-insert d.next_o_deliver_index o d.olog (inc64 d.next_o_deliver_index) os
        (rw (a.order, a.next) at b.ordered),
  );
  commands =
      map-append (λ id. ready_at id d.log) o.is.instances (named os)
      ∙ ap (λ l. l ++ map (λ id. ready_at id d.log) (named os)) a.commands
      ∙ ap (λ l. map some cmds ++ l)
          (ready_before o.is.instances cmds d d1 (named os) cs a b.commands)
      ∙ sym (some-append cmds cs);
  output = b.output ∙ ap (λ l. l ++ cs) a.output ∙ append_assoc d.to_deliver cmds cs;
  taken = λ j. b.taken j ∙ ground (arith, a.taken j, mem_id-append j o.is.instances (named os));
  next = b.next ∙ ap (λ i. advance (length os) (inc64 i)) a.next;
  finished = b.finished;
}

waiting-finish_o :
    (d d1 : DqPbft) (o : OInstance) (cmds : List Command)
    → IsNext d o
    → Delivered o.is.instances cmds d d1
    → suc (waiting (finish_o o d1).olog) ≡ waiting d.olog
unfolding finish_o set_o_instance done is_committed
waiting-finish_o d d1 o cmds n a =
    rw (a.order, a.next)
      (waiting-insert d.next_o_deliver_index o (done o) d.olog n.found n.committed refl)

NoRepeats-finish_o :
    (d d1 : DqPbft) (o : OInstance) (cmds : List Command)
    → IsNext d o
    → Delivered o.is.instances cmds d d1
    → NoRepeats d.olog
    → NoRepeats (finish_o o d1).olog
unfolding finish_o set_o_instance done
NoRepeats-finish_o d d1 o cmds n a r =
    rw (a.order, a.next) (NoRepeats-insert d.next_o_deliver_index o d.olog n.found r)

exec_loop-Delivers :
    (n : ℕ) (d : DqPbft)
    → NoRepeats d.olog
    → waiting d.olog ≤ n
    → (os : List OInstance) × (cmds : List Command) × (d' : DqPbft) × (exec_loop n d ≡ ok d')
      × Delivers d os cmds d'
unfolding exec_loop
exec_loop-Delivers zero d r h = elim (Option-cases (next_ready d)) [
  | inl e ↦ ([], [], d, refl, none-Delivers d e)
  | inr (o, e) ↦
      let n = next_ready-IsNext d o e in
      absurd (
        omega (
          arith,
          waiting-insert d.next_o_deliver_index o (done o) d.olog n.found n.committed
              (unfold done in unfold is_committed in refl),
        ))
]
exec_loop-Delivers (suc m) d r h = elim (Option-cases (next_ready d)) [
  | inl e ↦ ([], [], d, rw (e, exec_loop), none-Delivers d e)
  | inr (o, e) ↦
      let n = next_ready-IsNext d o e in
      let (cmds, d1, f, a) =
        deliver_each-Delivered o.is.instances d (r d.next_o_deliver_index o n.found) n.complete in
      let (os, cs, d', g, b) =
        exec_loop-Delivers m (finish_o o d1) (NoRepeats-finish_o d d1 o cmds n a r)
          (omega (arith, waiting-finish_o d d1 o cmds n a)) in
      (o ∷ os, cmds ++ cs, d', rw (e, f, exec_loop) g, step-Delivers d d1 d' o os cmds cs n a b)
]

pub exec-Delivers :
    (d : DqPbft)
    → NoRepeats d.olog
    → (os : List OInstance) × (cmds : List Command) × (d' : DqPbft) × (exec d ≡ ok d')
      × Delivers d os cmds d'
unfolding exec
exec-Delivers d r = exec_loop-Delivers (length d.olog) d r (waiting-le d.olog)
