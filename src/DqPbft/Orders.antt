-- ===== src/DqPbft/Orders.antt =====
-- protocols/dqpbft/exec.go: what two replicas output.
use go_consensus.Base.{
  ℕ, ◌≡◌, refl, sym, ap, ◌∙◌, ◌⊎◌, inl, inr, List, [], ◌∷◌, ◌++◌, true, some, inc64, map, lookup,
  ok,
}
use mathlib.Core.List.{append_assoc}
use go_consensus.Command.{Command}
use go_consensus.DqPbft.Messages.{InstanceId, is_committed}
use go_consensus.DqPbft.Replica.{OInstance, DqPbft, exec}
use go_consensus.DqPbft.Delivery.{ready_at}
use go_consensus.DqPbft.Exec.{Consecutive, named, NoRepeats, Delivers, exec-Delivers}

-- `xs` is the start of `ys`.
abbrev pub Prefix : {A : Type 0} → List A → List A → Type 0
Prefix {A} xs ys = (rest : List A) × (ys ≡ xs ++ rest)

-- The o-instances that two replicas have committed at an index order the same instances.
abbrev pub SameOrder : DqPbft → DqPbft → Type 0
SameOrder d e =
    (i : ℕ) (o o' : OInstance)
    → lookup i d.olog ≡ some o
    → lookup i e.olog ≡ some o'
    → is_committed o.is.status ≡ true
    → is_committed o'.is.status ≡ true
    → o.is.instances ≡ o'.is.instances

-- Two replicas have the same command at each instance that both have committed.
abbrev pub SameCommands : DqPbft → DqPbft → Type 0
SameCommands d e =
    (j : InstanceId) (c c' : Command)
    → ready_at j d.log ≡ some c
    → ready_at j e.log ≡ some c'
    → c ≡ c'

Prefix-append : {A : Type 0} (l xs ys : List A) → Prefix xs ys → Prefix (l ++ xs) (l ++ ys)
Prefix-append l xs ys (rest, e) = (rest, ap (λ x. l ++ x) e ∙ sym (append_assoc l xs rest))

either-append :
    {A : Type 0} (l xs ys : List A)
    → Prefix xs ys ⊎ Prefix ys xs
    → Prefix (l ++ xs) (l ++ ys) ⊎ Prefix (l ++ ys) (l ++ xs)
either-append l xs ys (inl p) = inl (Prefix-append l xs ys p)
either-append l xs ys (inr p) = inr (Prefix-append l ys xs p)

named_agreement :
    (d e : DqPbft) (i : ℕ) (os os' : List OInstance)
    → SameOrder d e
    → Consecutive d.olog i os
    → Consecutive e.olog i os'
    → Prefix (named os) (named os') ⊎ Prefix (named os') (named os)
named_agreement d e i [] os' s h k = inl (named os', refl)
named_agreement d e i (o ∷ os) [] s h k = inr (named (o ∷ os), refl)
named_agreement d e i (o ∷ os) (o' ∷ os') s (f, c, r) (f', c', r') = rw (s i o o' f f' c c') (
    either-append o'.is.instances (named os) (named os')
      (named_agreement d e (inc64 i) os os' s r r'))

commands_agreement :
    (d e : DqPbft) (ids rest : List InstanceId) (cmds cmds' : List Command)
    → SameCommands d e
    → map (λ id. ready_at id d.log) ids ≡ map some cmds
    → map (λ id. ready_at id e.log) (ids ++ rest) ≡ map some cmds'
    → Prefix cmds cmds'
commands_agreement d e [] rest [] cmds' s h k = (cmds', refl)
commands_agreement d e [] rest (c ∷ cmds) cmds' s h k = cc
commands_agreement d e (j ∷ ids) rest [] cmds' s h k = cc
commands_agreement d e (j ∷ ids) rest (c ∷ cmds) [] s h k = cc
commands_agreement d e (j ∷ ids) rest (c ∷ cmds) (c' ∷ cmds') s h k =
    let (more, g) = commands_agreement d e ids rest cmds cmds' s (cc) (cc) in
    let same : c ≡ c' = s j c c' (cc) (cc) in (more, cc)

same_reversed : (d e : DqPbft) → SameCommands d e → SameCommands e d
same_reversed d e s j c c' h k = sym (s j c' c k h)

outputs_agreement :
    (d e d' e' : DqPbft) (os os' : List OInstance) (cmds cmds' : List Command)
    → d.next_o_deliver_index ≡ e.next_o_deliver_index
    → SameOrder d e
    → SameCommands d e
    → Delivers d os cmds d'
    → Delivers e os' cmds' e'
    → Prefix cmds cmds' ⊎ Prefix cmds' cmds
outputs_agreement d e d' e' os os' cmds cmds' n o s a b =
    elim (named_agreement d e e.next_o_deliver_index os os' o (rw n at a.ordered) b.ordered) [
      | inl (rest, p) ↦
          inl (commands_agreement d e (named os) rest cmds cmds' s a.commands (rw p at b.commands))
      | inr (rest, p) ↦ inr (
          commands_agreement e d (named os') rest cmds' cmds (same_reversed d e s) b.commands
            (rw p at a.commands))
    ]

-- Two replicas that stand at the same delivery index, whose committed o-instances order the same
-- instances and whose committed instances have the same commands, both return from exec if no
-- o-instance names an instance twice, and the commands that one of them adds to its output are the
-- start of those that the other adds.
pub exec_agreement :
    (d e : DqPbft)
    → d.next_o_deliver_index ≡ e.next_o_deliver_index
    → SameOrder d e
    → SameCommands d e
    → NoRepeats d.olog
    → NoRepeats e.olog
    → (cmds cmds' : List Command) × (d' e' : DqPbft) × (exec d ≡ ok d')
      × (exec e ≡ ok e')
      × (d'.to_deliver ≡ d.to_deliver ++ cmds)
      × (e'.to_deliver ≡ e.to_deliver ++ cmds')
      × (Prefix cmds cmds' ⊎ Prefix cmds' cmds)
exec_agreement d e n o s r r' =
    let (os, cmds, d', f, a) = exec-Delivers d r in
    let (os', cmds', e', g, b) = exec-Delivers e r' in
    (
      cmds,
      cmds',
      d',
      e',
      f,
      g,
      a.output,
      b.output,
      outputs_agreement d e d' e' os os' cmds cmds' n o s a b,
    )
