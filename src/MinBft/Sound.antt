-- ===== src/MinBft/Sound.antt =====
-- protocols/minbft/instance.go: what an instance of the log has when it is prepared, committed or
-- executed.
use go_consensus.Base.{
  ℕ, zero, suc, ◌≡◌, refl, ◌⊎◌, inl, inr, [], true, Option, some, arith, ◌==◌, lookup,
  lookup-insert, subst, Option-cases, Bool-cases, is_some, ok, ==_iff, Bytes, length,
}
use go_consensus.Command.{Command}
use go_consensus.Pbft.Messages.{contents}
use go_consensus.MinBft.Quorum.{NormalMessage, Quorum}
use go_consensus.MinBft.Replica.{
  Instance, MinBft, set_instance, executable, run_command, execute_one, execute_command, exec_loop,
  exec,
}
use go_consensus.MinBft.Handlers.{has_majority}

-- A message for the slot has a majority, with this hash or with none.
abbrev pub Certifies : ℕ → ℕ → Bytes → Option Quorum → Type 0
Certifies f i h q =
    (m : NormalMessage) × (has_majority f m q ≡ true)
    × (m.order ≡ i)
    × ((contents m.command_hash ≡ h) ⊎ (contents m.command_hash ≡ []))

pub record IsSound (f i : ℕ) (inst : Instance) : Type 0 where
  pub keyed : inst.slot ≡ i
  pub holds : inst.prepared ≡ true → is_some inst.command ≡ true
  pub prepared : inst.commit ≡ true → inst.prepared ≡ true
  pub certified : inst.commit ≡ true → Certifies f i (contents inst.command_hash) inst.quorum
  pub committed : inst.executed ≡ true → inst.commit ≡ true

-- Every instance of the log is sound.
abbrev pub AllSound : MinBft → Type 0
AllSound p = (i : ℕ) (inst : Instance) → lookup i p.log ≡ some inst → IsSound p.f i inst

pub set_instance-AllSound :
    (i : ℕ) (inst : Instance) (p : MinBft)
    → AllSound p
    → IsSound p.f i inst
    → AllSound (set_instance i inst p)
unfolding set_instance
set_instance-AllSound i inst p a c j found e = elim (Bool-cases (i == j)) [
  | inl s ↦
      let same : i ≡ j = (==_iff i j).0 s in
      let this : inst ≡ found = ground (arith, lookup-insert i j inst p.log) in
      subst (IsSound p.f j) this (rw (← same) c)
  | inr d ↦ a j found (ground (arith, lookup-insert i j inst p.log))
]

pub executable-lookup :
    (p : MinBft) (e : Instance)
    → executable p ≡ some e
    → (lookup p.execute p.log ≡ some e) × (e.commit ≡ true)
unfolding executable
executable-lookup p e h = ground arith

executed-IsSound :
    (f i : ℕ) (inst : Instance)
    → IsSound f i inst
    → inst.commit ≡ true
    → IsSound f i (record inst { executed = true })
executed-IsSound f i inst c h = record {
  keyed = c.keyed;
  holds = c.holds;
  prepared = c.prepared;
  certified = c.certified;
  committed = λ _. h;
}

pub run_command-AllSound :
    (cmd : Command) (e : Instance) (p : MinBft)
    → AllSound p
    → executable p ≡ some e
    → AllSound (run_command cmd e p)
unfolding run_command execute_command
run_command-AllSound cmd e p a h =
    let (l, c) = executable-lookup p e h in
    set_instance-AllSound p.execute (record e { executed = true }) (execute_command cmd p) a
      (executed-IsSound p.f p.execute e (a p.execute e l) c)

-- One round never misses the command.
pub execute_one-ok :
    (e : Instance) (p : MinBft)
    → AllSound p
    → executable p ≡ some e
    → (cmd : Command) × (e.command ≡ some cmd) × (execute_one e p ≡ ok (run_command cmd e p))
unfolding execute_one
execute_one-ok e p a h =
    let (l, c) = executable-lookup p e h in
    let s = a p.execute e l in
    elim (Option-cases e.command) [
      | inl n ↦ absurd (ground (arith, s.holds (s.prepared c), n))
      | inr (cmd, k) ↦ (cmd, k, ground (arith, k))
    ]

exec_loop-AllSound :
    (n : ℕ) (p : MinBft) → AllSound p → (q : MinBft) × (exec_loop n p ≡ ok q) × AllSound q
unfolding exec_loop
exec_loop-AllSound zero p a = (p, refl, a)
exec_loop-AllSound (suc n) p a = elim (Option-cases (executable p)) [
  | inl e ↦ (p, rw (e, exec_loop) refl, a)
  | inr (inst, e) ↦
      let (cmd, k, r) = execute_one-ok inst p a e in
      let (q, s, c) =
        exec_loop-AllSound n (run_command cmd inst p) (run_command-AllSound cmd inst p a e) in
      (q, rw (e, r, s, exec_loop) refl, c)
]

pub exec-AllSound : (p : MinBft) → AllSound p → (q : MinBft) × (exec p ≡ ok q) × AllSound q
unfolding exec
exec-AllSound p a = exec_loop-AllSound (length p.log) p a
