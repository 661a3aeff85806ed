-- ===== src/Pbft/Replica/Execution.antt =====
-- protocols/pbft/instance.go, `exec`: what the loop executes, and in which order.
use go_consensus.Base.{
  ℕ, zero, suc, ◌≤◌, ◌≡◌, refl, sym, ◌∙◌, inl, inr, List, [], ◌∷◌, ◌++◌, true, Option, none, some,
  arith, if◌then◌else◌, inc64, length, Map, lookup, insert, lookup-insert, Option-cases, is_some,
}
use mathlib.Core.List.{append-nil, append_assoc}
use go_consensus.Command.{Command}
use go_consensus.Pbft.Messages.{is_committed}
use go_consensus.Pbft.Replica.{Instance, Pbft, executable, execute_one, exec_loop, exec}

-- The instances whose command is not yet executed.
pending : Map Instance → ℕ
pending [] = 0
pending ((i, inst) ∷ m) = let rest = pending m in if is_some inst.is.command then suc rest else rest

pending-le : (m : Map Instance) → pending m ≤ length m
unfolding pending
pending-le [] = omega arith
pending-le ((i, inst) ∷ m) = ground (arith, pending-le m)

pending-insert :
    (i : ℕ) (inst done : Instance) (m : Map Instance)
    → lookup i m ≡ some inst
    → is_some inst.is.command ≡ true
    → done.is.command ≡ none
    → suc (pending (insert i done m)) ≡ pending m
unfolding pending lookup insert
pending-insert i inst done [] h c d = cc
pending-insert i inst done ((j, x) ∷ m) h c d = ground (arith, pending-insert i inst done m)

-- What it takes for an instance to be executed.
pub record IsReady (i : ℕ) (inst : Instance) (cmd : Command) (m : Map Instance) : Type 0 where
  pub found : lookup i m ≡ some inst
  pub committed : is_committed inst.is ≡ true
  pub holds : inst.is.command ≡ some cmd

executable-IsReady :
    (p : Pbft) (inst : Instance) (cmd : Command)
    → executable p ≡ some (inst, cmd)
    → IsReady p.execute inst cmd p.log
unfolding executable
executable-IsReady p inst cmd h = ground arith

-- The commands `cs` stand in the log, committed, at consecutive indices from `i` on.
abbrev pub Ready : Map Instance → ℕ → List Command → Type 0
Ready m i [] = Unit {0}
Ready m i (c ∷ cs) = ((inst : Instance) × IsReady i inst c m) × Ready m (inc64 i) cs

-- Clearing a command makes nothing executable.
IsReady-insert :
    (k : ℕ) (done : Instance) (m : Map Instance) (i : ℕ) (inst : Instance) (c : Command)
    → done.is.command ≡ none
    → IsReady i inst c (insert k done m)
    → IsReady i inst c m
IsReady-insert k done m i inst c d r = ground (arith, lookup-insert k i done m)

Ready-insert :
    (k : ℕ) (done : Instance) (m : Map Instance) (i : ℕ) (cs : List Command)
    → done.is.command ≡ none
    → Ready (insert k done m) i cs
    → Ready m i cs
Ready-insert k done m i [] d r = tt
Ready-insert k done m i (c ∷ cs) d r =
    ((r.0.0, IsReady-insert k done m i r.0.0 c d r.0.1), Ready-insert k done m (inc64 i) cs d r.1)

-- The index after `n` rounds.
abbrev pub advance : ℕ → ℕ → ℕ
advance zero i = i
advance (suc n) i = advance n (inc64 i)

-- An instance with its command taken out.
abbrev pub strip : Option Instance → Option Instance
strip none = none
strip (some inst) = some (record inst { is = record inst.is { command = none } })

-- `q` is `p` with the commands `cs` executed, and nothing is left to execute.
pub record Executes (p : Pbft) (cs : List Command) (q : Pbft) : Type 0 where
  pub ordered : Ready p.log p.execute cs
  pub output : q.executed_cmds ≡ p.executed_cmds ++ cs
  pub next : q.execute ≡ advance (length cs) p.execute
  pub finished : executable q ≡ none
  pub kept : (i : ℕ) → strip (lookup i q.log) ≡ strip (lookup i p.log)
  pub frame : q ≡ record p { log = q.log; executed_cmds = q.executed_cmds; execute = q.execute }

none-Executes : (p : Pbft) → executable p ≡ none → Executes p [] p
none-Executes p h = record {
  ordered = tt;
  output = sym (append-nil p.executed_cmds);
  next = refl;
  finished = h;
  kept = λ i. refl;
  frame = refl;
}

cleared : Instance → Instance
cleared inst = record inst { is = record inst.is { command = none } }

strip-insert :
    (k : ℕ) (inst : Instance) (m : Map Instance) (i : ℕ)
    → lookup k m ≡ some inst
    → strip (lookup i (insert k (cleared inst) m)) ≡ strip (lookup i m)
unfolding cleared
strip-insert k inst m i h = ground (arith, lookup-insert k i (cleared inst) m)

step-Executes :
    (p : Pbft) (inst : Instance) (cmd : Command) (cs : List Command) (q : Pbft)
    → executable p ≡ some (inst, cmd)
    → Executes (execute_one inst cmd p) cs q
    → Executes p (cmd ∷ cs) q
unfolding execute_one cleared
step-Executes p inst cmd cs q h e =
    let ready = executable-IsReady p inst cmd h in
    record {
      ordered = (
        (inst, ready),
        Ready-insert p.execute (cleared inst) p.log (inc64 p.execute) cs refl e.ordered,
      );
      output = e.output ∙ append_assoc p.executed_cmds (cmd ∷ []) cs;
      next = e.next;
      finished = e.finished;
      kept = λ i. e.kept i ∙ strip-insert p.execute inst p.log i ready.found;
      frame = e.frame;
    }

pending-execute_one :
    (p : Pbft) (inst : Instance) (cmd : Command)
    → executable p ≡ some (inst, cmd)
    → suc (pending (execute_one inst cmd p).log) ≡ pending p.log
unfolding execute_one
pending-execute_one p inst cmd h =
    let r = executable-IsReady p inst cmd h in
    pending-insert p.execute inst _ p.log r.found (rw r.holds) refl

exec_loop-Executes :
    (n : ℕ) (p : Pbft) → pending p.log ≤ n → (cs : List Command) × Executes p cs (exec_loop n p)
unfolding exec_loop
exec_loop-Executes zero p h = elim (Option-cases (executable p)) [
  | inl e ↦ ([], none-Executes p e)
  | inr ((inst, cmd), e) ↦ absurd (omega (arith, pending-execute_one p inst cmd e))
]
exec_loop-Executes (suc n) p h = elim (Option-cases (executable p)) [
  | inl e ↦ rw (e, exec_loop) ([], none-Executes p e)
  | inr ((inst, cmd), e) ↦
      let r =
        exec_loop-Executes n (execute_one inst cmd p)
          (omega (arith, pending-execute_one p inst cmd e)) in
      rw (e, exec_loop) (cmd ∷ r.0, step-Executes p inst cmd r.0 _ e r.1)
]

pub exec-Executes : (p : Pbft) → (cs : List Command) × Executes p cs (exec p)
unfolding exec
exec-Executes p = exec_loop-Executes (length p.log) p (pending-le p.log)
