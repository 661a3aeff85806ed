-- ===== src/MinBft/Order.antt =====
-- protocols/minbft/instance.go, `exec`: what the loop executes, and in which order.
use go_consensus.Base.{
  ℕ, zero, suc, ◌+◌, ◌≤◌, ◌<◌, ◌≡◌, refl, sym, ◌∙◌, inl, inr, List, [], ◌∷◌, ◌++◌, true, none, some,
  arith, if◌then◌else◌, leb, inc64, u64, length, Map, lookup, insert, lookup-insert, Option-cases,
  ok, subst,
}
use mathlib.Core.List.{append-nil, append_assoc}
use go_consensus.Command.{Command}
use go_consensus.MinBft.Replica.{Instance, MinBft, executable, run_command, exec_loop, exec}
use go_consensus.MinBft.Sound.{AllSound, executable-lookup, execute_one-ok, run_command-AllSound}

-- How many slots of the log are not before a slot.
ahead : ℕ → Map Instance → ℕ
ahead e [] = 0
ahead e ((i, inst) ∷ m) = let rest = ahead e m in if leb e i then suc rest else rest

ahead-le : (e : ℕ) (m : Map Instance) → ahead e m ≤ length m
unfolding ahead
ahead-le e [] = omega arith
ahead-le e ((i, inst) ∷ m) = ground (arith, ahead-le e m)

ahead-later : (e : ℕ) (m : Map Instance) → ahead (e + 1) m ≤ ahead e m
unfolding ahead
ahead-later e [] = omega arith
ahead-later e ((i, inst) ∷ m) = ground (arith, ahead-later e m)

ahead-next :
    (e : ℕ) (inst : Instance) (m : Map Instance)
    → lookup e m ≡ some inst
    → ahead (e + 1) m < ahead e m
unfolding ahead lookup
ahead-next e inst [] h = cc
ahead-next e inst ((i, x) ∷ m) h = ground (arith, ahead-next e inst m, ahead-later e m)

ahead-insert :
    (e k : ℕ) (inst done : Instance) (m : Map Instance)
    → lookup k m ≡ some inst
    → ahead e (insert k done m) ≡ ahead e m
unfolding ahead lookup insert
ahead-insert e k inst done [] h = cc
ahead-insert e k inst done ((i, x) ∷ m) h = ground (arith, ahead-insert e k inst done m)

-- The slot holds a committed instance with the command.
pub record IsReady (i : ℕ) (inst : Instance) (cmd : Command) (m : Map Instance) : Type 0 where
  pub found : lookup i m ≡ some inst
  pub committed : inst.commit ≡ true
  pub holds : inst.command ≡ some cmd

-- The commands `cs` stand in the log, committed, in consecutive slots from `i` on.
abbrev pub Ordered : Map Instance → ℕ → List Command → Type 0
Ordered m i [] = Unit {0}
Ordered m i (c ∷ cs) = ((inst : Instance) × IsReady i inst c m) × Ordered m (i + 1) cs

-- Marking a slot as executed makes no other command ready.
IsReady-insert :
    (k : ℕ) (old : Instance) (m : Map Instance) (i : ℕ) (inst : Instance) (c : Command)
    → lookup k m ≡ some old
    → IsReady i inst c (insert k (record old { executed = true }) m)
    → (inst' : Instance) × IsReady i inst' c m
IsReady-insert k old m i inst c h r = elim (Option-cases (lookup i m)) [
  | inl n ↦ absurd (ground (arith, lookup-insert k i (record old { executed = true }) m, r.found))
  | inr (x, e) ↦ (
    x,
    record {
      found = e;
      committed =
          ground
            (arith, lookup-insert k i (record old { executed = true }) m, r.found, r.committed);
      holds =
          ground (arith, lookup-insert k i (record old { executed = true }) m, r.found, r.holds);
    },
  )
]

Ordered-insert :
    (k : ℕ) (old : Instance) (m : Map Instance) (i : ℕ) (cs : List Command)
    → lookup k m ≡ some old
    → Ordered (insert k (record old { executed = true }) m) i cs
    → Ordered m i cs
Ordered-insert k old m i [] h d = tt
Ordered-insert k old m i (c ∷ cs) h d =
    (IsReady-insert k old m i d.0.0 c h d.0.1, Ordered-insert k old m (i + 1) cs h d.1)

-- `q` is `p` with the commands `cs` executed, and nothing is left to execute.
pub record Executes (p : MinBft) (cs : List Command) (q : MinBft) : Type 0 where
  pub ordered : Ordered p.log p.execute cs
  pub output : q.executed_cmds ≡ p.executed_cmds ++ cs
  pub next : q.execute ≡ p.execute + length cs
  pub finished : executable q ≡ none
  pub frame : q ≡ record p { log = q.log; executed_cmds = q.executed_cmds; execute = q.execute }

none-Executes : (p : MinBft) → executable p ≡ none → Executes p [] p
none-Executes p h = record {
  ordered = tt;
  output = sym (append-nil p.executed_cmds);
  next = omega arith;
  finished = h;
  frame = refl;
}

step-Executes :
    (p : MinBft) (inst : Instance) (cmd : Command) (cs : List Command) (q : MinBft)
    → p.execute + 1 < u64
    → executable p ≡ some inst
    → inst.command ≡ some cmd
    → Executes (run_command cmd inst p) cs q
    → Executes p (cmd ∷ cs) q
unfolding run_command
step-Executes p inst cmd cs q w h k e =
    let (l, c) = executable-lookup p inst h in
    let up : inc64 p.execute ≡ p.execute + 1 = omega arith in
    record {
      ordered = (
        (inst, record { found = l; committed = c; holds = k }),
        Ordered-insert p.execute inst p.log (p.execute + 1) cs l (
            subst (λ i. Ordered (insert p.execute (record inst { executed = true }) p.log) i cs) up
              e.ordered),
      );
      output = e.output ∙ append_assoc p.executed_cmds (cmd ∷ []) cs;
      next = omega (arith, e.next);
      finished = e.finished;
      frame = e.frame;
    }

ahead-run_command :
    (p : MinBft) (inst : Instance) (cmd : Command)
    → p.execute + 1 < u64
    → executable p ≡ some inst
    → ahead (run_command cmd inst p).execute (run_command cmd inst p).log < ahead p.execute p.log
unfolding run_command
ahead-run_command p inst cmd w h =
    let l = (executable-lookup p inst h).0 in
    let up : p.execute + 1 ≡ inc64 p.execute = omega arith in
    subst
      (λ i.
        ahead i (insert p.execute (record inst { executed = true }) p.log) < ahead p.execute p.log)
      up
      (omega (
        arith,
        ahead-insert (p.execute + 1) p.execute inst (record inst { executed = true }) p.log l,
        ahead-next p.execute inst p.log l,
      ))

execute-run_command :
    (p : MinBft) (inst : Instance) (cmd : Command)
    → p.execute + 1 < u64
    → (run_command cmd inst p).execute ≡ p.execute + 1
unfolding run_command
execute-run_command p inst cmd w = omega arith

exec_loop-Executes :
    (n : ℕ) (p : MinBft)
    → AllSound p
    → ahead p.execute p.log ≤ n
    → p.execute + n < u64
    → (cs : List Command) × (q : MinBft) × (exec_loop n p ≡ ok q) × Executes p cs q
unfolding exec_loop
exec_loop-Executes zero p a h w = elim (Option-cases (executable p)) [
  | inl e ↦ ([], p, refl, none-Executes p e)
  | inr (inst, e) ↦
      absurd (omega (arith, ahead-next p.execute inst p.log (executable-lookup p inst e).0))
]
exec_loop-Executes (suc n) p a h w = elim (Option-cases (executable p)) [
  | inl e ↦ ([], p, rw (e, exec_loop) refl, none-Executes p e)
  | inr (inst, e) ↦
      let (cmd, k, r) = execute_one-ok inst p a e in
      let (cs, q, s, x) =
        exec_loop-Executes n (run_command cmd inst p) (run_command-AllSound cmd inst p a e)
          (omega (arith, ahead-run_command p inst cmd (omega arith) e))
          (omega (arith, execute-run_command p inst cmd (omega arith))) in
      (cmd ∷ cs, q, rw (e, r, exec_loop) s, step-Executes p inst cmd cs q (omega arith) e k x)
]

-- On a sound log, with the execution slot and the number of entries together below 2^64, `exec` ends
-- within its fuel without a fault and with nothing left to execute. The commands that it outputs stood
-- in the log, committed, in consecutive slots from the execution slot on, and it outputs them in that
-- order; the execution slot moves past them, and apart from the log and the output nothing else
-- changes.
pub exec-ok :
    (p : MinBft)
    → AllSound p
    → p.execute + length p.log < u64
    → (cs : List Command) × (q : MinBft) × (exec p ≡ ok q) × Executes p cs q
unfolding exec
exec-ok p a w = exec_loop-Executes (length p.log) p a (ahead-le p.execute p.log) w
