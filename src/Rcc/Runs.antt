-- ===== src/Rcc/Runs.antt =====
-- protocols/rcc/rcc.go: what a replica has output after any calls.
use go_consensus.Base.{
  ℕ, ◌*◌, ◌≤◌, ◌≡◌, refl, sym, ap, subst, ◌∙◌, inl, inr, List, [], ◌∷◌, ◌++◌, true, some, arith,
  if◌then◌else◌, length, mem, Distinct, lookup, lookup-insert, Option-cases, Outcome, ok,
  ok_of_bind, ok-injective,
}
use mathlib.Core.List.{Perm, append-nil}
use go_consensus.Command.{Command}
use go_consensus.Peer.Applier.{ExecPacket}
use go_consensus.Peer.Interface.{Message, ExecCallback, Ready, Protocol}
use go_consensus.Rcc.{
  Algorithm, RccMessage, Rcc, replicator_for, add_replicators, new_rcc, on_replicator, on_each,
  step, request, callback, tick, async_callback, clear_msgs, clear_executed_commands, collect,
  make_ready,
}
use go_consensus.Rcc.Rounds.{IsOrder, Streams, none_yet, Agree, Rounds-Perm, Rounds-length}
use go_consensus.Rcc.Queues.{executed}
use go_consensus.Rcc.Merge.{Merges, grow, next_round, collect-Merges, take_round-Merges}

-- The calls have no effect on the queues and the output.
abbrev pub SameQueues : {S : Type 0} → Rcc S → Rcc S → Type 0
SameQueues d d' =
    (d'.exec_pkts ≡ d.exec_pkts) × (d'.global_ordered_commands ≡ d.global_ordered_commands)

module _ {S C : Type 0} (p : Protocol S C) (new_pbft new_sbft : ℕ → S) (nodes : List ℕ) where
  -- The states that a replica can reach, with what the instances have ordered so far, how many rounds
  -- were taken, and the output that the peer has taken.
  pub data Run : Rcc S → Streams → ℕ → List ExecPacket → Type 0 where
    started :
        (algorithm : Algorithm) (id : ℕ) {d : Rcc S}
        → new_rcc new_pbft new_sbft algorithm id nodes ≡ ok d
        → Run d (λ j. []) 0 []
    received :
        {d d' : Rcc S} {s : Streams} {k : ℕ} {out : List ExecPacket} (m : Message (RccMessage C))
        → Run d s k out
        → step p m d ≡ ok d'
        → Run d' s k out
    requested :
        {d d' : Rcc S} {s : Streams} {k : ℕ} {out : List ExecPacket} (cmd : Command)
        → Run d s k out
        → request p cmd d ≡ ok d'
        → Run d' s k out
    called_back :
        {d d' : Rcc S} {s : Streams} {k : ℕ} {out : List ExecPacket} (cb : ExecCallback)
        → Run d s k out
        → callback p cb d ≡ ok d'
        → Run d' s k out
    ticked :
        {d d' : Rcc S} {s : Streams} {k : ℕ} {out : List ExecPacket} (order : List ℕ)
        → Run d s k out
        → tick p order d ≡ ok d'
        → Run d' s k out
    worked :
        {d d' : Rcc S} {s : Streams} {k : ℕ} {out : List ExecPacket} (order : List ℕ)
        → Run d s k out
        → async_callback p order d ≡ ok d'
        → Run d' s k out
    msgs_cleared :
        {d d' : Rcc S} {s : Streams} {k : ℕ} {out : List ExecPacket} (order : List ℕ)
        → Run d s k out
        → clear_msgs p order d ≡ ok d'
        → Run d' s k out
    readied :
        {d d' : Rcc S} {s : Streams} {k : ℕ} {out : List ExecPacket} (order order' order'' : List ℕ)
        (rd : Ready (RccMessage C))
        → Run d s k out
        → IsOrder nodes order
        → IsOrder nodes order'
        → IsOrder nodes order''
        → make_ready p order order' order'' d ≡ ok (rd, d')
        → Run d' (grow p d s) (next_round nodes (grow p d s) k) out
    commands_cleared :
        {d d' : Rcc S} {s : Streams} {k : ℕ} {out out' : List ExecPacket}
        → Run d s k out
        → clear_executed_commands d ≡ d'
        → out' ≡ out ++ d.global_ordered_commands
        → Run d' s k out'

module _ {S : Type 0} where
  on_replicator-SameQueues :
      (id : ℕ) (f : S → Outcome S) (d d' : Rcc S) → on_replicator id f d ≡ ok d' → SameQueues d d'
  unfolding on_replicator
  on_replicator-SameQueues id f d d' e = elim (Option-cases (lookup id d.replicators)) [
    | inl n ↦ cc (rw (n, on_replicator) at e)
    | inr (r, s) ↦
        let (r', l, h) = ok_of_bind (f r) _ (rw (s, on_replicator) at e) in
        subst (SameQueues d) (ok-injective h) (refl, refl)
  ]

  on_each-SameQueues :
      (f : S → Outcome S) (order : List ℕ) (d d' : Rcc S)
      → on_each f order d ≡ ok d'
      → SameQueues d d'
  unfolding on_each
  on_each-SameQueues f [] d d' e = subst (SameQueues d) (ok-injective e) (refl, refl)
  on_each-SameQueues f (id ∷ order) d d' e =
      let (d1, l, h) = ok_of_bind (on_replicator id f d) (on_each f order) e in
      let a = on_replicator-SameQueues id f d d1 l in
      let b = on_each-SameQueues f order d1 d' h in (b.0 ∙ a.0, b.1 ∙ a.1)

  same-Merges :
      (nodes : List ℕ) (s : Streams) (k : ℕ) (out : List ExecPacket) (d d' : Rcc S)
      → SameQueues d d'
      → Merges nodes s k out d
      → Merges nodes s k out d'
  same-Merges nodes s k out d d' (q, g) a = record {
    queues = λ j m. rw q (a.queues j m);
    enough = a.enough;
    runnable = a.runnable;
    rounds = rw g a.rounds;
  }

  -- Every leader that was added has an empty queue.
  add_replicators_queues :
      (new : ℕ → Outcome S) (peers : List ℕ) (d d' : Rcc S)
      → add_replicators new peers d ≡ ok d'
      → (d'.global_ordered_commands ≡ d.global_ordered_commands)
        × ((j : ℕ)
            → lookup j d'.exec_pkts ≡ (if mem j peers then some [] else lookup j d.exec_pkts))
  unfolding add_replicators
  add_replicators_queues new [] d d' e = (
    ap (λ x. x.global_ordered_commands) (sym (ok-injective e)),
    λ j. ap (λ x. lookup j x.exec_pkts) (sym (ok-injective e)),
  )
  add_replicators_queues new (leader ∷ peers) d d' e =
      let (rp, l, h) = ok_of_bind (new leader) _ e in
      let (g, q) = add_replicators_queues new peers _ d' h in
      (g, λ j. q j ∙ ground (arith, lookup-insert leader j [] d.exec_pkts))

  new_rcc-Merges :
      (new_pbft new_sbft : ℕ → S) (algorithm : Algorithm) (id : ℕ) (nodes : List ℕ) (d : Rcc S)
      → new_rcc new_pbft new_sbft algorithm id nodes ≡ ok d
      → Merges nodes (λ j. []) 0 [] d
  unfolding new_rcc
  new_rcc-Merges new_pbft new_sbft algorithm id nodes d e =
      let (g, q) =
        add_replicators_queues (replicator_for new_pbft new_sbft algorithm) nodes _ d e in
      record {
        queues = λ j m. q j ∙ rw m refl;
        enough = λ j m. omega arith;
        runnable = λ j. refl;
        rounds = rw g none_yet;
      }

module _ {S C : Type 0} (p : Protocol S C) (new_pbft new_sbft : ℕ → S) (nodes : List ℕ) where
  -- After any calls, in any orders of the maps, what a replica has output of the commands to be
  -- executed is that of `k` rounds, each with the next command of every instance; the queue of an
  -- instance is what it has ordered less those `k` commands.
  pub Run-Merges :
      (d : Rcc S) (s : Streams) (k : ℕ) (out : List ExecPacket)
      → Run p new_pbft new_sbft nodes d s k out
      → Merges nodes s k out d
  unfolding step request callback tick async_callback clear_msgs make_ready clear_executed_commands
  Run-Merges d s k out (started algorithm id e) =
      new_rcc-Merges new_pbft new_sbft algorithm id nodes d e
  Run-Merges d s k out (received {d = d1} m r e) =
      same-Merges nodes s k out d1 d (on_replicator-SameQueues _ _ d1 d e) (Run-Merges d1 s k out r)
  Run-Merges d s k out (requested {d = d1} cmd r e) =
      same-Merges nodes s k out d1 d (on_replicator-SameQueues _ _ d1 d e) (Run-Merges d1 s k out r)
  Run-Merges d s k out (called_back {d = d1} cb r e) =
      same-Merges nodes s k out d1 d (on_replicator-SameQueues _ _ d1 d e) (Run-Merges d1 s k out r)
  Run-Merges d s k out (ticked {d = d1} order r e) =
      same-Merges nodes s k out d1 d (on_each-SameQueues _ order d1 d e) (Run-Merges d1 s k out r)
  Run-Merges d s k out (worked {d = d1} order r e) =
      same-Merges nodes s k out d1 d (on_each-SameQueues _ order d1 d e) (Run-Merges d1 s k out r)
  Run-Merges d s k out (msgs_cleared {d = d1} order r e) =
      same-Merges nodes s k out d1 d (on_each-SameQueues (λ x. ok (p.clear_msgs x)) order d1 d e)
        (Run-Merges d1 s k out r)
  Run-Merges d s k out (readied {d = d1} {s = s1} {k = k1} order order' order'' rd r o o' o'' e) =
      let ((msgs, d2), f, g) = ok_of_bind (collect p order d1) _ e in
      let a = collect-Merges p nodes order s1 k1 out d1 d2 msgs o (Run-Merges d1 s1 k1 out r) f in
      let same = ap (λ (x : Ready (RccMessage C) × Rcc S). x.1) (ok-injective g) in
      subst (Merges nodes (grow p d1 s1) (next_round nodes (grow p d1 s1) k1) out) same
        (take_round-Merges nodes order' order'' (grow p d1 s1) k1 out d2 o' o'' a)
  Run-Merges d s k out (commands_cleared {d = d1} {out = out1} r e f) =
      let a = Run-Merges d1 s k out1 r in
      subst (Merges nodes s k out) e (record {
        queues = a.queues;
        enough = a.enough;
        runnable = a.runnable;
        rounds = rw (append-nil out, f) a.rounds;
      })

  -- Two replicas that agree on what the instances order, one of which has taken `k` rounds and the
  -- other at least as many, have output the same commands in the first `k` rounds, but for their
  -- order: the shorter output is a permutation of the start of the longer.
  pub Run_agreement :
      (d d' : Rcc S) (s s' : Streams) (k k' : ℕ) (out out' : List ExecPacket)
      → Run p new_pbft new_sbft nodes d s k out
      → Run p new_pbft new_sbft nodes d' s' k' out'
      → Agree nodes s s'
      → k ≤ k'
      → (common rest : List ExecPacket) × (executed (out' ++ d'.global_ordered_commands)
          ≡ common ++ rest)
        × Perm (executed (out ++ d.global_ordered_commands)) common
  Run_agreement d d' s s' k k' out out' r r' a l =
      Rounds-Perm nodes s s' k k' _ _ a l (Run-Merges d s k out r).rounds
        (Run-Merges d' s' k' out' r').rounds

  -- With different nodes, a replica that has taken `k` rounds has output `k` commands for each node
  -- and has at most as many rounds as any instance has ordered commands.
  pub Run_bounds :
      (d : Rcc S) (s : Streams) (k : ℕ) (out : List ExecPacket)
      → Distinct nodes
      → Run p new_pbft new_sbft nodes d s k out
      → (length (executed (out ++ d.global_ordered_commands)) ≡ k * length nodes)
        × ((j : ℕ) → mem j nodes ≡ true → k ≤ length (s j))
  Run_bounds d s k out t r =
      let a = Run-Merges d s k out r in (Rounds-length nodes s k _ t a.rounds, a.enough)
