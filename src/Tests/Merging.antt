-- ===== src/Tests/Merging.antt =====
-- RCC over instances that order a request at once.
use go_consensus.Base.{
  ℕ, ◌*◌, ◌≤◌, ◌≡◌, ◌≢◌, refl, ap, List, [], ◌∷◌, ◌++◌, true, false, arith, length, mem, lookup,
  insert, Outcome, ok, fault,
}
use mathlib.Core.List.Perm
use mathlib.Core.List.{Perm, perm_append_comm}
use go_consensus.Command.{Command}
use go_consensus.Peer.Applier.{ExecPacket}
use go_consensus.Peer.Interface.{Protocol}
use go_consensus.Rcc.{pbft, Rcc, new_rcc, request, make_ready, clear_executed_commands, take_round}
use go_consensus.Rcc.Rounds.{IsOrder, Streams, Agree}
use go_consensus.Rcc.Queues.{executed}
use go_consensus.Rcc.Merge.{Merges, grow, next_round}
use go_consensus.Rcc.Runs.{Run, started, requested, readied, Run-Merges, Run_agreement, Run_bounds}
use go_consensus.Rcc.Orders.{take_round_orders}

program : Unit {0}
unfolding new_rcc request make_ready clear_executed_commands take_round grow next_round lookup
    insert
program = tt

abbrev cmd : ℕ → Command
cmd n = record {
  timestamp = n;
  ops = [];
  target = n;
  meta = [];
  conflict_key = [];
  trace_info = [];
}

abbrev pkt : ℕ → ExecPacket
pkt n = record { cmd = cmd n; is_spec = false; meta = []; callback = false; no_exec = false }

abbrev echo : Protocol (List ExecPacket) ℕ
echo = record {
  step = λ m s. ok s;
  tick = λ s. ok s;
  request = λ c s. ok (s ++ pkt c.timestamp ∷ []);
  callback = λ cb s. ok s;
  make_ready = λ s. ok (record { messages = []; ordered_commands = s }, s);
  clear_msgs = λ s. s;
  clear_executed_commands = λ s. [];
  async_callback = λ s. ok s;
}

abbrev nodes : List ℕ
nodes = 0 ∷ 1 ∷ []

abbrev fresh : ℕ → List ExecPacket
fresh leader = []

abbrev empty : Rcc (List ExecPacket)
empty = record {
  id = 0;
  nodes = nodes;
  replicators = [];
  exec_pkts = [];
  global_ordered_commands = [];
}

abbrev state_of : Outcome (Rcc (List ExecPacket)) → Rcc (List ExecPacket)
state_of fault = empty
state_of (ok d) = d

abbrev first : Rcc (List ExecPacket)
first = state_of (new_rcc fresh fresh pbft 0 nodes)

abbrev second : Rcc (List ExecPacket)
second = state_of (request echo (cmd 0) first)

abbrev third : Rcc (List ExecPacket)
third = state_of (request echo (cmd 1) second)

upward : IsOrder nodes nodes
upward = record { distinct = (refl, (refl, tt)); covers = λ i. refl; same = Perm.refl nodes }

downward : IsOrder nodes (1 ∷ 0 ∷ [])
downward = record {
  distinct = (refl, (refl, tt));
  covers = λ i. ground arith;
  same = perm_append_comm (1 ∷ []) (0 ∷ []);
}

abbrev merged : List ℕ → Rcc (List ExecPacket)
merged order = elim (make_ready echo nodes nodes order third) [ fault ↦ empty | ok (rd, d) ↦ d ]

before : Run echo fresh fresh nodes third (λ j. []) 0 []
unfolding program
before = requested (cmd 1) (requested (cmd 0) (started pbft 0 refl) refl) refl

abbrev streams : Streams
streams = grow echo third (λ j. [])

run_up : Run echo fresh fresh nodes (merged nodes) streams 1 []
unfolding program
run_up = readied nodes nodes nodes _ before upward upward upward refl

run_down : Run echo fresh fresh nodes (merged (1 ∷ 0 ∷ [])) streams 1 []
unfolding program
run_down = readied nodes nodes (1 ∷ 0 ∷ []) _ before upward upward downward refl

round_output : (merged (1 ∷ 0 ∷ [])).global_ordered_commands ≡ pkt 1 ∷ pkt 0 ∷ []
unfolding program
round_output = refl

Run-Merges_example : Merges nodes streams 1 [] (merged nodes)
unfolding program
Run-Merges_example = Run-Merges echo fresh fresh nodes (merged nodes) streams 1 [] run_up

same_streams : Agree nodes streams streams
same_streams i k x y m h e = cc

Run_agreement_example :
    (common rest : List ExecPacket) × (pkt 1 ∷ pkt 0 ∷ [] ≡ common ++ rest)
    × Perm (pkt 0 ∷ pkt 1 ∷ []) common
unfolding program
Run_agreement_example =
    Run_agreement echo fresh fresh nodes (merged nodes) (merged (1 ∷ 0 ∷ [])) streams streams 1 1 []
      [] run_up run_down same_streams (omega arith)

Run_bounds_example :
    (length (executed (merged nodes).global_ordered_commands) ≡ 1 * 2)
    × ((j : ℕ) → mem j nodes ≡ true → 1 ≤ length (streams j))
unfolding program
Run_bounds_example =
    Run_bounds echo fresh fresh nodes (merged nodes) streams 1 [] (refl, (refl, tt)) run_up

-- The state in which each queue has one command.
abbrev queued : Rcc (List ExecPacket)
queued = record first { exec_pkts = (0, pkt 0 ∷ []) ∷ (1, pkt 1 ∷ []) ∷ [] }

take_round_orders_example :
    (take_round nodes nodes queued).global_ordered_commands
    ≢ (take_round nodes (1 ∷ 0 ∷ []) queued).global_ordered_commands
unfolding program
take_round_orders_example =
    take_round_orders 0 1 (pkt 0) (pkt 1) [] [] queued refl refl refl
      (λ h. absurd (omega (arith, ap (λ x. x.cmd.timestamp) h)))
