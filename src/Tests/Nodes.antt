-- ===== src/Tests/Nodes.antt =====
-- A peer around a protocol that orders a request at once.
use go_consensus.Base.{
  ℕ, ◌≤◌, ◌≡◌, refl, List, [], ◌∷◌, ◌++◌, true, false, Option, none, some, is_some, all, arith,
  length, count, mem, lookup, insert, write, eq_bytes, Bytes, ◌==◌, if◌then◌else◌, Outcome, ok,
  fault,
}
use go_consensus.Command.{Command, kv_op}
use go_consensus.Peer.Tracker.{find, put, remove, make_tracker, channels}
use go_consensus.Peer.Applier.{ExecPacket, result_of}
use go_consensus.Peer.Interface.{Protocol}
use go_consensus.Peer.Buffer.{retry, slice, used}
use go_consensus.Peer.Buffer.Held.{held}
use go_consensus.Peer.Node.{
  ClientPacket, Env, returned, Peer, new_peer, handle_command, take_turn, hand_over, apply_next,
  stop, finish_stop, refuse_if_stopped,
}
use go_consensus.Peer.Node.Runs.{Run, started, commanded, turned, handed, fetched, applied}
use go_consensus.Peer.Node.Pending.{replay}
use go_consensus.Peer.Node.Answers.{of_channel}
use go_consensus.Peer.Node.Replies.{Run_one_reply, Run_wakes}
use go_consensus.Peer.Node.Stopping.{close_twice}

program : Unit {0}
unfolding find put remove make_tracker channels result_of retry slice new_peer handle_command
    take_turn hand_over apply_next stop finish_stop refuse_if_stopped replay lookup insert write
    eq_bytes
program = tt

abbrev cmd : ℕ → Command
cmd target = record {
  timestamp = 7;
  ops = kv_op (record { key = 97 ∷ []; value = 98 ∷ []; read = false }) ∷ [];
  target = target;
  meta = [];
  conflict_key = [];
  trace_info = [];
}

abbrev pkt : ExecPacket
pkt = record { cmd = cmd 0; is_spec = false; meta = []; callback = false; no_exec = false }

abbrev echo : Protocol (List ExecPacket) ℕ
echo = record {
  step = λ m s. ok s;
  tick = λ s. ok s;
  request = λ c s. ok (s ++ record pkt { cmd = c } ∷ []);
  callback = λ cb s. ok s;
  make_ready = λ s. ok (record { messages = []; ordered_commands = s }, s);
  clear_msgs = λ s. s;
  clear_executed_commands = λ s. [];
  async_callback = λ s. ok s;
}

-- A packet of a client is the target of its command.
abbrev decode : Bytes → Option Command
decode [] = none
decode (target ∷ rest) = some (cmd target)

abbrev env : Env
env = record {
  unmarshal_command = decode;
  unmarshal_result = λ b. none;
  marshal_result = λ r. [];
  verify = λ msg sig. true;
  trace_info = [];
}

abbrev Node : Type 0
Node = Peer (List ExecPacket) ℕ

abbrev packet : ℕ → ClientPacket
packet target = record { message = target ∷ []; signature = [] }

abbrev fresh : Node
fresh = new_peer 0 (0 ∷ 1 ∷ []) 1 []

abbrev or_fresh : Outcome Node → Node
or_fresh fault = fresh
or_fresh (ok p) = p

abbrev asked : Node
asked = or_fresh (handle_command env (packet 0) 5 fresh)

abbrev ordered : Node
ordered = or_fresh (take_turn echo asked)

abbrev queued : Node
queued = hand_over ordered.loop ordered

abbrev taken : Node
taken = or_fresh (apply_next echo env queued)

abbrev answered : Node
answered = or_fresh (apply_next echo env taken)

asked-Run : Run echo env [] asked (5 ∷ []) [] []
unfolding program
asked-Run = commanded (packet 0) 5 (started 0 (0 ∷ 1 ∷ []) 1) refl refl

answered-Run : Run echo env [] answered (5 ∷ []) (pkt ∷ []) (pkt ∷ [])
unfolding program
answered-Run = applied pkt [] (fetched (handed (turned asked-Run refl refl)) refl refl) refl refl

reply_sent : length answered.ct.sent ≡ 1
unfolding program
reply_sent = refl

Run_one_reply_example :
    (count (λ x. x.0 == 5) answered.ct.sent ≤ (if mem 5 (5 ∷ []) then 1 else 0))
    × (count (λ x. x.0 == 5) answered.ct.sent ≡ 1
        → (count (λ x. x.1 == 5) answered.ct.requests ≡ 0) × (held (of_channel 5) answered.rb ≡ 0))
unfolding program
Run_one_reply_example =
    Run_one_reply echo env [] answered (5 ∷ []) (pkt ∷ []) (pkt ∷ []) 5 answered-Run

Run_wakes_example :
    (ordered.rb.asleep ≡ []) × (all is_some (slice (used ordered.rb.i) ordered.rb.b) ≡ true)
unfolding program
Run_wakes_example = Run_wakes echo env [] asked ordered (5 ∷ []) [] [] asked-Run (omega arith) refl

abbrev stopping : Node
stopping = stop fresh

abbrev late : Node
late = or_fresh (handle_command env (packet 1) 6 stopping)

close_twice_example :
    (last : Node) × (take_turn echo (refuse_if_stopped 6 late) ≡ ok last)
    × (last.loop ≡ returned)
    × (mem 6 last.ct.closed ≡ true)
    × (mem 6 (channels last.ct.requests) ≡ true)
    × ((finish_stop last).ct.closed ≡ last.ct.closed ++ channels last.ct.requests)
unfolding program
close_twice_example =
    close_twice echo env (packet 1) (cmd 1) 6 stopping late refl refl refl refl refl refl refl
