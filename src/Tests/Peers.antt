-- ===== src/Tests/Peers.antt =====
-- The timer, the tracker and the store at concrete states.
use go_consensus.Base.{◌≡◌, refl, [], ◌∷◌, true, length, Bytes, eq_bytes, read, write}
use go_consensus.Command.{CommandResult, kv_op_result}
use go_consensus.Peer.Timer.{TickingTimer, make_ticking_timer, tick, reset, stop, expirations}
use go_consensus.Peer.Tracker.{find, make_tracker, register, finish, IsTracker}
use go_consensus.Peer.Applier.{Store, execute_command, last_write, execute_command_lem}
use go_consensus.Tests.Scenario.{cmd}

program : Unit {0}
unfolding make_ticking_timer tick reset stop expirations find make_tracker register finish read
    write execute_command last_write eq_bytes
program = tt

abbrev timer : TickingTimer
unfolding program
timer = make_ticking_timer 3

fires : expirations 5 (reset timer) ≡ 1
unfolding program
fires = refl

abbrev result : CommandResult
result = record {
  timestamp = 42;
  op_results = kv_op_result (record { key = 97 ∷ []; value = 98 ∷ []; write_success = true }) ∷ [];
  target = 0;
  meta = [];
}

empty-IsTracker : IsTracker make_tracker
unfolding program
empty-IsTracker k h = refl

abbrev store : Store
store = (97 ∷ [], 98 ∷ []) ∷ []

execute_command_lem_example :
    ((k : Bytes) → read k store ≡ last_write k cmd.ops (read k store))
    × (length result.op_results ≡ length cmd.ops)
    × (result.timestamp ≡ cmd.timestamp)
    × (result.target ≡ cmd.target)
unfolding program
execute_command_lem_example = execute_command_lem cmd store store result refl
