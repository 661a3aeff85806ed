-- ===== src/Peer/Node.antt =====
-- peer/peer.go and peer/applier.go: a peer around any protocol. Its parts are the loop of Run, the
-- ticker, the calls of the transport, and the two goroutines of the applier; the lock makes each of
-- the functions below one step.
pub mod Runs
pub mod Pending
pub mod Order
pub mod Answers
pub mod Clients
pub mod Accounts
pub mod Replies
pub mod Stopping
use go_consensus.Base.{
  ℕ, zero, suc, ◌-◌, ◌≡◌, List, [], ◌∷◌, ◌++◌, Bool, true, false, not, ◌&&◌, Option, none, some,
  ltb, ◌==◌, if◌then◌else◌, length, Bytes, Outcome, ok, fault, ◌>>=◌,
}
use go_consensus.Command.{Command, CommandResult}
use go_consensus.Peer.Tracker.{Tracker, make_tracker, register, finish, finish_all}
use go_consensus.Peer.Applier.{Store, ExecPacket, result_of}
use go_consensus.Peer.Interface.{Message, ExecCallback, Ready, Protocol}
use go_consensus.Peer.Buffer.{ReqBufElem, ReqBuf, init, add, flush}

pub record ClientPacket : Type 0 where
  pub message : Bytes
  pub signature : Bytes

-- What the peer uses of other packages: the codec of commands and results, the verification of a
-- client's signature, and the trace of a command.
pub record Env : Type 0 where
  pub unmarshal_command : Bytes → Option Command
  pub unmarshal_result : Bytes → Option CommandResult
  pub marshal_result : CommandResult → Bytes
  pub verify : Bytes → Bytes → Bool
  pub trace_info : List (Bytes × Bytes)

-- The loop of Run: it takes a turn, waits to hand over `ents` in maybeApplyAsync, or has returned.
pub data Loop : Type 0 where
  turn : Loop
  handing : List ExecPacket → Loop
  returned : Loop

-- `to_apply` and `to_send` are the queues of the applier, `handling` what is left of the event that its
-- goroutine works on, `sent` what the transport was given.
pub record Peer (S C : Type 0) : Type 0 where
  pub id : ℕ
  pub peers : List ℕ
  pub n : S
  pub rb : ReqBuf
  pub ct : Tracker
  pub msgs : List (List (Message C))
  pub done : Bool
  pub loop : Loop
  pub to_apply : List (List ExecPacket)
  pub handling : List ExecPacket
  pub kv : Store
  pub to_send : List (List (Message C))
  pub sent : List (Message C)

-- The capacities of the channels.
abbrev pub msgs_cap : ℕ
msgs_cap = 1024

abbrev pub applier_cap : ℕ
applier_cap = 512

module _ {S C : Type 0} where
  -- `New`, with the part of Run before the loop.
  unfoldable pub new_peer : ℕ → List ℕ → ℕ → S → Peer S C
  unfolding init make_tracker
  new_peer id peers threshold n = record {
    id = id;
    peers = peers;
    n = n;
    rb = init threshold;
    ct = make_tracker;
    msgs = [];
    done = false;
    loop = turn;
    to_apply = [];
    handling = [];
    kv = [];
    to_send = [];
    sent = [];
  }

  -- `HandleMessage`, which blocks while the channel is full.
  unfoldable pub handle_message : List (Message C) → Peer S C → Peer S C
  handle_message m p =
      if ltb (length p.msgs) msgs_cap then record p { msgs = p.msgs ++ m ∷ [] } else p

  -- `HandleCommand` up to the first round of `add`; `c` is the channel that it makes.
  unfoldable pub handle_command : Env → ClientPacket → ℕ → Peer S C → Outcome (Peer S C)
  unfolding add
  handle_command env pkt c p = elim (env.unmarshal_command pkt.message) [
    | none ↦ fault
    | some cmd ↦
        if cmd.target == p.id && not (env.verify pkt.message pkt.signature)
        then fault
        else ok (record p {
          rb = add (record { cmd = record cmd { trace_info = env.trace_info }; c = c }) p.rb;
        })
  ]

  -- `HandleCommand` after `add`.
  unfoldable pub refuse_if_stopped : ℕ → Peer S C → Peer S C
  refuse_if_stopped c p =
      if p.done then record p { ct = record p.ct { closed = p.ct.closed ++ c ∷ [] } } else p

  -- The start of `Stop`.
  unfoldable pub stop : Peer S C → Peer S C
  stop p = record p { done = true }

  -- `Stop` after the loop has returned.
  unfoldable pub finish_stop : Peer S C → Peer S C
  unfolding finish_all
  finish_stop p = record p { ct = finish_all p.ct }

  -- `trySendMessages`: a full queue takes nothing.
  unfoldable pub try_send_messages : List (Message C) → Peer S C → Peer S C × Bool
  try_send_messages [] p = (p, false)
  try_send_messages (m ∷ ms) p =
      if ltb (length p.to_send) applier_cap
      then (record p { to_send = p.to_send ++ (m ∷ ms) ∷ [] }, true)
      else (p, false)

  -- The goroutine of the applier that sends.
  unfoldable pub send_event : Peer S C → Peer S C
  send_event p = elim p.to_send [
    | [] ↦ p
    | ms ∷ events ↦ record p { to_send = events; sent = p.sent ++ ms }
  ]

  -- `maybeApplyAsync`: it goes on with no packet, or when the queue has room.
  unfoldable pub maybe_apply_async : List ExecPacket → Peer S C → Peer S C
  maybe_apply_async [] p = record p { loop = turn }
  maybe_apply_async (e ∷ ents) p =
      if ltb (length p.to_apply) applier_cap
      then record p { to_apply = p.to_apply ++ (e ∷ ents) ∷ []; loop = turn }
      else p

  -- The loop where it waits to hand over.
  unfoldable pub hand_over : Loop → Peer S C → Peer S C
  unfolding maybe_apply_async
  hand_over turn p = p
  hand_over returned p = p
  hand_over (handing ents) p = maybe_apply_async ents p

module _ {S C : Type 0} (proto : Protocol S C) where
  unfoldable pub tick : Peer S C → Outcome (Peer S C)
  tick p = proto.tick p.n >>= λ n'. ok (record p { n = n' })

  -- One round of the loop of `flushCmds`. A slot with a nil command is a nil dereference.
  unfoldable pub flush_cmd : Option ReqBufElem → Peer S C → Outcome (Peer S C)
  unfolding register
  flush_cmd none p = fault
  flush_cmd (some el) p =
      let (ct', fresh) = register el.cmd el.c p.ct in
      let p' = record p { ct = ct' } in
      if fresh && (el.cmd.target == p.id)
      then (proto.request el.cmd p.n >>= λ n'. ok (record p' { n = n' }))
      else ok p'

  unfoldable pub flush_cmds : List (Option ReqBufElem) → Peer S C → Outcome (Peer S C)
  unfolding flush_cmd
  flush_cmds [] p = ok p
  flush_cmds (el ∷ rb) p = flush_cmd el p >>= flush_cmds rb

  -- The messages of one packet of the transport.
  unfoldable pub step_each : List (Message C) → S → Outcome S
  step_each [] n = ok n
  step_each (m ∷ ms) n = proto.step m n >>= step_each ms

  -- The loop of `flushMsgs` for at most a number of packets.
  unfoldable pub flush_packets :
      ℕ → List (List (Message C)) → S → Outcome (List (List (Message C)) × S)
  unfolding step_each
  flush_packets zero msgs n = ok (msgs, n)
  flush_packets (suc k) [] n = ok ([], n)
  flush_packets (suc k) (m ∷ msgs) n = step_each m n >>= λ n'. flush_packets k msgs n'

  -- The number of peers is compared after a packet, so one packet is taken even without peers.
  unfoldable pub flush_msgs : Peer S C → Outcome (Peer S C)
  unfolding flush_packets
  flush_msgs p = proto.async_callback p.n >>= λ n'.
      flush_packets (suc (length p.peers - 1)) p.msgs n' >>= λ (msgs', n'').
      ok (record p { n = n''; msgs = msgs' })

  -- `rb.flush(p.flushCmdsFn, force)`. What the buffer holds is not touched by `flushCmds`.
  unfoldable pub flush_buffer : Bool → Peer S C → Outcome (Peer S C)
  unfolding flush flush_cmds
  flush_buffer force p = flush flush_cmds force p.rb p >>= λ (rb', p'). ok (record p' { rb = rb' })

  -- `RunOnce` up to the unlock.
  unfoldable pub run_once : Peer S C → Outcome (Peer S C)
  unfolding try_send_messages
  run_once p = proto.make_ready p.n >>= λ (rd, n').
      let (p', sent) = try_send_messages rd.messages p in
      let n'' = if sent then proto.clear_msgs n' else n' in
      ok (record p' { n = proto.clear_executed_commands n''; loop = handing rd.ordered_commands })

  -- A turn of the loop of `Run`.
  unfoldable pub take_turn : Peer S C → Outcome (Peer S C)
  unfolding flush_msgs flush_buffer run_once
  take_turn p =
      if p.done
      then (flush_buffer true p >>= λ p'. ok (record p' { loop = returned }))
      else flush_msgs p >>= λ p'. flush_buffer false p' >>= run_once

  -- One packet of `handleExecutedCmds`: the command runs, then the lock is taken for the rest.
  unfoldable pub handle_packet : Env → ExecPacket → Peer S C → Outcome (Peer S C)
  unfolding result_of finish
  handle_packet env pkt p = result_of env.unmarshal_result pkt p.kv >>= λ (kv', result).
      let p' = record p { kv = kv' } in
      if pkt.callback
      then (proto.callback (record { cmd = pkt.cmd; result = env.marshal_result result }) p.n
          >>= λ n'. ok (record p' { n = n' }))
      else ok (record p' { ct = finish result p.ct })

  -- The goroutine of the applier that executes: the next packet, or the next event of the queue.
  unfoldable pub apply_next : Env → Peer S C → Outcome (Peer S C)
  unfolding handle_packet
  apply_next env p = elim p.handling [
    | pkt ∷ committed ↦ handle_packet env pkt (record p { handling = committed })
    | [] ↦ elim p.to_apply [
      | [] ↦ ok p
      | ents ∷ events ↦ ok (record p { handling = ents; to_apply = events })
    ]
  ]
