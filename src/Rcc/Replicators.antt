-- ===== src/Rcc/Replicators.antt =====
-- protocols/pbft as an instance of RCC: its methods in the form that the peer calls them.
use go_consensus.Base.{[], false, map, ok, fault}
use go_consensus.Command.{Command}
use go_consensus.Peer.Applier.{ExecPacket}
use go_consensus.Peer.Interface.{Message, Protocol}
use go_consensus.Pbft.Messages.{PbftMessage}
use go_consensus.Pbft.Replica.{Envelope, Pbft, Env}
use go_consensus.Pbft.Protocol.{
  step, request, async_callback, make_ready, clear_msgs, clear_executed_commands,
}

-- `Execute` makes a packet of the command alone.
unfoldable pub packet_of : Command → ExecPacket
packet_of cmd = record { cmd = cmd; is_spec = false; meta = []; callback = false; no_exec = false }

abbrev pub to_message : Envelope → Message PbftMessage
to_message e = record {
  content = e.content;
  certificate = e.certificate;
  to = e.to;
  sender = e.sender;
}

abbrev pub of_message : Message PbftMessage → Envelope
of_message m = record {
  content = m.content;
  certificate = m.certificate;
  to = m.to;
  sender = m.sender;
}

-- `Tick` runs over timers that nothing adds; `Callback` panics.
unfoldable pub protocol : Env → Protocol Pbft PbftMessage
unfolding step request async_callback make_ready clear_msgs clear_executed_commands packet_of
protocol env = record {
  step = λ m p. step env (of_message m) p;
  tick = λ p. ok p;
  request = λ cmd p. request env cmd p;
  callback = λ cb p. fault;
  make_ready = λ p.
      let rd = make_ready p in
      ok (
        record {
          messages = map to_message rd.messages;
          ordered_commands = map packet_of rd.ordered_commands;
        },
        p,
      );
  clear_msgs = clear_msgs;
  clear_executed_commands = clear_executed_commands;
  async_callback = async_callback;
}
