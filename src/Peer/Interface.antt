-- ===== src/Peer/Interface.antt =====
-- peer/protocol.go and peer.go: what the peer asks of a protocol, and what they exchange.
use go_consensus.Base.{ℕ, List, Bytes, Outcome}
use go_consensus.Command.{Command}
use go_consensus.Peer.Applier.{ExecPacket}

-- peerpb.Message; its content is kept as the message that the bytes encode.
pub record Message (C : Type 0) : Type 0 where
  pub content : C
  pub certificate : Bytes
  pub to : ℕ
  pub sender : ℕ

pub record ExecCallback : Type 0 where
  pub cmd : Command
  pub result : Bytes

pub record Ready (C : Type 0) : Type 0 where
  pub messages : List (Message C)
  pub ordered_commands : List ExecPacket

-- peer.Protocol, over the state `S` of a protocol and the content `C` of its messages.
pub record Protocol (S C : Type 0) : Type 0 where
  pub step : Message C → S → Outcome S
  pub tick : S → Outcome S
  pub request : Command → S → Outcome S
  pub callback : ExecCallback → S → Outcome S
  pub make_ready : S → Outcome (Ready C × S)
  pub clear_msgs : S → S
  pub clear_executed_commands : S → S
  pub async_callback : S → Outcome S
