-- ===== src/Tests/Scenario.antt =====
-- Four PBFT replicas, the first one the primary of view 0, with simple stand-ins for the codec, the
-- hash and the certifier.
use go_consensus.Base.{ℕ, List, [], ◌∷◌, true, Option, some, Bytes}
use go_consensus.Command.{Command, Codec, kv_op}
use go_consensus.Pbft.Messages.{AgreementMessage, AgreementType, agreement}
use go_consensus.Pbft.Replica.{Env, Envelope, Pbft, new_pbft}

abbrev pub codec : Codec
codec = record { marshal = λ c. some (c.timestamp ∷ c.conflict_key); sha256 = λ b. 7 ∷ b }

abbrev pub mac : Bytes
mac =
    1 ∷ 2 ∷ 3 ∷ 4 ∷ 5 ∷ 6 ∷ 7 ∷ 8 ∷ 1 ∷ 2 ∷ 3 ∷ 4 ∷ 5 ∷ 6 ∷ 7 ∷ 8 ∷ 1 ∷ 2 ∷ 3 ∷ 4 ∷ 5 ∷ 6 ∷ 7 ∷ 8
    ∷ 1 ∷ 2 ∷ 3 ∷ 4 ∷ 5 ∷ 6 ∷ 7 ∷ 8 ∷ []

abbrev pub env : Env
env = record {
  codec = codec;
  digest = λ m. m.new_view ∷ [];
  create_certificate = λ m. mac;
  verify_certificate = λ m cert. true;
}

abbrev pub nodes : List ℕ
nodes = 0 ∷ 1 ∷ 2 ∷ 3 ∷ []

abbrev pub cmd : Command
cmd = record {
  timestamp = 42;
  ops = kv_op (record { key = 97 ∷ []; value = 98 ∷ []; read = true }) ∷ [];
  target = 0;
  meta = [];
  conflict_key = 97 ∷ [];
  trace_info = [];
}

-- The hash of the command.
abbrev pub cmd_hash : Option Bytes
cmd_hash = some (7 ∷ 42 ∷ 97 ∷ [])

abbrev pub about : AgreementType → Option Command → AgreementMessage
about t c = record { view = 0; index = 1; type = t; command = c; command_hash = cmd_hash }

abbrev pub letter_from : ℕ → AgreementMessage → Envelope
letter_from from m = record { content = agreement m; certificate = mac; to = 1; sender = from }

abbrev pub primary : Pbft
unfolding new_pbft
primary = new_pbft 0 nodes 0 1

abbrev pub backup : Pbft
unfolding new_pbft
backup = new_pbft 1 nodes 0 1
