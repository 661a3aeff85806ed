-- ===== src/Pbft/Agreement.antt =====
-- protocols/pbft/instance.go, request.go and stepAgreement of pbft.go: the agreement on one index.
pub mod Certified
pub mod Prepared
pub mod Invariant
use go_consensus.Base.{
  ℕ, ◌%◌, ◌≡◌, List, Bool, true, false, not, ◌&&◌, Option, none, some, ◌==◌, if◌then◌else◌, inc64,
  length, Bytes, lookup, Outcome, ok, fault, ◌>>=◌,
}
use go_consensus.Command.{Command, Codec, hash}
use go_consensus.Command
use go_consensus.Pbft.Messages.{
  Status, pre_prepared, prepared, committed, InstanceState, AgreementMessage, AgreementType,
  pre_prepare, prepare, commit, other, agreement, is_pre_prepared, is_prepared, eq_hash,
}
use go_consensus.Pbft.Quorum.{Quorum, new_quorum, log, majority}
use go_consensus.Pbft.Replica.{
  Instance, make_instance, Pbft, Env, is_current_primary, broadcast, set_instance, exec,
}

-- A different command for the same instance is fatal.
unfoldable pub update_command : AgreementMessage → Instance → Outcome Instance
update_command m inst = elim inst.is.command [
  | none ↦ ok (record inst { is = record inst.is { command = m.command } })
  | some c ↦ elim m.command [ none ↦ fault | some d ↦ if Command.equal c d then ok inst else fault ]
]

-- A different hash for the same instance is a panic.
unfoldable pub update_command_hash : AgreementMessage → Instance → Outcome Instance
update_command_hash m inst = elim inst.is.command_hash [
  | none ↦ ok (record inst { is = record inst.is { command_hash = m.command_hash } })
  | some h ↦ if eq_hash (some h) m.command_hash then ok inst else fault
]

-- `Hash` reads through the pointer: a missing command is a nil dereference.
unfoldable pub check_command_hash : Codec → Option Command → Option Bytes → Outcome Bool
check_command_hash c cmd h = elim cmd [ none ↦ fault | some d ↦ ok (eq_hash h (hash c d)) ]

-- The instance that a PrePrepare is about: a new one, or the one in the log if it is consistent.
unfoldable pub instance_for_pre_prepare : AgreementMessage → Pbft → Outcome Instance
unfolding update_command update_command_hash make_instance
instance_for_pre_prepare m p = elim (lookup m.index p.log) [
  | none ↦ ok (make_instance m)
  | some inst ↦ update_command m inst >>= update_command_hash m
]

-- The same for a Prepare or a Commit, which bring no command.
unfoldable pub instance_for : AgreementMessage → Pbft → Outcome Instance
unfolding update_command_hash make_instance
instance_for m p = elim (lookup m.index p.log) [
  | none ↦ ok (make_instance m)
  | some inst ↦ update_command_hash m inst
]

abbrev pub set_status : Status → Instance → Instance
set_status s inst = record inst { is = record inst.is { status = s } }

-- An agreement message for an instance, with no command.
abbrev pub message_for : AgreementType → ℕ → ℕ → Instance → AgreementMessage
message_for t view index inst = record {
  view = view;
  index = index;
  type = t;
  command = none;
  command_hash = inst.is.command_hash;
}

-- With a majority of commits a prepared instance is committed, and the log is executed.
unfoldable pub try_commit : AgreementMessage → ℕ → Instance → Pbft → Pbft
unfolding set_instance exec
try_commit m i inst p =
    if majority p.f m inst.c_cert && is_prepared inst.is
    then exec (set_instance i (set_status committed inst) p)
    else set_instance i inst p

-- With a majority of prepares a pre-prepared instance is prepared, and the commit is sent and
-- counted. `view` is the view of the commit, `i` the instance's key.
unfoldable pub try_prepare : AgreementMessage → ℕ → ℕ → Instance → Pbft → Outcome Pbft
unfolding set_instance broadcast try_commit
try_prepare m view i inst p =
    if majority p.f m inst.p_cert && is_pre_prepared inst.is
    then (let ready = set_status prepared inst in
        let cm = message_for commit view m.index ready in
        log p.id cm ready.c_cert >>= λ c.
        ok (try_commit cm i (record ready { c_cert = c }) (broadcast (agreement cm) false p)))
    else ok (set_instance i inst p)

-- The body of onPrePrepare once the instance is known.
unfoldable pub accept_pre_prepare : AgreementMessage → ℕ → Instance → Pbft → Outcome Pbft
unfolding try_prepare broadcast
accept_pre_prepare m from inst p = log from (record m { command = none }) inst.p_cert >>= λ c.
    let accepted = set_status pre_prepared (record inst { p_cert = c }) in
    let pm = message_for prepare accepted.is.view accepted.is.index accepted in
    log p.id pm c >>= λ c'.
    try_prepare pm pm.view m.index (record accepted { p_cert = c' })
      (broadcast (agreement pm) false p)

unfoldable pub on_pre_prepare : Env → AgreementMessage → ℕ → Pbft → Outcome Pbft
unfolding is_current_primary check_command_hash instance_for_pre_prepare accept_pre_prepare
on_pre_prepare env m from p =
    if not (is_current_primary p from)
    then ok p
    else check_command_hash env.codec m.command m.command_hash >>= λ good.
        if not good
        then fault
        else instance_for_pre_prepare m p >>= λ inst. accept_pre_prepare m from inst p

unfoldable pub on_prepare : AgreementMessage → ℕ → Pbft → Outcome Pbft
unfolding is_current_primary instance_for try_prepare
on_prepare m from p =
    if is_current_primary p from
    then ok p
    else instance_for m p >>= λ inst.
        log from m inst.p_cert >>= λ c. try_prepare m m.view m.index (record inst { p_cert = c }) p

unfoldable pub on_commit : AgreementMessage → ℕ → Pbft → Outcome Pbft
unfolding instance_for try_commit
on_commit m from p = instance_for m p >>= λ inst.
    log from m inst.c_cert >>= λ c. ok (try_commit m m.index (record inst { c_cert = c }) p)

unfoldable pub dispatch_agreement : Env → AgreementType → AgreementMessage → ℕ → Pbft → Outcome Pbft
unfolding on_pre_prepare on_prepare on_commit
dispatch_agreement env pre_prepare m from p = on_pre_prepare env m from p
dispatch_agreement env prepare m from p = on_prepare m from p
dispatch_agreement env commit m from p = on_commit m from p
dispatch_agreement env (other n) m from p = fault

unfoldable pub step_agreement : Env → AgreementMessage → ℕ → Pbft → Outcome Pbft
unfolding dispatch_agreement
step_agreement env m from p =
    if p.view_changing
    then ok p
    else if not (m.view == p.view)
    then ok p
    else dispatch_agreement env m.type m from p

-- The new instance of a request, and its PrePrepare.
unfoldable pub propose : Env → Command → Pbft → Outcome Pbft
unfolding set_instance broadcast
propose env cmd p =
    let index = inc64 p.index in
    let h = hash env.codec cmd in
    let state : InstanceState = record {
      view = p.view;
      index = index;
      status = pre_prepared;
      command = some cmd;
      command_hash = h;
    } in
    let ppm : AgreementMessage = record {
      view = p.view;
      index = index;
      type = pre_prepare;
      command = some cmd;
      command_hash = h;
    } in
    log p.id ppm new_quorum >>= λ c.
    let inst : Instance = record { is = state; p_cert = c; c_cert = new_quorum } in
    ok (broadcast (agreement ppm) false (set_instance index inst (record p { index = index })))

-- A replica that is not the leader of its view ignores the request.
unfoldable pub on_request : Env → Command → Pbft → Outcome Pbft
unfolding propose
on_request env cmd p = if not (p.view % length p.nodes == p.id) then ok p else propose env cmd p
