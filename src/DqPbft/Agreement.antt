-- ===== src/DqPbft/Agreement.antt =====
-- protocols/dqpbft/cinstance.go and request.go: the agreement on the command of an instance.
use go_consensus.Base.{
  ℕ, Bool, false, ◌&&◌, Option, none, some, if◌then◌else◌, inc64, eq_bytes, Outcome, ok, fault,
  ◌>>=◌,
}
use go_consensus.Command.{Command, hash, equal}
use go_consensus.DqPbft.Messages.{
  InstanceId, Status, pre_prepared, prepared, committed, InstanceState, AgreementMessage,
  AgreementType, pre_prepare, prepare, commit, agreement, is_pre_prepared, is_prepared, equals,
  bytes_of,
}
use go_consensus.DqPbft.Quorum.{Quorum, new_quorum}
use go_consensus.DqPbft.Quorum
use go_consensus.DqPbft.Replica.{
  Instance, make_instance, DqPbft, Env, is_primary_at_view, broadcast, find_id, set_instance, exec,
}
use go_consensus.DqPbft.Ordering.{on_c_request}

unfoldable pub log :
    ℕ → AgreementMessage → Quorum AgreementMessage → Outcome (Quorum AgreementMessage)
unfolding Quorum.log
log id m q = Quorum.log (λ (x : AgreementMessage). x.view) id m q

unfoldable pub majority : ℕ → AgreementMessage → Quorum AgreementMessage → Bool
unfolding Quorum.majority equals
majority f m q = Quorum.majority (λ (x : AgreementMessage). x.view) equals f m q

-- A different command for the same instance is fatal.
unfoldable pub update_command : AgreementMessage → Instance → Outcome Instance
unfolding equal
update_command m inst = elim inst.is.command [
  | none ↦ ok (record inst { is = record inst.is { command = m.command } })
  | some c ↦ elim m.command [ none ↦ fault | some new ↦ if equal c new then ok inst else fault ]
]

-- A different hash for the same instance is a panic.
unfoldable pub update_command_hash : AgreementMessage → Instance → Outcome Instance
update_command_hash m inst = elim inst.is.command_hash [
  | none ↦ ok (record inst { is = record inst.is { command_hash = m.command_hash } })
  | some h ↦ if eq_bytes h (bytes_of m.command_hash) then ok inst else fault
]

unfoldable pub instance_for_pre_prepare : AgreementMessage → DqPbft → Outcome Instance
unfolding find_id make_instance update_command update_command_hash
instance_for_pre_prepare m d = elim (find_id m.instance_id d.log) [
  | none ↦ ok (make_instance m)
  | some inst ↦ update_command m inst >>= update_command_hash m
]

unfoldable pub instance_for : AgreementMessage → DqPbft → Outcome Instance
unfolding find_id make_instance update_command_hash
instance_for m d = elim (find_id m.instance_id d.log) [
  | none ↦ ok (make_instance m)
  | some inst ↦ update_command_hash m inst
]

abbrev pub set_status : Status → Instance → Instance
set_status s inst = record inst { is = record inst.is { status = s } }

-- A message for an instance, with no command.
abbrev pub message_for : AgreementType → ℕ → InstanceId → Instance → AgreementMessage
message_for t view id inst = record {
  view = view;
  instance_id = id;
  type = t;
  command = none;
  command_hash = inst.is.command_hash;
}

-- With a majority of commits a prepared instance is committed, and the log is executed.
unfoldable pub try_commit : AgreementMessage → InstanceId → Instance → DqPbft → Outcome DqPbft
unfolding majority is_prepared set_instance exec
try_commit m i inst d =
    if majority d.f m inst.c_cert && is_prepared inst.is.status
    then exec (set_instance i (set_status committed inst) d)
    else ok (set_instance i inst d)

-- With a majority of prepares a pre-prepared instance is prepared, and the commit is sent and counted.
unfoldable pub try_prepare : AgreementMessage → InstanceId → Instance → DqPbft → Outcome DqPbft
unfolding majority is_pre_prepared log broadcast set_instance try_commit
try_prepare m i inst d =
    if majority d.f m inst.p_cert && is_pre_prepared inst.is.status
    then (let ready = set_status prepared inst in
        let cm = message_for commit m.view m.instance_id ready in
        log d.id cm ready.c_cert >>= λ c.
        try_commit cm i (record ready { c_cert = c }) (broadcast (agreement cm) false d))
    else ok (set_instance i inst d)

-- The body of onPrePrepare once the instance is known.
unfoldable pub accept_pre_prepare : AgreementMessage → ℕ → Instance → DqPbft → Outcome DqPbft
unfolding log broadcast try_prepare
accept_pre_prepare m from inst d = log from (record m { command = none }) inst.p_cert >>= λ c.
    let accepted = set_status pre_prepared (record inst { p_cert = c }) in
    let pm = message_for prepare accepted.is.view accepted.is.instance_id accepted in
    log d.id pm c >>= λ c'.
    try_prepare pm m.instance_id (record accepted { p_cert = c' })
      (broadcast (agreement pm) false d)

-- At the primary of the order the instance is to be ordered first.
unfoldable pub order_if_primary : Env → InstanceId → DqPbft → Outcome DqPbft
unfolding is_primary_at_view on_c_request
order_if_primary env id d =
    if is_primary_at_view d.id d.oview d then on_c_request env id d else ok d

-- A missing command is a nil dereference.
unfoldable pub accept_command :
    Env → AgreementMessage → ℕ → Option Command → DqPbft → Outcome DqPbft
unfolding hash instance_for_pre_prepare accept_pre_prepare
accept_command env m from none d = fault
accept_command env m from (some cmd) d =
    let hashed = record m { command_hash = hash env.codec cmd } in
    instance_for_pre_prepare hashed d >>= λ inst. accept_pre_prepare hashed from inst d

unfoldable pub on_pre_prepare : Env → AgreementMessage → ℕ → DqPbft → Outcome DqPbft
unfolding order_if_primary accept_command
on_pre_prepare env m from d =
    order_if_primary env m.instance_id d >>= accept_command env m from m.command

unfoldable pub on_prepare : AgreementMessage → ℕ → DqPbft → Outcome DqPbft
unfolding instance_for log try_prepare
on_prepare m from d = instance_for m d >>= λ inst.
    log from m inst.p_cert >>= λ c. try_prepare m m.instance_id (record inst { p_cert = c }) d

unfoldable pub on_commit : AgreementMessage → ℕ → DqPbft → Outcome DqPbft
unfolding instance_for log try_commit
on_commit m from d = instance_for m d >>= λ inst.
    log from m inst.c_cert >>= λ c. try_commit m m.instance_id (record inst { c_cert = c }) d

-- The new instance of a request and its PrePrepare.
unfoldable pub propose : Env → Command → InstanceId → DqPbft → Outcome DqPbft
unfolding new_quorum log hash set_instance broadcast
propose env cmd id d =
    let is : InstanceState = record {
      view = d.view;
      instance_id = id;
      status = pre_prepared;
      command = some cmd;
      command_hash = none;
    } in
    let ppm : AgreementMessage = record {
      view = d.view;
      instance_id = id;
      type = pre_prepare;
      command = some cmd;
      command_hash = none;
    } in
    let logppm = record ppm { command = none; command_hash = hash env.codec cmd } in
    log d.id logppm new_quorum >>= λ c. ok (
      broadcast (agreement ppm) false
        (set_instance id (record { is = is; p_cert = c; c_cert = new_quorum }) d))

unfoldable pub on_request : Env → Command → DqPbft → Outcome DqPbft
unfolding propose order_if_primary
on_request env cmd d =
    let id : InstanceId = record { replica_id = d.id; index = d.index } in
    propose env cmd id (record d { index = inc64 d.index }) >>= order_if_primary env id
