-- ===== src/DqPbft/Ordering.antt =====
-- protocols/dqpbft/oinstance.go: the agreement on the order of the instances.
use go_consensus.Base.{
  ℕ, List, [], ◌∷◌, ◌++◌, Bool, true, false, not, ◌&&◌, none, some, if◌then◌else◌, inc64, leb,
  length, eq_bytes, lookup, Outcome, ok, fault, ◌>>=◌,
}
use go_consensus.DqPbft.Messages.{
  InstanceId, Status, pre_prepared, prepared, committed, OInstanceState, OAgreementMessage,
  AgreementType, pre_prepare, prepare, commit, o_agreement, is_pre_prepared, is_prepared, o_equals,
  instances_equals, bytes_of,
}
use go_consensus.DqPbft.Quorum.{Quorum, new_quorum}
use go_consensus.DqPbft.Quorum
use go_consensus.DqPbft.Replica.{
  OInstance, make_o_instance, DqPbft, Env, is_primary_at_view, broadcast, set_o_instance, exec,
}

unfoldable pub o_log :
    ℕ → OAgreementMessage → Quorum OAgreementMessage → Outcome (Quorum OAgreementMessage)
unfolding Quorum.log
o_log id m q = Quorum.log (λ (x : OAgreementMessage). x.view) id m q

unfoldable pub o_majority : ℕ → OAgreementMessage → Quorum OAgreementMessage → Bool
unfolding Quorum.majority o_equals
o_majority f m q = Quorum.majority (λ (x : OAgreementMessage). x.view) o_equals f m q

-- Other instances for the same index are a panic. No instances are nil.
unfoldable pub update_o_command : OAgreementMessage → OInstance → Outcome OInstance
unfolding instances_equals
update_o_command m inst = elim inst.is.instances [
  | [] ↦ ok (record inst { is = record inst.is { instances = m.instances } })
  | id ∷ ids ↦ if instances_equals (id ∷ ids) m.instances then ok inst else fault
]

-- A different hash for the same index is a panic.
unfoldable pub update_o_command_hash : OAgreementMessage → OInstance → Outcome OInstance
update_o_command_hash m inst = elim inst.is.command_hash [
  | none ↦ ok (record inst { is = record inst.is { command_hash = m.command_hash } })
  | some h ↦ if eq_bytes h (bytes_of m.command_hash) then ok inst else fault
]

abbrev pub set_o_status : Status → OInstance → OInstance
set_o_status s inst = record inst { is = record inst.is { status = s } }

-- A message for an o-instance, with no instances.
abbrev pub o_message_for : AgreementType → ℕ → ℕ → OInstance → OAgreementMessage
o_message_for t view index inst = record {
  view = view;
  index = index;
  type = t;
  instances = [];
  command_hash = inst.is.command_hash;
}

-- `sendCRequest`: what waits is proposed at the next index.
unfoldable pub propose_order : Env → List InstanceId → DqPbft → Outcome DqPbft
unfolding new_quorum o_log set_o_instance broadcast
propose_order env ids d =
    let index = d.oindex in
    let is : OInstanceState = record {
      view = d.view;
      index = index;
      status = pre_prepared;
      instances = ids;
      command_hash = none;
    } in
    let ppm : OAgreementMessage = record {
      view = d.view;
      index = index;
      type = pre_prepare;
      instances = ids;
      command_hash = none;
    } in
    let logppm = record ppm { instances = []; command_hash = some (env.digest ids) } in
    o_log d.id logppm new_quorum >>= λ c. ok (
      broadcast (o_agreement ppm) false (
        set_o_instance index (record { is = is; p_cert = c; c_cert = new_quorum })
          (record d { oindex = inc64 index })))

-- No id that waits.
abbrev pub no_ids : List InstanceId → Bool
no_ids [] = true
no_ids (id ∷ ids) = false

unfoldable pub send_c_request : Env → DqPbft → Outcome DqPbft
unfolding is_primary_at_view propose_order
send_c_request env d =
    if not (is_primary_at_view d.id d.oview d)
    then ok d
    else if no_ids d.c_req_buffer
    then ok (record d { c_req_buffer = [] })
    else propose_order env d.c_req_buffer (record d { c_req_buffer = [] })

-- `onCRequest`: a batch is proposed when it is full.
unfoldable pub on_c_request : Env → InstanceId → DqPbft → Outcome DqPbft
unfolding is_primary_at_view send_c_request
on_c_request env id d =
    let buffered = record d { c_req_buffer = d.c_req_buffer ++ id ∷ [] } in
    if not (is_primary_at_view d.id d.oview d)
    then ok d
    else if leb d.o_batch_size (length buffered.c_req_buffer)
    then send_c_request env buffered
    else ok buffered

-- The o-instance that an OPrePrepare is about: a new one, or the one in the log if it is consistent.
unfoldable pub o_instance_for_pre_prepare : OAgreementMessage → DqPbft → Outcome OInstance
unfolding make_o_instance update_o_command update_o_command_hash
o_instance_for_pre_prepare m d = elim (lookup m.index d.olog) [
  | none ↦ ok (make_o_instance m)
  | some inst ↦ update_o_command m inst >>= update_o_command_hash m
]

-- The same for an OPrepare or an OCommit.
unfoldable pub o_instance_for : OAgreementMessage → DqPbft → Outcome OInstance
unfolding make_o_instance update_o_command_hash
o_instance_for m d = elim (lookup m.index d.olog) [
  | none ↦ ok (make_o_instance m)
  | some inst ↦ update_o_command_hash m inst
]

-- With a majority of commits a prepared o-instance is committed, and the log is executed.
unfoldable pub o_try_commit : OAgreementMessage → ℕ → OInstance → DqPbft → Outcome DqPbft
unfolding o_majority is_prepared set_o_instance exec
o_try_commit m i inst d =
    if o_majority d.f m inst.c_cert && is_prepared inst.is.status
    then exec (set_o_instance i (set_o_status committed inst) d)
    else ok (set_o_instance i inst d)

-- With a majority of prepares a pre-prepared o-instance is prepared, and the commit is sent and
-- counted.
unfoldable pub o_try_prepare : OAgreementMessage → ℕ → OInstance → DqPbft → Outcome DqPbft
unfolding o_majority is_pre_prepared o_log broadcast set_o_instance o_try_commit
o_try_prepare m i inst d =
    if o_majority d.f m inst.p_cert && is_pre_prepared inst.is.status
    then (let ready = set_o_status prepared inst in
        let cm = o_message_for commit m.view m.index ready in
        o_log d.id cm ready.c_cert >>= λ c.
        o_try_commit cm i (record ready { c_cert = c }) (broadcast (o_agreement cm) false d))
    else ok (set_o_instance i inst d)

-- The body of onOPrePrepare once the o-instance is known.
unfoldable pub accept_o_pre_prepare : OAgreementMessage → ℕ → OInstance → DqPbft → Outcome DqPbft
unfolding o_log broadcast o_try_prepare
accept_o_pre_prepare m from inst d = o_log from m inst.p_cert >>= λ c.
    let accepted = set_o_status pre_prepared (record inst { p_cert = c }) in
    let pm = o_message_for prepare accepted.is.view accepted.is.index accepted in
    o_log d.id pm c >>= λ c'.
    o_try_prepare pm m.index (record accepted { p_cert = c' }) (broadcast (o_agreement pm) false d)

-- An OPrePrepare of another replica than the primary is a panic.
unfoldable pub on_o_pre_prepare : Env → OAgreementMessage → ℕ → DqPbft → Outcome DqPbft
unfolding is_primary_at_view o_instance_for_pre_prepare accept_o_pre_prepare
on_o_pre_prepare env m from d =
    let hashed = record m { command_hash = some (env.digest m.instances) } in
    if not (is_primary_at_view from d.oview d)
    then fault
    else o_instance_for_pre_prepare hashed d >>= λ inst. accept_o_pre_prepare hashed from inst d

-- An OPrepare of the primary is a panic.
unfoldable pub on_o_prepare : OAgreementMessage → ℕ → DqPbft → Outcome DqPbft
unfolding is_primary_at_view o_instance_for o_log o_try_prepare
on_o_prepare m from d =
    if is_primary_at_view from d.oview d
    then fault
    else o_instance_for m d >>= λ inst.
        o_log from m inst.p_cert >>= λ c. o_try_prepare m m.index (record inst { p_cert = c }) d

unfoldable pub on_o_commit : OAgreementMessage → ℕ → DqPbft → Outcome DqPbft
unfolding o_instance_for o_log o_try_commit
on_o_commit m from d = o_instance_for m d >>= λ inst.
    o_log from m inst.c_cert >>= λ c. o_try_commit m m.index (record inst { c_cert = c }) d
