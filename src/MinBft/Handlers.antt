-- ===== src/MinBft/Handlers.antt =====
-- protocols/minbft/instance.go, request.go and minbft.go: the handlers of messages and requests.
use go_consensus.Base.{
  ℕ, ◌%◌, Bool, true, false, not, ◌&&◌, Option, none, some, ltb, ◌==◌, if◌then◌else◌, inc64, length,
  Bytes, lookup, Outcome, ok, fault, ◌>>=◌,
}
use go_consensus.Command.{Command, Codec, hash}
use go_consensus.Command
use go_consensus.Pbft.Messages.{eq_hash}
use go_consensus.MinBft.Quorum.{
  NormalType, prepare, commit, other, NormalMessage, Quorum, new_quorum, log, majority,
}
use go_consensus.MinBft.Identifier.{of_cert}
use go_consensus.MinBft.Replica.{
  Instance, make_instance, Envelope, MinBft, Env, broadcast_normal, set_instance, exec,
}

unfoldable pub update_command : NormalMessage → Instance → Outcome Instance
update_command m inst = elim inst.command [
  | none ↦ ok (record inst { command = m.command })
  | some c ↦ elim m.command [ none ↦ fault | some d ↦ if Command.equal c d then ok inst else fault ]
]

unfoldable pub update_command_hash : NormalMessage → Instance → Outcome Instance
update_command_hash m inst = elim inst.command_hash [
  | none ↦ ok (record inst { command_hash = m.command_hash })
  | some h ↦ if eq_hash (some h) m.command_hash then ok inst else fault
]

-- `Hash` reads through the pointer.
unfoldable pub check_command_hash : Codec → Option Command → Option Bytes → Outcome Bool
check_command_hash c cmd h = elim cmd [ none ↦ fault | some d ↦ ok (eq_hash h (hash c d)) ]

-- The highest slot seen.
unfoldable pub update_slot : NormalMessage → MinBft → MinBft
update_slot m p = if ltb p.slot m.order then record p { slot = m.order } else p

unfoldable pub instance_for_prepare : NormalMessage → MinBft → Outcome Instance
unfolding make_instance update_command update_command_hash
instance_for_prepare m p = elim (lookup m.order p.log) [
  | none ↦ ok (make_instance m)
  | some inst ↦ update_command m inst >>= update_command_hash m
]

unfoldable pub instance_for : NormalMessage → MinBft → Outcome Instance
unfolding make_instance update_command_hash
instance_for m p = elim (lookup m.order p.log) [
  | none ↦ ok (make_instance m)
  | some inst ↦ update_command_hash m inst
]

-- `inst.quorum.log`: the empty instance of slot 0 has no quorum to log to.
unfoldable pub log_in : ℕ → NormalMessage → Instance → Outcome Instance
log_in id m inst = elim inst.quorum [
  | none ↦ fault
  | some q ↦ log id m q >>= λ q'. ok (record inst { quorum = some q' })
]

abbrev pub has_majority : ℕ → NormalMessage → Option Quorum → Bool
has_majority f m none = false
has_majority f m (some q) = majority f m q

-- A prepared instance with a majority is committed, and the log is executed.
unfoldable pub try_commit : NormalMessage → Instance → MinBft → Outcome MinBft
unfolding set_instance exec
try_commit m inst p =
    if inst.prepared && (not inst.commit && has_majority p.f m inst.quorum)
    then exec (set_instance m.order (record inst { commit = true }) p)
    else ok (set_instance m.order inst p)

abbrev pub commit_for : NormalMessage → NormalMessage
commit_for m = record {
  type = commit;
  view = m.view;
  order = m.order;
  command = none;
  command_hash = m.command_hash;
}

-- The body of onPrepare once the instance is known.
unfoldable pub accept_prepare : Env → NormalMessage → ℕ → Instance → MinBft → Outcome MinBft
unfolding log_in broadcast_normal try_commit
accept_prepare env m from inst p = log_in from m inst >>= λ logged.
    log_in p.id (commit_for m) (record logged { prepared = true }) >>= λ own.
    try_commit m own (broadcast_normal env (commit_for m) p)

unfoldable pub on_prepare : Env → NormalMessage → ℕ → MinBft → Outcome MinBft
unfolding update_slot check_command_hash instance_for_prepare accept_prepare
on_prepare env m from p =
    if ltb m.view p.cur_view
    then ok p
    else (let p' = update_slot m p in
        check_command_hash env.codec m.command m.command_hash >>= λ good.
        if not good
        then fault
        else instance_for_prepare m p' >>= λ inst. accept_prepare env m from inst p')

unfoldable pub on_commit : NormalMessage → ℕ → MinBft → Outcome MinBft
unfolding update_slot instance_for log_in try_commit
on_commit m from p =
    let p' = update_slot m p in
    instance_for m p' >>= λ inst. log_in from m inst >>= λ logged. try_commit m logged p'

unfoldable pub dispatch : Env → NormalType → NormalMessage → ℕ → MinBft → Outcome MinBft
unfolding on_prepare on_commit
dispatch env prepare m from p = on_prepare env m from p
dispatch env commit m from p = on_commit m from p
dispatch env (other n) m from p = fault

-- `stepNormal`. A message of another view is fatal.
unfoldable pub step_normal : Env → NormalMessage → Bytes → ℕ → MinBft → Outcome MinBft
unfolding of_cert dispatch
step_normal env m cert from p =
    if not (p.cur_view == p.stable_view)
    then ok p
    else of_cert cert >>= λ (counter, mac).
        if not (env.verify_ui_mac m mac counter)
        then ok p
        else if not (m.view == p.cur_view)
        then fault
        else dispatch env m.type m from p

unfoldable pub step : Env → Envelope → MinBft → Outcome MinBft
unfolding step_normal
step env e p = step_normal env e.content e.certificate e.sender p

-- The Prepare of a request.
abbrev pub new_prepare : Env → Command → MinBft → NormalMessage
new_prepare env cmd p = record {
  type = prepare;
  view = p.cur_view;
  order = inc64 p.slot;
  command = some cmd;
  command_hash = hash env.codec cmd;
}

-- The instance of a request. It keeps no hash.
abbrev pub new_instance : Command → MinBft → Instance
new_instance cmd p = record {
  slot = inc64 p.slot;
  view = p.cur_view;
  command = some cmd;
  command_hash = none;
  prepared = false;
  commit = false;
  executed = false;
  quorum = some new_quorum;
}

-- `onRequest` once the replica leads its view.
unfoldable pub propose : Env → Command → MinBft → Outcome MinBft
unfolding log_in set_instance broadcast_normal
propose env cmd p =
    let slot = inc64 p.slot in
    let pr = new_prepare env cmd p in
    log_in p.id pr (new_instance cmd p) >>= λ logged. ok (
      broadcast_normal env pr
        (set_instance slot (record logged { prepared = true }) (record p { slot = slot })))

-- `onRequest`: a request at a replica that does not lead its view is a panic.
unfoldable pub on_request : Env → Command → MinBft → Outcome MinBft
unfolding propose
on_request env cmd p =
    if not (p.cur_view == p.stable_view)
    then fault
    else if not (p.stable_view % length p.nodes == p.id)
    then fault
    else propose env cmd p

unfoldable pub request : Env → Command → MinBft → Outcome MinBft
unfolding on_request
request env cmd p = on_request env cmd p
