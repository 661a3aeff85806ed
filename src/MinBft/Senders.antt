-- ===== src/MinBft/Senders.antt =====
-- protocols/minbft/instance.go, `onPrepare`: whose Prepare a replica accepts.
use go_consensus.Base.{
  ℕ, ◌≤◌, ◌≡◌, refl, inl, inr, true, false, none, some, arith, ltb, lookup, insert, Bool-cases,
  is_some, ok,
}
use go_consensus.Command.{Command, hash}
use go_consensus.Pbft.Messages.{eq_hash}
use go_consensus.MinBft.Quorum.{NormalMessage, Quorum, new_quorum, at_view, add_first, log}
use go_consensus.MinBft.Replica.{Instance, make_instance, MinBft, Env, broadcast_normal}
use go_consensus.MinBft.Handlers.{
  update_slot, check_command_hash, instance_for_prepare, log_in, commit_for, accept_prepare,
  on_prepare,
}
use go_consensus.MinBft.Sound.{AllSound}
use go_consensus.MinBft.Entries.{instance_for_prepare-Entry}
use go_consensus.MinBft.Kept.{own-Entry, finish_prepare-AllSound, update_slot-AllSound}
use go_consensus.MinBft.Faults.{hash_at, hash_at-try_commit}

log_fits :
    (id : ℕ) (m : NormalMessage) (q : Quorum)
    → q.max_view ≤ m.view
    → (q' : Quorum) × (log id m q ≡ ok q') × (q'.max_view ≡ m.view)
unfolding log
log_fits id m q h = elim (Bool-cases (ltb m.view q.max_view)) [
  | inl e ↦ absurd (ground arith)
  | inr e ↦ (
    record {
      max_view = m.view;
      msgs = insert m.view (add_first id m (at_view m.view q.msgs)) q.msgs;
    },
    rw (e, log) refl,
    refl,
  )
]

log_in_fits :
    (id : ℕ) (m : NormalMessage) (inst : Instance) (q : Quorum)
    → inst.quorum ≡ some q
    → q.max_view ≤ m.view
    → (q' : Quorum) × (log_in id m inst ≡ ok (record inst { quorum = some q' }))
      × (q'.max_view ≡ m.view)
unfolding log_in
log_in_fits id m inst q e h = let (q', l, v) = log_fits id m q h in (q', rw (e, l, log_in) refl, v)

instance_for_prepare_new :
    (m : NormalMessage) (p : MinBft)
    → lookup m.order p.log ≡ none
    → instance_for_prepare m (update_slot m p) ≡ ok (make_instance m)
unfolding instance_for_prepare update_slot
instance_for_prepare_new m p h = elim (Bool-cases (ltb p.slot m.order)) [
  | inl t ↦ rw (t, h, update_slot, instance_for_prepare) refl
  | inr t ↦ rw (t, h, update_slot, instance_for_prepare) refl
]

check_right :
    (env : Env) (m : NormalMessage) (c : Command)
    → m.command ≡ some c
    → eq_hash m.command_hash (hash env.codec c) ≡ true
    → check_command_hash env.codec m.command m.command_hash ≡ ok true
unfolding check_command_hash
check_right env m c e h = rw (e, h, check_command_hash) refl

-- On a sound log, a Prepare that is not of an older view, with a command and its hash, for a slot that
-- the log does not have is accepted from any sender, the leader of the view or not: the handler
-- returns, and the log has the hash for the slot.
pub on_prepare_anyone :
    (env : Env) (m : NormalMessage) (c : Command) (from : ℕ) (p : MinBft)
    → AllSound p
    → ltb m.view p.cur_view ≡ false
    → lookup m.order p.log ≡ none
    → m.command ≡ some c
    → eq_hash m.command_hash (hash env.codec c) ≡ true
    → (q : MinBft) × (on_prepare env m from p ≡ ok q) × (hash_at m.order q ≡ some m.command_hash)
unfolding on_prepare accept_prepare make_instance new_quorum
on_prepare_anyone env m c from p a v n e h =
    let p' = update_slot m p in
    let a' = update_slot-AllSound m p a in
    let inst = make_instance m in
    let i = instance_for_prepare_new m p n in
    let (q1, l, v1) = log_in_fits from m inst new_quorum refl (omega arith) in
    let logged = record inst { quorum = some q1 } in
    let started = record logged { prepared = true } in
    let (q2, l', v2) = log_in_fits p'.id (commit_for m) started q1 refl (omega (arith, v1)) in
    let own = record started { quorum = some q2 } in
    let has : is_some m.command ≡ true = rw e refl in
    let (w, s) = instance_for_prepare-Entry m p' inst a' has i in
    let (q, t, b) =
      finish_prepare-AllSound env m own p' a'
        (own-Entry p'.f p'.id from m inst logged own w s l l') in
    let accepted : accept_prepare env m from inst p' ≡ ok q = rw (l, l', accept_prepare) t in
    (
      q,
      rw (v, check_right env m c e h, i, accepted, on_prepare) refl,
      hash_at-try_commit m own (broadcast_normal env (commit_for m) p') q t,
    )
