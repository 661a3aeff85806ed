-- ===== src/MinBft/Faults.antt =====
-- protocols/minbft: what a faulty replica can do to the others.
use go_consensus.Base.{
  ℕ, ◌≡◌, refl, ◌∙◌, sym, ap, inl, inr, true, false, Option, none, some, arith, lookup,
  lookup-insert, lookup-insert_self, subst, Option-cases, Bool-cases, ok, fault, ok_of_bind,
  ok_of_guard, ok-injective, zero, suc, Bytes, not, ◌&&◌, ltb, inc64,
}
use go_consensus.Command.{Command}
use go_consensus.Pbft.Messages.{eq_hash}
use go_consensus.MinBft.Quorum.{NormalMessage}
use go_consensus.MinBft.Replica.{
  Instance, make_instance, MinBft, Env, set_instance, executable, run_command, execute_one,
  exec_loop, exec,
}
use go_consensus.MinBft.Handlers.{
  update_slot, update_command_hash, instance_for, log_in, has_majority, try_commit, on_commit,
  new_prepare, new_instance, propose, request, on_request,
}
use go_consensus.MinBft.Sound.{executable-lookup}
use go_consensus.MinBft.Entries.{log_in-keeps}
use go_consensus.MinBft.Kept.{broadcast_normal-keeps}

-- The hash that the log has for a slot, if it has the slot.
abbrev hash_of : Option Instance → Option (Option Bytes)
hash_of none = none
hash_of (some inst) = some inst.command_hash

unfoldable pub hash_at : ℕ → MinBft → Option (Option Bytes)
hash_at i p = hash_of (lookup i p.log)

hash_at-run_command :
    (i : ℕ) (cmd : Command) (e : Instance) (p : MinBft)
    → executable p ≡ some e
    → hash_at i (run_command cmd e p) ≡ hash_at i p
unfolding hash_at run_command
hash_at-run_command i cmd e p h =
    ground (
      arith,
      lookup-insert p.execute i (record e { executed = true }) p.log,
      executable-lookup p e h,
    )

hash_at-exec_loop : (n i : ℕ) (p q : MinBft) → exec_loop n p ≡ ok q → hash_at i q ≡ hash_at i p
unfolding exec_loop execute_one
hash_at-exec_loop zero i p q h = ap (hash_at i) (sym (ok-injective h))
hash_at-exec_loop (suc n) i p q h = elim (Option-cases (executable p)) [
  | inl e ↦ ap (hash_at i) (sym (ok-injective (rw (e, exec_loop) at h)))
  | inr (inst, e) ↦
      let (mid, l, r) = ok_of_bind (execute_one inst p) (exec_loop n) (rw (e, exec_loop) at h) in
      elim (Option-cases inst.command) [
        | inl k ↦ absurd (ground (arith, l, k))
        | inr (cmd, k) ↦
            let same : run_command cmd inst p ≡ mid = ground (arith, l, k) in
            hash_at-exec_loop n i mid q r
            ∙ (ap (hash_at i) (sym same) ∙ hash_at-run_command i cmd inst p e)
      ]
]

pub hash_at-try_commit :
    (m : NormalMessage) (inst : Instance) (p q : MinBft)
    → try_commit m inst p ≡ ok q
    → hash_at m.order q ≡ some inst.command_hash
unfolding try_commit set_instance exec hash_at
hash_at-try_commit m inst p q h =
    elim (Bool-cases (inst.prepared && (not inst.commit && has_majority p.f m inst.quorum))) [
      | inl t ↦
          let done = record inst { commit = true } in
          hash_at-exec_loop _ m.order (set_instance m.order done p) q (rw (t, try_commit) at h)
          ∙ ap hash_of (lookup-insert_self m.order done p.log)
      | inr t ↦
          ap (hash_at m.order) (sym (ok-injective (rw (t, try_commit) at h)))
          ∙ ap hash_of (lookup-insert_self m.order inst p.log)
    ]

update_slot-hash_at :
    (m : NormalMessage) (i : ℕ) (p : MinBft) → hash_at i (update_slot m p) ≡ hash_at i p
unfolding update_slot hash_at
update_slot-hash_at m i p = elim (Bool-cases (ltb p.slot m.order)) [
  | inl t ↦ rw (t, update_slot) refl
  | inr t ↦ rw (t, update_slot) refl
]

instance_for_open :
    (m : NormalMessage) (p : MinBft) (inst : Instance)
    → hash_at m.order p ≡ some none
    → instance_for m p ≡ ok inst
    → inst.command_hash ≡ m.command_hash
unfolding instance_for update_command_hash hash_at make_instance
instance_for_open m p inst e h = ground arith

-- A Commit for a slot whose instance has no hash gives it the hash of the message.
on_commit_open :
    (m : NormalMessage) (from : ℕ) (p q : MinBft)
    → hash_at m.order p ≡ some none
    → on_commit m from p ≡ ok q
    → hash_at m.order q ≡ some m.command_hash
unfolding on_commit
on_commit_open m from p q e h =
    let (inst, l, r) = ok_of_bind (instance_for m (update_slot m p)) _ h in
    let (logged, l', r') = ok_of_bind (log_in from m inst) _ r in
    let here : inst.command_hash ≡ m.command_hash =
      instance_for_open m (update_slot m p) inst (update_slot-hash_at m m.order p ∙ e) l in
    hash_at-try_commit m logged (update_slot m p) q r'
    ∙ ap some (ap (λ x. x.command_hash) (log_in-keeps from m inst logged l') ∙ here)

instance_for_other :
    (m : NormalMessage) (p : MinBft) (h : Bytes)
    → hash_at m.order p ≡ some (some h)
    → eq_hash (some h) m.command_hash ≡ false
    → instance_for m p ≡ fault
unfolding instance_for update_command_hash hash_at
instance_for_other m p h e n = ground arith

-- A Commit with another hash than the instance has is a panic.
on_commit_other :
    (m : NormalMessage) (from : ℕ) (p : MinBft) (h : Bytes)
    → hash_at m.order p ≡ some (some h)
    → eq_hash (some h) m.command_hash ≡ false
    → on_commit m from p ≡ fault
unfolding on_commit
on_commit_other m from p h e n =
    let f = instance_for_other m (update_slot m p) h (update_slot-hash_at m m.order p ∙ e) n in
    rw (f, on_commit) refl

propose_no_hash :
    (env : Env) (cmd : Command) (p q : MinBft)
    → propose env cmd p ≡ ok q
    → hash_at q.slot q ≡ some none
unfolding propose set_instance hash_at
propose_no_hash env cmd p q e =
    let slot = inc64 p.slot in
    let pr = new_prepare env cmd p in
    let (logged, l, r) = ok_of_bind (log_in p.id pr (new_instance cmd p)) _ e in
    let k = log_in-keeps p.id pr (new_instance cmd p) logged l in
    let started =
      set_instance slot (record logged { prepared = true }) (record p { slot = slot }) in
    subst (λ x. hash_at x.slot x ≡ some none)
      (sym (broadcast_normal-keeps env pr started) ∙ ok-injective r)
      (ap hash_of (lookup-insert_self slot (record logged { prepared = true }) p.log)
        ∙ ap (λ x. some x.command_hash) k)

-- After a request at a leader, when a Commit for its slot with a hash was handled, whoever sent it, a
-- Commit for the slot with another hash that comes next is a panic.
pub on_commit_poisoned :
    (env : Env) (cmd : Command) (p q r : MinBft) (m o : NormalMessage) (h : Bytes) (from from' : ℕ)
    → request env cmd p ≡ ok q
    → m.order ≡ q.slot
    → m.command_hash ≡ some h
    → on_commit m from q ≡ ok r
    → o.order ≡ q.slot
    → eq_hash (some h) o.command_hash ≡ false
    → on_commit o from' r ≡ fault
unfolding request on_request
on_commit_poisoned env cmd p q r m o h from from' e s k c t n =
    let open_slot : hash_at q.slot q ≡ some none =
      propose_no_hash env cmd p q (ok_of_guard _ _ (ok_of_guard _ _ e)) in
    let set : hash_at m.order r ≡ some m.command_hash =
      on_commit_open m from q r (rw s open_slot) c in
    on_commit_other o from' r h (ap (λ i. hash_at i r) (t ∙ sym s) ∙ (set ∙ ap some k)) n
