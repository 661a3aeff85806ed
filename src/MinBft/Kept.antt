-- ===== src/MinBft/Kept.antt =====
-- protocols/minbft: each handler keeps that what is prepared and committed is backed by its quorum.
use go_consensus.Base.{
  ℕ, ◌+◌, ◌≡◌, refl, ap, sym, ◌∙◌, inl, inr, true, Option, List, arith, subst, Bool-cases, is_some,
  ok, ok_of_bind, ok_of_guard, ok-injective, not, ◌&&◌, Bytes, ltb,
}
use go_consensus.Command.{Command, Codec}
use go_consensus.Pbft.Messages.{contents}
use go_consensus.MinBft.Quorum.{NormalMessage}
use go_consensus.MinBft.Replica.{Instance, Envelope, MinBft, Env, broadcast_normal, set_instance}
use go_consensus.MinBft.Delivery.{broadcast_normal_lem}
use go_consensus.MinBft.Handlers.{
  update_slot, check_command_hash, instance_for, instance_for_prepare, log_in, has_majority,
  try_commit, commit_for, accept_prepare, on_prepare, on_commit,
}
use go_consensus.MinBft.Sound.{Certifies, IsSound, AllSound, set_instance-AllSound, exec-AllSound}
use go_consensus.MinBft.Entries.{
  Entry, instance_for-Entry, instance_for_prepare-Entry, log_in-keeps, log_in-IsSound,
}

committed-IsSound :
    (f i : ℕ) (inst : Instance)
    → IsSound f i inst
    → inst.prepared ≡ true
    → Certifies f i (contents inst.command_hash) inst.quorum
    → IsSound f i (record inst { commit = true })
committed-IsSound f i inst w r c = record {
  keyed = w.keyed;
  holds = w.holds;
  prepared = λ _. r;
  certified = λ _. c;
  committed = λ _. refl;
}

try_commit-AllSound :
    (m : NormalMessage) (inst : Instance) (p : MinBft)
    → AllSound p
    → Entry p.f m inst
    → (q : MinBft) × (try_commit m inst p ≡ ok q) × AllSound q
unfolding try_commit
try_commit-AllSound m inst p a (w, h) =
    elim (Bool-cases (inst.prepared && (not inst.commit && has_majority p.f m inst.quorum))) [
      | inl t ↦
          let c =
            committed-IsSound p.f m.order inst w (ground arith)
              (m, ground arith, refl, inl (sym h)) in
          let (q, e, b) =
            exec-AllSound (set_instance m.order (record inst { commit = true }) p)
              (set_instance-AllSound m.order _ p a c) in
          (q, rw (t, try_commit) e, b)
      | inr t ↦ (
        set_instance m.order inst p,
        rw (t, try_commit) refl,
        set_instance-AllSound m.order inst p a w,
      )
    ]

after_try_commit :
    (m : NormalMessage) (inst : Instance) (p q : MinBft)
    → AllSound p
    → Entry p.f m inst
    → try_commit m inst p ≡ ok q
    → AllSound q
after_try_commit m inst p q a w e =
    let (q', e', b) = try_commit-AllSound m inst p a w in
    subst AllSound (ok-injective (sym e' ∙ e)) b

-- A broadcast changes the outgoing messages and the enclave alone.
pub broadcast_normal-keeps :
    (env : Env) (m : NormalMessage) (p : MinBft)
    → broadcast_normal env m p
      ≡ record p { msgs = (broadcast_normal env m p).msgs; created = p.created + 1 }
broadcast_normal-keeps env m p =
    let e = broadcast_normal_lem env m p in
    e
    ∙ ap (λ (l : List Envelope). record p { msgs = l; created = p.created + 1 })
        (sym (ap (λ (x : MinBft). x.msgs) e))

-- The instance of a Prepare after the Prepare and the own Commit are logged.
pub own-Entry :
    (f id from : ℕ) (m : NormalMessage) (inst logged own : Instance)
    → Entry f m inst
    → is_some inst.command ≡ true
    → log_in from m inst ≡ ok logged
    → log_in id (commit_for m) (record logged { prepared = true }) ≡ ok own
    → Entry f m own
own-Entry f id from m inst logged own (w, h) s l l' =
    let k = log_in-keeps from m inst logged l in
    let k' = log_in-keeps id (commit_for m) (record logged { prepared = true }) own l' in
    let w' = log_in-IsSound f m.order from m inst logged l w in
    (
      log_in-IsSound f m.order id (commit_for m) (record logged { prepared = true }) own l'
          (record {
            keyed = w'.keyed;
            holds = λ _. ap (λ x. is_some x.command) k ∙ s;
            prepared = λ _. refl;
            certified = w'.certified;
            committed = w'.committed;
          }),
      ap (λ x. contents x.command_hash) k' ∙ (ap (λ x. contents x.command_hash) k ∙ h),
    )

broadcast-Entry :
    (env : Env) (m o : NormalMessage) (inst : Instance) (p : MinBft)
    → Entry p.f m inst
    → Entry (broadcast_normal env o p).f m inst
broadcast-Entry env m o inst p w =
    subst (λ f. Entry f m inst) (sym (ap (λ (x : MinBft). x.f) (broadcast_normal-keeps env o p))) w

-- Finishing a Prepare once both messages are logged never faults.
pub finish_prepare-AllSound :
    (env : Env) (m : NormalMessage) (own : Instance) (p : MinBft)
    → AllSound p
    → Entry p.f m own
    → (q : MinBft) × (try_commit m own (broadcast_normal env (commit_for m) p) ≡ ok q) × AllSound q
finish_prepare-AllSound env m own p a w =
    try_commit-AllSound m own (broadcast_normal env (commit_for m) p)
      (subst AllSound (sym (broadcast_normal-keeps env (commit_for m) p)) a)
      (broadcast-Entry env m (commit_for m) own p w)

accept_prepare-AllSound :
    (env : Env) (m : NormalMessage) (from : ℕ) (inst : Instance) (p q : MinBft)
    → AllSound p
    → Entry p.f m inst
    → is_some inst.command ≡ true
    → accept_prepare env m from inst p ≡ ok q
    → AllSound q
unfolding accept_prepare
accept_prepare-AllSound env m from inst p q a w s e =
    let (logged, l, r) = ok_of_bind (log_in from m inst) _ e in
    let (own, l', r') =
      ok_of_bind (log_in p.id (commit_for m) (record logged { prepared = true })) _ r in
    let (q', e', b) =
      finish_prepare-AllSound env m own p a (own-Entry p.f p.id from m inst logged own w s l l') in
    subst AllSound (ok-injective (sym e' ∙ r')) b

pub update_slot-AllSound :
    (m : NormalMessage) (p : MinBft) → AllSound p → AllSound (update_slot m p)
unfolding update_slot
update_slot-AllSound m p a = elim (Bool-cases (ltb p.slot m.order)) [
  | inl t ↦ rw (t, update_slot) a
  | inr t ↦ rw (t, update_slot) a
]

check-is_some :
    (c : Codec) (x : Option Command) (h : Option Bytes) (good : _)
    → check_command_hash c x h ≡ ok good
    → is_some x ≡ true
unfolding check_command_hash
check-is_some c x h good e = ground arith

pub on_prepare-AllSound :
    (env : Env) (m : NormalMessage) (from : ℕ) (p q : MinBft)
    → AllSound p
    → on_prepare env m from p ≡ ok q
    → AllSound q
unfolding on_prepare
on_prepare-AllSound env m from p q a e = elim (Bool-cases (ltb m.view p.cur_view)) [
  | inl y ↦ subst AllSound (ok-injective (rw (y, on_prepare) at e)) a
  | inr n ↦
      let (good, l, r) =
        ok_of_bind (check_command_hash env.codec m.command m.command_hash) _
          (rw (n, on_prepare) at e) in
      let (inst, l', r') =
        ok_of_bind (instance_for_prepare m (update_slot m p)) _ (ok_of_guard good _ r) in
      let b = update_slot-AllSound m p a in
      let (w, s) =
        instance_for_prepare-Entry m (update_slot m p) inst b
          (check-is_some env.codec m.command m.command_hash good l) l' in
      accept_prepare-AllSound env m from inst (update_slot m p) q b w s r'
]

pub on_commit-AllSound :
    (m : NormalMessage) (from : ℕ) (p q : MinBft)
    → AllSound p
    → on_commit m from p ≡ ok q
    → AllSound q
unfolding on_commit
on_commit-AllSound m from p q a e =
    let b = update_slot-AllSound m p a in
    let (inst, l, r) = ok_of_bind (instance_for m (update_slot m p)) _ e in
    let (logged, l', r') = ok_of_bind (log_in from m inst) _ r in
    let (w, h) = instance_for-Entry m (update_slot m p) inst b l in
    after_try_commit m logged (update_slot m p) q b
      (
        log_in-IsSound _ m.order from m inst logged l' w,
        ap (λ x. contents x.command_hash) (log_in-keeps from m inst logged l') ∙ h,
      )
      r'
