-- ===== src/Pbft/Agreement/Invariant.antt =====
-- protocols/pbft/instance.go, request.go and stepAgreement: the handlers and the certificates of the
-- log.
use go_consensus.Base.{
  ℕ, ◌%◌, ◌≡◌, refl, inl, inr, arith, ◌==◌, inc64, length, subst, Bool-cases, ok, ok-injective,
  ok_of_guard, ok_of_bind,
}
use go_consensus.Command.{Command}
use go_consensus.Pbft.Messages.{
  AgreementMessage, AgreementType, pre_prepare, prepare, commit, other,
}
use go_consensus.Pbft.Quorum.{new_quorum, log}
use go_consensus.Pbft.Quorum.Senders.{new_quorum-IsQuorum}
use go_consensus.Pbft.Quorum.Certificates.{log-IsQuorum}
use go_consensus.Pbft.Replica.{Pbft, Env, broadcast, is_current_primary}
use go_consensus.Pbft.Agreement.{
  check_command_hash, instance_for, instance_for_pre_prepare, on_pre_prepare, on_prepare, on_commit,
  dispatch_agreement, step_agreement, propose, on_request,
}
use go_consensus.Pbft.Agreement.Certified.{
  AllCertified, instance_for-Entry, instance_for_pre_prepare-Entry, log_prepare-IsCertified,
  log_commit-IsCertified,
}
use go_consensus.Pbft.Agreement.Prepared.{
  set_instance-AllCertified, try_commit-AllCertified, try_prepare-AllCertified,
  accept_pre_prepare-AllCertified,
}

pub on_pre_prepare-AllCertified :
    (env : Env) (m : AgreementMessage) (from : ℕ) (p q : Pbft)
    → AllCertified p
    → on_pre_prepare env m from p ≡ ok q
    → AllCertified q
unfolding on_pre_prepare
on_pre_prepare-AllCertified env m from p q a e = elim (Bool-cases (is_current_primary p from)) [
  | inr n ↦ subst AllCertified (ok-injective (rw (n, on_pre_prepare) at e)) a
  | inl y ↦
      let (good, l, r) =
        ok_of_bind (check_command_hash env.codec m.command m.command_hash) _
          (rw (y, on_pre_prepare) at e) in
      let (inst, l', r') = ok_of_bind (instance_for_pre_prepare m p) _ (ok_of_guard good _ r) in
      accept_pre_prepare-AllCertified m from inst p q a
        (instance_for_pre_prepare-Entry m p inst a l') r'
]

on_prepare-AllCertified :
    (m : AgreementMessage) (from : ℕ) (p q : Pbft)
    → AllCertified p
    → on_prepare m from p ≡ ok q
    → AllCertified q
unfolding on_prepare
on_prepare-AllCertified m from p q a e = elim (Bool-cases (is_current_primary p from)) [
  | inl y ↦ subst AllCertified (ok-injective (rw (y, on_prepare) at e)) a
  | inr n ↦
      let (inst, l, r) = ok_of_bind (instance_for m p) _ (rw (n, on_prepare) at e) in
      let (c, l', r') = ok_of_bind (log from m inst.p_cert) _ r in
      let (w, h) = instance_for-Entry m p inst a l in
      try_prepare-AllCertified m m.view m.index (record inst { p_cert = c }) p q a
        (log_prepare-IsCertified p.f m.index from m inst c w l') refl h r'
]

on_commit-AllCertified :
    (m : AgreementMessage) (from : ℕ) (p q : Pbft)
    → AllCertified p
    → on_commit m from p ≡ ok q
    → AllCertified q
unfolding on_commit
on_commit-AllCertified m from p q a e =
    let (inst, l, r) = ok_of_bind (instance_for m p) _ e in
    let (c, l', r') = ok_of_bind (log from m inst.c_cert) _ r in
    let (w, h) = instance_for-Entry m p inst a l in
    subst AllCertified (ok-injective r') (
      try_commit-AllCertified m m.index (record inst { c_cert = c }) p a
        (log_commit-IsCertified p.f m.index from m inst c w l') refl h)

dispatch_agreement-AllCertified :
    (env : Env) (t : AgreementType) (m : AgreementMessage) (from : ℕ) (p q : Pbft)
    → AllCertified p
    → dispatch_agreement env t m from p ≡ ok q
    → AllCertified q
unfolding dispatch_agreement
dispatch_agreement-AllCertified env pre_prepare m from p q a e =
    on_pre_prepare-AllCertified env m from p q a e
dispatch_agreement-AllCertified env prepare m from p q a e = on_prepare-AllCertified m from p q a e
dispatch_agreement-AllCertified env commit m from p q a e = on_commit-AllCertified m from p q a e
dispatch_agreement-AllCertified env (other n) m from p q a e = cc

-- An agreement message keeps every instance of the log certified: prepared only with a majority of
-- prepares for its index and hash, committed only with a majority of commits.
pub step_agreement-AllCertified :
    (env : Env) (m : AgreementMessage) (from : ℕ) (p q : Pbft)
    → AllCertified p
    → step_agreement env m from p ≡ ok q
    → AllCertified q
unfolding step_agreement
step_agreement-AllCertified env m from p q a e = elim (Bool-cases p.view_changing) [
  | inl v ↦ subst AllCertified (ok-injective (rw (v, step_agreement) at e)) a
  | inr v ↦ elim (Bool-cases (m.view == p.view)) [
    | inr n ↦ subst AllCertified (ok-injective (rw (v, n, step_agreement) at e)) a
    | inl y ↦ dispatch_agreement-AllCertified env m.type m from p q a (ground arith)
  ]
]

propose-AllCertified :
    (env : Env) (cmd : Command) (p q : Pbft)
    → AllCertified p
    → propose env cmd p ≡ ok q
    → AllCertified q
unfolding propose broadcast
propose-AllCertified env cmd p q a e =
    let (c, l, r) = ok_of_bind (log p.id _ new_quorum) _ e in
    subst AllCertified (ok-injective r) (
      set_instance-AllCertified (inc64 p.index) _ (record p { index = inc64 p.index }) a
        (record {
          keyed = refl;
          prepares = log-IsQuorum p.id _ new_quorum c new_quorum-IsQuorum l;
          commits = new_quorum-IsQuorum;
          prepared_by = λ h. absurd (omega arith);
          committed_by = λ h. absurd (omega arith);
        }))

-- So does a request.
pub on_request-AllCertified :
    (env : Env) (cmd : Command) (p q : Pbft)
    → AllCertified p
    → on_request env cmd p ≡ ok q
    → AllCertified q
unfolding on_request
on_request-AllCertified env cmd p q a e = elim (Bool-cases (p.view % length p.nodes == p.id)) [
  | inr n ↦ subst AllCertified (ok-injective (rw (n, on_request) at e)) a
  | inl y ↦ propose-AllCertified env cmd p q a (rw (y, on_request) at e)
]
