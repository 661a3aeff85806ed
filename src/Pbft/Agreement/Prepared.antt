-- ===== src/Pbft/Agreement/Prepared.antt =====
-- protocols/pbft/instance.go: the majorities, and the body of onPrePrepare, keep the certificates.
use go_consensus.Base.{
  ℕ, ◌≡◌, refl, sym, ap, inl, inr, false, Option, none, some, arith, ◌==◌, ◌&&◌, lookup,
  lookup-insert, subst, Option-cases, Bool-cases, ok, ok-injective, ok_of_bind, ==_iff,
}
use go_consensus.Command.{Command}
use go_consensus.Pbft.Messages.{
  pre_prepared, prepared, AgreementMessage, prepare, commit, agreement, contents, is_prepared,
  is_pre_prepared,
}
use go_consensus.Pbft.Quorum.{log, majority}
use go_consensus.Pbft.Replica.{Instance, Pbft, broadcast, set_instance, exec}
use go_consensus.Pbft.Replica.Execution.{exec-Executes, strip}
use go_consensus.Pbft.Agreement.{
  set_status, message_for, try_commit, try_prepare, accept_pre_prepare,
}
use go_consensus.Pbft.Agreement.Certified.{
  IsCertified, AllCertified, Entry, log_prepare-IsCertified, log_commit-IsCertified,
  pre_prepared-IsCertified, prepared-IsCertified, committed-IsCertified,
}

pub set_instance-AllCertified :
    (i : ℕ) (inst : Instance) (p : Pbft)
    → AllCertified p
    → IsCertified p.f i inst
    → AllCertified (set_instance i inst p)
unfolding set_instance
set_instance-AllCertified i inst p a c j found e = elim (Bool-cases (i == j)) [
  | inl s ↦
      let same : i ≡ j = (==_iff i j).0 s in
      let this : inst ≡ found = ground (arith, lookup-insert i j inst p.log) in
      subst (IsCertified p.f j) this (rw (← same) c)
  | inr d ↦ a j found (ground (arith, lookup-insert i j inst p.log))
]

abbrev pub with_command : Option Command → Instance → Instance
with_command x inst = record inst { is = record inst.is { command = x } }

-- Taking the command out of an instance, or putting one in, changes no certificate.
with_command-IsCertified :
    (f i : ℕ) (x : Option Command) (inst : Instance)
    → IsCertified f i inst
    → IsCertified f i (with_command x inst)
with_command-IsCertified f i x inst c = record {
  keyed = c.keyed;
  prepares = c.prepares;
  commits = c.commits;
  prepared_by = c.prepared_by;
  committed_by = c.committed_by;
}

IsCertified-strip :
    (f i : ℕ) (inst old : Instance)
    → strip (some inst) ≡ strip (some old)
    → IsCertified f i old
    → IsCertified f i inst
IsCertified-strip f i inst old e c =
    let bare : with_command none old ≡ with_command none inst = cc in
    with_command-IsCertified f i inst.is.command (with_command none inst)
      (subst (IsCertified f i) bare (with_command-IsCertified f i none old c))

exec-AllCertified : (p : Pbft) → AllCertified p → AllCertified (exec p)
exec-AllCertified p a i inst e =
    let (cs, r) = exec-Executes p in
    elim (Option-cases (lookup i p.log)) [
      | inl n ↦ cc (r.kept i, ap strip n, ap strip e)
      | inr (old, n) ↦
          rw (ap (λ x. x.f) r.frame)
            (IsCertified-strip p.f i inst old (cc (r.kept i, ap strip n, ap strip e)) (a i old n))
    ]

pub try_commit-AllCertified :
    (m : AgreementMessage) (i : ℕ) (inst : Instance) (p : Pbft)
    → AllCertified p
    → IsCertified p.f i inst
    → m.index ≡ i
    → contents inst.is.command_hash ≡ contents m.command_hash
    → AllCertified (try_commit m i inst p)
unfolding try_commit
try_commit-AllCertified m i inst p a c k h =
    elim (Bool-cases (majority p.f m inst.c_cert && is_prepared inst.is)) [
      | inl e ↦
          rw (e, try_commit)
            (exec-AllCertified _ (
              set_instance-AllCertified i _ p a (
                committed-IsCertified p.f i inst c (ground arith)
                  (m, ground arith, k, inl (sym h)))))
      | inr e ↦ rw (e, try_commit) (set_instance-AllCertified i inst p a c)
    ]

pub try_prepare-AllCertified :
    (m : AgreementMessage) (view i : ℕ) (inst : Instance) (p q : Pbft)
    → AllCertified p
    → IsCertified p.f i inst
    → m.index ≡ i
    → contents inst.is.command_hash ≡ contents m.command_hash
    → try_prepare m view i inst p ≡ ok q
    → AllCertified q
unfolding try_prepare broadcast
try_prepare-AllCertified m view i inst p q a c k h e =
    elim (Bool-cases (majority p.f m inst.p_cert && is_pre_prepared inst.is)) [
      | inl t ↦
          let ready = set_status prepared inst in
          let cm = message_for commit view m.index ready in
          let w = prepared-IsCertified p.f i inst c (m, ground arith, k, inl (sym h)) in
          let (d, l, r) =
            ok_of_bind (log p.id cm ready.c_cert)
              (λ d.
                ok (
                  try_commit cm i (record ready { c_cert = d }) (broadcast (agreement cm) false p)))
              (rw (t, try_prepare) at e) in
          subst AllCertified (ok-injective r) (
            try_commit-AllCertified cm i (record ready { c_cert = d })
              (broadcast (agreement cm) false p) a
              (log_commit-IsCertified p.f i p.id cm ready d w l) k refl)
      | inr t ↦
          let r : set_instance i inst p ≡ q = ground arith in
          subst AllCertified r (set_instance-AllCertified i inst p a c)
    ]

pub accept_pre_prepare-AllCertified :
    (m : AgreementMessage) (from : ℕ) (inst : Instance) (p q : Pbft)
    → AllCertified p
    → Entry p.f m inst
    → accept_pre_prepare m from inst p ≡ ok q
    → AllCertified q
unfolding accept_pre_prepare broadcast
accept_pre_prepare-AllCertified m from inst p q a (w, h) e =
    let (c, l, r) = ok_of_bind (log from (record m { command = none }) inst.p_cert) _ e in
    let accepted = set_status pre_prepared (record inst { p_cert = c }) in
    let pm = message_for prepare accepted.is.view accepted.is.index accepted in
    let (c', l', r') = ok_of_bind (log p.id pm c) _ r in
    let w' =
      pre_prepared-IsCertified p.f m.index (record inst { p_cert = c })
        (log_prepare-IsCertified p.f m.index from (record m { command = none }) inst c w l) in
    try_prepare-AllCertified pm pm.view m.index (record accepted { p_cert = c' })
      (broadcast (agreement pm) false p) q a
      (log_prepare-IsCertified p.f m.index p.id pm accepted c' w' l') w.keyed refl r'
