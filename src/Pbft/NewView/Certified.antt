-- ===== src/Pbft/NewView/Certified.antt =====
-- protocols/pbft/pbft.go: the view change and the certificates of the log.
use go_consensus.Base.{
  ℕ, ◌≡◌, refl, sym, inl, inr, List, [], ◌∷◌, not, ◌&&◌, ◌||◌, arith, ◌==◌, ltb, leb, lookup,
  values, subst, Option-cases, Bool-cases, ok, ◌>>=◌, ok_of_bind, ok-injective, ok_of_guard,
}
use go_consensus.Pbft.Messages.{
  InstanceState, ViewChangeMessage, ViewChangeAckMessage, NewViewMessage,
}
use go_consensus.Pbft.Quorum.{new_quorum, log}
use go_consensus.Pbft.Quorum.Senders.{new_quorum-IsQuorum}
use go_consensus.Pbft.Replica.{
  Pbft, Env, is_primary_at_view, is_current_primary, send_to, broadcast, set_instance,
}
use go_consensus.Pbft.Agreement.Certified.{IsCertified, AllCertified, log_prepare-IsCertified}
use go_consensus.Pbft.Agreement.Invariant.{on_pre_prepare-AllCertified}
use go_consensus.Pbft.Agreement.Prepared.{set_instance-AllCertified}
use go_consensus.Pbft.ViewChange.{add_vca_message, construct_new_view}
use go_consensus.Pbft.ViewChange.Construct.{construct_new_view_cases}
use go_consensus.Pbft.NewView.{
  Verdict, accepted, not_possible, verify_failed, verify_new_view, installed, install_message,
  install_instance, install, act_on, process_new_view, on_new_view, ahead, construct_if_primary,
  process_stored, on_view_change, on_view_change_ack,
}

installed-IsCertified :
    (f : ℕ) (m : NewViewMessage) (is : InstanceState) → IsCertified f is.index (installed m is)
installed-IsCertified f m is = record {
  keyed = refl;
  prepares = new_quorum-IsQuorum;
  commits = new_quorum-IsQuorum;
  prepared_by = λ h. absurd (omega arith);
  committed_by = λ h. absurd (omega arith);
}

install_instance-AllCertified :
    (env : Env) (m : NewViewMessage) (from : ℕ) (is : InstanceState) (p q : Pbft)
    → AllCertified p
    → install_instance env m from is p ≡ ok q
    → AllCertified q
unfolding install_instance
install_instance-AllCertified env m from is p q a e =
    let p' = set_instance is.index (installed m is) p in
    let w = installed-IsCertified p.f m is in
    let a' = set_instance-AllCertified is.index (installed m is) p a w in
    elim (Bool-cases (is_current_primary p' p'.id)) [
      | inr n ↦ on_pre_prepare-AllCertified env (install_message m is) from p' q a' (ground arith)
      | inl y ↦
          let both : (log p.id (install_message m is) new_quorum >>= λ c.
          ok (set_instance is.index (record (installed m is) { p_cert = c }) p'))
              ≡ ok q =
            ground arith in
          let (c, l, r) = ok_of_bind (log p.id (install_message m is) new_quorum) _ both in
          subst AllCertified (ok-injective r) (
            set_instance-AllCertified is.index (record (installed m is) { p_cert = c }) p' a'
              (log_prepare-IsCertified p.f is.index p.id (install_message m is) (installed m is) c w
                l))
    ]

install-AllCertified :
    (env : Env) (m : NewViewMessage) (from : ℕ) (states : List InstanceState) (p q : Pbft)
    → AllCertified p
    → install env m from states p ≡ ok q
    → AllCertified q
unfolding install
install-AllCertified env m from [] p q a e = subst AllCertified (ok-injective e) a
install-AllCertified env m from (is ∷ states) p q a e =
    let (mid, l, r) = ok_of_bind (install_instance env m from is p) _ e in
    install-AllCertified env m from states mid q
      (install_instance-AllCertified env m from is p mid a l) r

act_on-AllCertified :
    (env : Env) (m : NewViewMessage) (from : ℕ) (p : Pbft) (v : Verdict) (q : Pbft)
    → AllCertified p
    → act_on env m from p v ≡ ok q
    → AllCertified q
unfolding act_on
act_on-AllCertified env m from p not_possible q a e = subst AllCertified (ok-injective e) a
act_on-AllCertified env m from p verify_failed q a e = cc
act_on-AllCertified env m from p accepted q a e =
    install-AllCertified env m from (values m.instances) _ q a e

process_new_view-AllCertified :
    (env : Env) (m : NewViewMessage) (from : ℕ) (p q : Pbft)
    → AllCertified p
    → process_new_view env m from p ≡ ok q
    → AllCertified q
unfolding process_new_view
process_new_view-AllCertified env m from p q a e =
    elim (Bool-cases (not p.view_changing && p.view == m.new_view)) [
      | inl y ↦ subst AllCertified (ok-injective (rw (y, process_new_view) at e)) a
      | inr n ↦
          let (v, l, r) = ok_of_bind (verify_new_view m p) _ (rw (n, process_new_view) at e) in
          act_on-AllCertified env m from p v q a r
    ]

pub on_new_view-AllCertified :
    (env : Env) (m : NewViewMessage) (from : ℕ) (p q : Pbft)
    → AllCertified p
    → on_new_view env m from p ≡ ok q
    → AllCertified q
unfolding on_new_view
on_new_view-AllCertified env m from p q a e =
    process_new_view-AllCertified env m from _ q a
      (ok_of_guard (is_primary_at_view p from m.new_view) _ e)

construct_new_view-AllCertified :
    (v : ℕ) (p q : Pbft) → AllCertified p → construct_new_view v p ≡ ok q → AllCertified q
unfolding broadcast
construct_new_view-AllCertified v p q a e = elim (construct_new_view_cases v p q e) [
  | inl s ↦ subst AllCertified (sym s) a
  | inr (m, s, j) ↦ subst AllCertified (sym s) a
]

construct_if_primary-AllCertified :
    (v : ℕ) (p q : Pbft) → AllCertified p → construct_if_primary v p ≡ ok q → AllCertified q
unfolding construct_if_primary
construct_if_primary-AllCertified v p q a e = elim (Bool-cases (is_primary_at_view p p.id v)) [
  | inl y ↦ construct_new_view-AllCertified v p q a (rw (y, construct_if_primary) at e)
  | inr n ↦ subst AllCertified (ok-injective (rw (n, construct_if_primary) at e)) a
]

process_stored-AllCertified :
    (env : Env) (to : ℕ) (p q : Pbft)
    → AllCertified p
    → process_stored env to p ≡ ok q
    → AllCertified q
unfolding process_stored
process_stored-AllCertified env to p q a e =
    elim (Option-cases (lookup to p.vc_quorum.nv_message)) [
      | inl n ↦ subst AllCertified (ok-injective (rw (n, process_stored) at e)) a
      | inr (nv, y) ↦ process_new_view-AllCertified env nv to p q a (rw (y, process_stored) at e)
    ]

pub on_view_change-AllCertified :
    (env : Env) (m : ViewChangeMessage) (from : ℕ) (p q : Pbft)
    → AllCertified p
    → on_view_change env m from p ≡ ok q
    → AllCertified q
unfolding on_view_change send_to
on_view_change-AllCertified env m from p q a e =
    elim (Bool-cases
      (leb m.new_view p.view || (p.view_changing && ltb m.new_view p.changing_view))) [
        | inl y ↦ subst AllCertified (ok-injective (rw (y, on_view_change) at e)) a
        | inr n ↦ elim (Bool-cases (ahead p m)) [
          | inl y ↦ cc (rw (n, y, on_view_change) at e)
          | inr n' ↦
              let (mid, l, r) =
                ok_of_bind (construct_if_primary m.new_view _) _
                  (rw (n, n', on_view_change) at e) in
              process_stored-AllCertified env _ mid q
                (construct_if_primary-AllCertified m.new_view _ mid a l) r
        ]
      ]

pub on_view_change_ack-AllCertified :
    (m : ViewChangeAckMessage) (from : ℕ) (p q : Pbft)
    → AllCertified p
    → on_view_change_ack m from p ≡ ok q
    → AllCertified q
unfolding on_view_change_ack
on_view_change_ack-AllCertified m from p q a e =
    let (vc, l, r) = ok_of_bind (add_vca_message p.f from m p.vc_quorum) _ e in
    construct_new_view-AllCertified m.new_view _ q a r
