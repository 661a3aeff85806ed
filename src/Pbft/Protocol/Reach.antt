-- ===== src/Pbft/Protocol/Reach.antt =====
-- protocols/pbft/pbft.go: the states that a replica can reach.
use go_consensus.Base.{
  ℕ, ◌*◌, ◌%◌, ◌≡◌, refl, sym, ap, ◌∙◌, leb, u64, List, [], ◌∷◌, Bool, not, ◌&&◌, ◌||◌, ◌==◌, Bytes,
  lookup, get_elem?, subst, inl, inr, Option-cases, Bool-cases, ok, ok_of_bind, ok-injective,
  ok_of_guard,
}
use go_consensus.Command.{Command}
use go_consensus.Pbft.Messages.{PbftMessage, agreement, view_change, view_change_ack, new_view}
use go_consensus.Pbft.Replica.{Envelope, Signed, Pbft, Env, new_pbft, broadcast}
use go_consensus.Pbft.Agreement.Certified.{AllCertified}
use go_consensus.Pbft.Agreement.Invariant.{step_agreement-AllCertified, on_request-AllCertified}
use go_consensus.Pbft.NewView.{start_view_change}
use go_consensus.Pbft.NewView.Certified.{
  on_view_change-AllCertified, on_view_change_ack-AllCertified, on_new_view-AllCertified,
}
use go_consensus.Pbft.Protocol.{
  dispatch, step, request, work, slice, send_one, send_all, run_callbacks, async_callback,
  clear_msgs, clear_executed_commands,
}

-- What can happen to a replica: a message, a request, a suspicion of the primary, a worker that
-- finishes, the callbacks, and the peer taking the output.
pub data Move (env : Env) (p q : Pbft) : Type 0 where
  receives : (e : Envelope) → step env e p ≡ ok q → Move env p q
  requested : (cmd : Command) → request env cmd p ≡ ok q → Move env p q
  suspects : (v : ℕ) → start_view_change v p ≡ q → Move env p q
  worked : (n : ℕ) → work env n p ≡ q → Move env p q
  called_back : async_callback p ≡ ok q → Move env p q
  msgs_cleared : clear_msgs p ≡ q → Move env p q
  commands_cleared : clear_executed_commands p ≡ q → Move env p q

pub data Reach (env : Env) (p : Pbft) : Pbft → Type 0 where
  here : Reach env p p
  next : {q r : Pbft} → Reach env p q → Move env q r → Reach env p r

new_pbft-AllCertified :
    (id : ℕ) (nodes : List ℕ) (leader f : ℕ) → AllCertified (new_pbft id nodes leader f)
unfolding new_pbft lookup
new_pbft-AllCertified id nodes leader f i inst h = cc

dispatch-AllCertified :
    (env : Env) (m : PbftMessage) (from : ℕ) (p q : Pbft)
    → AllCertified p
    → dispatch env m from p ≡ ok q
    → AllCertified q
unfolding dispatch
dispatch-AllCertified env (agreement m) from p q a e =
    step_agreement-AllCertified env m from p q a e
dispatch-AllCertified env (view_change m) from p q a e =
    on_view_change-AllCertified env m from p q a e
dispatch-AllCertified env (view_change_ack m) from p q a e =
    on_view_change_ack-AllCertified m from p q a e
dispatch-AllCertified env (new_view m) from p q a e = on_new_view-AllCertified env m from p q a e

-- The callbacks change the outgoing messages alone.
abbrev OnlyMsgs : Pbft → Pbft → Type 0
OnlyMsgs p q = q ≡ record p { msgs = q.msgs }

OnlyMsgs-trans : (p q r : Pbft) → OnlyMsgs p q → OnlyMsgs q r → OnlyMsgs p r
OnlyMsgs-trans p q r a b = b ∙ ap (λ (x : Pbft). record x { msgs = r.msgs }) a

send_one-OnlyMsgs :
    (m : PbftMessage) (self : Bool) (cert : Bytes) (node : ℕ) (p q : Pbft)
    → send_one m self cert node p ≡ ok q
    → OnlyMsgs p q
unfolding send_one
send_one-OnlyMsgs m self cert node p q e = elim (Bool-cases (self || not (node == p.id))) [
  | inl y ↦
      let (c, l, r) = ok_of_bind (slice cert ((node * 32) % u64)) _ (rw (y, send_one) at e) in
      subst (OnlyMsgs p) (ok-injective r) refl
  | inr n ↦ subst (OnlyMsgs p) (ok-injective (rw (n, send_one) at e)) refl
]

send_all-OnlyMsgs :
    (m : PbftMessage) (self : Bool) (cert : Bytes) (nodes : List ℕ) (p q : Pbft)
    → send_all m self cert nodes p ≡ ok q
    → OnlyMsgs p q
unfolding send_all
send_all-OnlyMsgs m self cert [] p q e = subst (OnlyMsgs p) (ok-injective e) refl
send_all-OnlyMsgs m self cert (node ∷ nodes) p q e =
    let (mid, l, r) = ok_of_bind (send_one m self cert node p) _ e in
    OnlyMsgs-trans p mid q (send_one-OnlyMsgs m self cert node p mid l)
      (send_all-OnlyMsgs m self cert nodes mid q r)

run_callbacks-OnlyMsgs :
    (signed : List Signed) (p q : Pbft) → run_callbacks signed p ≡ ok q → OnlyMsgs p q
unfolding run_callbacks
run_callbacks-OnlyMsgs [] p q e = subst (OnlyMsgs p) (ok-injective e) refl
run_callbacks-OnlyMsgs (s ∷ signed) p q e =
    let (mid, l, r) = ok_of_bind (send_all s.job.message s.job.send_to_self s.cert p.nodes p) _ e in
    OnlyMsgs-trans p mid q
      (send_all-OnlyMsgs s.job.message s.job.send_to_self s.cert p.nodes p mid l)
      (run_callbacks-OnlyMsgs signed mid q r)

async_callback-AllCertified :
    (p q : Pbft) → AllCertified p → async_callback p ≡ ok q → AllCertified q
unfolding async_callback
async_callback-AllCertified p q a e =
    subst AllCertified (sym (run_callbacks-OnlyMsgs p.callback_c _ q e)) a

work-AllCertified : (env : Env) (n : ℕ) (p : Pbft) → AllCertified p → AllCertified (work env n p)
unfolding work
work-AllCertified env n p a = elim (Option-cases (get_elem? p.sign_jobs n)) [
  | inl e ↦ rw (e, work) a
  | inr (j, e) ↦ rw (e, work) a
]

start_view_change-AllCertified :
    (v : ℕ) (p : Pbft) → AllCertified p → AllCertified (start_view_change v p)
unfolding start_view_change broadcast
start_view_change-AllCertified v p a =
    elim (Bool-cases (p.view_changing && leb v p.changing_view)) [
      | inl e ↦ rw (e, start_view_change) a
      | inr e ↦ rw (e, start_view_change) a
    ]

pub Move-AllCertified : {env : Env} {p q : Pbft} → Move env p q → AllCertified p → AllCertified q
unfolding step request clear_msgs clear_executed_commands
Move-AllCertified {env} {p} {q} (receives e h) a =
    dispatch-AllCertified env e.content e.sender p q a
      (ok_of_guard (env.verify_certificate e.content e.certificate) _ h)
Move-AllCertified {env} {p} {q} (requested cmd h) a = on_request-AllCertified env cmd p q a h
Move-AllCertified {env} {p} {q} (suspects v h) a =
    subst AllCertified h (start_view_change-AllCertified v p a)
Move-AllCertified {env} {p} {q} (worked n h) a = subst AllCertified h (work-AllCertified env n p a)
Move-AllCertified {env} {p} {q} (called_back h) a = async_callback-AllCertified p q a h
Move-AllCertified {env} {p} {q} (msgs_cleared h) a = subst AllCertified h a
Move-AllCertified {env} {p} {q} (commands_cleared h) a = subst AllCertified h a

Reach-AllCertified_from : {env : Env} {p q : Pbft} → Reach env p q → AllCertified p → AllCertified q
Reach-AllCertified_from here a = a
Reach-AllCertified_from (next r m) a = Move-AllCertified m (Reach-AllCertified_from r a)

-- In every state that a new replica can reach, by any messages, requests, suspicions and callbacks,
-- an instance that is prepared has more than 2f prepares for its index and its hash, and one that is
-- committed has more than 2f commits for them as well.
pub Reach-AllCertified :
    (env : Env) (id : ℕ) (nodes : List ℕ) (leader f : ℕ) (q : Pbft)
    → Reach env (new_pbft id nodes leader f) q
    → AllCertified q
Reach-AllCertified env id nodes leader f q r =
    Reach-AllCertified_from r (new_pbft-AllCertified id nodes leader f)
