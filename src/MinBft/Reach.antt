-- ===== src/MinBft/Reach.antt =====
-- protocols/minbft: the handlers of minbft.go, instance.go and request.go, and the states that a replica
-- can reach.
use go_consensus.Base.{
  ℕ, ◌≡◌, ◌%◌, refl, ap, sym, ◌∙◌, inl, inr, true, List, arith, lookup, subst, Bool-cases, is_some,
  ok, ok_of_bind, ok_of_guard, ok-injective, ◌==◌, length, inc64,
}
use go_consensus.Command.{Command}
use go_consensus.MinBft.Quorum.{NormalType, prepare, commit, other, NormalMessage}
use go_consensus.MinBft.Identifier.{of_cert}
use go_consensus.MinBft.Replica.{
  Instance, Envelope, MinBft, Env, new_min_bft, set_instance, clear_msgs, clear_executed_commands,
}
use go_consensus.MinBft.Handlers.{
  log_in, dispatch, step_normal, step, new_prepare, new_instance, propose, on_request, request,
}
use go_consensus.MinBft.Sound.{IsSound, AllSound, set_instance-AllSound}
use go_consensus.MinBft.Entries.{log_in-keeps}
use go_consensus.MinBft.Kept.{broadcast_normal-keeps, on_prepare-AllSound, on_commit-AllSound}

dispatch-AllSound :
    (env : Env) (t : NormalType) (m : NormalMessage) (from : ℕ) (p q : MinBft)
    → AllSound p
    → dispatch env t m from p ≡ ok q
    → AllSound q
unfolding dispatch
dispatch-AllSound env prepare m from p q a e = on_prepare-AllSound env m from p q a e
dispatch-AllSound env commit m from p q a e = on_commit-AllSound m from p q a e
dispatch-AllSound env (other n) m from p q a e = cc

step-AllSound :
    (env : Env) (e : Envelope) (p q : MinBft) → AllSound p → step env e p ≡ ok q → AllSound q
unfolding step step_normal
step-AllSound env e p q a h = elim (Bool-cases (p.cur_view == p.stable_view)) [
  | inr n ↦ subst AllSound (ok-injective (rw (n, step_normal) at h)) a
  | inl y ↦
      let ((counter, mac), l, r) =
        ok_of_bind (of_cert e.certificate) _ (rw (y, step_normal) at h) in
      elim (Bool-cases (env.verify_ui_mac e.content mac counter)) [
        | inr n ↦ subst AllSound (ok-injective (rw n at r)) a
        | inl v ↦
            dispatch-AllSound env e.content.type e.content e.sender p q a
              (ok_of_guard (e.content.view == p.cur_view) _ (rw v at r))
      ]
]

propose-AllSound :
    (env : Env) (cmd : Command) (p q : MinBft) → AllSound p → propose env cmd p ≡ ok q → AllSound q
unfolding propose
propose-AllSound env cmd p q a e =
    let slot = inc64 p.slot in
    let pr = new_prepare env cmd p in
    let (logged, l, r) = ok_of_bind (log_in p.id pr (new_instance cmd p)) _ e in
    let k = log_in-keeps p.id pr (new_instance cmd p) logged l in
    let w : IsSound p.f slot (record logged { prepared = true }) = record {
      keyed = ap (λ x. x.slot) k;
      holds = λ _. ap (λ x. is_some x.command) k;
      prepared = λ _. refl;
      certified = λ h. absurd (ground (arith, ap (λ (x : Instance). x.commit) k));
      committed = λ h. absurd (ground (arith, ap (λ (x : Instance). x.executed) k));
    } in
    let started =
      set_instance slot (record logged { prepared = true }) (record p { slot = slot }) in
    subst AllSound (sym (broadcast_normal-keeps env pr started) ∙ ok-injective r) (
      set_instance-AllSound slot (record logged { prepared = true }) (record p { slot = slot }) a w)

request-AllSound :
    (env : Env) (cmd : Command) (p q : MinBft) → AllSound p → request env cmd p ≡ ok q → AllSound q
unfolding request on_request
request-AllSound env cmd p q a e = propose-AllSound env cmd p q a (
    ok_of_guard (p.stable_view % length p.nodes == p.id) _
      (ok_of_guard (p.cur_view == p.stable_view) _ e))

-- What can happen to a replica.
pub data Move (env : Env) (p q : MinBft) : Type 0 where
  receives : (e : Envelope) → step env e p ≡ ok q → Move env p q
  requested : (cmd : Command) → request env cmd p ≡ ok q → Move env p q
  msgs_cleared : clear_msgs p ≡ q → Move env p q
  commands_cleared : clear_executed_commands p ≡ q → Move env p q

pub data Reach (env : Env) (p : MinBft) : MinBft → Type 0 where
  here : Reach env p p
  next : {q r : MinBft} → Reach env p q → Move env q r → Reach env p r

Move-AllSound : (env : Env) (p q : MinBft) → AllSound p → Move env p q → AllSound q
unfolding clear_msgs clear_executed_commands
Move-AllSound env p q a (receives e h) = step-AllSound env e p q a h
Move-AllSound env p q a (requested cmd h) = request-AllSound env cmd p q a h
Move-AllSound env p q a (msgs_cleared h) = subst AllSound h a
Move-AllSound env p q a (commands_cleared h) = subst AllSound h a

Reach-AllSound_from : {env : Env} {p q : MinBft} → Reach env p q → AllSound p → AllSound q
Reach-AllSound_from here a = a
Reach-AllSound_from (next r m) a = Move-AllSound _ _ _ (Reach-AllSound_from r a) m

new_min_bft-AllSound :
    (id : ℕ) (nodes : List ℕ) (leader f : ℕ) → AllSound (new_min_bft id nodes leader f)
unfolding new_min_bft lookup
new_min_bft-AllSound id nodes leader f i inst h = record {
  keyed = ground arith;
  holds = ground arith;
  prepared = ground arith;
  certified = λ c. absurd (ground arith);
  committed = ground arith;
}

-- In every state that a new replica can reach, by any messages and requests, every instance of the
-- log stands at its slot; a committed one is prepared and has a majority for a message with its slot
-- and with its command hash or the empty one; a prepared one holds its command, and an executed one is
-- committed.
pub Reach-AllSound :
    (env : Env) (id : ℕ) (nodes : List ℕ) (leader f : ℕ) (q : MinBft)
    → Reach env (new_min_bft id nodes leader f) q
    → AllSound q
Reach-AllSound env id nodes leader f q r =
    Reach-AllSound_from r (new_min_bft-AllSound id nodes leader f)
