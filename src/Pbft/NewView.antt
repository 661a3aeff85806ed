-- ===== src/Pbft/NewView.antt =====
-- protocols/pbft/pbft.go: starting a view change, its messages, and the installation of a new view.
pub mod Certified
pub mod Unchecked
use go_consensus.Base.{
  ℕ, zero, suc, ◌≤◌, ◌≡◌, List, [], ◌∷◌, ◌++◌, Bool, true, false, not, ◌&&◌, ◌||◌, Option, none,
  some, ◌==◌, if◌then◌else◌, ltb, leb, int_mod, length, select, any, Bytes, Map, lookup, insert,
  values, Outcome, ok, fault, ◌>>=◌,
}
use go_consensus.Pbft.Messages.{
  pre_prepared, InstanceState, AgreementMessage, ViewChangeMessage, ViewChangeAckMessage,
  NewViewMessage, pre_prepare, PbftMessage, agreement, view_change, view_change_ack, new_view,
  is_atleast_pre_prepared, is_atleast_prepared, equals_state, zero_state,
}
use go_consensus.Pbft.Quorum.{new_quorum, log}
use go_consensus.Pbft.Replica.{
  Instance, VcItem, Pbft, Env, is_primary_at_view, is_current_primary, send_to, broadcast,
  set_instance,
}
use go_consensus.Pbft.Agreement.{on_pre_prepare}
use go_consensus.Pbft.ViewChange.{
  items_at, add_vc_message, add_vca_message, add_nv_message, get_instance_at_index, collect,
  none_collected, construct_new_view,
}

-- The states of the log that pass a test, in the order of the map.
unfoldable pub states_of : (InstanceState → Bool) → Map Instance → List InstanceState
states_of test [] = []
states_of test ((i, inst) ∷ m) =
    let rest = states_of test m in if test inst.is then inst.is ∷ rest else rest

unfoldable pub max_key : ℕ → Map Instance → ℕ
max_key hi [] = hi
max_key hi ((i, inst) ∷ m) = max_key (if ltb hi i then i else hi) m

unfoldable pub start_view_change : ℕ → Pbft → Pbft
unfolding states_of max_key broadcast
start_view_change next_view p =
    if p.view_changing && leb next_view p.changing_view
    then p
    else (let vc : ViewChangeMessage = record {
      new_view = next_view;
      low_index = 0;
      high_index = max_key 0 p.log;
      p_set = states_of is_atleast_prepared p.log;
      q_set = states_of is_atleast_pre_prepared p.log;
    } in
        broadcast (view_change vc) true
          (record p { view_changing = true; changing_view = next_view }))

pub data Verdict : Type 0 where
  accepted not_possible verify_failed : Verdict

-- The state that the message gives for an index; a missing one is the zero value.
unfoldable pub given_state : ℕ → Map InstanceState → InstanceState
given_state i instances = elim (lookup i instances) [ none ↦ zero_state | some is ↦ is ]

-- The check of `n` indices from `idx` on.
unfoldable pub check_instances : ℕ → List ViewChangeMessage → Map InstanceState → ℕ → ℕ → Verdict
unfolding get_instance_at_index given_state
check_instances f s_set instances zero idx = accepted
check_instances f s_set instances (suc n) idx =
    let rest = check_instances f s_set instances n (suc idx) in
    elim (get_instance_at_index f s_set idx) [
      | none ↦ not_possible
      | some is ↦ if not (equals_state is (given_state idx instances)) then verify_failed else rest
    ]

unfoldable pub verify_new_view : NewViewMessage → Pbft → Outcome Verdict
unfolding items_at collect check_instances
verify_new_view m p =
    collect (select (λ item. item.valid) (values (items_at m.new_view p.vc_quorum))) none_collected
    >>= λ c. ok (check_instances p.f c.s_set m.instances c.max_idx 1)

-- The instance that the new view starts with. Its command hash is not set.
abbrev pub installed : NewViewMessage → InstanceState → Instance
installed m is = record {
  is = record {
    view = m.new_view;
    index = is.index;
    status = pre_prepared;
    command = is.command;
    command_hash = none;
  };
  p_cert = new_quorum;
  c_cert = new_quorum;
}

abbrev pub install_message : NewViewMessage → InstanceState → AgreementMessage
install_message m is = record {
  view = m.new_view;
  index = is.index;
  type = pre_prepare;
  command = is.command;
  command_hash = is.command_hash;
}

-- One instance of the new view: it is pre-prepared, and handled as a PrePrepare of the primary.
unfoldable pub install_instance : Env → NewViewMessage → ℕ → InstanceState → Pbft → Outcome Pbft
unfolding new_quorum set_instance is_current_primary on_pre_prepare
install_instance env m from is p =
    let p' = set_instance is.index (installed m is) p in
    if not (is_current_primary p' p'.id)
    then on_pre_prepare env (install_message m is) from p'
    else log p.id (install_message m is) new_quorum >>= λ c.
        ok (set_instance is.index (record (installed m is) { p_cert = c }) p')

unfoldable pub install : Env → NewViewMessage → ℕ → List InstanceState → Pbft → Outcome Pbft
unfolding install_instance
install env m from [] p = ok p
install env m from (is ∷ states) p = install_instance env m from is p >>= install env m from states

-- What the verdict leads to.
unfoldable pub act_on : Env → NewViewMessage → ℕ → Pbft → Verdict → Outcome Pbft
unfolding install
act_on env m from p not_possible = ok p
act_on env m from p verify_failed = fault
act_on env m from p accepted =
    install env m from (values m.instances) (record p { view = m.new_view; view_changing = false })

unfoldable pub process_new_view : Env → NewViewMessage → ℕ → Pbft → Outcome Pbft
unfolding verify_new_view act_on
process_new_view env m from p =
    if not p.view_changing && p.view == m.new_view
    then ok p
    else verify_new_view m p >>= act_on env m from p

unfoldable pub on_new_view : Env → NewViewMessage → ℕ → Pbft → Outcome Pbft
unfolding is_primary_at_view add_nv_message process_new_view
on_new_view env m from p =
    if not (is_primary_at_view p from m.new_view)
    then fault
    else process_new_view env m from (record p { vc_quorum = add_nv_message from m p.vc_quorum })

-- A view change from a replica of a later view is fatal.
abbrev pub ahead : Pbft → ViewChangeMessage → Bool
ahead p m = any (λ is. ltb p.view is.view) m.p_set || any (λ is. ltb p.view is.view) m.q_set

-- The primary of the view looks for a new view.
unfoldable pub construct_if_primary : ℕ → Pbft → Outcome Pbft
unfolding is_primary_at_view construct_new_view
construct_if_primary v p = if is_primary_at_view p p.id v then construct_new_view v p else ok p

-- A new view of the primary that came before is looked at again.
unfoldable pub process_stored : Env → ℕ → Pbft → Outcome Pbft
unfolding process_new_view
process_stored env to p = elim (lookup to p.vc_quorum.nv_message) [
  | none ↦ ok p
  | some nv ↦ process_new_view env nv to p
]

unfoldable pub on_view_change : Env → ViewChangeMessage → ℕ → Pbft → Outcome Pbft
unfolding send_to add_vc_message construct_if_primary process_stored
on_view_change env m from p =
    if leb m.new_view p.view || (p.view_changing && ltb m.new_view p.changing_view)
    then ok p
    else if ahead p m
    then fault
    else (let digest = env.digest m in
        let to = int_mod m.new_view (length p.nodes) in
        let ack : ViewChangeAckMessage = record {
          new_view = m.new_view;
          ack_for = from;
          digest = digest;
        } in
        let p' = send_to env to (view_change_ack ack) p in
        let p'' = record p' { vc_quorum = add_vc_message p.f from m digest p'.vc_quorum } in
        construct_if_primary m.new_view p'' >>= process_stored env to)

unfoldable pub on_view_change_ack : ViewChangeAckMessage → ℕ → Pbft → Outcome Pbft
unfolding add_vca_message construct_new_view
on_view_change_ack m from p = add_vca_message p.f from m p.vc_quorum >>= λ q.
    construct_new_view m.new_view (record p { vc_quorum = q })
