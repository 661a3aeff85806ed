-- ===== src/Tests/Views.antt =====
-- The view change at concrete states: replica 1, the primary of view 1.
use go_consensus.Base.{
  ℕ, ◌+◌, ◌*◌, ◌≤◌, ◌≡◌, refl, ◌⊎◌, inl, inr, List, [], ◌∷◌, true, false, none, some, arith, ok,
  fault, lookup, insert, values, count, eq_bytes, Bool-cases, ◌==◌,
}
use go_consensus.Pbft.Messages.{
  InstanceState, ViewChangeMessage, ViewChangeAckMessage, NewViewMessage, prepared, equals_state,
}
use go_consensus.Pbft.Replica.{VcItem, VcQuorum, Pbft, new_pbft, is_primary_at_view, broadcast}
use go_consensus.Pbft.ViewChange.{
  items_at, add_vc_message, add_vca_message, allows, count_vouches, get_instance_at_index, collect,
  collect_item, new_instances, send_new_view, construct_new_view,
}
use go_consensus.Pbft.ViewChange.Construct.{
  Exists, get_instance_at_index-Exists, Sends, construct_new_view_cases,
}
use go_consensus.Pbft.ViewChange.Items.{AllBacked, add_AllBacked, construct_new_view_no_index}
use go_consensus.Tests.Scenario.{cmd, cmd_hash, backup}

program : Unit {0}
unfolding new_pbft items_at collect collect_item new_instances send_new_view construct_new_view
    get_instance_at_index lookup insert values eq_bytes broadcast equals_state is_primary_at_view
    add_vc_message add_vca_message
program = tt

abbrev state : InstanceState
state = record {
  view = 0;
  index = 1;
  status = prepared;
  command = some cmd;
  command_hash = cmd_hash;
}

abbrev vc : ViewChangeMessage
vc = record { new_view = 1; low_index = 0; high_index = 1; p_set = state ∷ []; q_set = state ∷ [] }

abbrev ack : ℕ → ViewChangeAckMessage
ack from = record { new_view = 1; ack_for = from; digest = 1 ∷ [] }

abbrev item : ViewChangeMessage → ℕ → VcItem
item m from = record {
  vc_sender = from;
  vc_message = some m;
  vc_digest = 1 ∷ [];
  vca_messages = (0, ack from) ∷ (2, ack from) ∷ [];
  valid = true;
}

abbrev with_items : ViewChangeMessage → Pbft
with_items m = record backup {
  vc_quorum = record {
    messages = (1, (0, item m 0) ∷ (2, item m 2) ∷ (3, item m 3) ∷ []) ∷ [];
    nv_message = [];
  };
}

get_instance_at_index-Exists_example :
    (state.index ≡ 1)
    × (2 * 1 + 1 ≤ count (allows state) (vc ∷ vc ∷ vc ∷ []))
    × (1 + 1 ≤ count_vouches state (vc ∷ vc ∷ vc ∷ []))
    × Exists (λ vcm. Exists (λ s. s ≡ state) vcm.p_set) (vc ∷ vc ∷ vc ∷ [])
unfolding program
get_instance_at_index-Exists_example =
    get_instance_at_index-Exists 1 (vc ∷ vc ∷ vc ∷ []) 1 state refl

-- The state after the NewView is handed to the dispatcher.
constructed : Pbft
unfolding program
constructed = elim (construct_new_view 1 (with_items vc)) [ ok p ↦ p | fault ↦ with_items vc ]

constructed_step : construct_new_view 1 (with_items vc) ≡ ok constructed
unfolding program constructed
constructed_step = refl

construct_new_view_cases_example :
    (constructed ≡ with_items vc) ⊎ Sends 1 (with_items vc) constructed
unfolding program
construct_new_view_cases_example =
    construct_new_view_cases 1 (with_items vc) constructed constructed_step

items_of : (v : ℕ) → (1 == v) ≡ false → items_at v (with_items vc).vc_quorum ≡ []
unfolding program
items_of v n = ground arith

items_of_self :
    (v : ℕ)
    → (1 == v) ≡ true
    → items_at v (with_items vc).vc_quorum ≡ (0, item vc 0) ∷ (2, item vc 2) ∷ (3, item vc 3) ∷ []
unfolding program
items_of_self v n = ground arith

items_AllBacked : AllBacked 1 (with_items vc).vc_quorum
unfolding values
items_AllBacked v = elim (Bool-cases (1 == v)) [
  | inl y ↦
      rw (items_of_self v y)
        ((λ h. (refl, omega arith)), ((λ h. (refl, omega arith)), ((λ h. (refl, omega arith)), tt)))
  | inr n ↦ rw (items_of v n) tt
]

abbrev late_ack : ViewChangeAckMessage
late_ack = ack 3

add_AllBacked_example :
    ((m : ViewChangeMessage) (digest : List ℕ)
      → AllBacked 1 (add_vc_message 1 3 m digest (with_items vc).vc_quorum))
    × ((m : ViewChangeAckMessage) (q' : VcQuorum)
        → add_vca_message 1 3 m (with_items vc).vc_quorum ≡ ok q'
        → AllBacked 1 q')
add_AllBacked_example = add_AllBacked 1 3 (with_items vc).vc_quorum items_AllBacked

-- View changes of replicas that have seen no request.
abbrev idle_vc : ViewChangeMessage
idle_vc = record { new_view = 1; low_index = 0; high_index = 0; p_set = []; q_set = [] }

construct_new_view_no_index_example : with_items idle_vc ≡ with_items idle_vc
unfolding program
construct_new_view_no_index_example =
    construct_new_view_no_index 1 (with_items idle_vc) (with_items idle_vc)
      ((λ m e. ground arith), ((λ m e. ground arith), ((λ m e. ground arith), tt))) refl

-- A NewView that nobody asked for.
abbrev sudden : NewViewMessage
sudden = record {
  new_view = 2;
  nv_proof = [];
  instances = (1, record state { command = none }) ∷ [];
}
