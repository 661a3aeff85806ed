-- ===== src/Pbft/ViewChange.antt =====
-- protocols/pbft/vcquorum.go and the view change of pbft.go: collecting view changes, choosing the
-- instances of a new view, and installing it.
pub mod Construct
pub mod Items
use go_consensus.Base.{
  ℕ, zero, suc, ◌+◌, ◌*◌, ◌≡◌, List, [], ◌∷◌, ◌++◌, Bool, true, false, not, ◌&&◌, ◌||◌, Option,
  none, some, ◌==◌, if◌then◌else◌, ltb, leb, int_mod, is_some, length, select, count, any, all,
  Bytes, eq_bytes, Map, lookup, insert, values, Outcome, ok, fault, ◌>>=◌,
}
use go_consensus.Pbft.Messages.{
  pre_prepared, InstanceState, AgreementMessage, ViewChangeMessage, ViewChangeAckMessage,
  NewViewProof, NewViewMessage, pre_prepare, PbftMessage, agreement, view_change, view_change_ack,
  new_view, is_atleast_pre_prepared, is_atleast_prepared, eq_hash, equals_state, zero_state,
}
use go_consensus.Pbft.Quorum.{new_quorum, log}
use go_consensus.Pbft.Replica.{
  Instance, VcItem, VcQuorum, Pbft, Env, is_primary_at_view, is_current_primary, send_to, broadcast,
  set_instance,
}
use go_consensus.Pbft.Agreement.{on_pre_prepare, step_agreement}

-- The entries of a view, made when they are missing.
unfoldable pub items_at : ℕ → VcQuorum → Map VcItem
items_at v q = elim (lookup v q.messages) [ none ↦ [] | some items ↦ items ]

-- Enough acknowledgements for a view change that is known.
abbrev pub complete : ℕ → VcItem → Bool
complete f item = leb (2 * f) (length item.vca_messages) && is_some item.vc_message

-- `addVCMessage`: the entry of the sender, new or completed.
unfoldable pub vc_item : ℕ → ℕ → ViewChangeMessage → Bytes → Option VcItem → VcItem
vc_item f id m digest none = record {
  vc_sender = id;
  vc_message = some m;
  vc_digest = digest;
  vca_messages = [];
  valid = false;
}
vc_item f id m digest (some item) = record item {
  vc_sender = id;
  vc_message = some m;
  vc_digest = digest;
  valid = leb (2 * f) (length item.vca_messages);
}

unfoldable pub add_vc_message : ℕ → ℕ → ViewChangeMessage → Bytes → VcQuorum → VcQuorum
unfolding items_at vc_item
add_vc_message f id m digest q =
    let items = items_at m.new_view q in
    record q {
      messages =
          insert m.new_view (insert id (vc_item f id m digest (lookup id items)) items) q.messages;
    }

abbrev pub empty_item : VcItem
empty_item = record {
  vc_sender = 0;
  vc_message = none;
  vc_digest = [];
  vca_messages = [];
  valid = false;
}

-- An acknowledgement of another digest than that of the known view change is fatal.
unfoldable pub acked_item : ViewChangeAckMessage → Option VcItem → Outcome VcItem
acked_item m none = ok empty_item
acked_item m (some item) =
    if is_some item.vc_message && not (eq_bytes item.vc_digest m.digest) then fault else ok item

-- `addVCAMessage`.
unfoldable pub add_vca_message : ℕ → ℕ → ViewChangeAckMessage → VcQuorum → Outcome VcQuorum
unfolding items_at acked_item
add_vca_message f id m q =
    let items = items_at m.new_view q in
    acked_item m (lookup m.ack_for items) >>= λ item.
    let item' = record item { vca_messages = insert id m item.vca_messages } in
    ok (record q {
      messages =
          insert m.new_view (insert m.ack_for (record item' { valid = complete f item' }) items)
            q.messages;
    })

unfoldable pub add_nv_message : ℕ → NewViewMessage → VcQuorum → VcQuorum
add_nv_message id m q = record q { nv_message = insert id m q.nv_message }

-- `verifyA1`: a view change that knows nothing newer or different than the instance.
abbrev pub not_newer : InstanceState → InstanceState → Bool
not_newer is1 is2 =
    ltb is2.view is1.view || (is1.view == is2.view && eq_hash is1.command_hash is2.command_hash)

abbrev pub allows : InstanceState → ViewChangeMessage → Bool
allows is1 vcm = ltb vcm.low_index is1.index && all (not_newer is1) vcm.p_set

unfoldable pub verify_a1 : ℕ → InstanceState → List ViewChangeMessage → Bool
verify_a1 f is1 s_set = leb (2 * f + 1) (count (allows is1) s_set)

-- `verifyA2` counts every entry that vouches for the instance: `continue for2` goes on with the
-- next entry of the same view change.
abbrev pub vouches : InstanceState → InstanceState → Bool
vouches is1 is2 = leb is1.view is2.view && eq_hash is1.command_hash is2.command_hash

unfoldable pub count_vouches : InstanceState → List ViewChangeMessage → ℕ
count_vouches is1 [] = 0
count_vouches is1 (vcm ∷ s_set) = count (vouches is1) vcm.q_set + count_vouches is1 s_set

unfoldable pub verify_a2 : ℕ → InstanceState → List ViewChangeMessage → Bool
unfolding count_vouches
verify_a2 f is1 s_set = leb (f + 1) (count_vouches is1 s_set)

-- `getInstanceAtIndex`: the first verified instance of the index.
abbrev pub is_verified : ℕ → List ViewChangeMessage → ℕ → InstanceState → Bool
is_verified f s_set index is = is.index == index && (verify_a1 f is s_set && verify_a2 f is s_set)

unfoldable pub find_state : (InstanceState → Bool) → List InstanceState → Option InstanceState
find_state test [] = none
find_state test (is ∷ p_set) = if test is then some is else find_state test p_set

unfoldable pub find_in : (InstanceState → Bool) → List ViewChangeMessage → Option InstanceState
unfolding find_state
find_in test [] = none
find_in test (vcm ∷ s_set) =
    let rest = find_in test s_set in
    elim (find_state test vcm.p_set) [ none ↦ rest | some is ↦ some is ]

unfoldable pub get_instance_at_index : ℕ → List ViewChangeMessage → ℕ → Option InstanceState
unfolding find_in verify_a1 verify_a2
get_instance_at_index f s_set index = find_in (is_verified f s_set index) s_set

-- The view changes and the proofs of the entries, in order. A valid entry with no view change is a
-- nil dereference.
pub record Collected : Type 0 where
  pub s_set : List ViewChangeMessage
  pub nv_proof : List NewViewProof
  pub max_idx : ℕ

unfoldable pub collect_item : VcItem → Collected → Outcome Collected
collect_item item c = elim item.vc_message [
  | none ↦ fault
  | some m ↦ ok (record {
    s_set = c.s_set ++ m ∷ [];
    nv_proof = c.nv_proof ++ record { ack_for = item.vc_sender; digest = item.vc_digest } ∷ [];
    max_idx = if ltb c.max_idx m.high_index then m.high_index else c.max_idx;
  })
]

abbrev pub none_collected : Collected
none_collected = record { s_set = []; nv_proof = []; max_idx = 0 }

unfoldable pub collect : List VcItem → Collected → Outcome Collected
unfolding collect_item
collect [] c = ok c
collect (item ∷ items) c = collect_item item c >>= collect items

-- The instances of the indices from 1 to `max`, unless one is missing.
unfoldable pub new_instances : ℕ → List ViewChangeMessage → ℕ → Option (Map InstanceState)
unfolding get_instance_at_index
new_instances f s_set zero = some []
new_instances f s_set (suc k) = elim (new_instances f s_set k) [
  | none ↦ none
  | some rest ↦ elim (get_instance_at_index f s_set (suc k)) [
    | none ↦ none
    | some is ↦ some (insert (suc k) is rest)
  ]
]

-- The NewView for what was collected. A log with no index at all sends nothing.
unfoldable pub send_new_view : ℕ → Collected → Pbft → Pbft
unfolding new_instances broadcast
send_new_view view c p = if c.max_idx == 0 then p else elim (new_instances p.f c.s_set c.max_idx) [
  | none ↦ p
  | some instances ↦
      broadcast
        (new_view (record { new_view = view; nv_proof = c.nv_proof; instances = instances })) true p
]

-- `constructNewView`. An entry that is not valid ends it with nothing sent.
unfoldable pub construct_new_view : ℕ → Pbft → Outcome Pbft
unfolding items_at collect send_new_view
construct_new_view view p =
    let items = values (items_at view p.vc_quorum) in
    if not (all (λ item. item.valid) items)
    then ok p
    else collect items none_collected >>= λ c. ok (send_new_view view c p)
