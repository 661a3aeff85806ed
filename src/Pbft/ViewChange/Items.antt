-- ===== src/Pbft/ViewChange/Items.antt =====
-- protocols/pbft/vcquorum.go: the entries, and what constructNewView finds in them.
use go_consensus.Base.{
  ℕ, ◌+◌, ◌*◌, ◌≤◌, ◌≡◌, refl, inl, inr, List, [], ◌∷◌, true, Option, none, some, arith, ◌==◌,
  if◌then◌else◌, is_some, length, count, All, Bytes, Map, lookup, insert, values, lookup-insert,
  subst, Option-cases, Bool-cases, ok, ok_of_bind, ok-injective,
}
use go_consensus.Pbft.Messages.{InstanceState, ViewChangeMessage, ViewChangeAckMessage}
use go_consensus.Pbft.Replica.{VcItem, VcQuorum, Pbft}
use go_consensus.Pbft.ViewChange.Construct.{construct_new_view_cases}
use go_consensus.Pbft.ViewChange.{
  items_at, vc_item, add_vc_message, acked_item, add_vca_message, vouches, verify_a2, Collected,
  collect_item, collect, none_collected, construct_new_view,
}

-- A valid entry has its view change and at least 2f acknowledgements of it.
abbrev pub Backed : ℕ → VcItem → Type 0
Backed f item =
    item.valid ≡ true → (is_some item.vc_message ≡ true) × (2 * f ≤ length item.vca_messages)

abbrev pub AllBacked : ℕ → VcQuorum → Type 0
AllBacked f q = (v : ℕ) → All (Backed f) (values (items_at v q))

All-values-insert {ℓ} :
    {V : Type ℓ} (P : V → Type 0) (k : ℕ) (x : V) (m : Map V)
    → P x
    → All P (values m)
    → All P (values (insert k x m))
unfolding values insert
All-values-insert P k x [] h a = (h, tt)
All-values-insert P k x ((i, y) ∷ m) h a = ground (arith, All-values-insert P k x m h)

items_at-insert :
    (v w : ℕ) (items : Map VcItem) (q : VcQuorum)
    → items_at w (record q { messages = insert v items q.messages })
      ≡ (if v == w then items else items_at w q)
unfolding items_at
items_at-insert v w items q = ground (arith, lookup-insert v w items q.messages)

-- Replacing one entry of one view.
insert-AllBacked :
    (f v id : ℕ) (item : VcItem) (q : VcQuorum)
    → Backed f item
    → AllBacked f q
    → AllBacked f (record q { messages = insert v (insert id item (items_at v q)) q.messages })
insert-AllBacked f v id item q h a w = elim (Bool-cases (v == w)) [
  | inl y ↦
      rw (items_at-insert v w (insert id item (items_at v q)) q, y)
        (All-values-insert (Backed f) id item (items_at v q) h (a v))
  | inr n ↦ rw (items_at-insert v w (insert id item (items_at v q)) q, n) (a w)
]

add_vc_message-AllBacked :
    (f id : ℕ) (m : ViewChangeMessage) (digest : Bytes) (q : VcQuorum)
    → AllBacked f q
    → AllBacked f (add_vc_message f id m digest q)
unfolding add_vc_message
add_vc_message-AllBacked f id m digest q a =
    insert-AllBacked f m.new_view id _ q (vc_item-Backed f id m digest _) a
  where
    vc_item-Backed :
        (f id : ℕ) (m : ViewChangeMessage) (digest : Bytes) (o : Option VcItem)
        → Backed f (vc_item f id m digest o)
    vc_item-Backed f id m digest none = λ h. ground arith
    vc_item-Backed f id m digest (some item) = λ h. ground arith

add_vca_message-AllBacked :
    (f id : ℕ) (m : ViewChangeAckMessage) (q q' : VcQuorum)
    → AllBacked f q
    → add_vca_message f id m q ≡ ok q'
    → AllBacked f q'
unfolding add_vca_message
add_vca_message-AllBacked f id m q q' a e =
    let (item, l, r) = ok_of_bind (acked_item m (lookup m.ack_for (items_at m.new_view q))) _ e in
    subst (AllBacked f) (ok-injective r)
      (insert-AllBacked f m.new_view m.ack_for _ q (λ h. ground arith) a)

-- An entry that becomes valid has its view change and 2f acknowledgements: recording a view change
-- or an acknowledgement keeps this, whatever their order.
pub add_AllBacked :
    (f id : ℕ) (q : VcQuorum)
    → AllBacked f q
    → ((m : ViewChangeMessage) (digest : Bytes) → AllBacked f (add_vc_message f id m digest q))
      × ((m : ViewChangeAckMessage) (q' : VcQuorum)
          → add_vca_message f id m q ≡ ok q'
          → AllBacked f q')
add_AllBacked f id q a = (
  (λ m digest. add_vc_message-AllBacked f id m digest q a),
  (λ m q' e. add_vca_message-AllBacked f id m q q' a e),
)

-- The intent of condition A2 is f + 1 view changes that vouch. One view change whose Q set has
-- f + 1 entries that vouch passes by itself.
pub verify_a2_single :
    (f : ℕ) (is : InstanceState) (vcm : ViewChangeMessage)
    → f + 1 ≤ count (vouches is) vcm.q_set
    → verify_a2 f is (vcm ∷ []) ≡ true
unfolding verify_a2
verify_a2_single f is vcm h = ground arith

collect_item-no_index :
    (item : VcItem) (c mid : Collected)
    → ((m : ViewChangeMessage) → item.vc_message ≡ some m → m.high_index ≡ 0)
    → c.max_idx ≡ 0
    → collect_item item c ≡ ok mid
    → mid.max_idx ≡ 0
unfolding collect_item
collect_item-no_index item c mid a z l = elim (Option-cases item.vc_message) [
  | inl n ↦ ground arith
  | inr (m, y) ↦ ground (arith, a m y)
]

collect-no_index :
    (items : List VcItem) (c d : Collected)
    → All (λ item. (m : ViewChangeMessage) → item.vc_message ≡ some m → m.high_index ≡ 0) items
    → c.max_idx ≡ 0
    → collect items c ≡ ok d
    → d.max_idx ≡ 0
unfolding collect
collect-no_index [] c d a z e = ground arith
collect-no_index (item ∷ items) c d a z e =
    let (mid, l, r) = ok_of_bind (collect_item item c) (collect items) e in
    collect-no_index items mid d a.1 (collect_item-no_index item c mid a.0 z l) r

-- When no view change has an index in its log, no NewView is sent, however many there are: a view
-- change before the first request does not end.
pub construct_new_view_no_index :
    (v : ℕ) (p q : Pbft)
    → All
        (λ item. (m : ViewChangeMessage) → item.vc_message ≡ some m → m.high_index ≡ 0)
        (values (items_at v p.vc_quorum))
    → construct_new_view v p ≡ ok q
    → q ≡ p
construct_new_view_no_index v p q a e = elim (construct_new_view_cases v p q e) [
  | inl s ↦ s
  | inr (m, s, j) ↦ absurd (
      omega (
        arith,
        j.some_index,
        collect-no_index (values (items_at v p.vc_quorum)) none_collected j.c a refl j.collected,
      ))
]
