-- ===== src/Pbft/ViewChange/Construct.antt =====
-- pbft.go, `constructNewView` and `getInstanceAtIndex`: what a NewView rests on.
use go_consensus.Base.{
  ℕ, zero, suc, ◌+◌, ◌*◌, ◌≤◌, ◌≡◌, refl, sym, ◌∙◌, ◌⊎◌, inl, inr, List, [], ◌∷◌, Bool, true, some,
  arith, ◌==◌, length, length-append, count, count-le, all, Map, lookup, insert, values,
  lookup-insert, subst, Option-cases, Bool-cases, ok, ok_of_bind, ok-injective, ==_iff,
}
use go_consensus.Pbft.Messages.{InstanceState, ViewChangeMessage, NewViewMessage, new_view}
use go_consensus.Pbft.Replica.{VcItem, Pbft, broadcast}
use go_consensus.Pbft.ViewChange.{
  items_at, is_verified, find_state, find_in, get_instance_at_index, allows, count_vouches,
  Collected, collect_item, collect, none_collected, new_instances, send_new_view,
  construct_new_view,
}

-- The list has an element that satisfies the predicate.
abbrev pub Exists {ℓ} : {A : Type ℓ} → (A → Type 0) → List A → Type 0
Exists P [] = ⊥
Exists P (x ∷ xs) = P x ⊎ Exists P xs

find_state-Exists :
    (test : InstanceState → Bool) (is : InstanceState) (p_set : List InstanceState)
    → find_state test p_set ≡ some is
    → (test is ≡ true) × Exists (λ s. s ≡ is) p_set
unfolding find_state
find_state-Exists test is [] h = cc
find_state-Exists test is (s ∷ p_set) h = elim (Bool-cases (test s)) [
  | inl y ↦ let same : s ≡ is = ground arith in (subst (λ x. test x ≡ true) same y, inl same)
  | inr n ↦ let r = find_state-Exists test is p_set (ground arith) in (r.0, inr r.1)
]

find_in-Exists :
    (test : InstanceState → Bool) (is : InstanceState) (s_set : List ViewChangeMessage)
    → find_in test s_set ≡ some is
    → (test is ≡ true) × Exists (λ vcm. Exists (λ s. s ≡ is) vcm.p_set) s_set
unfolding find_in
find_in-Exists test is [] h = cc
find_in-Exists test is (vcm ∷ s_set) h = elim (Option-cases (find_state test vcm.p_set)) [
  | inl n ↦ let r = find_in-Exists test is s_set (ground arith) in (r.0, inr r.1)
  | inr (s, y) ↦
      let same : s ≡ is = ground arith in
      let r = find_state-Exists test is vcm.p_set (ground arith) in (r.0, inl r.1)
]

-- An instance chosen for an index has that index, stands in the P set of some view change, and
-- passes both conditions: 2f + 1 view changes know nothing newer or different, and at least f + 1
-- entries of the Q sets vouch for its command.
pub get_instance_at_index-Exists :
    (f : ℕ) (s_set : List ViewChangeMessage) (index : ℕ) (is : InstanceState)
    → get_instance_at_index f s_set index ≡ some is
    → (is.index ≡ index)
      × (2 * f + 1 ≤ count (allows is) s_set)
      × (f + 1 ≤ count_vouches is s_set)
      × Exists (λ vcm. Exists (λ s. s ≡ is) vcm.p_set) s_set
unfolding get_instance_at_index
get_instance_at_index-Exists f s_set index is h =
    let (v, e) = find_in-Exists (is_verified f s_set index) is s_set h in
    (ground arith, ground arith, ground arith, e)

collect_item-length :
    (item : VcItem) (c d : Collected)
    → collect_item item c ≡ ok d
    → length d.s_set ≡ suc (length c.s_set)
unfolding collect_item
collect_item-length item c d h = elim (Option-cases item.vc_message) [
  | inl n ↦ ground arith
  | inr (m, y) ↦ ground (arith, length-append c.s_set (m ∷ []))
]

collect-length :
    (items : List VcItem) (c d : Collected)
    → collect items c ≡ ok d
    → length d.s_set ≡ length c.s_set + length items
unfolding collect
collect-length [] c d h = ground arith
collect-length (item ∷ items) c d h =
    let (mid, l, r) = ok_of_bind (collect_item item c) (collect items) h in
    omega (arith, collect_item-length item c mid l, collect-length items mid d r)

-- The map of the new instances gives each index the instance that was chosen for it.
abbrev pub Chosen : ℕ → List ViewChangeMessage → ℕ → Map InstanceState → Type 0
Chosen f s_set k instances =
    (i : ℕ)
    → 1 ≤ i
    → i ≤ k
    → (is : InstanceState) × (get_instance_at_index f s_set i ≡ some is)
      × (lookup i instances ≡ some is)

Chosen-insert :
    (f : ℕ) (s_set : List ViewChangeMessage) (k : ℕ) (rest : Map InstanceState) (is : InstanceState)
    → Chosen f s_set k rest
    → get_instance_at_index f s_set (suc k) ≡ some is
    → Chosen f s_set (suc k) (insert (suc k) is rest)
Chosen-insert f s_set k rest is c z i lo hi = elim (Bool-cases (suc k == i)) [
  | inl e ↦
      let same : suc k ≡ i = (==_iff (suc k) i).0 e in
      (is, rw (← same) z, rw (lookup-insert (suc k) i is rest, e))
  | inr e ↦
      let (js, g, l) = c i lo (ground arith) in (js, g, rw (lookup-insert (suc k) i is rest, e) l)
]

new_instances-Chosen :
    (f : ℕ) (s_set : List ViewChangeMessage) (k : ℕ) (instances : Map InstanceState)
    → new_instances f s_set k ≡ some instances
    → Chosen f s_set k instances
unfolding new_instances
new_instances-Chosen f s_set zero instances h = λ i lo hi. absurd (omega arith)
new_instances-Chosen f s_set (suc k) instances h = elim (Option-cases (new_instances f s_set k)) [
  | inl n ↦ ground arith
  | inr (rest, y) ↦ elim (Option-cases (get_instance_at_index f s_set (suc k))) [
    | inl n ↦ ground arith
    | inr (is, z) ↦
        let made : insert (suc k) is rest ≡ instances = ground arith in
        subst (Chosen f s_set (suc k)) made
          (Chosen-insert f s_set k rest is (new_instances-Chosen f s_set k rest y) z)
  ]
]

-- What a NewView rests on: 2f + 1 view changes or more, all of them valid, and for every index up
-- to the highest one an instance that was chosen by `getInstanceAtIndex`.
pub record IsJustified (view : ℕ) (p : Pbft) (m : NewViewMessage) : Type 0 where
  pub for_view : m.new_view ≡ view
  pub c : Collected
  pub collected : collect (values (items_at view p.vc_quorum)) none_collected ≡ ok c
  pub all_valid : all (λ item. item.valid) (values (items_at view p.vc_quorum)) ≡ true
  pub enough : 2 * p.f + 1 ≤ length (values (items_at view p.vc_quorum))
  pub some_index : 1 ≤ c.max_idx
  pub chosen : Chosen p.f c.s_set c.max_idx m.instances

abbrev pub Sends : ℕ → Pbft → Pbft → Type 0
Sends view p q = (m : NewViewMessage) × (q ≡ broadcast (new_view m) true p) × IsJustified view p m

send_new_view-cases :
    (view : ℕ) (c : Collected) (p : Pbft)
    → (send_new_view view c p ≡ p)
      ⊎ ((m : NewViewMessage) × (send_new_view view c p ≡ broadcast (new_view m) true p)
          × (m.new_view ≡ view)
          × (1 ≤ c.max_idx)
          × Chosen p.f c.s_set c.max_idx m.instances)
unfolding send_new_view
send_new_view-cases view c p = elim (Bool-cases (c.max_idx == 0)) [
  | inl y ↦ inl (rw (y, send_new_view))
  | inr n ↦ elim (Option-cases (new_instances p.f c.s_set c.max_idx)) [
    | inl z ↦ inl (rw (n, z, send_new_view))
    | inr (instances, z) ↦ inr (
      record { new_view = view; nv_proof = c.nv_proof; instances = instances },
      rw (n, z, send_new_view),
      refl,
      ground arith,
      new_instances-Chosen p.f c.s_set c.max_idx instances z,
    )
  ]
]

-- With an instance chosen, 2f + 1 view changes were collected.
Chosen-enough :
    (f : ℕ) (c : Collected) (items : List VcItem) (instances : Map InstanceState)
    → collect items none_collected ≡ ok c
    → 1 ≤ c.max_idx
    → Chosen f c.s_set c.max_idx instances
    → 2 * f + 1 ≤ length items
Chosen-enough f c items instances e lo chosen =
    let (is, g, l) = chosen 1 (omega arith) lo in
    let (i, a1, a2, place) = get_instance_at_index-Exists f c.s_set 1 is g in
    omega (arith, a1, count-le (allows is) c.s_set, collect-length items none_collected c e)

-- `constructNewView` changes nothing, or broadcasts one NewView that is justified.
pub construct_new_view_cases :
    (view : ℕ) (p q : Pbft) → construct_new_view view p ≡ ok q → (q ≡ p) ⊎ Sends view p q
unfolding construct_new_view
construct_new_view_cases view p q e =
    let items = values (items_at view p.vc_quorum) in
    elim (Bool-cases (all (λ item. item.valid) items)) [
      | inr n ↦ inl (sym (ok-injective (rw (n, construct_new_view) at e)))
      | inl y ↦
          let (c, l, r) =
            ok_of_bind (collect items none_collected) _ (rw (y, construct_new_view) at e) in
          elim (send_new_view-cases view c p) [
            | inl s ↦ inl (sym (ok-injective r) ∙ s)
            | inr (m, s, v, lo, ch) ↦ inr (
              m,
              sym (ok-injective r) ∙ s,
              record {
                for_view = v;
                c = c;
                collected = l;
                all_valid = y;
                enough = Chosen-enough p.f c items m.instances l lo ch;
                some_index = lo;
                chosen = ch;
              },
            )
          ]
    ]
