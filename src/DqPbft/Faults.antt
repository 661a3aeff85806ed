-- ===== src/DqPbft/Faults.antt =====
-- protocols/dqpbft/exec.go: o-instances that name an instance that is taken already.
use go_consensus.Base.{
  ℕ, suc, ◌≡◌, ◌⊎◌, Map, refl, ap, ◌∙◌, inl, inr, List, [], ◌∷◌, Bool, true, false, ◌&&◌, Option,
  none, some, arith, if◌then◌else◌, length, all, lookup, Bool-cases, Option-cases, ok, fault,
}
use go_consensus.Command.{Command}
use go_consensus.DqPbft.Messages.{InstanceId, executed, is_committed, equals_id}
use go_consensus.DqPbft.Replica.{
  IdMap, find_id, Instance, OInstance, DqPbft, is_deliverable, next_ready, deliver_one,
  deliver_each, delivered, exec_loop, exec,
}
use go_consensus.DqPbft.Delivery.{after_one, find_id-put_id, mem_id, next_ready-IsNext}

-- The instance has no command to be delivered.
abbrev pub command_of : Option Instance → Option Command
command_of none = none
command_of (some inst) = inst.is.command

find_id_same :
    {V : Type 0} (a b : InstanceId) (m : IdMap V) → equals_id a b ≡ true → find_id a m ≡ find_id b m
unfolding find_id equals_id
find_id_same a b [] h = refl
find_id_same a b ((key, x) ∷ m) h = ground (arith, find_id_same a b m)

deliver_one_empty :
    (id : InstanceId) (d : DqPbft) → command_of (find_id id d.log) ≡ none → deliver_one id d ≡ fault
unfolding deliver_one
deliver_one_empty id d h = elim (Option-cases (find_id id d.log)) [
  | inl n ↦ rw (n, deliver_one)
  | inr (inst, s) ↦ rw (s, rw s at h, deliver_one)
]

-- Delivering one instance gives no command to another.
deliver_one-cases :
    (id : InstanceId) (d : DqPbft)
    → (deliver_one id d ≡ fault)
      ⊎ ((d1 : DqPbft) × (deliver_one id d ≡ ok d1)
          × ((j : InstanceId)
              → command_of (find_id j d1.log)
                ≡ (if equals_id id j then none else command_of (find_id j d.log))))
unfolding deliver_one after_one
deliver_one-cases id d = elim (Option-cases (find_id id d.log)) [
  | inl n ↦ inl (rw (n, deliver_one))
  | inr (inst, s) ↦ elim (Option-cases inst.is.command) [
    | inl n ↦ inl (rw (s, n, deliver_one))
    | inr (cmd, c) ↦ inr (
      after_one id inst cmd d,
      rw (s, c, deliver_one) refl,
      λ j. ap command_of (find_id-put_id id j (delivered inst) d.log) ∙ ground arith,
    )
  ]
]

-- An instance with no command cannot be delivered, wherever it is named.
deliver_each_empty :
    (j : InstanceId) (ids : List InstanceId) (d : DqPbft)
    → command_of (find_id j d.log) ≡ none
    → mem_id j ids ≡ true
    → deliver_each ids d ≡ fault
unfolding deliver_each
deliver_each_empty j [] d h m = cc
deliver_each_empty j (id ∷ ids) d h m = elim (deliver_one-cases id d) [
  | inl e ↦ rw e
  | inr (d1, e, k) ↦ elim (Bool-cases (equals_id id j)) [
    | inl y ↦ rw (deliver_one_empty id d (ap command_of (find_id_same id j d.log y) ∙ h))
    | inr n ↦ rw e (deliver_each_empty j ids d1 (k j ∙ rw n h) (rw n at m))
  ]
]

-- Whether some instance is named twice.
abbrev pub has_repeat : List InstanceId → Bool
has_repeat [] = false
has_repeat (id ∷ ids) = if mem_id id ids then true else has_repeat ids

deliver_each_repeat :
    (ids : List InstanceId) (d : DqPbft) → has_repeat ids ≡ true → deliver_each ids d ≡ fault
unfolding deliver_each equals_id
deliver_each_repeat [] d h = cc
deliver_each_repeat (id ∷ ids) d h = elim (deliver_one-cases id d) [
  | inl e ↦ rw e
  | inr (d1, e, k) ↦ elim (Bool-cases (mem_id id ids)) [
    | inl y ↦ rw e (deliver_each_empty id ids d1 (k id ∙ ground arith) y)
    | inr n ↦ rw e (deliver_each_repeat ids d1 (rw n at h))
  ]
]

length-lookup :
    {V : Type 0} (k : ℕ) (x : V) (m : Map V) → lookup k m ≡ some x → (n : ℕ) × (length m ≡ suc n)
unfolding lookup
length-lookup k x [] h = cc
length-lookup k x (e ∷ m) h = (length m, refl)

-- exec panics when the o-instance at the delivery index is ready and names an instance twice: the first
-- delivery takes the command that the second one reads.
pub exec_repeat :
    (d : DqPbft) (o : OInstance)
    → next_ready d ≡ some o
    → has_repeat o.is.instances ≡ true
    → exec d ≡ fault
unfolding exec exec_loop
exec_repeat d o h r =
    let (n, e) = length-lookup d.next_o_deliver_index o d.olog (next_ready-IsNext d o h).found in
    rw (e, h, exec_loop, deliver_each_repeat o.is.instances d r)

if_false : (b : Bool) → (if b then false else false) ≡ false
if_false true = refl
if_false false = refl

if_and : (b : Bool) (o : OInstance) → (if b && false then some o else none) ≡ none
if_and true o = refl
if_and false o = refl

not_all :
    (id : InstanceId) (ids : List InstanceId) (d : DqPbft)
    → mem_id id ids ≡ true
    → is_deliverable (find_id id d.log) ≡ false
    → all (λ j. is_deliverable (find_id j d.log)) ids ≡ false
not_all id [] d m h = cc
not_all id (j ∷ ids) d m h = elim (Bool-cases (equals_id j id)) [
  | inl y ↦ rw (find_id_same j id d.log y, h)
  | inr n ↦ rw (not_all id ids d (rw n at m) h) (if_false (is_deliverable (find_id j d.log)))
]

-- When the o-instance at the delivery index names an instance that is executed already, exec does
-- nothing: neither it nor any o-instance after it is executed.
pub exec_blocked :
    (d : DqPbft) (o : OInstance) (id : InstanceId) (inst : Instance)
    → lookup d.next_o_deliver_index d.olog ≡ some o
    → mem_id id o.is.instances ≡ true
    → find_id id d.log ≡ some inst
    → inst.is.status ≡ executed
    → exec d ≡ ok d
unfolding exec exec_loop next_ready is_deliverable is_committed
exec_blocked d o id inst h m s e =
    let (n, l) = length-lookup d.next_o_deliver_index o d.olog h in
    let blocked = not_all id o.is.instances d m (rw (s, e, is_committed)) in
    let stuck : next_ready d ≡ none =
      rw (h, blocked, next_ready) (if_and (is_committed o.is.status) o) in
    rw (l, stuck, exec_loop)
