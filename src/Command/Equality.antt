-- ===== src/Command/Equality.antt =====
-- What `Equal` of pkg/command/commandpb/types.go decides.
use go_consensus.Base.{◌≡◌, ◌↔◌, List, [], ◌∷◌, Bool, true, false, arith, eq_bytes_iff, ==_iff}
use go_consensus.Command.{
  KvOp, Operation, kv_op, Command, eq_bool, eq_kv_op, eq_operation, eq_list, equal, Codec, hash,
}

eq_bool_iff : (a b : Bool) → (eq_bool a b ≡ true) ↔ (a ≡ b)
unfolding eq_bool
eq_bool_iff true true = ground arith
eq_bool_iff true false = ground arith
eq_bool_iff false true = ground arith
eq_bool_iff false false = ground arith

eq_kv_op_iff : (k o : KvOp) → (eq_kv_op k o ≡ true) ↔ (k ≡ o)
unfolding eq_kv_op
eq_kv_op_iff k o =
    ground
      (arith, eq_bytes_iff k.key o.key, eq_bytes_iff k.value o.value, eq_bool_iff k.read o.read)

-- The operations of a command all carry a key-value operation.
abbrev pub AllSet : List Operation → Type 0
AllSet [] = Unit {0}
AllSet (Operation.unset ∷ os) = ⊥
AllSet (kv_op k ∷ os) = AllSet os

eq_ops_iff :
    (xs ys : List Operation) → (eq_list eq_operation xs ys ≡ true) ↔ ((xs ≡ ys) × AllSet xs)
unfolding eq_list eq_operation
eq_ops_iff [] [] = ground arith
eq_ops_iff [] (y ∷ ys) = ground arith
eq_ops_iff (Operation.unset ∷ xs) [] = ground arith
eq_ops_iff (kv_op k ∷ xs) [] = ground arith
eq_ops_iff (Operation.unset ∷ xs) (y ∷ ys) = ground arith
eq_ops_iff (kv_op k ∷ xs) (Operation.unset ∷ ys) = ground arith
eq_ops_iff (kv_op k ∷ xs) (kv_op o ∷ ys) = ground (arith, eq_kv_op_iff k o, eq_ops_iff xs ys)

-- The fields that `Equal` compares; it reads neither the meta nor the trace.
abbrev pub Agree : Command → Command → Type 0
Agree m o =
    (m.timestamp ≡ o.timestamp)
    × (m.target ≡ o.target)
    × (m.conflict_key ≡ o.conflict_key)
    × (m.ops ≡ o.ops)

-- Two commands are equal for `Equal` exactly when they have the same timestamp, target, conflict
-- key and operations, and every operation carries a key-value operation.
pub equal_iff : (m o : Command) → (equal m o ≡ true) ↔ (Agree m o × AllSet m.ops)
unfolding equal
equal_iff m o = ground (
  arith,
  ==_iff m.timestamp o.timestamp,
  ==_iff m.target o.target,
  eq_bytes_iff m.conflict_key o.conflict_key,
  eq_ops_iff m.ops o.ops,
)

-- The bytes that are hashed do not depend on the trace.
bare :
    (m o : Command)
    → Agree m o
    → m.meta ≡ o.meta
    → record m { trace_info = [] } ≡ record o { trace_info = [] }
bare m o a h = cc (a.0, a.1, a.2, a.3)

-- Commands that `Equal` accepts and that have the same meta have the same hash, whatever their
-- traces.
pub hash-equal :
    (c : Codec) (m o : Command) → equal m o ≡ true → m.meta ≡ o.meta → hash c m ≡ hash c o
unfolding hash
hash-equal c m o e h = rw (hash, bare m o ((equal_iff m o).0 e).0 h)
