-- ===== src/Command.antt =====
-- pkg/command/commandpb: the commands that the protocols order. `Equal`, `Interferes` and `Hash`
-- of types.go, over the messages of command.proto.
pub mod Equality
use go_consensus.Base.{
  ℕ, ◌≡◌, List, [], ◌∷◌, Bool, true, false, Option, none, some, ◌==◌, ◌&&◌, Bytes, eq_bytes,
}

pub record KvOp : Type 0 where
  pub key : Bytes
  pub value : Bytes
  pub read : Bool

-- The oneof of `Operation`; an operation may have no member set.
pub data Operation : Type 0 where
  unset : Operation
  kv_op : KvOp → Operation

pub record KvOpResult : Type 0 where
  pub key : Bytes
  pub value : Bytes
  pub write_success : Bool

pub data OperationResult : Type 0 where
  unset : OperationResult
  kv_op_result : KvOpResult → OperationResult

pub record Command : Type 0 where
  pub timestamp : ℕ
  pub ops : List Operation
  pub target : ℕ
  pub meta : Bytes
  pub conflict_key : Bytes
  pub trace_info : List (Bytes × Bytes)

pub record CommandResult : Type 0 where
  pub timestamp : ℕ
  pub op_results : List OperationResult
  pub target : ℕ
  pub meta : Bytes

unfoldable pub eq_bool : Bool → Bool → Bool
eq_bool true b = b
eq_bool false true = false
eq_bool false false = true

unfoldable pub eq_kv_op : KvOp → KvOp → Bool
unfolding eq_bool
eq_kv_op k o = eq_bytes k.key o.key && (eq_bytes k.value o.value && eq_bool k.read o.read)

unfoldable pub eq_kv_op_result : KvOpResult → KvOpResult → Bool
unfolding eq_bool
eq_kv_op_result k o =
    eq_bytes k.key o.key && (eq_bytes k.value o.value && eq_bool k.write_success o.write_success)

-- The switch has no case for an unset operation, which equals nothing.
unfoldable pub eq_operation : Operation → Operation → Bool
unfolding eq_kv_op
eq_operation Operation.unset o = false
eq_operation (kv_op k) Operation.unset = false
eq_operation (kv_op k) (kv_op o) = eq_kv_op k o

unfoldable pub eq_operation_result : OperationResult → OperationResult → Bool
unfolding eq_kv_op_result
eq_operation_result OperationResult.unset o = false
eq_operation_result (kv_op_result k) OperationResult.unset = false
eq_operation_result (kv_op_result k) (kv_op_result o) = eq_kv_op_result k o

-- The comparison of lengths, then of the elements in order.
unfoldable pub eq_list {ℓ} : {A : Type ℓ} → (A → A → Bool) → List A → List A → Bool
eq_list e [] [] = true
eq_list e [] (y ∷ ys) = false
eq_list e (x ∷ xs) [] = false
eq_list e (x ∷ xs) (y ∷ ys) = e x y && eq_list e xs ys

unfoldable pub equal : Command → Command → Bool
unfolding eq_list eq_operation
equal m o =
    m.timestamp == o.timestamp
    && (m.target == o.target
        && (eq_bytes m.conflict_key o.conflict_key && eq_list eq_operation m.ops o.ops))

unfoldable pub equal_result : CommandResult → CommandResult → Bool
unfolding eq_list eq_operation_result
equal_result m o =
    m.timestamp == o.timestamp
    && (m.target == o.target
        && (eq_bytes m.meta o.meta && eq_list eq_operation_result m.op_results o.op_results))

unfoldable pub interferes : Command → Command → Bool
interferes m o = eq_bytes m.conflict_key o.conflict_key

-- What `Hash` uses of other packages: proto.Marshal, which may fail, and sha256.
pub record Codec : Type 0 where
  pub marshal : Command → Option Bytes
  pub sha256 : Bytes → Bytes

-- The trace is taken out before the command is marshalled and put back afterwards. A command that
-- cannot be marshalled has the hash nil.
unfoldable pub hash : Codec → Command → Option Bytes
hash c m = elim (c.marshal (record m { trace_info = [] })) [
  | none ↦ none
  | some b ↦ some (c.sha256 b)
]
