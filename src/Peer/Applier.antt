-- ===== src/Peer/Applier.antt =====
-- peer/applier.go: the key-value store that the ordered commands run on.
use go_consensus.Base.{
  ◌≡◌, refl, ◌∙◌, List, [], ◌∷◌, ◌++◌, Bool, true, not, ◌&&◌, Option, none, some, arith,
  if◌then◌else◌, length, Bytes, ByteMap, read, write, read-write, eq_bytes, Outcome, ok, fault,
  ◌>>=◌, ok_of_bind, ok-injective, sym, ap,
}
use go_consensus.Command.{Operation, kv_op, OperationResult, kv_op_result, Command, CommandResult}
use go_consensus.Peer.Tracker.{Tracker, finish}

-- `map[string][]byte`.
abbrev pub Store : Type 0
Store = ByteMap Bytes

-- One operation: a value that is not there to be read is a panic, an operation with no member set a
-- nil dereference.
unfoldable pub apply_op : Operation → Store → Outcome (Store × OperationResult)
unfolding read write
apply_op Operation.unset kv = fault
apply_op (kv_op op) kv =
    if not op.read
    then ok (
      write op.key op.value kv,
      kv_op_result (record { key = op.key; value = []; write_success = true }),
    )
    else elim (read op.key kv) [
      | none ↦ fault
      | some val ↦
          ok (kv, kv_op_result (record { key = op.key; value = val; write_success = true }))
    ]

unfoldable pub apply_ops : List Operation → Store → Outcome (Store × List OperationResult)
unfolding apply_op
apply_ops [] kv = ok (kv, [])
apply_ops (op ∷ ops) kv =
    apply_op op kv >>= λ (kv', res). apply_ops ops kv' >>= λ (kv'', rest). ok (kv'', res ∷ rest)

unfoldable pub execute_command : Command → Store → Outcome (Store × CommandResult)
unfolding apply_ops
execute_command cmd kv = apply_ops cmd.ops kv >>= λ (kv', results). ok (
  kv',
  record { timestamp = cmd.timestamp; op_results = results; target = cmd.target; meta = [] },
)

pub record ExecPacket : Type 0 where
  pub cmd : Command
  pub is_spec : Bool
  pub meta : Bytes
  pub callback : Bool
  pub no_exec : Bool

-- The applier's store, its tracker, and the callbacks it made to the protocol.
pub record Applier : Type 0 where
  pub kv : Store
  pub ct : Tracker
  pub callbacks : List (Command × CommandResult)

-- The result of a packet: of the execution, or the one that it carries. `unmarshal` is
-- `proto.Unmarshal`.
unfoldable pub result_of :
    (Bytes → Option CommandResult) → ExecPacket → Store → Outcome (Store × CommandResult)
unfolding execute_command
result_of unmarshal pkt kv =
    if not pkt.no_exec
    then (execute_command pkt.cmd kv >>= λ (kv', result).
        ok (kv', record result { meta = pkt.meta }))
    else if pkt.callback
    then fault
    else elim (unmarshal pkt.meta) [ none ↦ fault | some result ↦ ok (kv, result) ]

-- One packet.
unfoldable pub handle_one : (Bytes → Option CommandResult) → ExecPacket → Applier → Outcome Applier
unfolding result_of finish
handle_one unmarshal pkt pl = result_of unmarshal pkt pl.kv >>= λ (kv', result). ok (
    if pkt.callback
    then record pl { kv = kv'; callbacks = pl.callbacks ++ (pkt.cmd, result) ∷ [] }
    else record pl { kv = kv'; ct = finish result pl.ct })

unfoldable pub handle_executed_cmds :
    (Bytes → Option CommandResult) → List ExecPacket → Applier → Outcome Applier
unfolding handle_one
handle_executed_cmds unmarshal [] pl = ok pl
handle_executed_cmds unmarshal (pkt ∷ committed) pl =
    handle_one unmarshal pkt pl >>= handle_executed_cmds unmarshal committed

-- The value that the operations leave at a key: that of the last write to it.
unfoldable pub last_write : Bytes → List Operation → Option Bytes → Option Bytes
last_write k [] now = now
last_write k (Operation.unset ∷ ops) now = last_write k ops now
last_write k (kv_op op ∷ ops) now =
    last_write k ops (if not op.read && eq_bytes op.key k then some op.value else now)

read-apply_op :
    (op : Operation) (k : Bytes) (kv kv' : Store) (res : OperationResult)
    → apply_op op kv ≡ ok (kv', res)
    → last_write k (op ∷ []) (read k kv) ≡ read k kv'
unfolding apply_op last_write
read-apply_op Operation.unset k kv kv' res h = cc
read-apply_op (kv_op op) k kv kv' res h = ground (arith, read-write op.key k op.value kv)

last_write_step :
    (op : Operation) (ops : List Operation) (k : Bytes) (now : Option Bytes)
    → last_write k (op ∷ ops) now ≡ last_write k ops (last_write k (op ∷ []) now)
unfolding last_write
last_write_step Operation.unset ops k now = refl
last_write_step (kv_op op) ops k now = refl

-- After a command every key has the value of the last write to it, and the command has one result
-- for each operation.
pub apply_ops_lem :
    (ops : List Operation) (k : Bytes) (kv kv' : Store) (results : List OperationResult)
    → apply_ops ops kv ≡ ok (kv', results)
    → (read k kv' ≡ last_write k ops (read k kv)) × (length results ≡ length ops)
unfolding apply_ops last_write
apply_ops_lem [] k kv kv' results h = ground arith
apply_ops_lem (op ∷ ops) k kv kv' results h =
    let ((mid, res), l, r) = ok_of_bind (apply_op op kv) _ h in
    let ((end, rest), l', r') = ok_of_bind (apply_ops ops mid) _ r in
    let (e, n) = apply_ops_lem ops k mid end rest l' in
    let up : read k end ≡ last_write k (op ∷ ops) (read k kv) =
      e
      ∙ (ap (last_write k ops) (sym (read-apply_op op k kv mid res l))
          ∙ sym (last_write_step op ops k (read k kv))) in
    let pair : (end, res ∷ rest) ≡ (kv', results) = ok-injective r' in
    (ap (λ x. read k x.0) (sym pair) ∙ up, ap (λ x. length x.1) (sym pair) ∙ omega (arith, n))

-- A command that runs leaves at every key the value of the last write to it, and its result has the
-- command's timestamp and target and one entry for each operation.
pub execute_command_lem :
    (cmd : Command) (kv kv' : Store) (result : CommandResult)
    → execute_command cmd kv ≡ ok (kv', result)
    → ((k : Bytes) → read k kv' ≡ last_write k cmd.ops (read k kv))
      × (length result.op_results ≡ length cmd.ops)
      × (result.timestamp ≡ cmd.timestamp)
      × (result.target ≡ cmd.target)
unfolding execute_command
execute_command_lem cmd kv kv' result h =
    let ((end, results), l, r) = ok_of_bind (apply_ops cmd.ops kv) _ h in
    let pair = ok-injective r in
    (
      (λ k. ap (λ x. read k x.0) (sym pair) ∙ (apply_ops_lem cmd.ops k kv end results l).0),
      ap (λ x. length x.1.op_results) (sym pair) ∙ (apply_ops_lem cmd.ops [] kv end results l).1,
      ap (λ x. x.1.timestamp) (sym pair),
      ap (λ x. x.1.target) (sym pair),
    )
