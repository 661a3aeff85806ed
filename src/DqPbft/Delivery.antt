-- ===== src/DqPbft/Delivery.antt =====
-- protocols/dqpbft/exec.go: what exec delivers, and in which order.
use go_consensus.Base.{
  ℕ, suc, ◌≤◌, ◌≡◌, refl, sym, ap, subst, ◌∙◌, inl, inr, List, [], ◌∷◌, ◌++◌, Bool, true, false,
  ◌&&◌, Option, none, some, is_some, arith, if◌then◌else◌, inc64, length, all, map, Map, lookup,
  insert, Bool-cases, Option-cases, ok,
}
use mathlib.Core.List.{append-nil, append_assoc}
use go_consensus.Command.{Command}
use go_consensus.DqPbft.Messages.{InstanceId, is_committed, equals_id}
use go_consensus.DqPbft.Replica.{
  IdMap, find_id, put_id, Instance, OInstance, DqPbft, is_deliverable, count_at, next_ready,
  delivered, deliver_one, deliver_each, enqueue_for_delivery, set_instance,
}

pub find_id-put_id :
    {V : Type 0} (k j : InstanceId) (new : V) (entries : IdMap V)
    → find_id j (put_id k new entries) ≡ (if equals_id k j then some new else find_id j entries)
unfolding find_id put_id equals_id
find_id-put_id k j new [] = refl
find_id-put_id k j new ((key, x) ∷ entries) = ground (arith, find_id-put_id k j new entries)

-- The o-instances that are committed and wait for exec.
pub waiting : Map OInstance → ℕ
unfolding is_committed
waiting [] = 0
waiting ((i, o) ∷ m) = let rest = waiting m in if is_committed o.is.status then suc rest else rest

pub waiting-le : (m : Map OInstance) → waiting m ≤ length m
unfolding waiting
waiting-le [] = omega arith
waiting-le ((i, o) ∷ m) = ground (arith, waiting-le m)

pub waiting-insert :
    (i : ℕ) (old done : OInstance) (m : Map OInstance)
    → lookup i m ≡ some old
    → is_committed old.is.status ≡ true
    → is_committed done.is.status ≡ false
    → suc (waiting (insert i done m)) ≡ waiting m
unfolding waiting lookup insert
waiting-insert i old done [] h c e = cc
waiting-insert i old done ((j, x) ∷ m) h c e = ground (arith, waiting-insert i old done m)

-- What next_ready finds.
pub record IsNext (d : DqPbft) (o : OInstance) : Type 0 where
  pub found : lookup d.next_o_deliver_index d.olog ≡ some o
  pub committed : is_committed o.is.status ≡ true
  pub complete : all (λ id. is_deliverable (find_id id d.log)) o.is.instances ≡ true

pub next_ready-IsNext : (d : DqPbft) (o : OInstance) → next_ready d ≡ some o → IsNext d o
unfolding next_ready
next_ready-IsNext d o h = elim (Option-cases (lookup d.next_o_deliver_index d.olog)) [
  | inl n ↦ cc (rw (n, next_ready) at h)
  | inr (x, s) ↦
      elim (Bool-cases (
        is_committed x.is.status && all (λ id. is_deliverable (find_id id d.log)) x.is.instances)) [
          | inr n ↦ cc (rw (s, n, next_ready) at h)
          | inl y ↦
              subst (IsNext d) (cc (rw (s, y, next_ready) at h))
                (record { found = s; committed = ground arith; complete = ground arith })
        ]
]

-- The command of an instance that is committed.
abbrev pub ready_command : Option Instance → Option Command
ready_command none = none
ready_command (some inst) = if is_committed inst.is.status then inst.is.command else none

abbrev pub ready_at : InstanceId → IdMap Instance → Option Command
ready_at id log = ready_command (find_id id log)

is_deliverable_lem : (o : Option Instance) → is_deliverable o ≡ is_some (ready_command o)
unfolding is_deliverable
is_deliverable_lem none = refl
is_deliverable_lem (some inst) = ground arith

abbrev pub mem_id : InstanceId → List InstanceId → Bool
mem_id j [] = false
mem_id j (id ∷ ids) = if equals_id id j then true else mem_id j ids

-- No instance is named twice.
abbrev pub DistinctIds : List InstanceId → Type 0
DistinctIds [] = Unit {0}
DistinctIds (id ∷ ids) = (mem_id id ids ≡ false) × DistinctIds ids

-- `d'` is `d` with the commands `cmds` of the instances `ids` delivered.
pub record Delivered (ids : List InstanceId) (cmds : List Command) (d d' : DqPbft) : Type 0 where
  pub commands : map (λ id. ready_at id d.log) ids ≡ map some cmds
  pub output : d'.to_deliver ≡ d.to_deliver ++ cmds
  pub taken :
      (j : InstanceId) → ready_at j d'.log ≡ (if mem_id j ids then none else ready_at j d.log)
  pub order : d'.olog ≡ d.olog
  pub next : d'.next_o_deliver_index ≡ d.next_o_deliver_index

-- The state after a delivery.
unfoldable pub after_one : InstanceId → Instance → Command → DqPbft → DqPbft
unfolding set_instance enqueue_for_delivery count_at
after_one id inst cmd d = record (set_instance id (delivered inst) (enqueue_for_delivery cmd d)) {
  next_deliver_index =
      insert id.replica_id (inc64 (count_at id.replica_id d.next_deliver_index))
        d.next_deliver_index;
}

after_one-Delivered :
    (id : InstanceId) (inst : Instance) (cmd : Command) (d : DqPbft)
    → find_id id d.log ≡ some inst
    → is_committed inst.is.status ≡ true
    → inst.is.command ≡ some cmd
    → Delivered (id ∷ []) (cmd ∷ []) d (after_one id inst cmd d)
unfolding after_one is_committed
after_one-Delivered id inst cmd d s h c = record {
  commands = ap (λ o. ready_command o ∷ []) s ∙ rw (h, c);
  output = refl;
  taken = λ j. ap ready_command (find_id-put_id id j (delivered inst) d.log) ∙ ground arith;
  order = refl;
  next = refl;
}

deliver_one-Delivered :
    (id : InstanceId) (d : DqPbft)
    → is_deliverable (find_id id d.log) ≡ true
    → (cmd : Command) × (d' : DqPbft) × (deliver_one id d ≡ ok d')
      × Delivered (id ∷ []) (cmd ∷ []) d d'
unfolding deliver_one after_one is_deliverable
deliver_one-Delivered id d h = elim (Option-cases (find_id id d.log)) [
  | inl n ↦ cc (rw n at h)
  | inr (inst, s) ↦
      let good : is_committed inst.is.status && is_some inst.is.command ≡ true = rw s at h in
      elim (Option-cases inst.is.command) [
        | inl n ↦ absurd (ground arith)
        | inr (cmd, c) ↦ (
          cmd,
          after_one id inst cmd d,
          rw (s, c, deliver_one),
          after_one-Delivered id inst cmd d s (ground arith) c,
        )
      ]
]

pub equals_id_comm : (a b : InstanceId) → equals_id a b ≡ equals_id b a
unfolding equals_id
equals_id_comm a b = ground arith

-- A command that is delivered is not that of another instance.
untouched :
    (id : InstanceId) (cmd : Command) (j : InstanceId) (d d1 : DqPbft)
    → Delivered (id ∷ []) (cmd ∷ []) d d1
    → equals_id j id ≡ false
    → ready_at j d1.log ≡ ready_at j d.log
untouched id cmd j d d1 a n = a.taken j ∙ rw (equals_id_comm id j ∙ n) refl

-- The instances that follow stay deliverable if they are other ones.
still_deliverable :
    (id : InstanceId) (cmd : Command) (ids : List InstanceId) (d d1 : DqPbft)
    → Delivered (id ∷ []) (cmd ∷ []) d d1
    → mem_id id ids ≡ false
    → all (λ j. is_deliverable (find_id j d.log)) ids ≡ true
    → all (λ j. is_deliverable (find_id j d1.log)) ids ≡ true
still_deliverable id cmd [] d d1 a n h = refl
still_deliverable id cmd (j ∷ ids) d d1 a n h = ground (
  arith,
  still_deliverable id cmd ids d d1 a,
  is_deliverable_lem (find_id j d.log),
  is_deliverable_lem (find_id j d1.log),
  untouched id cmd j d d1 a,
)

same_commands :
    (id : InstanceId) (cmd : Command) (ids : List InstanceId) (d d1 : DqPbft)
    → Delivered (id ∷ []) (cmd ∷ []) d d1
    → mem_id id ids ≡ false
    → map (λ j. ready_at j d1.log) ids ≡ map (λ j. ready_at j d.log) ids
same_commands id cmd [] d d1 a n = refl
same_commands id cmd (j ∷ ids) d d1 a n =
    cc (untouched id cmd j d d1 a (ground arith), same_commands id cmd ids d d1 a (ground arith))

pub deliver_each-Delivered :
    (ids : List InstanceId) (d : DqPbft)
    → DistinctIds ids
    → all (λ id. is_deliverable (find_id id d.log)) ids ≡ true
    → (cmds : List Command) × (d' : DqPbft) × (deliver_each ids d ≡ ok d') × Delivered ids cmds d d'
unfolding deliver_each
deliver_each-Delivered [] d t h = (
  [],
  d,
  refl,
  record {
    commands = refl;
    output = sym (append-nil d.to_deliver);
    taken = λ j. refl;
    order = refl;
    next = refl;
  },
)
deliver_each-Delivered (id ∷ ids) d t h =
    let (cmd, d1, e, a) = deliver_one-Delivered id d (ground arith) in
    let (cmds, d', e', b) =
      deliver_each-Delivered ids d1 t.1 (still_deliverable id cmd ids d d1 a t.0 (ground arith)) in
    (
      cmd ∷ cmds,
      d',
      rw e e',
      record {
        commands =
            ap (λ l. l ++ map (λ j. ready_at j d.log) ids) a.commands
            ∙ ap (λ l. some cmd ∷ l) (sym (same_commands id cmd ids d d1 a t.0) ∙ b.commands);
        output =
            b.output ∙ ap (λ l. l ++ cmds) a.output ∙ append_assoc d.to_deliver (cmd ∷ []) cmds;
        taken = λ j. b.taken j ∙ ground (arith, a.taken j);
        order = b.order ∙ a.order;
        next = b.next ∙ a.next;
      },
    )
