-- ===== src/ChainHotstuff/Ancestors.antt =====
-- protocols/chainhotstuff/block.go: the walks along the parents, of `commit` and of the safety test.
use go_consensus.Base.{
  ℕ, zero, suc, ◌≤◌, ◌<◌, ◌≡◌, ◌≢◌, refl, sym, ap, ◌∙◌, inl, inr, List, [], ◌∷◌, ◌++◌, Bool, false,
  Option, none, some, arith, ltb, if◌then◌else◌, length, Bytes, ByteMap, read, ok, Bool-cases,
  Option-cases, ltb→lt,
}
use mathlib.Core.List.{append-nil, append_assoc}
use go_consensus.Command.{Command}
use go_consensus.ChainHotstuff.Blocks.{QuorumCert, BlockState}
use go_consensus.ChainHotstuff.Signer.{Env}
use go_consensus.ChainHotstuff.Replica.{
  ChainHotstuff, parent_of, Walk, lost, endless, found, walk, is_lock, extends_lock, execute,
  execute_if, execute_block, commit_from, commit,
}

-- A stored block is younger than its stored parent: the parents of a block form no cycle.
abbrev pub NoCycle : (BlockState → ℕ) → ByteMap BlockState → Type 0
NoCycle age blocks =
    (k : Bytes) (blk parent : BlockState)
    → read k blocks ≡ some blk
    → parent_of blk blocks ≡ some parent
    → age parent < age blk

module _ (age : BlockState → ℕ) where
  -- How many stored blocks are below an age.
  below : ℕ → ByteMap BlockState → ℕ
  below n [] = 0
  below n ((k, blk) ∷ blocks) =
      let rest = below n blocks in if ltb (age blk) n then suc rest else rest

  below_mono : (m n : ℕ) (blocks : ByteMap BlockState) → m ≤ n → below m blocks ≤ below n blocks
  unfolding below
  below_mono m n [] h = omega arith
  below_mono m n ((k, blk) ∷ blocks) h = ground (arith, below_mono m n blocks)

  below-length : (n : ℕ) (blocks : ByteMap BlockState) → below n blocks ≤ length blocks
  unfolding below
  below-length n [] = omega arith
  below-length n ((k, blk) ∷ blocks) = ground (arith, below-length n blocks)

  below_lt :
      (k : Bytes) (blk : BlockState) (n : ℕ) (blocks : ByteMap BlockState)
      → read k blocks ≡ some blk
      → age blk < n
      → below (age blk) blocks < below n blocks
  unfolding below read
  below_lt k blk n [] h l = cc
  below_lt k blk n ((j, x) ∷ blocks) h l =
      ground (arith, below_lt k blk n blocks, below_mono (age blk) n blocks)

  below_stored :
      (k : Bytes) (blk : BlockState) (blocks : ByteMap BlockState)
      → read k blocks ≡ some blk
      → below (age blk) blocks < length blocks
  unfolding below read
  below_stored k blk [] h = cc
  below_stored k blk ((j, x) ∷ blocks) h =
      ground (arith, below_stored k blk blocks, below-length (age blk) blocks)

  parent_stored :
      (blk parent : BlockState) (blocks : ByteMap BlockState)
      → parent_of blk blocks ≡ some parent
      → (k : Bytes) × (read k blocks ≡ some parent)
  unfolding parent_of
  parent_stored blk parent blocks h = (_, h)

  -- From a stored block the walk ends within the number of the blocks that are older.
  walk_stored :
      (n height : ℕ) (blocks : ByteMap BlockState) (k : Bytes) (blk : BlockState)
      → NoCycle age blocks
      → read k blocks ≡ some blk
      → below (age blk) blocks < n
      → walk n height blocks blk ≢ endless
  unfolding walk
  walk_stored zero height blocks k blk c s h e = absurd (omega arith)
  walk_stored (suc n) height blocks k blk c s h e = elim (Bool-cases (ltb height blk.height)) [
    | inr l ↦ cc (rw (l, walk) at e)
    | inl l ↦ elim (Option-cases (parent_of blk blocks)) [
      | inl p ↦ cc (rw (l, p, walk) at e)
      | inr (parent, p) ↦
          let (j, t) = parent_stored blk parent blocks p in
          walk_stored n height blocks j parent c t
            (omega (arith, below_lt j parent (age blk) blocks t (c k blk parent s p)))
            (rw (l, p, walk) at e)
    ]
  ]

  walk_any :
      (height : ℕ) (blocks : ByteMap BlockState) (blk : BlockState)
      → NoCycle age blocks
      → walk (suc (length blocks)) height blocks blk ≢ endless
  unfolding walk
  walk_any height blocks blk c e = elim (Bool-cases (ltb height blk.height)) [
    | inr l ↦ cc (rw (l, walk) at e)
    | inl l ↦ elim (Option-cases (parent_of blk blocks)) [
      | inl p ↦ cc (rw (l, p, walk) at e)
      | inr (parent, p) ↦
          let (j, t) = parent_stored blk parent blocks p in
          walk_stored (length blocks) height blocks j parent c t (below_stored j parent blocks t)
            (rw (l, p, walk) at e)
    ]
  ]

-- The stored ancestors of a block that are above a height, the oldest first, and the block itself.
pub data Lineage (blocks : ByteMap BlockState) (height : ℕ)
    : BlockState → List BlockState → Type 0 where
  done : {blk : BlockState} → blk.height ≤ height → Lineage blocks height blk []
  root :
      {blk : BlockState}
      → height < blk.height
      → parent_of blk blocks ≡ none
      → Lineage blocks height blk (blk ∷ [])
  child :
      {blk parent : BlockState} {line line' : List BlockState}
      → height < blk.height
      → parent_of blk blocks ≡ some parent
      → Lineage blocks height parent line
      → line' ≡ line ++ blk ∷ []
      → Lineage blocks height blk line'

-- The command of a block that has a certificate and a command.
abbrev pub command_if : Option QuorumCert → Option Command → List Command
command_if none cmd = []
command_if (some qc) none = []
command_if (some qc) (some cmd) = cmd ∷ []

abbrev pub command_of : BlockState → List Command
command_of blk = command_if blk.q_c blk.command

abbrev pub commands : List BlockState → List Command
commands [] = []
commands (blk ∷ line) = command_of blk ++ commands line

commands-append : (a b : List BlockState) → commands (a ++ b) ≡ commands a ++ commands b
commands-append [] b = refl
commands-append (blk ∷ a) b =
    ap (λ l. command_of blk ++ l) (commands-append a b)
    ∙ sym (append_assoc (command_of blk) (commands a) (commands b))

commands-concat :
    (line : List BlockState) (blk : BlockState)
    → commands (line ++ blk ∷ []) ≡ commands line ++ command_of blk
commands-concat line blk =
    commands-append line (blk ∷ []) ∙ ap (λ l. commands line ++ l) (append-nil (command_of blk))

abbrev pub with_output : List Command → ChainHotstuff → ChainHotstuff
with_output cmds hs = record hs { committed_cmds = hs.committed_cmds ++ cmds }

execute_if_lem :
    (qc : Option QuorumCert) (cmd : Option Command) (hs : ChainHotstuff)
    → execute_if qc cmd hs ≡ with_output (command_if qc cmd) hs
unfolding execute_if execute
execute_if_lem none cmd hs =
    ap (λ l. record hs { committed_cmds = l }) (sym (append-nil hs.committed_cmds))
execute_if_lem (some qc) none hs =
    ap (λ l. record hs { committed_cmds = l }) (sym (append-nil hs.committed_cmds))
execute_if_lem (some qc) (some cmd) hs = refl

execute_block_lem :
    (blk : BlockState) (hs : ChainHotstuff) → execute_block blk hs ≡ with_output (command_of blk) hs
unfolding execute_block
execute_block_lem blk hs = execute_if_lem blk.q_c blk.command hs

-- `commit` adds the commands of the ancestors to the output, and changes nothing else.
Commits : ℕ → BlockState → ChainHotstuff → Type 0
Commits n blk hs =
    (line : List BlockState) × Lineage hs.blocks hs.b_exec.height blk line
    × (commit_from n blk hs ≡ ok (with_output (commands line) hs))

commit_step :
    (n : ℕ) (blk : BlockState) (hs : ChainHotstuff)
    → ((parent : BlockState) → parent_of blk hs.blocks ≡ some parent → Commits n parent hs)
    → Commits (suc n) blk hs
unfolding commit_from Commits
commit_step n blk hs below_it = elim (Bool-cases (ltb hs.b_exec.height blk.height)) [
  | inr l ↦ (
    [],
    done (ground arith),
    rw (l, commit_from)
        (ap (λ l. ok (record hs { committed_cmds = l })) (sym (append-nil hs.committed_cmds))),
  )
  | inl l ↦ elim (Option-cases (parent_of blk hs.blocks)) [
    | inl p ↦ (
      blk ∷ [],
      root (ltb→lt _ _ l) p,
      rw (l, p, commit_from)
          (ap ok (execute_block_lem blk hs)
            ∙ ap (λ l. ok (with_output l hs)) (sym (append-nil (command_of blk)))),
    )
    | inr (parent, p) ↦
        let (line, a, e) = below_it parent p in
        (
          line ++ blk ∷ [],
          child (ltb→lt _ _ l) p a refl,
          rw (l, p, e, commit_from)
              (ap ok (
                execute_block_lem blk (with_output (commands line) hs)
                ∙ ap (λ l. record hs { committed_cmds = l })
                    (append_assoc hs.committed_cmds (commands line) (command_of blk)
                      ∙ ap (λ l. hs.committed_cmds ++ l) (sym (commands-concat line blk))))),
        )
  ]
]

is_lock-ok :
    (env : Env) (b_lock : BlockState) (w : Walk)
    → w ≢ endless
    → (b : Bool) × (is_lock env b_lock w ≡ ok b)
unfolding is_lock
is_lock-ok env b_lock lost h = (false, refl)
is_lock-ok env b_lock endless h = absurd (h refl)
is_lock-ok env b_lock (found b) h = (_, refl)

module _ (age : BlockState → ℕ) where
  commit_stored :
      (n : ℕ) (k : Bytes) (blk : BlockState) (hs : ChainHotstuff)
      → NoCycle age hs.blocks
      → read k hs.blocks ≡ some blk
      → below age (age blk) hs.blocks < n
      → Commits n blk hs
  commit_stored zero k blk hs c s h = absurd (omega arith)
  commit_stored (suc n) k blk hs c s h = commit_step n blk hs (λ parent p.
      let (j, t) = parent_stored age blk parent hs.blocks p in
      commit_stored n j parent hs c t
        (omega (arith, below_lt age j parent (age blk) hs.blocks t (c k blk parent s p))))

  -- In a store whose parents form no cycle, `commit` ends within its fuel, and appends to the output
  -- the commands of the stored ancestors of the block above the height of the last executed block and
  -- of the block itself, the oldest first, those without a certificate or a command left out; nothing
  -- else changes.
  pub commit-Lineage :
      (blk : BlockState) (hs : ChainHotstuff)
      → NoCycle age hs.blocks
      → (line : List BlockState) × Lineage hs.blocks hs.b_exec.height blk line
        × (commit blk hs ≡ ok (record hs { committed_cmds = hs.committed_cmds ++ commands line }))
  unfolding commit Commits
  commit-Lineage blk hs c =
      (commit_step (length hs.blocks) blk hs (λ parent p.
        let (j, t) = parent_stored age blk parent hs.blocks p in
        commit_stored (length hs.blocks) j parent hs c t (below_stored age j parent hs.blocks t)))

  -- In such a store the safety test of a proposal ends within its fuel.
  pub extends_lock-ok :
      (env : Env) (blk : BlockState) (hs : ChainHotstuff)
      → NoCycle age hs.blocks
      → (b : Bool) × (extends_lock env blk hs ≡ ok b)
  unfolding extends_lock
  extends_lock-ok env blk hs c =
      is_lock-ok env hs.b_lock (walk (suc (length hs.blocks)) hs.b_lock.height hs.blocks blk)
        (walk_any age hs.b_lock.height hs.blocks blk c)
