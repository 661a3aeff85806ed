-- ===== src/MinBft/Entries.antt =====
-- protocols/minbft/instance.go: the instance that a handler works on.
use go_consensus.Base.{
  ℕ, ◌≡◌, refl, ◌∙◌, ◌⊎◌, inl, inr, true, Option, none, arith, lookup, subst, Option-cases, is_some,
  ok, ◌>>=◌, ok_of_bind, eq_bytes_iff, Bytes,
}
use go_consensus.Pbft.Messages.{contents}
use go_consensus.MinBft.Quorum.{NormalMessage, Quorum, log, majority-log_first}
use go_consensus.MinBft.Replica.{Instance, make_instance, MinBft}
use go_consensus.MinBft.Handlers.{
  update_command, update_command_hash, instance_for, instance_for_prepare, log_in, has_majority,
}
use go_consensus.MinBft.Sound.{Certifies, IsSound, AllSound}

-- What an update may change of an instance: a missing command or hash is filled in.
record Refills (inst inst' : Instance) : Type 0 where
  pub slot : inst'.slot ≡ inst.slot
  pub prepared : inst'.prepared ≡ inst.prepared
  pub commit : inst'.commit ≡ inst.commit
  pub executed : inst'.executed ≡ inst.executed
  pub quorum : inst'.quorum ≡ inst.quorum
  pub command : is_some inst.command ≡ true → is_some inst'.command ≡ true
  pub hash : (inst.command_hash ≡ none) ⊎ (inst'.command_hash ≡ inst.command_hash)

-- A hash that is filled in later was empty before.
Certifies-refill :
    (f i : ℕ) (h h' : Option Bytes) (q : Option Quorum)
    → (h ≡ none) ⊎ (h' ≡ h)
    → Certifies f i (contents h) q
    → Certifies f i (contents h') q
Certifies-refill f i h h' q (inl e) c = (c.0, c.1, c.2, inr (ground arith))
Certifies-refill f i h h' q (inr e) c = (c.0, c.1, c.2, ground arith)

Refills-IsSound :
    (f i : ℕ) (inst inst' : Instance) → Refills inst inst' → IsSound f i inst → IsSound f i inst'
Refills-IsSound f i inst inst' r c = record {
  keyed = r.slot ∙ c.keyed;
  holds = λ h. r.command (c.holds (rw (← r.prepared) h));
  prepared = λ h. rw r.prepared (c.prepared (rw (← r.commit) h));
  certified = λ h.
      rw r.quorum
        (Certifies-refill f i inst.command_hash _ _ r.hash (c.certified (rw (← r.commit) h)));
  committed = λ h. rw r.commit (c.committed (rw (← r.executed) h));
}

update_command-Refills :
    (m : NormalMessage) (inst inst' : Instance)
    → update_command m inst ≡ ok inst'
    → Refills inst inst'
unfolding update_command
update_command-Refills m inst inst' h = ground arith

update_command_hash-Refills :
    (m : NormalMessage) (inst inst' : Instance)
    → update_command_hash m inst ≡ ok inst'
    → Refills inst inst'
unfolding update_command_hash
update_command_hash-Refills m inst inst' h = ground arith

update_command-is_some :
    (m : NormalMessage) (inst inst' : Instance)
    → update_command m inst ≡ ok inst'
    → is_some m.command ≡ true
    → is_some inst'.command ≡ true
unfolding update_command
update_command-is_some m inst inst' h = ground arith

update_command_hash_agrees :
    (m : NormalMessage) (inst inst' : Instance)
    → update_command_hash m inst ≡ ok inst'
    → contents inst'.command_hash ≡ contents m.command_hash
unfolding update_command_hash
update_command_hash_agrees m inst inst' h =
    ground (arith, eq_bytes_iff (contents inst.command_hash) (contents m.command_hash))

-- The instance of a message is sound for its slot and agrees with it on the hash.
abbrev pub Entry : ℕ → NormalMessage → Instance → Type 0
Entry f m inst = IsSound f m.order inst × (contents inst.command_hash ≡ contents m.command_hash)

made-Entry : (f : ℕ) (m : NormalMessage) (inst : Instance) → make_instance m ≡ inst → Entry f m inst
unfolding make_instance
made-Entry f m inst e = subst (Entry f m) e (
  record {
    keyed = refl;
    holds = λ h. absurd (ground arith);
    prepared = λ h. absurd (ground arith);
    certified = λ h. absurd (ground arith);
    committed = λ h. absurd (ground arith);
  },
  refl,
)

refilled-Entry :
    (f : ℕ) (m : NormalMessage) (old inst : Instance)
    → IsSound f m.order old
    → update_command_hash m old ≡ ok inst
    → Entry f m inst
refilled-Entry f m old inst c u = (
  Refills-IsSound f m.order old inst (update_command_hash-Refills m old inst u) c,
  update_command_hash_agrees m old inst u,
)

pub instance_for-Entry :
    (m : NormalMessage) (p : MinBft) (inst : Instance)
    → AllSound p
    → instance_for m p ≡ ok inst
    → Entry p.f m inst
unfolding instance_for
instance_for-Entry m p inst a h = elim (Option-cases (lookup m.order p.log)) [
  | inl e ↦ made-Entry p.f m inst (ground arith)
  | inr (old, e) ↦ refilled-Entry p.f m old inst (a m.order old e) (ground arith)
]

-- The instance of a Prepare that brings a command has one too.
pub instance_for_prepare-Entry :
    (m : NormalMessage) (p : MinBft) (inst : Instance)
    → AllSound p
    → is_some m.command ≡ true
    → instance_for_prepare m p ≡ ok inst
    → Entry p.f m inst × (is_some inst.command ≡ true)
unfolding instance_for_prepare make_instance
instance_for_prepare-Entry m p inst a s h = elim (Option-cases (lookup m.order p.log)) [
  | inl e ↦ (made-Entry p.f m inst (ground arith), ground arith)
  | inr (old, e) ↦
      let both : (update_command m old >>= update_command_hash m) ≡ ok inst = ground arith in
      let (mid, u, v) = ok_of_bind (update_command m old) (update_command_hash m) both in
      (
        refilled-Entry p.f m mid inst
            (Refills-IsSound p.f m.order old mid (update_command-Refills m old mid u)
              (a m.order old e))
            v,
        (update_command_hash-Refills m mid inst v).command (update_command-is_some m old mid u s),
      )
]

has_majority-log_first_in :
    (f id : ℕ) (m o : NormalMessage) (inst inst' : Instance)
    → log_in id o inst ≡ ok inst'
    → has_majority f m inst.quorum ≡ true
    → has_majority f m inst'.quorum ≡ true
unfolding log_in
has_majority-log_first_in f id m o inst inst' h t = elim (Option-cases inst.quorum) [
  | inl n ↦ absurd (ground arith)
  | inr (q, e) ↦
      let (q', l, r) = ok_of_bind (log id o q) _ (rw (e, log_in) at h) in
      ground (arith, majority-log_first f id m o q q' l)
]

-- Logging changes the quorum alone.
pub log_in-keeps :
    (id : ℕ) (m : NormalMessage) (inst inst' : Instance)
    → log_in id m inst ≡ ok inst'
    → inst' ≡ record inst { quorum = inst'.quorum }
unfolding log_in
log_in-keeps id m inst inst' h = elim (Option-cases inst.quorum) [
  | inl n ↦ absurd (ground arith)
  | inr (q, e) ↦ let (q', l, r) = ok_of_bind (log id m q) _ (rw (e, log_in) at h) in ground arith
]

pub log_in-IsSound :
    (f i id : ℕ) (m : NormalMessage) (inst inst' : Instance)
    → log_in id m inst ≡ ok inst'
    → IsSound f i inst
    → IsSound f i inst'
log_in-IsSound f i id m inst inst' h c =
    let kept = log_in-keeps id m inst inst' h in
    rw kept (record {
      keyed = c.keyed;
      holds = c.holds;
      prepared = c.prepared;
      certified = λ e.
          let w = c.certified e in
          (w.0, has_majority-log_first_in f id w.0 m inst inst' h w.1, w.2, w.3);
      committed = c.committed;
    })
