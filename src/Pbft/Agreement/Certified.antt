-- ===== src/Pbft/Agreement/Certified.antt =====
-- protocols/pbft/instance.go: the certificates of an instance, and its updates.
use go_consensus.Base.{
  ℕ, ◌≤◌, ◌≡◌, refl, ◌∙◌, ◌⊎◌, inl, inr, [], true, Option, none, some, arith, lookup, subst,
  Option-cases, ok, ◌>>=◌, ok_of_bind, eq_bytes_iff, Bytes,
}
use go_consensus.Pbft.Messages.{
  pre_prepared, prepared, committed, rank, AgreementMessage, contents, is_prepared,
}
use go_consensus.Pbft.Quorum.{Quorum, log, majority}
use go_consensus.Pbft.Quorum.Senders.{IsQuorum, new_quorum-IsQuorum}
use go_consensus.Pbft.Quorum.Certificates.{log-IsQuorum, majority-log}
use go_consensus.Pbft.Replica.{Instance, make_instance, Pbft}
use go_consensus.Pbft.Agreement.{
  set_status, update_command, update_command_hash, instance_for, instance_for_pre_prepare,
}

-- A quorum certifies an index and a hash: some message for the index has a majority, with this
-- hash or with none.
abbrev pub Certifies : ℕ → ℕ → Bytes → Quorum → Type 0
Certifies f i h q =
    (m : AgreementMessage) × (majority f m q ≡ true)
    × (m.index ≡ i)
    × ((contents m.command_hash ≡ h) ⊎ (contents m.command_hash ≡ []))

pub record IsCertified (f i : ℕ) (inst : Instance) : Type 0 where
  pub keyed : inst.is.index ≡ i
  pub prepares : IsQuorum inst.p_cert
  pub commits : IsQuorum inst.c_cert
  pub prepared_by :
      2 ≤ rank inst.is.status → Certifies f i (contents inst.is.command_hash) inst.p_cert
  pub committed_by :
      3 ≤ rank inst.is.status → Certifies f i (contents inst.is.command_hash) inst.c_cert

-- Every instance of the log is certified as far as its status says.
abbrev pub AllCertified : Pbft → Type 0
AllCertified p = (i : ℕ) (inst : Instance) → lookup i p.log ≡ some inst → IsCertified p.f i inst

make_instance-IsCertified : (f : ℕ) (m : AgreementMessage) → IsCertified f m.index (make_instance m)
unfolding make_instance
make_instance-IsCertified f m = record {
  keyed = refl;
  prepares = new_quorum-IsQuorum;
  commits = new_quorum-IsQuorum;
  prepared_by = λ h. absurd (omega arith);
  committed_by = λ h. absurd (omega arith);
}

-- A hash that is filled in later was empty before.
Certifies-refill :
    (f i : ℕ) (h h' : Option Bytes) (q : Quorum)
    → (h ≡ none) ⊎ (h' ≡ h)
    → Certifies f i (contents h) q
    → Certifies f i (contents h') q
Certifies-refill f i h h' q (inl e) c = (c.0, c.1, c.2, inr (ground arith))
Certifies-refill f i h h' q (inr e) c = (c.0, c.1, c.2, ground arith)

-- What an update may change of an instance: a missing command or hash is filled in.
pub record Refills (inst inst' : Instance) : Type 0 where
  pub index : inst'.is.index ≡ inst.is.index
  pub status : inst'.is.status ≡ inst.is.status
  pub p_cert : inst'.p_cert ≡ inst.p_cert
  pub c_cert : inst'.c_cert ≡ inst.c_cert
  pub hash : (inst.is.command_hash ≡ none) ⊎ (inst'.is.command_hash ≡ inst.is.command_hash)

Refills-IsCertified :
    (f i : ℕ) (inst inst' : Instance)
    → Refills inst inst'
    → IsCertified f i inst
    → IsCertified f i inst'
Refills-IsCertified f i inst inst' r c = record {
  keyed = r.index ∙ c.keyed;
  prepares = rw r.p_cert c.prepares;
  commits = rw r.c_cert c.commits;
  prepared_by = λ h.
      rw r.p_cert
        (Certifies-refill f i inst.is.command_hash _ _ r.hash (c.prepared_by (rw (← r.status) h)));
  committed_by = λ h.
      rw r.c_cert
        (Certifies-refill f i inst.is.command_hash _ _ r.hash (c.committed_by (rw (← r.status) h)));
}

update_command-Refills :
    (m : AgreementMessage) (inst inst' : Instance)
    → update_command m inst ≡ ok inst'
    → Refills inst inst'
unfolding update_command
update_command-Refills inst inst' h = ground arith

update_command_hash-Refills :
    (m : AgreementMessage) (inst inst' : Instance)
    → update_command_hash m inst ≡ ok inst'
    → Refills inst inst'
unfolding update_command_hash
update_command_hash-Refills inst inst' h = ground arith

update_command_hash_agrees :
    (m : AgreementMessage) (inst inst' : Instance)
    → update_command_hash m inst ≡ ok inst'
    → contents inst'.is.command_hash ≡ contents m.command_hash
unfolding update_command_hash
update_command_hash_agrees m inst inst' h =
    ground (arith, eq_bytes_iff (contents inst.is.command_hash) (contents m.command_hash))

-- The entry that a handler works on is certified and agrees with the message on the hash.
abbrev pub Entry : ℕ → AgreementMessage → Instance → Type 0
Entry f m inst =
    IsCertified f m.index inst × (contents inst.is.command_hash ≡ contents m.command_hash)

made-Entry :
    (f : ℕ) (m : AgreementMessage) (inst : Instance) → make_instance m ≡ inst → Entry f m inst
unfolding make_instance
made-Entry f m inst e = subst (Entry f m) e (make_instance-IsCertified f m, refl)

refilled-Entry :
    (f : ℕ) (m : AgreementMessage) (old inst : Instance)
    → IsCertified f m.index old
    → update_command_hash m old ≡ ok inst
    → Entry f m inst
refilled-Entry f m old inst c u = (
  Refills-IsCertified f m.index old inst (update_command_hash-Refills m old inst u) c,
  update_command_hash_agrees m old inst u,
)

pub instance_for-Entry :
    (m : AgreementMessage) (p : Pbft) (inst : Instance)
    → AllCertified p
    → instance_for m p ≡ ok inst
    → Entry p.f m inst
unfolding instance_for
instance_for-Entry m p inst a h = elim (Option-cases (lookup m.index p.log)) [
  | inl e ↦ made-Entry p.f m inst (ground arith)
  | inr (old, e) ↦ refilled-Entry p.f m old inst (a m.index old e) (ground arith)
]

pub instance_for_pre_prepare-Entry :
    (m : AgreementMessage) (p : Pbft) (inst : Instance)
    → AllCertified p
    → instance_for_pre_prepare m p ≡ ok inst
    → Entry p.f m inst
unfolding instance_for_pre_prepare
instance_for_pre_prepare-Entry m p inst a h = elim (Option-cases (lookup m.index p.log)) [
  | inl e ↦ made-Entry p.f m inst (ground arith)
  | inr (old, e) ↦
      let both : (update_command m old >>= update_command_hash m) ≡ ok inst = ground arith in
      let (mid, u, v) = ok_of_bind (update_command m old) (update_command_hash m) both in
      refilled-Entry p.f m mid inst
        (Refills-IsCertified p.f m.index old mid (update_command-Refills m old mid u)
          (a m.index old e))
        v
]

Certifies-log :
    (f i id : ℕ) (h : Bytes) (m : AgreementMessage) (q q' : Quorum)
    → IsQuorum q
    → log id m q ≡ ok q'
    → Certifies f i h q
    → Certifies f i h q'
Certifies-log f i id h m q q' w e c = (c.0, majority-log f id c.0 m q q' w e c.1, c.2, c.3)

pub log_prepare-IsCertified :
    (f i id : ℕ) (m : AgreementMessage) (inst : Instance) (c : Quorum)
    → IsCertified f i inst
    → log id m inst.p_cert ≡ ok c
    → IsCertified f i (record inst { p_cert = c })
log_prepare-IsCertified f i id m inst c w e = record {
  keyed = w.keyed;
  prepares = log-IsQuorum id m inst.p_cert c w.prepares e;
  commits = w.commits;
  prepared_by = λ h. Certifies-log f i id _ m inst.p_cert c w.prepares e (w.prepared_by h);
  committed_by = w.committed_by;
}

pub log_commit-IsCertified :
    (f i id : ℕ) (m : AgreementMessage) (inst : Instance) (c : Quorum)
    → IsCertified f i inst
    → log id m inst.c_cert ≡ ok c
    → IsCertified f i (record inst { c_cert = c })
log_commit-IsCertified f i id m inst c w e = record {
  keyed = w.keyed;
  prepares = w.prepares;
  commits = log-IsQuorum id m inst.c_cert c w.commits e;
  prepared_by = w.prepared_by;
  committed_by = λ h. Certifies-log f i id _ m inst.c_cert c w.commits e (w.committed_by h);
}

pub pre_prepared-IsCertified :
    (f i : ℕ) (inst : Instance)
    → IsCertified f i inst
    → IsCertified f i (set_status pre_prepared inst)
pre_prepared-IsCertified f i inst w = record {
  keyed = w.keyed;
  prepares = w.prepares;
  commits = w.commits;
  prepared_by = λ h. absurd (omega arith);
  committed_by = λ h. absurd (omega arith);
}

pub prepared-IsCertified :
    (f i : ℕ) (inst : Instance)
    → IsCertified f i inst
    → Certifies f i (contents inst.is.command_hash) inst.p_cert
    → IsCertified f i (set_status prepared inst)
prepared-IsCertified f i inst w c = record {
  keyed = w.keyed;
  prepares = w.prepares;
  commits = w.commits;
  prepared_by = λ h. c;
  committed_by = λ h. absurd (omega arith);
}

pub committed-IsCertified :
    (f i : ℕ) (inst : Instance)
    → IsCertified f i inst
    → is_prepared inst.is ≡ true
    → Certifies f i (contents inst.is.command_hash) inst.c_cert
    → IsCertified f i (set_status committed inst)
committed-IsCertified f i inst w r c = record {
  keyed = w.keyed;
  prepares = w.prepares;
  commits = w.commits;
  prepared_by = λ h. w.prepared_by (ground arith);
  committed_by = λ h. c;
}
