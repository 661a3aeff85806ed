-- ===== src/Tests/Certificates.antt =====
-- Quorum certificates of ChainHotstuff at a concrete block, signed by two replicas.
use go_consensus.Base.{
  ℕ, ◌≡◌, refl, List, [], ◌∷◌, true, false, none, some, arith, ok, Bytes, All, all, map, Distinct,
  eq_bytes, lookup, insert, values,
}
use go_consensus.ChainHotstuff.Blocks.{
  Signature, QuorumCert, BlockState, VoteMessage, genesis, array,
}
use go_consensus.ChainHotstuff.Signer.{
  Env, collect_sigs, create_quorum_cert, verify_quorum_cert, verify_quorum_cert_lem, batch,
  verify_quorum_cert-create_quorum_cert, signers, create_quorum_cert-Distinct,
}

program : Unit {0}
unfolding genesis array collect_sigs create_quorum_cert verify_quorum_cert batch eq_bytes lookup
    insert values
program = tt

-- The hash is the height; a signature is the hash that it signs.
abbrev env : Env
env = record {
  hash = λ b. b.height ∷ [];
  sign = λ hash. some hash;
  verify = λ hash sig. eq_bytes hash sig;
  verify_batch = λ jobs. some (
    all (λ (j : Bytes × Bytes). eq_bytes j.0 j.1) jobs,
    map (λ (j : Bytes × Bytes). eq_bytes j.0 j.1) jobs,
  );
}

abbrev block : BlockState
block = record { parent = 0 ∷ []; command = none; height = 5; q_c = none; proposer = 1 }

abbrev signed_by : ℕ → Signature
signed_by i = record { sig = 5 ∷ []; signer = i }

abbrev votes : List VoteMessage
votes =
    record { block_hash = 5 ∷ []; signature = some (signed_by 0) }
    ∷ record { block_hash = 5 ∷ []; signature = some (signed_by 2) }
    ∷ []

abbrev qc : QuorumCert
qc = record { sigs = (0, signed_by 0) ∷ (2, signed_by 2) ∷ []; block_hash = 5 ∷ [] }

verify_quorum_cert_lem_example : verify_quorum_cert env 3 (some qc) ≡ ok false
unfolding program
verify_quorum_cert_lem_example = verify_quorum_cert_lem env 3 qc (λ jobs. refl) refl

verify_quorum_cert-create_quorum_cert_example : verify_quorum_cert env 2 (some qc) ≡ ok true
unfolding program
verify_quorum_cert-create_quorum_cert_example =
    verify_quorum_cert-create_quorum_cert env 2 block votes qc (λ jobs. refl)
      ((signed_by 0, refl, refl), ((signed_by 2, refl, refl), tt)) (omega arith) refl

create_quorum_cert-Distinct_example :
    Distinct (signers votes)
    × All (λ (s : VoteMessage). eq_bytes (env.hash block) s.block_hash ≡ true) votes
unfolding program
create_quorum_cert-Distinct_example = create_quorum_cert-Distinct env block votes qc refl
