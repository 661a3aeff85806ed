-- ===== src/ChainHotstuff/Signer.antt =====
-- protocols/chainhotstuff/signer.go: quorum certificates.
use go_consensus.Base.{
  ℕ, suc, ◌+◌, ◌≤◌, ◌≡◌, refl, sym, ap, ◌∙◌, ◌⊎◌, Distinct, mem, lookup-insert, lookup-insert_self,
  inl, inr, List, [], ◌∷◌, map, Bool, true, false, Option, none, some, arith, ltb, leb,
  if◌then◌else◌, length, count, all, All, Bytes, eq_bytes, Map, lookup, insert, values, Outcome, ok,
  fault, ◌>>=◌, Bool-cases, Option-cases, ok-injective, ok_of_bind, subst, le→leb,
}
use go_consensus.ChainHotstuff.Blocks.{
  Signature, QuorumCert, BlockState, VoteMessage, genesis, array,
}

-- The cryptography: SHA-512 over a marshalled block, 64 bytes, and Ed25519 with the key pair of the
-- replicas.
pub record Env : Type 0 where
  pub hash : BlockState → Bytes
  pub sign : Bytes → Option Bytes
  pub verify : Bytes → Bytes → Bool
  pub verify_batch : List (Bytes × Bytes) → Option (Bool × List Bool)

pub data CertError : Type 0 where
  hash_mismatch partial_duplicate : CertError

-- The loop of createQuorumCert.
unfoldable pub collect_sigs :
    Bytes → List VoteMessage → Map Signature → Outcome (CertError ⊎ Map Signature)
collect_sigs hash [] sigs = ok (inr sigs)
collect_sigs hash (s ∷ signatures) sigs = elim (eq_bytes hash s.block_hash) [
  | false ↦ ok (inl hash_mismatch)
  | true ↦ elim s.signature [
    | none ↦ fault
    | some sg ↦ elim (lookup sg.signer sigs) [
      | some old ↦ ok (inl partial_duplicate)
      | none ↦ collect_sigs hash signatures (insert sg.signer sg sigs)
    ]
  ]
]

abbrev cert_of : Bytes → CertError ⊎ Map Signature → CertError ⊎ QuorumCert
cert_of hash (inl e) = inl e
cert_of hash (inr sigs) = inr (record { sigs = sigs; block_hash = hash })

unfoldable pub create_quorum_cert :
    Env → BlockState → List VoteMessage → Outcome (CertError ⊎ QuorumCert)
unfolding collect_sigs
create_quorum_cert env block signatures =
    collect_sigs (env.hash block) signatures [] >>= λ r. ok (cert_of (env.hash block) r)

-- What VerifyBatch is asked: each signature over the hash.
unfoldable pub batch : Bytes → List Signature → List (Bytes × Bytes)
batch hash [] = []
batch hash (sg ∷ sgs) = (hash, sg.sig) ∷ batch hash sgs

-- `verifyQuorumCert`. The certificate of the genesis block is accepted as it is.
unfoldable pub verify_quorum_cert : Env → ℕ → Option QuorumCert → Outcome Bool
unfolding genesis array batch
verify_quorum_cert env quorum_size none = fault
verify_quorum_cert env quorum_size (some qc) =
    if eq_bytes (array qc.block_hash) (env.hash genesis)
    then ok true
    else if ltb (length qc.sigs) quorum_size
    then ok false
    else elim (env.verify_batch (batch qc.block_hash (values qc.sigs))) [
      | none ↦ fault
      | some (all_ok, each) ↦ if all_ok then ok true else ok (leb quorum_size (count (λ b. b) each))
    ]

abbrev pub checks : Env → Bytes × Bytes → Bool
checks env (hash, sig) = env.verify hash sig

-- What VerifyBatch is documented to do: it checks every signature.
abbrev pub ChecksEach : Env → Type 0
ChecksEach env =
    (jobs : List (Bytes × Bytes))
    → env.verify_batch jobs ≡ some (all (checks env) jobs, map (checks env) jobs)

-- A signature that verifies for a hash.
abbrev pub valid : Env → Bytes → Signature → Bool
valid env hash sg = env.verify hash sg.sig

count-map :
    (env : Env) (hash : Bytes) (sgs : List Signature)
    → count (λ b. b) (map (checks env) (batch hash sgs)) ≡ count (valid env hash) sgs
unfolding batch
count-map env hash [] = refl
count-map env hash (sg ∷ sgs) = ground (arith, count-map env hash sgs)

all-count :
    (env : Env) (hash : Bytes) (sgs : List Signature)
    → all (checks env) (batch hash sgs) ≡ true
    → count (valid env hash) sgs ≡ length sgs
unfolding batch
all-count env hash [] h = refl
all-count env hash (sg ∷ sgs) h = ground (arith, all-count env hash sgs)

count-values :
    (env : Env) (hash : Bytes) (sigs : Map Signature)
    → (count (valid env hash) (values sigs) ≤ length sigs) × (length (values sigs) ≡ length sigs)
unfolding values
count-values env hash [] = (omega arith, refl)
count-values env hash ((i, sg) ∷ sigs) =
    let (a, b) = count-values env hash sigs in (ground (arith, a), omega (arith, b))

-- With a VerifyBatch that checks every signature, a certificate of another block than the genesis
-- block is accepted exactly when at least `quorum_size` of its signatures verify for its hash.
pub verify_quorum_cert_lem :
    (env : Env) (quorum_size : ℕ) (qc : QuorumCert)
    → ChecksEach env
    → eq_bytes (array qc.block_hash) (env.hash genesis) ≡ false
    → verify_quorum_cert env quorum_size (some qc)
      ≡ ok (leb quorum_size (count (valid env qc.block_hash) (values qc.sigs)))
unfolding verify_quorum_cert
verify_quorum_cert_lem env quorum_size qc each other =
    let (few, size) = count-values env qc.block_hash qc.sigs in
    rw (other, each (batch qc.block_hash (values qc.sigs)), verify_quorum_cert)
      (ground (
        arith,
        few,
        size,
        count-map env qc.block_hash (values qc.sigs),
        all-count env qc.block_hash (values qc.sigs),
      ))

count-insert :
    (env : Env) (hash : Bytes) (sg : Signature) (sigs : Map Signature)
    → lookup sg.signer sigs ≡ none
    → valid env hash sg ≡ true
    → count (valid env hash) (values (insert sg.signer sg sigs))
      ≡ suc (count (valid env hash) (values sigs))
unfolding lookup insert values
count-insert env hash sg [] n v = rw v refl
count-insert env hash sg ((i, x) ∷ sigs) n v = ground (arith, count-insert env hash sg sigs)

-- Every vote is signed for the hash.
abbrev pub AllVerify : Env → Bytes → List VoteMessage → Type 0
AllVerify env hash votes =
    All
      (λ (s : VoteMessage). (sg : Signature) × (s.signature ≡ some sg) × (valid env hash sg ≡ true))
      votes

collect_sigs-count :
    (env : Env) (hash : Bytes) (votes : List VoteMessage) (sigs sigs' : Map Signature)
    → AllVerify env hash votes
    → collect_sigs hash votes sigs ≡ ok (inr sigs')
    → count (valid env hash) (values sigs') ≡ count (valid env hash) (values sigs) + length votes
unfolding collect_sigs
collect_sigs-count env hash [] sigs sigs' a h =
    let same : sigs ≡ sigs' = cc in omega (arith, ap (λ x. count (valid env hash) (values x)) same)
collect_sigs-count env hash (s ∷ votes) sigs sigs' a h =
    elim (Bool-cases (eq_bytes hash s.block_hash)) [
      | inr n ↦ absurd (ground (arith, n, h))
      | inl y ↦ elim (Option-cases (lookup a.0.0.signer sigs)) [
        | inr (old, e) ↦ absurd (cc (rw (y, a.0.1, e, collect_sigs) at h))
        | inl e ↦ omega (
          arith,
          count-insert env hash a.0.0 sigs e a.0.2,
          collect_sigs-count env hash votes (insert a.0.0.signer a.0.0 sigs) sigs' a.1
              (rw (y, a.0.1, e, collect_sigs) at h),
        )
      ]
    ]

cert_of-inr :
    (hash : Bytes) (r : CertError ⊎ Map Signature) (qc : QuorumCert)
    → cert_of hash r ≡ inr qc
    → (r ≡ inr qc.sigs) × (qc.block_hash ≡ hash)
cert_of-inr hash (inl e) qc h = cc
cert_of-inr hash (inr sigs) qc h =
    let same : record { sigs = sigs; block_hash = hash } ≡ qc = cc in
    (ap (λ x. inr x.sigs) same, ap (λ x. x.block_hash) (sym same))

-- With a VerifyBatch that checks every signature, the certificate that createQuorumCert makes of at
-- least `quorum_size` votes whose signatures verify for the hash of the block is accepted by
-- verifyQuorumCert.
pub verify_quorum_cert-create_quorum_cert :
    (env : Env) (quorum_size : ℕ) (block : BlockState) (votes : List VoteMessage) (qc : QuorumCert)
    → ChecksEach env
    → AllVerify env (env.hash block) votes
    → quorum_size ≤ length votes
    → create_quorum_cert env block votes ≡ ok (inr qc)
    → verify_quorum_cert env quorum_size (some qc) ≡ ok true
unfolding create_quorum_cert verify_quorum_cert values
verify_quorum_cert-create_quorum_cert env quorum_size block votes qc each a n h =
    let (r, l, e) = ok_of_bind (collect_sigs (env.hash block) votes []) _ h in
    let (c, b) = cert_of-inr (env.hash block) r qc (ok-injective e) in
    let all_valid = collect_sigs-count env (env.hash block) votes [] qc.sigs a (l ∙ ap ok c) in
    let enough : quorum_size ≤ count (valid env qc.block_hash) (values qc.sigs) =
      subst (λ x. quorum_size ≤ count (valid env x) (values qc.sigs)) (sym b)
        (omega (arith, all_valid)) in
    elim (Bool-cases (eq_bytes (array qc.block_hash) (env.hash genesis))) [
      | inl y ↦ rw (y, verify_quorum_cert) refl
      | inr o ↦ verify_quorum_cert_lem env quorum_size qc each o ∙ ap ok (le→leb _ _ enough)
    ]

-- The signers of the votes.
abbrev pub signers : List VoteMessage → List ℕ
signers [] = []
signers (s ∷ votes) = elim s.signature [
  | none ↦ signers votes
  | some sg ↦ sg.signer ∷ signers votes
]

collect_sigs-signers :
    (hash : Bytes) (votes : List VoteMessage) (sigs r : Map Signature)
    → collect_sigs hash votes sigs ≡ ok (inr r)
    → Distinct (signers votes)
      × ((x : ℕ) → mem x (signers votes) ≡ true → lookup x sigs ≡ none)
      × All (λ (s : VoteMessage). eq_bytes hash s.block_hash ≡ true) votes
unfolding collect_sigs
collect_sigs-signers hash [] sigs r h = (tt, (λ x m. cc), tt)
collect_sigs-signers hash (s ∷ votes) sigs r h = elim (Bool-cases (eq_bytes hash s.block_hash)) [
  | inr n ↦ absurd (cc (rw (n, collect_sigs) at h))
  | inl y ↦ elim (Option-cases s.signature) [
    | inl e ↦ absurd (cc (rw (y, e, collect_sigs) at h))
    | inr (sg, e) ↦ elim (Option-cases (lookup sg.signer sigs)) [
      | inr (old, d) ↦ absurd (cc (rw (y, e, d, collect_sigs) at h))
      | inl d ↦
          let (u, free, w) =
            collect_sigs-signers hash votes (insert sg.signer sg sigs) r
              (rw (y, e, d, collect_sigs) at h) in
          (
            rw e (ground (arith, free sg.signer, lookup-insert_self sg.signer sg sigs), u),
            (λ x m. ground (arith, e, d, free x, lookup-insert sg.signer x sg sigs)),
            (y, w),
          )
    ]
  ]
]

-- createQuorumCert makes a certificate only of votes whose signers are all different, each for the
-- hash of the block.
pub create_quorum_cert-Distinct :
    (env : Env) (block : BlockState) (votes : List VoteMessage) (qc : QuorumCert)
    → create_quorum_cert env block votes ≡ ok (inr qc)
    → Distinct (signers votes)
      × All (λ (s : VoteMessage). eq_bytes (env.hash block) s.block_hash ≡ true) votes
unfolding create_quorum_cert
create_quorum_cert-Distinct env block votes qc h =
    let (r, l, e) = ok_of_bind (collect_sigs (env.hash block) votes []) _ h in
    let (c, b) = cert_of-inr (env.hash block) r qc (ok-injective e) in
    let (u, free, w) = collect_sigs-signers (env.hash block) votes [] qc.sigs (l ∙ ap ok c) in
    (u, w)
