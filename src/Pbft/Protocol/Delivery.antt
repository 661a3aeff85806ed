-- ===== src/Pbft/Protocol/Delivery.antt =====
-- pbft/messaging.go: what a broadcast sends once it is signed.
use go_consensus.Base.{
  ℕ, zero, suc, ◌+◌, ◌*◌, ◌%◌, ◌<◌, ◌≡◌, ap, ◌∙◌, List, [], ◌∷◌, ◌++◌, map, Bool, not, ◌||◌, ◌==◌,
  length, length-append, take-append, drop-append, select, take, drop, u64, arith, inl, inr, All,
  Bool-cases, ok,
}
use mathlib.Core.List.{append-nil, append_assoc}
use go_consensus.Pbft.Messages.{PbftMessage}
use go_consensus.Pbft.Replica.{Envelope, Pbft, Env, enqueue_for_sending}
use go_consensus.Pbft.Protocol.{cert_vector, slice, send_one, send_all}

abbrev pub letter : Env → PbftMessage → ℕ → ℕ → Envelope
letter env m sender node = record {
  content = m;
  certificate = env.create_certificate m;
  to = node;
  sender = sender;
}

-- The nodes that a broadcast goes to.
abbrev pub recipients : Bool → ℕ → List ℕ → List ℕ
recipients self id = select (λ node. self || not (node == id))

module _ (env : Env) (m : PbftMessage) (w : length (env.create_certificate m) ≡ 32) where
  length-cert_vector : (nodes : List ℕ) → length (cert_vector env m nodes) ≡ length nodes * 32
  unfolding cert_vector
  length-cert_vector [] = omega arith
  length-cert_vector (node ∷ nodes) = omega (
    arith,
    length-append (env.create_certificate m) (cert_vector env m nodes),
    length-cert_vector nodes,
  )

  take-drop-cert_vector :
      (nodes : List ℕ) (i : ℕ)
      → i < length nodes
      → take 32 (drop (i * 32) (cert_vector env m nodes)) ≡ env.create_certificate m
  unfolding cert_vector
  take-drop-cert_vector [] i h = elim h [ ]
  take-drop-cert_vector (node ∷ nodes) zero h =
      take-append 32 (env.create_certificate m) (cert_vector env m nodes) w
  take-drop-cert_vector (node ∷ nodes) (suc i) h =
      let further : suc i * 32 ≡ 32 + i * 32 = omega arith in
      rw (further, drop-append 32 (i * 32) (env.create_certificate m) (cert_vector env m nodes) w)
        (take-drop-cert_vector nodes i (omega arith))

  slice-cert_vector :
      (nodes : List ℕ) (i : ℕ)
      → i < length nodes
      → length nodes * 32 < u64
      → slice (cert_vector env m nodes) ((i * 32) % u64) ≡ ok (env.create_certificate m)
  unfolding slice
  slice-cert_vector nodes i h b =
      let small : (i * 32) % u64 ≡ i * 32 = omega arith in
      rw small (ground (arith, take-drop-cert_vector nodes i, length-cert_vector nodes))

  send_all-letters :
      (self : Bool) (all nodes : List ℕ) (p : Pbft)
      → All (λ node. node < length all) nodes
      → length all * 32 < u64
      → send_all m self (cert_vector env m all) nodes p
        ≡ ok (record p { msgs = p.msgs ++ map (letter env m p.id) (recipients self p.id nodes) })
  unfolding send_all send_one enqueue_for_sending
  send_all-letters self all [] p h b = rw append-nil
  send_all-letters self all (node ∷ nodes) p h b = elim (Bool-cases (self || not (node == p.id))) [
    | inr n ↦ rw (n, send_all, send_one) (send_all-letters self all nodes p h.1 b)
    | inl y ↦
        rw (y, send_all, send_one, slice-cert_vector all node h.0 b)
          (send_all-letters self all nodes (enqueue_for_sending node m (env.create_certificate m) p)
              h.1 b
            ∙ ap (λ (l : List Envelope). ok (record p { msgs = l }))
                (append_assoc p.msgs (letter env m p.id node ∷ [])
                  (map (letter env m p.id) (recipients self p.id nodes))))
  ]

-- With certificates of 32 bytes and the nodes numbered below their count, the callback of a signed
-- broadcast succeeds, and sends the message to each node in order, to the replica itself only when
-- it is to be sent to, with a certificate made for this message.
pub send_all_lem :
    (env : Env) (m : PbftMessage) (self : Bool) (p : Pbft)
    → length (env.create_certificate m) ≡ 32
    → All (λ node. node < length p.nodes) p.nodes
    → length p.nodes * 32 < u64
    → send_all m self (cert_vector env m p.nodes) p.nodes p
      ≡ ok (record p { msgs = p.msgs ++ map (letter env m p.id) (recipients self p.id p.nodes) })
send_all_lem env m self p w = send_all-letters env m w self p.nodes p.nodes p
