-- ===== src/MinBft/Delivery.antt =====
-- protocols/minbft/messaging.go: what a broadcast sends.
use go_consensus.Base.{
  ℕ, ◌+◌, ◌≡◌, sym, ap, ◌∙◌, inl, inr, List, [], ◌∷◌, ◌++◌, map, not, ◌==◌, select, Bytes,
  Bool-cases,
}
use mathlib.Core.List.{append-nil, append_assoc}
use go_consensus.MinBft.Quorum.{NormalMessage}
use go_consensus.MinBft.Identifier.{to_cert}
use go_consensus.MinBft.Replica.{Envelope, MinBft, Env, send_to, send_all, broadcast_normal}

abbrev pub letter : NormalMessage → Bytes → ℕ → ℕ → Envelope
letter m cert from node = record { content = m; certificate = cert; to = node; sender = from }

-- The nodes but the replica itself.
abbrev pub others : ℕ → List ℕ → List ℕ
others id = select (λ node. not (node == id))

send_all-letters :
    (m : NormalMessage) (cert : Bytes) (nodes : List ℕ) (p : MinBft)
    → send_all m cert nodes p
      ≡ record p { msgs = p.msgs ++ map (letter m cert p.id) (others p.id nodes) }
unfolding send_all send_to
send_all-letters m cert [] p =
    ap (λ (l : List Envelope). record p { msgs = l }) (sym (append-nil p.msgs))
send_all-letters m cert (node ∷ nodes) p = elim (Bool-cases (node == p.id)) [
  | inl e ↦ rw (e, send_all) (send_all-letters m cert nodes p)
  | inr e ↦
      rw (e, send_all)
        (send_all-letters m cert nodes (send_to node m cert p)
          ∙ ap (λ (l : List Envelope). record p { msgs = l })
              (append_assoc p.msgs (letter m cert p.id node ∷ [])
                (map (letter m cert p.id) (others p.id nodes))))
]

-- `broadcastNormal` asks the enclave for one identifier and sends the message with it, in the order of
-- the nodes, once to every node but the replica itself; nothing else changes.
pub broadcast_normal_lem :
    (env : Env) (m : NormalMessage) (p : MinBft)
    → broadcast_normal env m p ≡ record p {
      created = p.created + 1;
      msgs =
          p.msgs
          ++ map (letter m (to_cert (env.create_ui_mac p.created m)) p.id) (others p.id p.nodes);
    }
unfolding broadcast_normal
broadcast_normal_lem env m p =
    send_all-letters m (to_cert (env.create_ui_mac p.created m)) p.nodes
      (record p { created = p.created + 1 })
