-- ===== src/Peer/Node/Clients.antt =====
-- peer/peer.go: the channels of the clients, and the steps that do not call the protocol.
use go_consensus.Base.{
  ℕ, ◌+◌, ◌≤◌, ◌≡◌, refl, sym, ap, List, [], ◌∷◌, ◌==◌, ◌&&◌, not, arith, count, ok, ok-injective,
  if_ok, Bool-cases, Option-cases, inl, inr,
}
use go_consensus.Peer.Applier.{ExecPacket}
use go_consensus.Peer.Interface.{Message}
use go_consensus.Peer.Buffer.{ReqBufElem}
use go_consensus.Peer.Buffer.Held.{bit, IsBuffer, add-held, add-IsBuffer}
use go_consensus.Peer.Node.{
  ClientPacket, Env, Loop, turn, handing, returned, Peer, handle_message, handle_command,
  refuse_if_stopped, try_send_messages, send_event, maybe_apply_async, hand_over,
}
use go_consensus.Peer.Node.Answers.{of_channel, total}

-- The buffer is sound, and a channel is held or answered no more often than it was made.
pub record Accounted {S C : Type 0} (made : List ℕ) (p : Peer S C) : Type 0 where
  pub buffer : IsBuffer p.rb
  pub counted : (c : ℕ) → total c p ≤ count (λ x. x == c) made

module _ {S C : Type 0} where
  -- `p'` has the buffer and the tracker of `p`.
  pub record SameClients (p p' : Peer S C) : Type 0 where
    pub rb : p'.rb ≡ p.rb
    pub ct : p'.ct ≡ p.ct

  pub same-Accounted :
      (made : List ℕ) (p p' : Peer S C) → SameClients p p' → Accounted made p → Accounted made p'
  same-Accounted made p p' s v = record {
    buffer = rw s.rb v.buffer;
    counted = λ c. rw (s.rb, s.ct) (v.counted c);
  }

  pub received-same : (ms : List (Message C)) (p : Peer S C) → SameClients p (handle_message ms p)
  unfolding handle_message
  received-same ms p = ground arith

  pub send_event-same : (p : Peer S C) → SameClients p (send_event p)
  unfolding send_event
  send_event-same p = ground arith

  pub maybe_apply-same :
      (ents : List ExecPacket) (p : Peer S C) → SameClients p (maybe_apply_async ents p)
  unfolding maybe_apply_async
  maybe_apply-same [] p = ground arith
  maybe_apply-same (e ∷ ents) p = ground arith

  pub hand_over-same : (l : Loop) (p : Peer S C) → SameClients p (hand_over l p)
  unfolding hand_over
  hand_over-same turn p = record { rb = refl; ct = refl }
  hand_over-same returned p = record { rb = refl; ct = refl }
  hand_over-same (handing ents) p = maybe_apply-same ents p

  pub try_send-same :
      (ms : List (Message C)) (p : Peer S C) → SameClients p (try_send_messages ms p).0
  unfolding try_send_messages
  try_send-same [] p = record { rb = refl; ct = refl }
  try_send-same (m ∷ ms) p = ground arith

  pub refused-Accounted :
      (made : List ℕ) (c : ℕ) (p : Peer S C)
      → Accounted made p
      → Accounted made (refuse_if_stopped c p)
  unfolding refuse_if_stopped
  refused-Accounted made c p v = elim (Bool-cases p.done) [
    | inl y ↦ rw (y, refuse_if_stopped) (record { buffer = v.buffer; counted = v.counted })
    | inr n ↦ rw (n, refuse_if_stopped) (record { buffer = v.buffer; counted = v.counted })
  ]

  pub commanded-Accounted :
      (env : Env) (pkt : ClientPacket) (made : List ℕ) (c : ℕ) (p p' : Peer S C)
      → handle_command env pkt c p ≡ ok p'
      → Accounted made p
      → Accounted (c ∷ made) p'
  unfolding handle_command
  commanded-Accounted env pkt made c p p' h v =
      elim (Option-cases (env.unmarshal_command pkt.message)) [
        | inl e ↦ let g = rw (e, handle_command) at h in cc (g)
        | inr (cmd, e) ↦
            elim (if_ok (cmd.target == p.id && not (env.verify pkt.message pkt.signature)) _ _
              (rw (e, handle_command) at h)) [
                | inl (b, g) ↦ cc
                | inr (b, g) ↦
                    let same = ok-injective g in
                    let el : ReqBufElem = record {
                      cmd = record cmd { trace_info = env.trace_info };
                      c = c;
                    } in
                    let r = ap (λ q. q.rb) (sym same) in
                    let t = ap (λ q. q.ct) (sym same) in
                    record {
                      buffer = rw r (add-IsBuffer el p.rb v.buffer);
                      counted = λ d.
                          rw (r, t)
                            (omega
                              (arith, v.counted d, add-held (of_channel d) el p.rb, made_more d));
                    }
              ]
      ]
    where
      made_more : (d : ℕ) → count (λ x. x == d) (c ∷ made) ≡ count (λ x. x == d) made + bit (c == d)
      made_more d = ground arith
