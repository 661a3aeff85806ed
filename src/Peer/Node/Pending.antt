-- ===== src/Peer/Node/Pending.antt =====
-- peer/applier.go and peer/peer.go: each step of a peer keeps the order of the packets.
use go_consensus.Base.{
  ℕ, ◌≡◌, refl, sym, ap, ◌∙◌, List, [], ◌∷◌, ◌++◌, true, false, Option, arith, ltb, length, Bytes,
  Outcome, ok, ◌>>=◌, ok_of_bind, ok-injective, if_ok, Bool-cases, inl, inr,
}
use mathlib.Core.List.{append-nil, append_assoc}
use go_consensus.Command.{CommandResult}
use go_consensus.Peer.Applier.{Store, ExecPacket, result_of}
use go_consensus.Peer.Interface.{Message, Protocol}
use go_consensus.Peer.Node.{
  ClientPacket, Env, Loop, turn, handing, returned, Peer, handle_message, handle_command,
  refuse_if_stopped, try_send_messages, send_event, maybe_apply_async, hand_over, flush_msgs,
  flush_buffer, applier_cap, run_once, take_turn, handle_packet, apply_next,
}
use go_consensus.Peer.Node.Runs.{
  waiting, SameApplier, SameApplier-trans, SameApplier-refl, flush_msgs-SameApplier,
  flush_buffer-SameApplier,
}

-- The packets of a queue, in order.
abbrev pub flat : List (List ExecPacket) → List ExecPacket
flat [] = []
flat (e ∷ es) = e ++ flat es

-- The store after the packets are executed one after the other.
unfoldable pub replay : (Bytes → Option CommandResult) → List ExecPacket → Store → Outcome Store
replay unmarshal [] kv = ok kv
replay unmarshal (pkt ∷ pkts) kv =
    result_of unmarshal pkt kv >>= λ (kv', result). replay unmarshal pkts kv'

-- The packets that were put out, and not yet taken by the applier.
abbrev pub pending : {S C : Type 0} → Peer S C → List ExecPacket
pending p = p.handling ++ (flat p.to_apply ++ waiting p.loop)

replay-snoc :
    (u : Bytes → Option CommandResult) (a : List ExecPacket) (pkt : ExecPacket) (kv mid kv' : Store)
    (r : CommandResult)
    → replay u a kv ≡ ok mid
    → result_of u pkt mid ≡ ok (kv', r)
    → replay u (a ++ pkt ∷ []) kv ≡ ok kv'
unfolding replay
replay-snoc u [] pkt kv mid kv' r h g = rw (ok-injective h, g) refl
replay-snoc u (x ∷ a) pkt kv mid kv' r h g =
    let ((kv1, res), e, rest) = ok_of_bind (result_of u x kv) _ h in
    rw e (replay-snoc u a pkt kv1 mid kv' r rest g)

flat-snoc : (es : List (List ExecPacket)) (e : List ExecPacket) → flat (es ++ e ∷ []) ≡ flat es ++ e
flat-snoc [] e = append-nil e
flat-snoc (x ∷ es) e = ap (λ l. x ++ l) (flat-snoc es e) ∙ sym (append_assoc x (flat es) e)

-- The packets put out are those taken, then the pending ones, and the store is that of those taken.
pub record InOrder {S C : Type 0} (env : Env) (p : Peer S C) (ordered applied : List ExecPacket)
    : Type 0 where
  pub order : applied ++ pending p ≡ ordered
  pub store : replay env.unmarshal_result applied [] ≡ ok p.kv

module _ {S C : Type 0} (proto : Protocol S C) (env : Env) where
  pending-same : (p p' : Peer S C) → SameApplier p p' → pending p' ≡ pending p
  pending-same p p' s = rw (s.handling, s.to_apply, s.loop) refl

  pub same-InOrder :
      (p p' : Peer S C) (o a : List ExecPacket)
      → SameApplier p p'
      → InOrder env p o a
      → InOrder env p' o a
  same-InOrder p p' o a s v = record {
    order = rw (pending-same p p' s) v.order;
    store = rw s.kv v.store;
  }

  pub received-same : (ms : List (Message C)) (p : Peer S C) → SameApplier p (handle_message ms p)
  unfolding handle_message
  received-same ms p = ground arith

  pub commanded-same :
      (pkt : ClientPacket) (c : ℕ) (p p' : Peer S C)
      → handle_command env pkt c p ≡ ok p'
      → SameApplier p p'
  unfolding handle_command
  commanded-same pkt c p p' h = ground arith

  pub refused-same : (c : ℕ) (p : Peer S C) → SameApplier p (refuse_if_stopped c p)
  unfolding refuse_if_stopped
  refused-same c p = ground arith

  pub send_event-same : (p : Peer S C) → SameApplier p (send_event p)
  unfolding send_event
  send_event-same p = ground arith

  try_send-same : (ms : List (Message C)) (p : Peer S C) → SameApplier p (try_send_messages ms p).0
  unfolding try_send_messages
  try_send-same [] p = SameApplier-refl p
  try_send-same (m ∷ ms) p = ground arith

  handing_more :
      (a b c d o : List ExecPacket) → a ++ (b ++ (c ++ [])) ≡ o → a ++ (b ++ (c ++ d)) ≡ o ++ d
  handing_more a b c d o h = rw (sym h) (simp (append-nil, append_assoc))

  -- `RunOnce` puts out what the loop then waits to hand over.
  run_once-InOrder :
      (p p' : Peer S C) (o a : List ExecPacket)
      → p.loop ≡ turn
      → run_once proto p ≡ ok p'
      → InOrder env p o a
      → InOrder env p' (o ++ waiting p'.loop) a
  unfolding run_once
  run_once-InOrder p p' o a t h v =
      let ((rd, n'), g, r) = ok_of_bind (proto.make_ready p.n) _ h in
      let same = ok-injective r in
      let s = try_send-same rd.messages p in
      let k = ap (λ q. q.handling) (sym same) ∙ s.handling in
      let f = ap (λ q. q.to_apply) (sym same) ∙ s.to_apply in
      let w = ap (λ q. q.loop) (sym same) in
      let before : a ++ (p.handling ++ (flat p.to_apply ++ [])) ≡ o = rw t at v.order in
      record {
        order =
            rw (k, f, w) (handing_more a p.handling (flat p.to_apply) rd.ordered_commands o before);
        store = rw (ap (λ q. q.kv) (sym same) ∙ s.kv) v.store;
      }

  pub take_turn-InOrder :
      (p p' : Peer S C) (o a : List ExecPacket)
      → p.loop ≡ turn
      → take_turn proto p ≡ ok p'
      → InOrder env p o a
      → InOrder env p' (o ++ waiting p'.loop) a
  unfolding take_turn
  take_turn-InOrder p p' o a t h v = elim (if_ok p.done _ _ h) [
    | inl (e, k) ↦
        let (q, g, r) = ok_of_bind (flush_buffer proto true p) _ k in
        let same = ok-injective r in
        let s = flush_buffer-SameApplier proto true p q g in
        let w = ap (λ x. x.loop) (sym same) in
        let before : a ++ (p.handling ++ (flat p.to_apply ++ [])) ≡ o = rw t at v.order in
        record {
          order =
              rw
                (
                  ap (λ x. x.handling) (sym same) ∙ s.handling,
                  ap (λ x. x.to_apply) (sym same) ∙ s.to_apply,
                  w,
                )
                (handing_more a p.handling (flat p.to_apply) [] o before);
          store = rw (ap (λ x. x.kv) (sym same) ∙ s.kv) v.store;
        }
    | inr (e, k) ↦
        let (q, g, r) = ok_of_bind (flush_msgs proto p) _ k in
        let (q', g', r') = ok_of_bind (flush_buffer proto false q) _ r in
        let s =
          SameApplier-trans (flush_msgs-SameApplier proto p q g)
            (flush_buffer-SameApplier proto false q q' g') in
        run_once-InOrder q' p' o a (s.loop ∙ t) r' (same-InOrder p q' o a s v)
  ]

  maybe_apply-pending :
      (ents : List ExecPacket) (p : Peer S C)
      → p.loop ≡ handing ents
      → (pending (maybe_apply_async ents p) ≡ pending p) × ((maybe_apply_async ents p).kv ≡ p.kv)
  unfolding maybe_apply_async
  maybe_apply-pending [] p e =
      (ap (λ l. p.handling ++ (flat p.to_apply ++ waiting l)) (sym e), refl)
  maybe_apply-pending (x ∷ ents) p e = elim (Bool-cases (ltb (length p.to_apply) applier_cap)) [
    | inl y ↦ rw y (
      ap (λ l. p.handling ++ l)
            (append-nil (flat (p.to_apply ++ (x ∷ ents) ∷ [])) ∙ flat-snoc p.to_apply (x ∷ ents))
          ∙ ap (λ l. p.handling ++ (flat p.to_apply ++ waiting l)) (sym e),
      refl,
    )
    | inr n ↦ rw n (refl, refl)
  ]

  pub hand_over-pending :
      (l : Loop) (p : Peer S C)
      → p.loop ≡ l
      → (pending (hand_over l p) ≡ pending p) × ((hand_over l p).kv ≡ p.kv)
  unfolding hand_over
  hand_over-pending turn p e = (refl, refl)
  hand_over-pending returned p e = (refl, refl)
  hand_over-pending (handing ents) p e = maybe_apply-pending ents p e

  pub fetch-pending :
      (p p' : Peer S C)
      → p.handling ≡ []
      → apply_next proto env p ≡ ok p'
      → (pending p' ≡ pending p) × (p'.kv ≡ p.kv)
  unfolding apply_next
  fetch-pending p p' e h = fetched_by p.to_apply refl
    where
      fetched_by :
          (es : List (List ExecPacket))
          → p.to_apply ≡ es
          → (pending p' ≡ pending p) × (p'.kv ≡ p.kv)
      fetched_by [] f =
          let same = ok-injective (rw (e, f) at h) in
          (
            ap pending (sym same) ∙ ap (λ l. l ++ (flat p.to_apply ++ waiting p.loop)) (sym e),
            ap (λ q. q.kv) (sym same),
          )
      fetched_by (x ∷ es) f =
          let same = ok-injective (rw (e, f) at h) in
          (
            ap pending (sym same) ∙ rw (e, f) (sym (append_assoc x (flat es) (waiting p.loop))),
            ap (λ q. q.kv) (sym same),
          )

  handle_packet_lem :
      (pkt : ExecPacket) (p p' : Peer S C)
      → handle_packet proto env pkt p ≡ ok p'
      → (pending p' ≡ pending p)
        × ((result : CommandResult) × (result_of env.unmarshal_result pkt p.kv
              ≡ ok (p'.kv, result)))
  unfolding handle_packet
  handle_packet_lem pkt p p' h =
      let ((kv', result), g, r) = ok_of_bind (result_of env.unmarshal_result pkt p.kv) _ h in
      elim (if_ok pkt.callback _ _ r) [
        | inl (y, c) ↦
            let (n', f, k) =
              ok_of_bind
                (proto.callback (record { cmd = pkt.cmd; result = env.marshal_result result }) p.n)
                _ c in
            let same = ok-injective k in
            (ap pending (sym same), (result, g ∙ ap (λ q. ok (q.kv, result)) same))
        | inr (n, c) ↦
            let same = ok-injective c in
            (ap pending (sym same), (result, g ∙ ap (λ q. ok (q.kv, result)) same))
      ]

  pub applied-InOrder :
      (pkt : ExecPacket) (rest : List ExecPacket) (p p' : Peer S C) (o a : List ExecPacket)
      → p.handling ≡ pkt ∷ rest
      → apply_next proto env p ≡ ok p'
      → InOrder env p o a
      → InOrder env p' o (a ++ pkt ∷ [])
  unfolding apply_next
  applied-InOrder pkt rest p p' o a e h v =
      let (l, (result, f)) = handle_packet_lem pkt (record p { handling = rest }) p' (rw e at h) in
      record {
        order =
            append_assoc a (pkt ∷ []) (pending p')
            ∙ ap (λ x. a ++ pkt ∷ x) l
            ∙ ap (λ x. a ++ (x ++ (flat p.to_apply ++ waiting p.loop))) (sym e)
            ∙ v.order;
        store = replay-snoc env.unmarshal_result a pkt [] p.kv p'.kv result v.store f;
      }
