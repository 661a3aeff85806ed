-- ===== src/Peer/Node/Accounts.antt =====
-- peer/peer.go: each step of a peer keeps that a channel is held or answered at most as often as made.
use go_consensus.Base.{
  ℕ, suc, ◌-◌, ◌+◌, ◌≤◌, ◌≡◌, refl, sym, ap, ◌∙◌, List, [], ◌∷◌, Bool, true, false, ◌==◌, arith,
  length, count, ok, ok_of_bind, ok-injective, if_ok, inl, inr,
}
use go_consensus.Peer.Tracker.{make_tracker, finish_all}
use go_consensus.Peer.Applier.{ExecPacket, result_of}
use go_consensus.Peer.Interface.{Protocol}
use go_consensus.Peer.Buffer.{prop_buf_cap, init, ReqBuf, flush, slice, used}
use go_consensus.Peer.Buffer.Held.{
  held, Flushed, flush-Flushed, flush-asleep, Flushed-held, Flushed-IsBuffer, init-IsBuffer,
}
use go_consensus.Peer.Node.{
  Env, Peer, new_peer, finish_stop, tick, flush_cmds, flush_packets, flush_msgs, flush_buffer,
  run_once, take_turn, handle_packet, apply_next,
}
use go_consensus.Peer.Node.Answers.{
  answered, of_channel, total, finish-answered, flush_cmds-answered,
}
use go_consensus.Peer.Node.Clients.{Accounted, SameClients, same-Accounted, try_send-same}

module _ {S C : Type 0} (proto : Protocol S C) where
  flush_msgs-same : (p p' : Peer S C) → flush_msgs proto p ≡ ok p' → SameClients p p'
  unfolding flush_msgs
  flush_msgs-same p p' h =
      let (n', g, e) = ok_of_bind (proto.async_callback p.n) _ h in
      let (out, k, r) = ok_of_bind (flush_packets proto (suc (length p.peers - 1)) p.msgs n') _ e in
      let same = ok-injective r in
      record { rb = ap (λ q. q.rb) (sym same); ct = ap (λ q. q.ct) (sym same) }

  Flushed-total :
      (c n : ℕ) (p q : Peer S C) (rb' : ReqBuf)
      → Flushed (flush_cmds proto) p.rb p rb' q
      → total c p ≤ n
      → held (of_channel c) rb' + answered c q.ct ≤ n
  Flushed-total c n p q rb' f h = elim (Flushed-held (of_channel c) f) [
    | inl (e, k) ↦ omega (arith, k, ap (λ x. answered c x.ct) e)
    | inr (e, k) ↦ omega (arith, k, flush_cmds-answered proto c (slice (used p.rb.i) p.rb.b) p q e)
  ]

  flush_buffer-Accounted :
      (force : Bool) (made : List ℕ) (p p' : Peer S C)
      → flush_buffer proto force p ≡ ok p'
      → Accounted made p
      → Accounted made p'
  unfolding flush_buffer
  flush_buffer-Accounted force made p p' h v =
      let ((rb', q), g, r) = ok_of_bind (flush (flush_cmds proto) force p.rb p) _ h in
      let same = ok-injective r in
      let f = flush-Flushed (flush_cmds proto) force p.rb rb' p q v.buffer g in
      let b = ap (λ x. x.rb) (sym same) in
      let t = ap (λ x. x.ct) (sym same) in
      record {
        buffer = rw b (Flushed-IsBuffer f v.buffer);
        counted =
            λ c. rw (b, t) (Flushed-total c (count (λ x. x == c) made) p q rb' f (v.counted c));
      }

  run_once-same : (p p' : Peer S C) → run_once proto p ≡ ok p' → SameClients p p'
  unfolding run_once
  run_once-same p p' h =
      let ((rd, n'), g, r) = ok_of_bind (proto.make_ready p.n) _ h in
      let same = ok-injective r in
      let s = try_send-same rd.messages p in
      record { rb = ap (λ q. q.rb) (sym same) ∙ s.rb; ct = ap (λ q. q.ct) (sym same) ∙ s.ct }

  flush_buffer-asleep :
      (force : Bool) (made : List ℕ) (p p' : Peer S C)
      → flush_buffer proto force p ≡ ok p'
      → Accounted made p
      → p.rb.threshold ≤ prop_buf_cap
      → p'.rb.asleep ≡ []
  unfolding flush_buffer
  flush_buffer-asleep force made p p' h v t =
      let ((rb', q), g, r) = ok_of_bind (flush (flush_cmds proto) force p.rb p) _ h in
      ap (λ x. x.rb.asleep) (sym (ok-injective r))
      ∙ flush-asleep (flush_cmds proto) force p.rb rb' p q v.buffer t g

  pub take_turn-asleep :
      (made : List ℕ) (p p' : Peer S C)
      → take_turn proto p ≡ ok p'
      → Accounted made p
      → p.rb.threshold ≤ prop_buf_cap
      → p'.rb.asleep ≡ []
  unfolding take_turn
  take_turn-asleep made p p' h v t = elim (if_ok p.done _ _ h) [
    | inl (e, k) ↦
        let (q, g, r) = ok_of_bind (flush_buffer proto true p) _ k in
        ap (λ x. x.rb.asleep) (sym (ok-injective r)) ∙ flush_buffer-asleep true made p q g v t
    | inr (e, k) ↦
        let (q, g, r) = ok_of_bind (flush_msgs proto p) _ k in
        let (q', g', r') = ok_of_bind (flush_buffer proto false q) _ r in
        let s = flush_msgs-same p q g in
        ap (λ x. x.asleep) (run_once-same q' p' r').rb
        ∙ flush_buffer-asleep false made q q' g' (same-Accounted made p q s v)
            (omega (arith, t, ap (λ x. x.threshold) s.rb))
  ]

  pub take_turn-Accounted :
      (made : List ℕ) (p p' : Peer S C)
      → take_turn proto p ≡ ok p'
      → Accounted made p
      → Accounted made p'
  unfolding take_turn
  take_turn-Accounted made p p' h v = elim (if_ok p.done _ _ h) [
    | inl (e, k) ↦
        let (q, g, r) = ok_of_bind (flush_buffer proto true p) _ k in
        let same = ok-injective r in
        same-Accounted made q p'
          (record { rb = ap (λ x. x.rb) (sym same); ct = ap (λ x. x.ct) (sym same) })
          (flush_buffer-Accounted true made p q g v)
    | inr (e, k) ↦
        let (q, g, r) = ok_of_bind (flush_msgs proto p) _ k in
        let (q', g', r') = ok_of_bind (flush_buffer proto false q) _ r in
        same-Accounted made q' p' (run_once-same q' p' r') (
          flush_buffer-Accounted false made q q' g'
            (same-Accounted made p q (flush_msgs-same p q g) v))
  ]

  handle_packet-Accounted :
      (env : Env) (pkt : ExecPacket) (made : List ℕ) (p p' : Peer S C)
      → handle_packet proto env pkt p ≡ ok p'
      → Accounted made p
      → Accounted made p'
  unfolding handle_packet
  handle_packet-Accounted env pkt made p p' h v =
      let ((kv', result), g, r) = ok_of_bind (result_of env.unmarshal_result pkt p.kv) _ h in
      elim (if_ok pkt.callback _ _ r) [
        | inl (y, c) ↦
            let (n', f, k) =
              ok_of_bind
                (proto.callback (record { cmd = pkt.cmd; result = env.marshal_result result }) p.n)
                _ c in
            let same = ok-injective k in
            same-Accounted made p p'
              (record { rb = ap (λ x. x.rb) (sym same); ct = ap (λ x. x.ct) (sym same) }) v
        | inr (n, c) ↦
            let same = ok-injective c in
            let b = ap (λ x. x.rb) (sym same) in
            let t = ap (λ x. x.ct) (sym same) in
            record {
              buffer = rw b v.buffer;
              counted = λ c. rw (b, t) (omega (arith, v.counted c, finish-answered c result p.ct));
            }
      ]

  pub apply_next-Accounted :
      (env : Env) (made : List ℕ) (p p' : Peer S C)
      → apply_next proto env p ≡ ok p'
      → Accounted made p
      → Accounted made p'
  unfolding apply_next
  apply_next-Accounted env made p p' h v = by_handling p.handling refl
    where
      by_events :
          (es : List (List ExecPacket)) → p.handling ≡ [] → p.to_apply ≡ es → Accounted made p'
      by_events [] e f =
          let same = ok-injective (rw (e, f) at h) in
          same-Accounted made p p'
            (record { rb = ap (λ x. x.rb) (sym same); ct = ap (λ x. x.ct) (sym same) }) v
      by_events (x ∷ es) e f =
          let same = ok-injective (rw (e, f) at h) in
          same-Accounted made p p'
            (record { rb = ap (λ x. x.rb) (sym same); ct = ap (λ x. x.ct) (sym same) }) v

      by_handling : (pkts : List ExecPacket) → p.handling ≡ pkts → Accounted made p'
      by_handling [] e = by_events p.to_apply e refl
      by_handling (pkt ∷ rest) e =
          handle_packet-Accounted env pkt made (record p { handling = rest }) p' (rw e at h)
            (record { buffer = v.buffer; counted = v.counted })

  pub tick-same : (p p' : Peer S C) → tick proto p ≡ ok p' → SameClients p p'
  unfolding tick
  tick-same p p' h =
      let (n', g, r) = ok_of_bind (proto.tick p.n) _ h in
      let same = ok-injective r in
      record { rb = ap (λ q. q.rb) (sym same); ct = ap (λ q. q.ct) (sym same) }

  pub new-Accounted :
      (id : ℕ) (peers : List ℕ) (threshold : ℕ) (n : S)
      → Accounted [] (new_peer {C = C} id peers threshold n)
  unfolding new_peer make_tracker slice
  new-Accounted id peers threshold n = record {
    buffer = init-IsBuffer threshold;
    counted = λ c. unfold init in omega arith;
  }

  pub ended-Accounted :
      (made : List ℕ) (p : Peer S C) → Accounted made p → Accounted made (finish_stop p)
  unfolding finish_stop finish_all
  ended-Accounted made p v = record { buffer = v.buffer; counted = λ c. omega (arith, v.counted c) }
