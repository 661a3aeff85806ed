-- ===== src/Peer/Node/Runs.antt =====
-- peer/peer.go and peer/applier.go: all runs of a peer, and what a turn of the loop leaves alone.
use go_consensus.Base.{
  ℕ, ◌≡◌, refl, sym, ap, ◌∙◌, List, [], ◌∷◌, ◌++◌, Bool, false, Option, none, some, arith, mem, suc,
  ◌-◌, subst, length, ok, ok_of_bind, ok-injective, inl, inr,
}
use go_consensus.Peer.Applier.{ExecPacket}
use go_consensus.Peer.Interface.{Message, Protocol}
use go_consensus.Peer.Buffer.{ReqBufElem, retry, flush}
use go_consensus.Peer.Buffer.Held.{flush_ran}
use go_consensus.Peer.Node.{
  ClientPacket, Env, Loop, turn, handing, returned, Peer, new_peer, handle_message, handle_command,
  refuse_if_stopped, stop, finish_stop, send_event, hand_over, tick, flush_cmd, flush_cmds,
  flush_packets, flush_msgs, flush_buffer, take_turn, apply_next,
}

-- What the loop waits to hand over.
abbrev pub waiting : Loop → List ExecPacket
waiting turn = []
waiting (handing ents) = ents
waiting returned = []

module _ {S C : Type 0} (proto : Protocol S C) (env : Env) where
  -- `Run p made ordered applied`: a new peer, whose protocol starts in `n`, reaches `p`. The calls of
  -- HandleCommand made the channels `made`, the protocol put out the packets `ordered` and the applier
  -- took the packets `applied`, each list in its order.
  pub data Run (n : S) : Peer S C → List ℕ → List ExecPacket → List ExecPacket → Type 0 where
    started :
        (id : ℕ) (peers : List ℕ) (threshold : ℕ) → Run n (new_peer id peers threshold n) [] [] []
    ticked :
        {p p' : Peer S C} {m : List ℕ} {o a : List ExecPacket}
        → Run n p m o a
        → tick proto p ≡ ok p'
        → Run n p' m o a
    received :
        {p : Peer S C} {m : List ℕ} {o a : List ExecPacket} (ms : List (Message C))
        → Run n p m o a
        → Run n (handle_message ms p) m o a
    commanded :
        {p p' : Peer S C} {m : List ℕ} {o a : List ExecPacket} (pkt : ClientPacket) (c : ℕ)
        → Run n p m o a
        → mem c m ≡ false
        → handle_command env pkt c p ≡ ok p'
        → Run n p' (c ∷ m) o a
    retried :
        {p : Peer S C} {m : List ℕ} {o a : List ExecPacket} (k : ℕ)
        → Run n p m o a
        → Run n (record p { rb = retry k p.rb }) m o a
    refused :
        {p : Peer S C} {m : List ℕ} {o a : List ExecPacket} (c : ℕ)
        → Run n p m o a
        → Run n (refuse_if_stopped c p) m o a
    turned :
        {p p' : Peer S C} {m : List ℕ} {o a : List ExecPacket}
        → Run n p m o a
        → p.loop ≡ turn
        → take_turn proto p ≡ ok p'
        → Run n p' m (o ++ waiting p'.loop) a
    handed :
        {p : Peer S C} {m : List ℕ} {o a : List ExecPacket}
        → Run n p m o a
        → Run n (hand_over p.loop p) m o a
    fetched :
        {p p' : Peer S C} {m : List ℕ} {o a : List ExecPacket}
        → Run n p m o a
        → p.handling ≡ []
        → apply_next proto env p ≡ ok p'
        → Run n p' m o a
    applied :
        {p p' : Peer S C} {m : List ℕ} {o a : List ExecPacket} (pkt : ExecPacket)
        (rest : List ExecPacket)
        → Run n p m o a
        → p.handling ≡ pkt ∷ rest
        → apply_next proto env p ≡ ok p'
        → Run n p' m o (a ++ pkt ∷ [])
    sends :
        {p : Peer S C} {m : List ℕ} {o a : List ExecPacket}
        → Run n p m o a
        → Run n (send_event p) m o a
    stopped :
        {p : Peer S C} {m : List ℕ} {o a : List ExecPacket} → Run n p m o a → Run n (stop p) m o a
    ended :
        {p : Peer S C} {m : List ℕ} {o a : List ExecPacket}
        → Run n p m o a
        → p.loop ≡ returned
        → Run n (finish_stop p) m o a

module _ {S C : Type 0} where
  -- `p'` has the applier and the loop of `p`.
  pub record SameApplier (p p' : Peer S C) : Type 0 where
    pub to_apply : p'.to_apply ≡ p.to_apply
    pub handling : p'.handling ≡ p.handling
    pub kv : p'.kv ≡ p.kv
    pub loop : p'.loop ≡ p.loop

  pub SameApplier-trans : {p q r : Peer S C} → SameApplier p q → SameApplier q r → SameApplier p r
  SameApplier-trans a b = record {
    to_apply = b.to_apply ∙ a.to_apply;
    handling = b.handling ∙ a.handling;
    kv = b.kv ∙ a.kv;
    loop = b.loop ∙ a.loop;
  }

  pub SameApplier-refl : (p : Peer S C) → SameApplier p p
  SameApplier-refl p = record { to_apply = refl; handling = refl; kv = refl; loop = refl }

module _ {S C : Type 0} (proto : Protocol S C) where
  pub tick-SameApplier : (p p' : Peer S C) → tick proto p ≡ ok p' → SameApplier p p'
  unfolding tick
  tick-SameApplier p p' h =
      let (n', g, r) = ok_of_bind (proto.tick p.n) _ h in
      let same = ok-injective r in
      record {
        to_apply = ap (λ q. q.to_apply) (sym same);
        handling = ap (λ q. q.handling) (sym same);
        kv = ap (λ q. q.kv) (sym same);
        loop = ap (λ q. q.loop) (sym same);
      }

  flush_cmd-SameApplier :
      (el : Option ReqBufElem) (p p' : Peer S C) → flush_cmd proto el p ≡ ok p' → SameApplier p p'
  unfolding flush_cmd
  flush_cmd-SameApplier none p p' h = cc
  flush_cmd-SameApplier (some el) p p' h = ground arith

  pub flush_cmds-SameApplier :
      (els : List (Option ReqBufElem)) (p p' : Peer S C)
      → flush_cmds proto els p ≡ ok p'
      → SameApplier p p'
  unfolding flush_cmds
  flush_cmds-SameApplier [] p p' h = ground arith
  flush_cmds-SameApplier (el ∷ els) p p' h =
      let (q, g, r) = ok_of_bind (flush_cmd proto el p) _ h in
      SameApplier-trans (flush_cmd-SameApplier el p q g) (flush_cmds-SameApplier els q p' r)

  pub flush_msgs-SameApplier : (p p' : Peer S C) → flush_msgs proto p ≡ ok p' → SameApplier p p'
  unfolding flush_msgs
  flush_msgs-SameApplier p p' h =
      let (n', g, e) = ok_of_bind (proto.async_callback p.n) _ h in
      let (out, k, r) = ok_of_bind (flush_packets proto (suc (length p.peers - 1)) p.msgs n') _ e in
      let same = ok-injective r in
      record {
        to_apply = ap (λ q. q.to_apply) (sym same);
        handling = ap (λ q. q.handling) (sym same);
        kv = ap (λ q. q.kv) (sym same);
        loop = ap (λ q. q.loop) (sym same);
      }

  pub flush_buffer-SameApplier :
      (force : Bool) (p p' : Peer S C) → flush_buffer proto force p ≡ ok p' → SameApplier p p'
  unfolding flush_buffer
  flush_buffer-SameApplier force p p' h =
      let ((rb', q), g, r) = ok_of_bind (flush (flush_cmds proto) force p.rb p) _ h in
      let same = ok-injective r in
      let to : SameApplier q p' = record {
        to_apply = ap (λ q. q.to_apply) (sym same);
        handling = ap (λ q. q.handling) (sym same);
        kv = ap (λ q. q.kv) (sym same);
        loop = ap (λ q. q.loop) (sym same);
      } in
      elim (flush_ran (flush_cmds proto) force p.rb rb' p q g) [
        | inl e ↦ subst (λ x. SameApplier x p') (sym e) to
        | inr e ↦ SameApplier-trans (flush_cmds-SameApplier _ p q e) to
      ]
