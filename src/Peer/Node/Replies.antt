-- ===== src/Peer/Node/Replies.antt =====
-- peer/peer.go and pkg/command/tracker.go: what is sent on the channels of the clients, in every run.
use go_consensus.Base.{
  all, is_some, ℕ, ◌≤◌, ◌≡◌, List, [], ◌∷◌, true, ◌==◌, arith, if◌then◌else◌, count, mem, Distinct,
  ok,
}
use go_consensus.Peer.Applier.{ExecPacket}
use go_consensus.Peer.Interface.{Protocol}
use go_consensus.Peer.Buffer.{prop_buf_cap, slice, used}
use go_consensus.Peer.Buffer.Held.{held, retry-held, retry-IsBuffer}
use go_consensus.Peer.Node.{Env, Peer, stop, take_turn}
use go_consensus.Peer.Node.Runs.{
  Run, started, ticked, received, commanded, retried, refused, turned, handed, fetched, applied,
  sends, stopped, ended,
}
use go_consensus.Peer.Node.Answers.{of_channel}
use go_consensus.Peer.Node.Accounts.{
  take_turn-Accounted, take_turn-asleep, apply_next-Accounted, tick-same, new-Accounted,
  ended-Accounted,
}
use go_consensus.Peer.Node.Clients.{
  Accounted, same-Accounted, received-same, send_event-same, hand_over-same, refused-Accounted,
  commanded-Accounted,
}

module _ {S C : Type 0} (proto : Protocol S C) (env : Env) where
  -- In every run the slots of the buffer that flushCmds will read are all written, an add sleeps only
  -- while no slot is free, and each channel is held or answered at most as often as it was made.
  Run-Accounted :
      (n : S) (p : Peer S C) (m : List ℕ) (o a : List ExecPacket)
      → Run proto env n p m o a
      → Accounted m p
  unfolding stop
  Run-Accounted n p m o a (started id peers threshold) = new-Accounted proto id peers threshold n
  Run-Accounted n p m o a (ticked {p = q} r h) =
      same-Accounted m q p (tick-same proto q p h) (Run-Accounted n q m o a r)
  Run-Accounted n p m o a (received {p = q} ms r) =
      same-Accounted m q p (received-same ms q) (Run-Accounted n q m o a r)
  Run-Accounted n p m o a (commanded {p = q} {m = m'} pkt c r f h) =
      commanded-Accounted env pkt m' c q p h (Run-Accounted n q m' o a r)
  Run-Accounted n p m o a (retried {p = q} k r) =
      let v = Run-Accounted n q m o a r in
      record {
        buffer = retry-IsBuffer k q.rb v.buffer;
        counted = λ c. omega (arith, v.counted c, retry-held (of_channel c) k q.rb);
      }
  Run-Accounted n p m o a (refused {p = q} c r) =
      refused-Accounted m c q (Run-Accounted n q m o a r)
  Run-Accounted n p m o a (turned {p = q} {o = o'} r t h) =
      take_turn-Accounted proto m q p h (Run-Accounted n q m o' a r)
  Run-Accounted n p m o a (handed {p = q} r) =
      same-Accounted m q p (hand_over-same q.loop q) (Run-Accounted n q m o a r)
  Run-Accounted n p m o a (fetched {p = q} r e h) =
      apply_next-Accounted proto env m q p h (Run-Accounted n q m o a r)
  Run-Accounted n p m o a (applied {p = q} {a = a'} pkt rest r e h) =
      apply_next-Accounted proto env m q p h (Run-Accounted n q m o a' r)
  Run-Accounted n p m o a (sends {p = q} r) =
      same-Accounted m q p (send_event-same q) (Run-Accounted n q m o a r)
  Run-Accounted n p m o a (stopped {p = q} r) =
      let v = Run-Accounted n q m o a r in record { buffer = v.buffer; counted = v.counted }
  Run-Accounted n p m o a (ended {p = q} r e) =
      ended-Accounted proto m q (Run-Accounted n q m o a r)

  once : (m : List ℕ) (c : ℕ) → Distinct m → count (λ x. x == c) m ≤ (if mem c m then 1 else 0)
  once [] c d = omega arith
  once (x ∷ m) c d = ground (arith, once m c d.1)

  Run-Distinct :
      (n : S) (p : Peer S C) (m : List ℕ) (o a : List ExecPacket)
      → Run proto env n p m o a
      → Distinct m
  Run-Distinct n p m o a (started id peers threshold) = tt
  Run-Distinct n p m o a (ticked {p = q} r h) = Run-Distinct n q m o a r
  Run-Distinct n p m o a (received {p = q} ms r) = Run-Distinct n q m o a r
  Run-Distinct n p m o a (commanded {p = q} {m = m'} pkt c r f h) = (f, Run-Distinct n q m' o a r)
  Run-Distinct n p m o a (retried {p = q} k r) = Run-Distinct n q m o a r
  Run-Distinct n p m o a (refused {p = q} c r) = Run-Distinct n q m o a r
  Run-Distinct n p m o a (turned {p = q} {o = o'} r t h) = Run-Distinct n q m o' a r
  Run-Distinct n p m o a (handed {p = q} r) = Run-Distinct n q m o a r
  Run-Distinct n p m o a (fetched {p = q} r e h) = Run-Distinct n q m o a r
  Run-Distinct n p m o a (applied {p = q} {a = a'} pkt rest r e h) = Run-Distinct n q m o a' r
  Run-Distinct n p m o a (sends {p = q} r) = Run-Distinct n q m o a r
  Run-Distinct n p m o a (stopped {p = q} r) = Run-Distinct n q m o a r
  Run-Distinct n p m o a (ended {p = q} r e) = Run-Distinct n q m o a r

  -- In every run at most one result is sent on a channel, so the channel's one place is enough and no
  -- send blocks; a channel on which a result was sent does not wait in the tracker or in the buffer; and
  -- nothing is sent on a channel that no call of HandleCommand made.
  pub Run_one_reply :
      (n : S) (p : Peer S C) (m : List ℕ) (o a : List ExecPacket) (c : ℕ)
      → Run proto env n p m o a
      → (count (λ x. x.0 == c) p.ct.sent ≤ (if mem c m then 1 else 0))
        × (count (λ x. x.0 == c) p.ct.sent ≡ 1
            → (count (λ x. x.1 == c) p.ct.requests ≡ 0) × (held (of_channel c) p.rb ≡ 0))
  Run_one_reply n p m o a c r =
      let v = Run-Accounted n p m o a r in
      let l = once m c (Run-Distinct n p m o a r) in
      let u : (if mem c m then 1 else 0) ≤ 1 = ground arith in
      (omega (arith, v.counted c, l), λ h. omega (arith, v.counted c, l, u))

  -- In every run with a threshold of at most the number of slots, no add sleeps after a turn of the
  -- loop, and every slot that is in use holds a command.
  pub Run_wakes :
      (n : S) (p p' : Peer S C) (m : List ℕ) (o a : List ExecPacket)
      → Run proto env n p m o a
      → p.rb.threshold ≤ prop_buf_cap
      → take_turn proto p ≡ ok p'
      → (p'.rb.asleep ≡ []) × (all is_some (slice (used p'.rb.i) p'.rb.b) ≡ true)
  Run_wakes n p p' m o a r t h =
      let v = Run-Accounted n p m o a r in
      (take_turn-asleep proto m p p' h v t, (take_turn-Accounted proto m p p' h v).buffer.filled)
