-- ===== src/Peer/Node/Stopping.antt =====
-- peer/peer.go: a command that arrives while the peer stops.
use go_consensus.Base.{
  ℕ, ◌≡◌, refl, sym, ap, ◌∙◌, List, [], ◌∷◌, ◌++◌, Bool, true, false, ◌==◌, ◌&&◌, not, Option, none,
  some, arith, if◌then◌else◌, ok-injective, ltb, mem, lookup-insert_self, Outcome, ok, fault, ◌>>=◌,
}
use go_consensus.Command.{Command}
use go_consensus.Peer.Tracker.{
  TrackerId, find, put, Tracker, id_of_command, register, channels, finish_all,
}
use go_consensus.Peer.Interface.{Protocol}
use go_consensus.Peer.Buffer.{prop_buf_cap, ReqBufElem, ReqBuf, add, slice, used, wake_full, flush}
use go_consensus.Peer.Node.{
  ClientPacket, Env, returned, Peer, handle_command, refuse_if_stopped, finish_stop, flush_cmd,
  flush_cmds, flush_buffer, take_turn,
}

mem-append : (z : ℕ) (xs ys : List ℕ) → mem z (xs ++ ys) ≡ (if mem z xs then true else mem z ys)
mem-append z [] ys = refl
mem-append z (x ∷ xs) ys = ground (arith, mem-append z xs ys)

mem-put :
    (tid : TrackerId) (c : ℕ) (reqs : List (TrackerId × ℕ))
    → mem c (channels (put tid c reqs)) ≡ true
unfolding put channels
mem-put tid c [] = ground arith
mem-put tid c ((key, x) ∷ reqs) = ground (arith, mem-put tid c reqs)

if_true {ℓ} : {A : Type ℓ} (b : Bool) (x y : A) → b ≡ true → (if b then x else y) ≡ x
if_true b x y h = rw h refl

if_false {ℓ} : {A : Type ℓ} (b : Bool) (x y : A) → b ≡ false → (if b then x else y) ≡ y
if_false b x y h = rw h refl

one_slot :
    (el : ReqBufElem) (rb : ReqBuf)
    → rb.i ≡ 0
    → ((add el rb).i ≡ 1) × (slice 1 (add el rb).b ≡ some el ∷ [])
unfolding add slice
one_slot el rb h =
    let free : ltb rb.i prop_buf_cap ≡ true = ground arith in
    rw (free, h) (refl, ground (arith, lookup-insert_self 0 el rb.b))

flush_one {ℓ} :
    {A : Type ℓ} (f : List (Option ReqBufElem) → A → Outcome A) (rb : ReqBuf) (s s' : A)
    (els : List (Option ReqBufElem))
    → rb.i ≡ 1
    → slice 1 rb.b ≡ els
    → f els s ≡ ok s'
    → flush f true rb s ≡ ok (record (wake_full rb) { i = 0 }, s')
unfolding flush
flush_one f rb s s' els i e g =
    let busy : (ltb rb.i rb.threshold && not true) ≡ false = ground arith in
    let some_used : ltb 0 (used rb.i) ≡ true = ground arith in
    let one : used rb.i ≡ 1 = ground arith in
    let same : f (slice (used rb.i) rb.b) s ≡ ok s' =
      ap (λ n. f (slice n rb.b) s) one ∙ ap (λ l. f l s) e ∙ g in
    rw (busy, some_used, same) refl

module _ {S C : Type 0} (proto : Protocol S C) where
  -- The tracker after a command that it does not know.
  abbrev waiting_with : Command → ℕ → Tracker → Tracker
  waiting_with cmd c t = record t { requests = put (id_of_command cmd) c t.requests }

  flush_cmd_fresh :
      (el : ReqBufElem) (s : Peer S C)
      → (el.cmd.target == s.id) ≡ false
      → find (id_of_command el.cmd) s.ct.requests ≡ none
      → find (id_of_command el.cmd) s.ct.responses ≡ none
      → flush_cmd proto (some el) s ≡ ok (record s { ct = waiting_with el.cmd el.c s.ct })
  unfolding flush_cmd register
  flush_cmd_fresh el s t f g = ground arith

  last_turn :
      (el : ReqBufElem) (s : Peer S C)
      → s.done ≡ true
      → s.rb.i ≡ 1
      → slice 1 s.rb.b ≡ some el ∷ []
      → (el.cmd.target == s.id) ≡ false
      → find (id_of_command el.cmd) s.ct.requests ≡ none
      → find (id_of_command el.cmd) s.ct.responses ≡ none
      → (last : Peer S C) × (take_turn proto s ≡ ok last)
        × (last.loop ≡ returned)
        × (last.ct ≡ waiting_with el.cmd el.c s.ct)
  unfolding take_turn
  last_turn el s d i sl t f g =
      let s' = record s { ct = waiting_with el.cmd el.c s.ct } in
      let last = record s' { rb = record (wake_full s.rb) { i = 0 } } in
      let passed : flush_cmds proto (some el ∷ []) s ≡ ok s' =
        unfold flush_cmds in rw (flush_cmd_fresh el s t f g) refl in
      let flushed : flush_buffer proto true s ≡ ok last =
        unfold flush_buffer in
        rw (flush_one (flush_cmds proto) s.rb s s' (some el ∷ []) i sl passed) refl in
      (
        record last { loop = returned },
        if_true s.done _ _ d
            ∙ ap
                (λ (o : Outcome (Peer S C)).
                  ◌>>=◌ {S = Peer S C} o (λ q. ok (record q { loop = returned })))
                flushed,
        refl,
        refl,
      )

module _ {S C : Type 0} (proto : Protocol S C) (env : Env) where
  -- When Stop was called and the loop has not yet taken its last turn, a command of another replica
  -- that is neither waited for nor finished closes its channel itself; the last turn still registers
  -- it, and so FinishAll closes the channel, which is closed, a second time.
  pub close_twice :
      (pkt : ClientPacket) (cmd : Command) (c : ℕ) (p q : Peer S C)
      → p.done ≡ true
      → p.rb.i ≡ 0
      → env.unmarshal_command pkt.message ≡ some cmd
      → (cmd.target == p.id) ≡ false
      → find (id_of_command cmd) p.ct.requests ≡ none
      → find (id_of_command cmd) p.ct.responses ≡ none
      → handle_command env pkt c p ≡ ok q
      → (last : Peer S C) × (take_turn proto (refuse_if_stopped c q) ≡ ok last)
        × (last.loop ≡ returned)
        × (mem c last.ct.closed ≡ true)
        × (mem c (channels last.ct.requests) ≡ true)
        × ((finish_stop last).ct.closed ≡ last.ct.closed ++ channels last.ct.requests)
  unfolding handle_command refuse_if_stopped take_turn finish_stop finish_all
  close_twice pkt cmd c p q d i e t f g h =
      let el : ReqBufElem = record { cmd = record cmd { trace_info = env.trace_info }; c = c } in
      let arrived : ok (record p { rb = add el p.rb }) ≡ ok q =
        sym (if_false _ fault (ok (record p { rb = add el p.rb })) (ground arith))
        ∙ (rw (e, handle_command) at h) in
      let same = ok-injective arrived in
      let s = record q { ct = record q.ct { closed = q.ct.closed ++ c ∷ [] } } in
      let refused : refuse_if_stopped c q ≡ s =
        if_true q.done s q (ap (λ x. x.done) (sym same) ∙ d) in
      let slot = one_slot el p.rb i in
      let (last, turn, loop, ct) =
        last_turn proto el s (ap (λ x. x.done) (sym same) ∙ d)
          (ap (λ x. x.rb.i) (sym same) ∙ slot.0) (ap (λ x. slice 1 x.rb.b) (sym same) ∙ slot.1)
          (ap (λ x. cmd.target == x.id) (sym same) ∙ t)
          (ap (λ x. find (id_of_command cmd) x.ct.requests) (sym same) ∙ f)
          (ap (λ x. find (id_of_command cmd) x.ct.responses) (sym same) ∙ g) in
      (
        last,
        ap (take_turn proto) refused ∙ turn,
        loop,
        ap (λ x. mem c x.closed) ct ∙ mem-append c q.ct.closed (c ∷ []) ∙ ground arith,
        ap (λ x. mem c (channels x.requests)) ct ∙ mem-put (id_of_command cmd) c q.ct.requests,
        refl,
      )
