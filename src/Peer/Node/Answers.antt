-- ===== src/Peer/Node/Answers.antt =====
-- peer/peer.go and pkg/command/tracker.go: what flushCmds and Finish send on a channel.
use go_consensus.Base.{
  ℕ, ◌+◌, ◌≤◌, ◌≡◌, List, [], ◌∷◌, ◌++◌, Bool, ◌==◌, Option, none, some, arith, count, ok,
  ok_of_bind, Option-cases, inl, inr,
}
use go_consensus.Command.{Command, CommandResult}
use go_consensus.Peer.Tracker.{
  TrackerId, find, put, remove, Tracker, id_of_command, id_of_result, register, finish,
}
use go_consensus.Peer.Interface.{Protocol}
use go_consensus.Peer.Buffer.{ReqBufElem}
use go_consensus.Peer.Buffer.Held.{bit, in_slot, held}
use go_consensus.Peer.Node.{Peer, flush_cmd, flush_cmds}

-- What was sent on a channel, and the requests that wait with it.
abbrev pub answered : ℕ → Tracker → ℕ
answered c t = count (λ x. x.0 == c) t.sent + count (λ x. x.1 == c) t.requests

-- The element of a call of HandleCommand with this channel.
abbrev pub of_channel : ℕ → ReqBufElem → Bool
of_channel c el = el.c == c

-- How often a peer holds a channel or has sent on it.
abbrev pub total : {S C : Type 0} → ℕ → Peer S C → ℕ
total c p = held (of_channel c) p.rb + answered c p.ct

count-put :
    (c k : ℕ) (tid : TrackerId) (reqs : List (TrackerId × ℕ))
    → find tid reqs ≡ none
    → count (λ x. x.1 == c) (put tid k reqs) ≡ count (λ x. x.1 == c) reqs + bit (k == c)
unfolding find put
count-put c k tid [] h = ground arith
count-put c k tid ((key, x) ∷ reqs) h = ground (arith, count-put c k tid reqs)

count-remove :
    (c : ℕ) (tid : TrackerId) (reqs : List (TrackerId × ℕ))
    → count (λ x. x.1 == c) (remove tid reqs) ≤ count (λ x. x.1 == c) reqs
unfolding remove
count-remove c tid [] = omega arith
count-remove c tid ((key, x) ∷ reqs) = ground (arith, count-remove c tid reqs)

count-remove_found :
    (c k : ℕ) (tid : TrackerId) (reqs : List (TrackerId × ℕ))
    → find tid reqs ≡ some k
    → count (λ x. x.1 == c) (remove tid reqs) + bit (k == c) ≤ count (λ x. x.1 == c) reqs
unfolding find remove
count-remove_found c k tid [] h = cc
count-remove_found c k tid ((key, x) ∷ reqs) h =
    ground (arith, count-remove_found c k tid reqs, count-remove c tid reqs)

count-sent :
    (c k : ℕ) (res : CommandResult) (sent : List (ℕ × CommandResult))
    → count (λ x. x.0 == c) (sent ++ (k, res) ∷ []) ≡ count (λ x. x.0 == c) sent + bit (k == c)
count-sent c k res [] = ground arith
count-sent c k res (x ∷ sent) = ground (arith, count-sent c k res sent)

register-answered :
    (c k : ℕ) (cmd : Command) (t : Tracker)
    → answered c (register cmd k t).0 ≤ answered c t + bit (k == c)
unfolding register
register-answered c k cmd t = elim (Option-cases (find (id_of_command cmd) t.responses)) [
  | inr (res, e) ↦ rw (e, register) (omega (arith, count-sent c k res t.sent))
  | inl e ↦ elim (Option-cases (find (id_of_command cmd) t.requests)) [
    | inl f ↦ rw (e, f, register) (omega (arith, count-put c k (id_of_command cmd) t.requests f))
    | inr (old, f) ↦ rw (e, f, register) (omega arith)
  ]
]

pub finish-answered :
    (c : ℕ) (res : CommandResult) (t : Tracker) → answered c (finish res t) ≤ answered c t
unfolding finish
finish-answered c res t = elim (Option-cases (find (id_of_result res) t.requests)) [
  | inl e ↦ rw (e, finish) (omega arith)
  | inr (k, e) ↦
      rw (e, finish)
        (omega (
          arith,
          count-sent c k res t.sent,
          count-remove_found c k (id_of_result res) t.requests e,
        ))
]

module _ {S C : Type 0} (proto : Protocol S C) where
  flush_cmd-answered :
      (c : ℕ) (el : Option ReqBufElem) (p p' : Peer S C)
      → flush_cmd proto el p ≡ ok p'
      → answered c p'.ct ≤ answered c p.ct + bit (in_slot (of_channel c) el)
  unfolding flush_cmd
  flush_cmd-answered c none p p' h = cc
  flush_cmd-answered c (some el) p p' h = ground (arith, register-answered c el.c el.cmd p.ct)

  pub flush_cmds-answered :
      (c : ℕ) (els : List (Option ReqBufElem)) (p p' : Peer S C)
      → flush_cmds proto els p ≡ ok p'
      → answered c p'.ct ≤ answered c p.ct + count (in_slot (of_channel c)) els
  unfolding flush_cmds
  flush_cmds-answered c [] p p' h = ground arith
  flush_cmds-answered c (el ∷ els) p p' h =
      let (q, g, r) = ok_of_bind (flush_cmd proto el p) _ h in
      omega (arith, flush_cmd-answered c el p q g, flush_cmds-answered c els q p' r, split)
    where
      split :
          count (in_slot (of_channel c)) (el ∷ els)
          ≡ bit (in_slot (of_channel c) el) + count (in_slot (of_channel c)) els
      split = ground arith
