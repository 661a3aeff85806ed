-- ===== src/Rcc/Orders.antt =====
-- protocols/rcc/rcc.go: the order inside a round is that of Go's map.
use go_consensus.Base.{
  ℕ, ◌≡◌, ◌≢◌, sym, ◌∙◌, List, [], ◌∷◌, ◌++◌, false, some, arith, ◌==◌, lookup, insert,
  lookup-insert,
}
use mathlib.Core.List.{append_assoc}
use go_consensus.Peer.Applier.{ExecPacket}
use go_consensus.Rcc.{Rcc, present, pop_front, pop, pop_each, take_round}

append_front :
    (out : List ExecPacket) (x y x' y' : ExecPacket)
    → out ++ x ∷ y ∷ [] ≡ out ++ x' ∷ y' ∷ []
    → x ≡ x'
append_front [] x y x' y' h = cc
append_front (z ∷ out) x y x' y' h = append_front out x y x' y' (cc)

module _ {S : Type 0} where
  pop_lem :
      (id : ℕ) (x : ExecPacket) (xs : List ExecPacket) (d : Rcc S)
      → lookup id d.exec_pkts ≡ some (x ∷ xs)
      → pop id d ≡ record d {
        exec_pkts = insert id xs d.exec_pkts;
        global_ordered_commands = d.global_ordered_commands ++ x ∷ [];
      }
  unfolding pop pop_front
  pop_lem id x xs d p = rw (p, pop)

  -- What a round of two instances outputs, in either order.
  two_popped :
      (a b : ℕ) (x y : ExecPacket) (xs ys : List ExecPacket) (d : Rcc S)
      → (a == b) ≡ false
      → lookup a d.exec_pkts ≡ some (x ∷ xs)
      → lookup b d.exec_pkts ≡ some (y ∷ ys)
      → (pop_each (a ∷ b ∷ []) d).global_ordered_commands ≡ d.global_ordered_commands ++ x ∷ y ∷ []
  unfolding pop_each
  two_popped a b x y xs ys d n p q =
      let later : lookup b (insert a xs d.exec_pkts) ≡ some (y ∷ ys) =
        rw (lookup-insert a b xs d.exec_pkts, n) q in
      let first = record d {
        exec_pkts = insert a xs d.exec_pkts;
        global_ordered_commands = d.global_ordered_commands ++ x ∷ [];
      } in
      rw (pop_lem a x xs d p, pop_lem b y ys first later)
        (append_assoc d.global_ordered_commands (x ∷ []) (y ∷ []))

  -- A round of two instances whose next commands differ is output in the order in which Go runs over
  -- the map: the two orders, from the same state, give different outputs.
  pub take_round_orders :
      (a b : ℕ) (x y : ExecPacket) (xs ys : List ExecPacket) (d : Rcc S)
      → (a == b) ≡ false
      → lookup a d.exec_pkts ≡ some (x ∷ xs)
      → lookup b d.exec_pkts ≡ some (y ∷ ys)
      → x ≢ y
      → (take_round (a ∷ b ∷ []) (a ∷ b ∷ []) d).global_ordered_commands
        ≢ (take_round (a ∷ b ∷ []) (b ∷ a ∷ []) d).global_ordered_commands
  unfolding take_round present
  take_round_orders a b x y xs ys d n p q ne h =
      let same : (pop_each (a ∷ b ∷ []) d).global_ordered_commands
          ≡ (pop_each (b ∷ a ∷ []) d).global_ordered_commands =
        rw (p, q, take_round) at h in
      ne (
        append_front d.global_ordered_commands x y y x (
          sym (two_popped a b x y xs ys d n p q)
          ∙ same
          ∙ two_popped b a y x ys xs d (ground arith) q p))
