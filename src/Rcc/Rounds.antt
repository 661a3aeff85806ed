-- ===== src/Rcc/Rounds.antt =====
-- protocols/rcc/rcc.go: what RCC promises. The commands that the instances order are merged in rounds,
-- each of which has one command of every instance.
use go_consensus.Base.{
  ℕ, zero, suc, ◌*◌, ◌≤◌, ◌≡◌, refl, sym, ap, ◌∙◌, List, [], ◌∷◌, ◌++◌, Option, some, map, arith,
  true, ◌==◌, inl, inr, subst, length-append, length_le_of_Subset, Bool-cases, mem, Distinct,
  length, get_elem?,
}
use mathlib.Core.List.Perm
use mathlib.Core.List.{Perm, filter_map, filter_map-map, filter_map-some, append-nil, append_assoc}
use go_consensus.Peer.Applier.{ExecPacket}

-- An order in which Go may run over a map whose keys are the nodes.
pub record IsOrder (nodes order : List ℕ) : Type 0 where
  pub distinct : Distinct order
  pub covers : (i : ℕ) → mem i order ≡ mem i nodes
  pub same : Perm order nodes

-- The commands that each instance has ordered so far.
abbrev pub Streams : Type 0
Streams = ℕ → List ExecPacket

abbrev pub nth : Streams → ℕ → ℕ → Option ExecPacket
nth streams k i = get_elem? (streams i) k

-- The output of `k` rounds.
pub data Rounds (nodes : List ℕ) (streams : Streams) : ℕ → List ExecPacket → Type 0 where
  none_yet : Rounds nodes streams 0 []
  round :
      {k : ℕ} {out out' : List ExecPacket} {order : List ℕ} (line : List ExecPacket)
      → Rounds nodes streams k out
      → IsOrder nodes order
      → map (nth streams k) order ≡ map some line
      → out' ≡ out ++ line
      → Rounds nodes streams (suc k) out'

-- Two replicas agree on what the instances of the nodes order.
abbrev pub Agree : List ℕ → Streams → Streams → Type 0
Agree nodes s t =
    (i k : ℕ) (x y : ExecPacket)
    → mem i nodes ≡ true
    → nth s k i ≡ some x
    → nth t k i ≡ some y
    → x ≡ y

same_front :
    (nodes : List ℕ) (s t : Streams) (k : ℕ) (i : ℕ) (x y : ExecPacket)
    → Agree nodes s t
    → mem i nodes ≡ true
    → nth s k i ≡ some x
    → nth t k i ≡ some y
    → nth s k i ≡ nth t k i
same_front nodes s t k i x y a m p q = p ∙ ap some (a i k x y m p q) ∙ sym q

-- What an order takes is what the instances have.
line_of :
    (f : ℕ → Option ExecPacket) (order : List ℕ) (line : List ExecPacket)
    → map f order ≡ map some line
    → line ≡ filter_map f order
line_of f order line h =
    sym (filter_map-some line)
    ∙ sym (filter_map-map some (λ o. o) line)
    ∙ ap (filter_map (λ o. o)) (sym h)
    ∙ filter_map-map f (λ o. o) order

-- An instance of an order that gives a line has a command.
taken :
    (f : ℕ → Option ExecPacket) (order : List ℕ) (line : List ExecPacket) (i : ℕ)
    → map f order ≡ map some line
    → mem i order ≡ true
    → (x : ExecPacket) × (f i ≡ some x)
taken f [] line i h m = cc
taken f (j ∷ order) [] i h m = cc
taken f (j ∷ order) (x ∷ line) i h m = elim (Bool-cases (i == j)) [
  | inl e ↦ (x, ground arith)
  | inr n ↦ taken f order line i (cc) (ground arith)
]

length-map :
    (f : ℕ → Option ExecPacket) (order : List ℕ) (line : List ExecPacket)
    → map f order ≡ map some line
    → length line ≡ length order
length-map f [] [] h = refl
length-map f [] (x ∷ line) h = cc
length-map f (i ∷ order) [] h = cc
length-map f (i ∷ order) (x ∷ line) h = omega (arith, length-map f order line (cc))

filter_map_congr :
    (f g : ℕ → Option ExecPacket) (order : List ℕ)
    → ((i : ℕ) → mem i order ≡ true → f i ≡ g i)
    → filter_map f order ≡ filter_map g order
unfolding filter_map
filter_map_congr f g [] h = refl
filter_map_congr f g (i ∷ order) h =
    rw (h i (ground arith), filter_map_congr f g order (λ j m. h j (ground arith)))

-- In one round, the lines of two replicas that agree are permutations of each other.
line-Perm :
    (nodes order order' : List ℕ) (s t : Streams) (k : ℕ) (line line' : List ExecPacket)
    → IsOrder nodes order
    → IsOrder nodes order'
    → Agree nodes s t
    → map (nth s k) order ≡ map some line
    → map (nth t k) order' ≡ map some line'
    → Perm line line'
line-Perm nodes order order' s t k line line' o o' a h h' =
    let equal : (i : ℕ) → mem i order' ≡ true → nth s k i ≡ nth t k i = λ i m.
      let member = sym (o'.covers i) ∙ m in
      let (x, p) = taken (nth s k) order line i h (o.covers i ∙ member) in
      let (y, q) = taken (nth t k) order' line' i h' m in
      same_front nodes s t k i x y a member p q in
    rw
      (
        line_of (nth s k) order line h,
        line_of (nth t k) order' line' h' ∙ sym (filter_map_congr (nth s k) (nth t k) order' equal),
      )
      (Perm.filter_map (nth s k) (Perm.trans o.same (Perm.symm o'.same)))

same_rounds :
    (nodes : List ℕ) (s t : Streams) (k : ℕ) (out out' : List ExecPacket)
    → Agree nodes s t
    → Rounds nodes s k out
    → Rounds nodes t k out'
    → Perm out out'
same_rounds nodes s t zero out out' a none_yet none_yet = Perm.refl []
same_rounds nodes s t (suc k) out out' a (round {k = k1} {out = out1} {order = o1} line r o h e)
      (round {k = k2} {out = out2} {order = o2} line' r' o' h' e') =
    rw (e, e')
      (Perm.append (same_rounds nodes s t k out1 out2 a r r')
        (line-Perm nodes o1 o2 s t k line line' o o' a h h'))

-- The first rounds of a longer output.
first-Rounds :
    (nodes : List ℕ) (t : Streams) (k n : ℕ) (out : List ExecPacket)
    → k ≤ n
    → Rounds nodes t n out
    → (common rest : List ExecPacket) × (out ≡ common ++ rest) × Rounds nodes t k common
first-Rounds nodes t k zero out l none_yet =
    ([], [], refl, subst (λ j. Rounds nodes t j []) (omega arith) none_yet)
first-Rounds nodes t k (suc n) out l (round {out = out1} {order = o1} line r o h e) =
    elim (Bool-cases (k == suc n)) [
      | inl y ↦ (
        out,
        [],
        sym (append-nil out),
        subst (λ j. Rounds nodes t j out) (ground arith) (round {order = o1} line r o h e),
      )
      | inr y ↦
          let (common, rest, p, q) = first-Rounds nodes t k n out1 (ground arith) r in
          (common, rest ++ line, e ∙ ap (λ x. x ++ line) p ∙ append_assoc common rest line, q)
    ]

-- Replicas that agree on what the instances order output the same commands in the rounds that both
-- have output, but for the order of the commands.
pub Rounds-Perm :
    (nodes : List ℕ) (s t : Streams) (k n : ℕ) (out out' : List ExecPacket)
    → Agree nodes s t
    → k ≤ n
    → Rounds nodes s k out
    → Rounds nodes t n out'
    → (common rest : List ExecPacket) × (out' ≡ common ++ rest) × Perm out common
Rounds-Perm nodes s t k n out out' a l r r' =
    let (common, rest, p, q) = first-Rounds nodes t k n out' l r' in
    (common, rest, p, same_rounds nodes s t k out common a r q)

order_length :
    (nodes order : List ℕ) → Distinct nodes → IsOrder nodes order → length order ≡ length nodes
order_length nodes order d o = omega (
  arith,
  length_le_of_Subset order nodes o.distinct (λ i m. sym (o.covers i) ∙ m),
  length_le_of_Subset nodes order d (λ i m. o.covers i ∙ m),
)

-- `k` rounds have `k` commands of each instance.
pub Rounds-length :
    (nodes : List ℕ) (s : Streams) (k : ℕ) (out : List ExecPacket)
    → Distinct nodes
    → Rounds nodes s k out
    → length out ≡ k * length nodes
Rounds-length nodes s k out d none_yet = omega arith
Rounds-length nodes s (suc k) out d (round {out = out1} {order = o1} line r o h e) =
    let ih = Rounds-length nodes s k out1 d r in
    let n = order_length nodes o1 d o in
    let m = length-map (nth s k) o1 line h in
    let split = ap length e ∙ length-append out1 line in grind arith
