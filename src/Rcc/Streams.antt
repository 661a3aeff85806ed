-- ===== src/Rcc/Streams.antt =====
-- protocols/rcc/rcc.go: what the instances have ordered, as it grows and as rounds are taken from it.
use go_consensus.Base.{
  ℕ, zero, suc, ◌≤◌, ◌≡◌, refl, ◌∙◌, List, [], ◌∷◌, ◌++◌, Bool, true, some, arith, ltb, length, all,
  mem, map, get_elem?, drop,
}
use go_consensus.Peer.Applier.{ExecPacket}
use go_consensus.Rcc.{has_some}
use go_consensus.Rcc.Rounds.{Streams, nth, Rounds, none_yet, round}
use go_consensus.Rcc.Queues.{runs, executed}

pub drop-append_le :
    (k : ℕ) (xs ys : List ExecPacket) → k ≤ length xs → drop k (xs ++ ys) ≡ drop k xs ++ ys
drop-append_le zero xs ys h = refl
drop-append_le (suc k) [] ys h = absurd (omega arith)
drop-append_le (suc k) (x ∷ xs) ys h = drop-append_le k xs ys (omega arith)

pub all-append :
    (xs ys : List ExecPacket) → all runs xs ≡ true → all runs ys ≡ true → all runs (xs ++ ys) ≡ true
all-append [] ys h e = e
all-append (x ∷ xs) ys h e = ground (arith, all-append xs ys)

pub all-executed : (xs : List ExecPacket) → all runs (executed xs) ≡ true
all-executed [] = refl
all-executed (x ∷ xs) = ground (arith, all-executed xs)

pub executed_all : (xs : List ExecPacket) → all runs xs ≡ true → executed xs ≡ xs
executed_all [] h = refl
executed_all (x ∷ xs) h = ground (arith, executed_all xs)

pub get_elem?-append :
    (xs ys : List ExecPacket) (k : ℕ) (x : ExecPacket)
    → get_elem? xs k ≡ some x
    → get_elem? (xs ++ ys) k ≡ some x
get_elem?-append [] ys k x h = cc
get_elem?-append (y ∷ xs) ys zero x h = h
get_elem?-append (y ∷ xs) ys (suc k) x h = get_elem?-append xs ys k x h

pub line_grows :
    (s t : Streams) (k : ℕ) (order : List ℕ) (line : List ExecPacket)
    → map (nth s k) order ≡ map some line
    → map (nth (λ j. s j ++ t j) k) order ≡ map some line
line_grows s t k [] [] h = refl
line_grows s t k [] (x ∷ line) h = cc
line_grows s t k (i ∷ order) [] h = cc
line_grows s t k (i ∷ order) (x ∷ line) h =
    cc (get_elem?-append (s i) (t i) k x (cc), line_grows s t k order line (cc))

-- Rounds are not changed by what the instances order later.
pub Rounds-grow :
    (nodes : List ℕ) (s t : Streams) (k : ℕ) (out : List ExecPacket)
    → Rounds nodes s k out
    → Rounds nodes (λ j. s j ++ t j) k out
Rounds-grow nodes s t k out none_yet = none_yet
Rounds-grow nodes s t k out (round {k = n} {out = out1} {order = o1} line r o h e) =
    round {order = o1} line (Rounds-grow nodes s t n out1 r) o (line_grows s t n o1 line h) e

pub head-drop : (k : ℕ) (xs : List ExecPacket) → get_elem? (drop k xs) 0 ≡ get_elem? xs k
head-drop zero xs = refl
head-drop (suc k) [] = refl
head-drop (suc k) (x ∷ xs) = head-drop k xs

pub drop-drop : (k : ℕ) (xs : List ExecPacket) → drop 1 (drop k xs) ≡ drop (suc k) xs
drop-drop zero xs = refl
drop-drop (suc k) [] = refl
drop-drop (suc k) (x ∷ xs) = drop-drop k xs

pub has_some-drop : (k : ℕ) (xs : List ExecPacket) → has_some (some (drop k xs)) ≡ ltb k (length xs)
has_some-drop zero [] = refl
has_some-drop zero (x ∷ xs) = ground arith
has_some-drop (suc k) [] = ground arith
has_some-drop (suc k) (x ∷ xs) = has_some-drop k xs ∙ ground arith

pub all_of_mem :
    (f : ℕ → Bool) (xs : List ℕ) → ((j : ℕ) → mem j xs ≡ true → f j ≡ true) → all f xs ≡ true
all_of_mem f [] h = refl
all_of_mem f (x ∷ xs) h = rw (h x (ground arith)) (all_of_mem f xs (λ j m. h j (ground arith)))

pub all-runs_nth :
    (xs : List ExecPacket) (k : ℕ) (x : ExecPacket)
    → all runs xs ≡ true
    → get_elem? xs k ≡ some x
    → runs x ≡ true
all-runs_nth [] k x h e = cc
all-runs_nth (y ∷ xs) zero x h e = ground arith
all-runs_nth (y ∷ xs) (suc k) x h e = all-runs_nth xs k x (ground arith) e

pub all-runs_line :
    (s : Streams) (k : ℕ) (order : List ℕ) (line : List ExecPacket)
    → ((j : ℕ) → all runs (s j) ≡ true)
    → map (nth s k) order ≡ map some line
    → all runs line ≡ true
all-runs_line s k [] [] r h = refl
all-runs_line s k [] (x ∷ line) r h = cc
all-runs_line s k (i ∷ order) [] r h = cc
all-runs_line s k (i ∷ order) (x ∷ line) r h =
    rw (all-runs_nth (s i) k x (r i) (cc)) (all-runs_line s k order line r (cc))
