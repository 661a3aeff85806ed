-- ===== src/Base/Sets.antt =====
-- Lists of distinct numbers as finite sets, and the counting that quorums rest on.
use Prim.Native.Nat.{ℕ, suc, ◌+◌, ◌≤◌, ◌<◌}
use mathlib.Core.Path.{◌≡◌, refl}
use mathlib.Core.Bool.{Bool, true, false, not}
use mathlib.Core.List.{List, [], ◌∷◌, ◌++◌}
use native.Mathlib.Omega.{arith}
use go_consensus.Base.Tests.{◌==◌, if◌then◌else◌}
use go_consensus.Base.Lists.{length, select, length-append}

abbrev pub mem : ℕ → List ℕ → Bool
mem x [] = false
mem x (y ∷ ys) = if x == y then true else mem x ys

-- No number occurs twice.
abbrev pub Distinct : List ℕ → Type 0
Distinct [] = Unit {0}
Distinct (x ∷ xs) = (mem x xs ≡ false) × Distinct xs

abbrev pub Subset : List ℕ → List ℕ → Type 0
Subset xs ys = (x : ℕ) → mem x xs ≡ true → mem x ys ≡ true

drop_one : ℕ → List ℕ → List ℕ
drop_one x [] = []
drop_one x (y ∷ ys) = if x == y then ys else y ∷ drop_one x ys

length-drop_one : (x : ℕ) (ys : List ℕ) → mem x ys ≡ true → suc (length (drop_one x ys)) ≡ length ys
unfolding drop_one
length-drop_one x [] h = cc
length-drop_one x (y ∷ ys) h = ground (arith, length-drop_one x ys)

mem-drop_one :
    (x z : ℕ) (ys : List ℕ) → (x == z) ≡ false → mem z ys ≡ true → mem z (drop_one x ys) ≡ true
unfolding drop_one
mem-drop_one x z [] n h = cc
mem-drop_one x z (y ∷ ys) n h = ground (arith, mem-drop_one x z ys)

mem_ne : (x z : ℕ) (xs : List ℕ) → mem x xs ≡ false → mem z xs ≡ true → (x == z) ≡ false
mem_ne x z [] n h = cc
mem_ne x z (y ∷ ys) n h = ground (arith, mem_ne x z ys)

Subset-drop_one :
    (x : ℕ) (xs ys : List ℕ) → mem x xs ≡ false → Subset (x ∷ xs) ys → Subset xs (drop_one x ys)
Subset-drop_one x xs ys n s z h = mem-drop_one x z ys (mem_ne x z xs n h) (s z (ground arith))

-- Pigeonhole: a set of members of `ys` is no larger than `ys`.
pub length_le_of_Subset : (xs ys : List ℕ) → Distinct xs → Subset xs ys → length xs ≤ length ys
length_le_of_Subset [] ys d s = omega arith
length_le_of_Subset (x ∷ xs) ys d s = omega (
  arith,
  length-drop_one x ys (s x (ground arith)),
  length_le_of_Subset xs (drop_one x ys) d.1 (Subset-drop_one x xs ys d.0 s),
)

module _ (ys : List ℕ) where
  -- The members of a list that are, and that are not, in `ys`.
  abbrev pub common : List ℕ → List ℕ
  common = select (λ x. mem x ys)

  outside : List ℕ → List ℕ
  outside = select (λ x. not (mem x ys))

  mem-outside : (z : ℕ) (xs : List ℕ) → mem z (outside xs) ≡ true → mem z xs ≡ true
  unfolding outside
  mem-outside z [] h = h
  mem-outside z (x ∷ xs) h = ground (arith, mem-outside z xs)

  mem-outside_not : (z : ℕ) (xs : List ℕ) → mem z (outside xs) ≡ true → mem z ys ≡ false
  unfolding outside
  mem-outside_not z [] h = cc
  mem-outside_not z (x ∷ xs) h = ground (arith, mem-outside_not z xs)

  outside-Distinct : (xs : List ℕ) → Distinct xs → Distinct (outside xs)
  unfolding outside
  outside-Distinct [] d = tt
  outside-Distinct (x ∷ xs) d = ground (arith, outside-Distinct xs, mem-outside x xs)

  length-split : (xs : List ℕ) → length xs ≡ length (common xs) + length (outside xs)
  unfolding outside
  length-split [] = omega arith
  length-split (x ∷ xs) = ground (arith, length-split xs)

mem-append : (z : ℕ) (xs ys : List ℕ) → mem z (xs ++ ys) ≡ (if mem z xs then true else mem z ys)
mem-append z [] ys = refl
mem-append z (x ∷ xs) ys = ground (arith, mem-append z xs ys)

append-Distinct :
    (xs ys : List ℕ)
    → Distinct xs
    → Distinct ys
    → ((z : ℕ) → mem z xs ≡ true → mem z ys ≡ false)
    → Distinct (xs ++ ys)
append-Distinct [] ys dx dy n = dy
append-Distinct (x ∷ xs) ys dx dy n =
    (ground (arith, mem-append x xs ys, n x), append-Distinct xs ys dx.1 dy apart)
  where
    apart : (z : ℕ) → mem z xs ≡ true → mem z ys ≡ false
    apart z h = n z (ground arith)

-- Two sets among `nodes` share at least as many members as their sizes exceed its size.
pub length-common :
    (nodes xs ys : List ℕ)
    → Distinct xs
    → Distinct ys
    → Subset xs nodes
    → Subset ys nodes
    → length xs + length ys ≤ length nodes + length (common ys xs)
length-common nodes xs ys dx dy sx sy =
    omega (arith, length-split ys xs, length-append (outside ys xs) ys, bound)
  where
    inside : Subset (outside ys xs ++ ys) nodes
    inside z h = ground (arith, mem-append z (outside ys xs) ys, mem-outside ys z xs, sx z, sy z)

    bound : length (outside ys xs ++ ys) ≤ length nodes
    bound =
        length_le_of_Subset (outside ys xs ++ ys) nodes
          (append-Distinct (outside ys xs) ys (outside-Distinct ys xs dx) dy
            (λ z. mem-outside_not ys z xs))
          inside

pub mem-select :
    (p : ℕ → Bool) (z : ℕ) (xs : List ℕ)
    → mem z (select p xs) ≡ true
    → (p z ≡ true) × (mem z xs ≡ true)
mem-select p z [] h = cc
mem-select p z (x ∷ xs) h = ground (arith, mem-select p z xs, equal)
  where
    equal : (z == x) ≡ true → z ≡ x
    equal e = ground arith

pub select-Distinct : (p : ℕ → Bool) (xs : List ℕ) → Distinct xs → Distinct (select p xs)
select-Distinct p [] d = tt
select-Distinct p (x ∷ xs) d = ground (arith, select-Distinct p xs, mem-select p x xs)

Subset-common : (ys xs : List ℕ) → Subset (common ys xs) ys
Subset-common ys xs z h = (mem-select (λ x. mem x ys) z xs h).0

head_outside :
    (ys xs zs : List ℕ)
    → outside ys xs ≡ zs
    → 0 < length zs
    → (x : ℕ) × (mem x xs ≡ true) × (mem x ys ≡ false)
head_outside ys xs [] e h = absurd (omega arith)
head_outside ys xs (z ∷ zs) e h = (z, mem-outside ys z xs hit, mem-outside_not ys z xs hit)
  where
    hit : mem z (outside ys xs) ≡ true
    hit = rw e (ground arith)

-- A set larger than `ys` has a member that is not in `ys`.
pub exists_outside :
    (xs ys : List ℕ)
    → Distinct xs
    → length ys < length xs
    → (x : ℕ) × (mem x xs ≡ true) × (mem x ys ≡ false)
exists_outside xs ys d h = head_outside ys xs (outside ys xs) refl (
    omega (
      arith,
      length-split ys xs,
      length_le_of_Subset (common ys xs) ys (select-Distinct (λ x. mem x ys) xs d)
          (Subset-common ys xs),
    ))
