-- ===== src/Base/Assoc.antt =====
-- Go's maps with a `uint64` key: association lists, a key at most once.
use Prim.Native.Nat.{ℕ, suc}
use mathlib.Core.Path.{◌≡◌, refl}
use mathlib.Core.Bool.{true, false}
use mathlib.Core.Option.{Option, none, some}
use mathlib.Core.List.{List, [], ◌∷◌}
use native.Mathlib.Omega.{arith}
use go_consensus.Base.Tests.{◌==◌, if◌then◌else◌, is_some}
use go_consensus.Base.Lists.{length}
use go_consensus.Base.Sets.{mem, Distinct}

abbrev pub Map {ℓ} : Type ℓ → Type ℓ
Map V = List (ℕ × V)

module _ {ℓ} {V : Type ℓ} where
  -- `delete(m, k)`.
  unfoldable pub erase : ℕ → Map V → Map V
  erase k [] = []
  erase k ((key, old) ∷ entries) =
      let rest = erase k entries in if key == k then rest else (key, old) ∷ rest

  unfoldable pub keys : Map V → List ℕ
  keys [] = []
  keys ((key, old) ∷ entries) = key ∷ keys entries

  unfoldable pub values : Map V → List V
  values [] = []
  values ((key, old) ∷ entries) = old ∷ values entries

  -- `m[k]`, with what Go's second result tells.
  unfoldable pub lookup : ℕ → Map V → Option V
  lookup k [] = none
  lookup k ((key, old) ∷ entries) = if key == k then some old else lookup k entries

  -- `m[k] = v`.
  unfoldable pub insert : ℕ → V → Map V → Map V
  insert k new [] = (k, new) ∷ []
  insert k new ((key, old) ∷ entries) =
      if key == k then (k, new) ∷ entries else (key, old) ∷ insert k new entries

  pub lookup-insert :
      (k j : ℕ) (new : V) (entries : Map V)
      → lookup j (insert k new entries) ≡ (if k == j then some new else lookup j entries)
  unfolding lookup insert
  lookup-insert k j new [] = refl
  lookup-insert k j new ((key, old) ∷ entries) = ground (arith, lookup-insert k j new entries)

  pub lookup-erase :
      (k j : ℕ) (entries : Map V)
      → lookup j (erase k entries) ≡ (if k == j then none else lookup j entries)
  unfolding lookup erase
  lookup-erase k j [] = ground arith
  lookup-erase k j ((key, old) ∷ entries) = ground (arith, lookup-erase k j entries)

  pub length-insert :
      (k : ℕ) (new : V) (entries : Map V)
      → length (insert k new entries)
        ≡ (if is_some (lookup k entries) then length entries else suc (length entries))
  unfolding lookup insert
  length-insert k new [] = refl
  length-insert k new ((key, old) ∷ entries) = ground (arith, length-insert k new entries)

  pub mem-keys-lookup :
      (k : ℕ) (entries : Map V) → mem k (keys entries) ≡ is_some (lookup k entries)
  unfolding lookup keys
  mem-keys-lookup k [] = refl
  mem-keys-lookup k ((key, old) ∷ entries) = ground (arith, mem-keys-lookup k entries)

  pub mem-keys-insert :
      (k j : ℕ) (new : V) (entries : Map V)
      → mem j (keys (insert k new entries)) ≡ (if k == j then true else mem j (keys entries))
  unfolding insert keys
  mem-keys-insert k j new [] = ground arith
  mem-keys-insert k j new ((key, old) ∷ entries) = ground (arith, mem-keys-insert k j new entries)

  pub keys-insert-Distinct :
      (k : ℕ) (new : V) (entries : Map V)
      → Distinct (keys entries)
      → Distinct (keys (insert k new entries))
  unfolding insert keys
  keys-insert-Distinct k new [] d = (refl, tt)
  keys-insert-Distinct k new ((key, old) ∷ entries) d =
      ground (arith, keys-insert-Distinct k new entries, mem-keys-insert k key new entries)

  pub mem-keys-erase :
      (k j : ℕ) (entries : Map V)
      → mem j (keys (erase k entries)) ≡ (if k == j then false else mem j (keys entries))
  unfolding erase keys
  mem-keys-erase k j [] = ground arith
  mem-keys-erase k j ((key, old) ∷ entries) = ground (arith, mem-keys-erase k j entries)

  pub keys-erase-Distinct :
      (k : ℕ) (entries : Map V) → Distinct (keys entries) → Distinct (keys (erase k entries))
  unfolding erase keys
  keys-erase-Distinct k [] d = tt
  keys-erase-Distinct k ((key, old) ∷ entries) d =
      ground (arith, keys-erase-Distinct k entries, mem-keys-erase k key entries)

module _ {ℓ} {V : Type ℓ} where
  pub lookup-insert_self :
      (k : ℕ) (new : V) (entries : Map V) → lookup k (insert k new entries) ≡ some new
  lookup-insert_self k new entries = ground (arith, lookup-insert k k new entries)

  pub lookup-erase_self : (k : ℕ) (entries : Map V) → lookup k (erase k entries) ≡ none
  lookup-erase_self k entries = ground (arith, lookup-erase k k entries)
