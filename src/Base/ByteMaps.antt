-- ===== src/Base/ByteMaps.antt =====
-- Go's maps with a byte string or a byte array as the key: association lists, a key at most once.
use mathlib.Core.Path.{◌≡◌, refl, sym, ap, ◌∙◌}
use mathlib.Core.Bool.{true}
use mathlib.Core.Option.{Option, none, some}
use mathlib.Core.List.{List, [], ◌∷◌}
use native.Mathlib.Omega.{arith}
use go_consensus.Base.Tests.{if◌then◌else◌}
use go_consensus.Base.Lists.{Bytes, eq_bytes, eq_bytes_iff}

abbrev pub ByteMap {ℓ} : Type ℓ → Type ℓ
ByteMap V = List (Bytes × V)

eq_bytes_trans : (a b c : Bytes) → eq_bytes a b ≡ true → eq_bytes a c ≡ eq_bytes b c
eq_bytes_trans a b c h = ap (λ x. eq_bytes x c) ((eq_bytes_iff a b).0 h)

eq_bytes_join : (a b c : Bytes) → eq_bytes a c ≡ true → eq_bytes b c ≡ true → eq_bytes a b ≡ true
eq_bytes_join a b c h e =
    (eq_bytes_iff a b).1 ((eq_bytes_iff a c).0 h ∙ sym ((eq_bytes_iff b c).0 e))

pub eq_bytes_refl : (a : Bytes) → eq_bytes a a ≡ true
eq_bytes_refl a = (eq_bytes_iff a a).1 refl

module _ {ℓ} {V : Type ℓ} where
  -- `m[k]`, with what Go's second result tells.
  unfoldable pub read : Bytes → ByteMap V → Option V
  read k [] = none
  read k ((key, x) ∷ entries) = if eq_bytes key k then some x else read k entries

  -- `m[k] = v`.
  unfoldable pub write : Bytes → V → ByteMap V → ByteMap V
  write k new [] = (k, new) ∷ []
  write k new ((key, x) ∷ entries) =
      if eq_bytes key k then (k, new) ∷ entries else (key, x) ∷ write k new entries

  -- `delete(m, k)`.
  unfoldable pub remove : Bytes → ByteMap V → ByteMap V
  remove k [] = []
  remove k ((key, x) ∷ entries) =
      let rest = remove k entries in if eq_bytes key k then rest else (key, x) ∷ rest

  pub read-write :
      (k j : Bytes) (new : V) (kv : ByteMap V)
      → read j (write k new kv) ≡ (if eq_bytes k j then some new else read j kv)
  unfolding read write
  read-write k j new [] = refl
  read-write k j new ((key, x) ∷ entries) =
      ground (arith, read-write k j new entries, eq_bytes_trans key k j, eq_bytes_join key k j)

module _ {ℓ} {V : Type ℓ} where
  pub read-write_self : (k : Bytes) (new : V) (kv : ByteMap V) → read k (write k new kv) ≡ some new
  read-write_self k new kv = ground (arith, read-write k k new kv, eq_bytes_refl k)
