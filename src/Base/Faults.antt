-- ===== src/Base/Faults.antt =====
-- What a handler returns: the new state, or a fault that ends the process. `logger.Panicf`,
-- `logger.Fatalf`, `panic` and a nil dereference are all faults.
use mathlib.Core.Path.{◌≡◌, refl}
use mathlib.Core.Logic.{◌⊎◌, inl, inr}
use mathlib.Core.Bool.{Bool, true, false, not}
use go_consensus.Base.Tests.{if◌then◌else◌}

pub data Outcome {ℓ} (S : Type ℓ) : Type ℓ where
  fault : Outcome S
  ok : S → Outcome S

-- The rest of a handler runs only on a state.
infixl 5 ◌>>=◌
abbrev pub ◌>>=◌ {ℓ κ} : {S : Type ℓ} {T : Type κ} → Outcome S → (S → Outcome T) → Outcome T
fault >>= rest = fault
ok s >>= rest = rest s

-- A handler that returned a state had one after its first part too.
pub ok_of_bind {ℓ κ} :
    {S : Type ℓ} {T : Type κ} (part : Outcome S) (rest : S → Outcome T) {t : T}
    → (part >>= rest) ≡ ok t
    → (s : S) × (part ≡ ok s) × (rest s ≡ ok t)
ok_of_bind fault rest e = cc
ok_of_bind (ok s) rest e = (s, refl, e)

-- The result satisfies `P`, if there is one.
abbrev pub Gives {ℓ κ} : {A : Type ℓ} → (A → Type κ) → Outcome A → Type κ
Gives P (ok a) = P a
Gives P fault = Unit

-- A fault did not happen.
abbrev pub is_ok {ℓ} : {A : Type ℓ} → Outcome A → Bool
is_ok (ok a) = true
is_ok fault = false

pub ok-injective {ℓ} : {A : Type ℓ} {a b : A} → ok a ≡ ok b → a ≡ b
ok-injective h = cc

-- A result behind a test that faults.
pub ok_of_guard {ℓ} :
    {A : Type ℓ} (b : Bool) (m : Outcome A) {a : A} → (if not b then fault else m) ≡ ok a → m ≡ ok a
ok_of_guard true m h = h
ok_of_guard false m h = cc

-- The branch that a handler which returned took.
pub if_ok {ℓ} :
    {A : Type ℓ} (b : Bool) (m k : Outcome A) {a : A}
    → (if b then m else k) ≡ ok a
    → ((b ≡ true) × (m ≡ ok a)) ⊎ ((b ≡ false) × (k ≡ ok a))
if_ok true m k h = inl (refl, h)
if_ok false m k h = inr (refl, h)
