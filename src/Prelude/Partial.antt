-- ===== src/Prelude/Partial.antt =====
-- Runs that may fail: `none` is a run-time panic, or fuel of the model that ran out.
-- `Yields P r` says that the run ends normally, in a value that satisfies `P`.
use mathlib.Core.Path.{◌≡◌, refl, ap, subst}
use mathlib.Core.Bool.{Bool, true, false}
use mathlib.Core.Option.{Option, none, some}
use pecs.Prelude.Tests.{if◌then◌else◌}

infixl 5 ◌>>=◌
abbrev pub ◌>>=◌ {ℓ κ} : {A : Type ℓ} {B : Type κ} → Option A → (A → Option B) → Option B
none >>= f = none
some a >>= f = f a

pub data Yields {ℓ κ} {A : Type ℓ} (P : A → Type κ) : Option A → Type (ℓ ⊔ κ) where
  yields : {a : A} → P a → Yields P (some a)

module _ {ℓ κ} {A : Type ℓ} {P : A → Type κ} where
  pub Yields-then {ℓ' κ'} :
      {B : Type ℓ'} {Q : B → Type κ'} {r : Option A} {f : A → Option B}
      → Yields P r
      → ((a : A) → P a → Yields Q (f a))
      → Yields Q (r >>= f)
  Yields-then (yields p) k = k _ p

  pub Yields-mono {κ'} :
      {Q : A → Type κ'} {r : Option A} → Yields P r → ((a : A) → P a → Q a) → Yields Q r
  Yields-mono (yields p) k = yields (k _ p)

  pub Yields-split :
      {x y : Option A} (b : Bool)
      → (b ≡ true → Yields P x)
      → (b ≡ false → Yields P y)
      → Yields P (if b then x else y)
  Yields-split true p q = p refl
  Yields-split false p q = q refl

pub Yields-value {ℓ κ} :
    {A : Type ℓ} (P : A → Type κ) {r : Option A} {a : A} → Yields P r → r ≡ some a → P a
Yields-value P (yields {a = b} p) e = subst P (ap (λ o. elim o [ none ↦ b | some x ↦ x ]) e) p
