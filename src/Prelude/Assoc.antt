-- ===== src/Prelude/Assoc.antt =====
-- Maps with numbers for keys, as association lists: the Go maps of the program.
use mathlib.Core.Path.{◌≡◌, refl}
use mathlib.Core.List.{List, [], ◌∷◌}
use mathlib.Core.Option.{Option, none, some}
use native.Mathlib.Omega.{arith}
use Prim.Native.Nat.{ℕ}
use pecs.Prelude.Tests.{if◌then◌else◌, ◌==◌}

module _ {ℓ} {V : Type ℓ} where
  -- `v, ok := m[k]`
  unfoldable pub lookup : ℕ → List (ℕ × V) → Option V
  lookup k [] = none
  lookup k ((j, v) ∷ m) = if j == k then some v else lookup k m

  -- `m[k] = v`
  unfoldable pub insert : ℕ → V → List (ℕ × V) → List (ℕ × V)
  insert k v [] = (k, v) ∷ []
  insert k v ((j, w) ∷ m) = if j == k then (k, v) ∷ m else (j, w) ∷ insert k v m

  -- `delete(m, k)`, for a key that may stand more than once in the list.
  unfoldable pub delete : ℕ → List (ℕ × V) → List (ℕ × V)
  delete k [] = []
  delete k ((j, v) ∷ m) = if j == k then delete k m else (j, v) ∷ delete k m

  pub lookup-insert :
      (new key : ℕ) (value : V) (entries : List (ℕ × V))
      → lookup key (insert new value entries)
        ≡ (if new == key then some value else lookup key entries)
  unfolding insert lookup
  lookup-insert new key value [] = refl
  lookup-insert new key value (entry ∷ entries) =
      ground (arith, lookup-insert new key value entries)

  pub lookup-delete :
      (gone key : ℕ) (entries : List (ℕ × V))
      → lookup key (delete gone entries) ≡ (if gone == key then none else lookup key entries)
  unfolding delete lookup
  lookup-delete gone key [] = ground arith
  lookup-delete gone key (entry ∷ entries) = ground (arith, lookup-delete gone key entries)
