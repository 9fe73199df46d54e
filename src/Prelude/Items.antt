-- ===== src/Prelude/Items.antt =====
-- Lists of identities as arrays: the entry at an index, what a write does to it, and how often an
-- identity occurs.
use mathlib.Core.Path.{◌≡◌, refl, ap}
use mathlib.Core.Option.{some}
use mathlib.Core.List.{List, [], ◌∷◌, ◌++◌}
use native.Mathlib.Omega.{arith}
use Prim.Native.Nat.{ℕ, zero, suc, ◌+◌, ◌≤◌, ◌<◌}
use mathlib.Core.Logic.{inl, inr}
use pecs.Prelude.Tests.{if◌then◌else◌, ◌==◌, Bool-cases}
use pecs.Prelude.Lists.{length, get_elem?, set, take, count}

-- The entry at an index, and 0 past the end.
unfoldable pub item : List ℕ → ℕ → ℕ
item [] i = 0
item (x ∷ xs) zero = x
item (x ∷ xs) (suc i) = item xs i

pub get_elem?-item : (xs : List ℕ) (i : ℕ) → i < length xs → get_elem? xs i ≡ some (item xs i)
unfolding item
get_elem?-item [] i h = absurd (omega arith)
get_elem?-item (x ∷ xs) zero h = refl
get_elem?-item (x ∷ xs) (suc i) h = get_elem?-item xs i (omega arith)

pub item-set :
    (xs : List ℕ) (i v j : ℕ)
    → i < length xs
    → item (set xs i v) j ≡ (if i == j then v else item xs j)
unfolding item
item-set [] i v j h = absurd (omega arith)
item-set (x ∷ xs) zero v zero h = refl
item-set (x ∷ xs) zero v (suc j) h = ground arith
item-set (x ∷ xs) (suc i) v zero h = ground arith
item-set (x ∷ xs) (suc i) v (suc j) h = ground (arith, item-set xs i v j)

pub item-append : (xs ys : List ℕ) (i : ℕ) → i < length xs → item (xs ++ ys) i ≡ item xs i
unfolding item
item-append [] ys i h = absurd (omega arith)
item-append (x ∷ xs) ys zero h = refl
item-append (x ∷ xs) ys (suc i) h = item-append xs ys i (omega arith)

pub item-append_last : (xs : List ℕ) (x : ℕ) → item (xs ++ x ∷ []) (length xs) ≡ x
unfolding item
item-append_last [] x = refl
item-append_last (y ∷ xs) x = item-append_last xs x

pub item-take : (n : ℕ) (xs : List ℕ) (i : ℕ) → i < n → item (take n xs) i ≡ item xs i
unfolding item
item-take zero xs i h = absurd (omega arith)
item-take (suc n) [] i h = refl
item-take (suc n) (x ∷ xs) zero h = refl
item-take (suc n) (x ∷ xs) (suc i) h = item-take n xs i (omega arith)

pub length-take : (n : ℕ) (xs : List ℕ) → n ≤ length xs → length (take n xs) ≡ n
length-take zero xs h = refl
length-take (suc n) [] h = absurd (omega arith)
length-take (suc n) (x ∷ xs) h = ap suc (length-take n xs (omega arith))

pub take_last : (n : ℕ) (xs : List ℕ) → length xs ≡ suc n → take n xs ++ item xs n ∷ [] ≡ xs
unfolding item
take_last n [] h = absurd (omega arith)
take_last zero (x ∷ []) h = refl
take_last zero (x ∷ y ∷ xs) h = absurd (omega arith)
take_last (suc n) (x ∷ xs) h = ap (◌∷◌ x) (take_last n xs (omega arith))

-- A write trades one occurrence of the old entry for one of the new.
pub count-set :
    (a : ℕ) (xs : List ℕ) (i v : ℕ)
    → i < length xs
    → count a (set xs i v) + (if item xs i == a then 1 else 0)
      ≡ count a xs + (if v == a then 1 else 0)
unfolding item
count-set a [] i v h = absurd (omega arith)
count-set a (x ∷ xs) zero v h = ground arith
count-set a (x ∷ xs) (suc i) v h = ground (arith, count-set a xs i v)

-- An identity that occurs stands at some index.
pub index_of_count :
    (a : ℕ) (xs : List ℕ) → 0 < count a xs → (i : ℕ) × (i < length xs) × (item xs i ≡ a)
unfolding item
index_of_count a [] h = absurd (omega arith)
index_of_count a (x ∷ xs) h = elim (Bool-cases (x == a)) [
  | inl e ↦ (0, omega arith, ground arith)
  | inr n ↦ let (i, l, e) = index_of_count a xs (ground arith) in (suc i, omega arith, e)
]

pub count-item : (xs : List ℕ) (i : ℕ) → i < length xs → 0 < count (item xs i) xs
unfolding item
count-item [] i h = absurd (omega arith)
count-item (x ∷ xs) zero h = ground arith
count-item (x ∷ xs) (suc i) h = ground (arith, count-item xs i)
