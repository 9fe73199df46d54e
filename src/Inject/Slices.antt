-- ===== src/Inject/Slices.antt =====
-- inject.go: setSliceFromPtrs and clearSlice on the header and the array of a slice.
use pecs.Prelude.{
  ℕ, suc, ◌≤◌, ◌≡◌, refl, ap, List, [], ◌∷◌, arith, length, take, leb, Bool-cases, inl, inr,
}
use pecs.Inject.{PtrSlice, copy_into, set_slice}

-- The elements of a slice.
abbrev pub elements : PtrSlice → List ℕ
elements s = take s.len s.backing

take-length : (xs : List ℕ) → take (length xs) xs ≡ xs
take-length [] = refl
take-length (x ∷ xs) = ap (◌∷◌ x) (take-length xs)

take-copy_into :
    (ptrs existing : List ℕ)
    → length ptrs ≤ length existing
    → take (length ptrs) (copy_into ptrs existing) ≡ ptrs
unfolding copy_into
take-copy_into [] existing h = refl
take-copy_into (p ∷ ptrs) [] h = absurd (omega arith)
take-copy_into (p ∷ ptrs) (e ∷ existing) h = ap (◌∷◌ p) (take-copy_into ptrs existing (omega arith))

length-copy_into : (ptrs existing : List ℕ) → length (copy_into ptrs existing) ≡ length existing
unfolding copy_into
length-copy_into [] existing = refl
length-copy_into (p ∷ ptrs) [] = refl
length-copy_into (p ∷ ptrs) (e ∷ existing) = ap suc (length-copy_into ptrs existing)

pub elements-set_slice : (ptrs : List ℕ) (dst : PtrSlice) → elements (set_slice ptrs dst) ≡ ptrs
unfolding set_slice
elements-set_slice [] dst = refl
elements-set_slice (p ∷ ptrs) dst =
    elim (Bool-cases (leb (length (p ∷ ptrs)) (length dst.backing))) [
      | inl e ↦ rw e (take-copy_into (p ∷ ptrs) dst.backing (ground arith))
      | inr e ↦ rw e (take-length (p ∷ ptrs))
    ]

-- The slice never has more elements than its array holds, and the array is replaced only by one that
-- is larger.
pub set_slice-fits :
    (ptrs : List ℕ) (dst : PtrSlice)
    → dst.len ≤ length dst.backing
    → ((set_slice ptrs dst).len ≤ length (set_slice ptrs dst).backing)
      × (length dst.backing ≤ length (set_slice ptrs dst).backing)
      × (length ptrs ≤ length dst.backing
          → length (set_slice ptrs dst).backing ≡ length dst.backing)
unfolding set_slice
set_slice-fits [] dst h = (omega arith, omega arith, λ k. refl)
set_slice-fits (p ∷ ptrs) dst h = elim (Bool-cases (leb (length (p ∷ ptrs)) (length dst.backing))) [
  | inl e ↦
      let l = length-copy_into (p ∷ ptrs) dst.backing in
      rw e (ground (arith, l), omega (arith, l), λ k. l)
  | inr e ↦ rw e (omega arith, ground arith, λ k. ground arith)
]
