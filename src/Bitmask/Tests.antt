-- ===== src/Bitmask/Tests.antt =====
-- bitmask.go: the theorems on masks at concrete masks, and runs.
use pecs.Prelude.{ℕ, ◌<◌, ◌≡◌, refl, ◌↔◌, true, false, arith}
use pecs.Bitmask.{
  Bitmask, no_bits, set, clear, has, contains_all, is_disjoint, is_zero, count_bits, ones_count,
  IsMask,
}
use pecs.Bitmask.Digits.{has-set, has-clear}
use pecs.Bitmask.Containment.{Covers, Shares, contains_all_iff, is_disjoint_iff, is_zero_iff}

-- Indices 3, 70 and 200, and the last of them alone.
abbrev scattered : Bitmask
scattered = record { w0 = 8; w1 = 64; w2 = 0; w3 = 256 }

abbrev high_only : Bitmask
high_only = record { w0 = 0; w1 = 0; w2 = 0; w3 = 256 }

high_only-IsMask : IsMask high_only
high_only-IsMask = omega arith

scattered-IsMask : IsMask scattered
scattered-IsMask = omega arith

set_runs : set (set (set no_bits 200) 3) 70 ≡ scattered
unfolding set
set_runs = refl

count_runs : count_bits scattered ≡ 3
unfolding count_bits ones_count
count_runs = refl

has-set_example : has (set no_bits 200) 70 ≡ has no_bits 70
has-set_example = has-set no_bits 200 70 (omega arith) (omega arith)

has-clear_example : has (clear scattered 70) 70 ≡ false
has-clear_example = has-clear scattered 70 70 (omega arith) (omega arith)

contains_all_iff_example : (contains_all scattered high_only ≡ true) ↔ Covers scattered high_only
contains_all_iff_example = contains_all_iff scattered high_only high_only-IsMask

is_disjoint_iff_example : (is_disjoint scattered high_only ≡ true) ↔ (¬ Shares scattered high_only)
is_disjoint_iff_example = is_disjoint_iff scattered high_only high_only-IsMask

is_zero_iff_example : (is_zero high_only ≡ true) ↔ ((id : ℕ) → id < 256 → has high_only id ≡ false)
is_zero_iff_example = is_zero_iff high_only high_only-IsMask
