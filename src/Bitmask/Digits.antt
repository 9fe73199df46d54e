-- ===== src/Bitmask/Digits.antt =====
-- bitmask.go: `Has`, `Set` and `Clear` read and write one digit of one word.
use pecs.Prelude.{
  ℕ, zero, suc, ◌/◌, ◌%◌, ◌^◌, ◌≤◌, ◌<◌, ◌≡◌, true, false, bit_or, arith, ◌==◌, if◌then◌else◌,
}
use pecs.Prelude.Bits.{
  bit, and_not, bit-lt, bit-bit_or, bit-and_not, bit-pow_self, bit-pow_ne, bit_and-pow_zero,
  bit_and-pow_one, bit_or-lt, and_not-lt,
}
use pecs.Bitmask.{Bitmask, word, set_word, set, clear, has, IsMask}
use native.Mathlib.Nat.{pow-le-pow_right, pow-suc}

-- The digit of a mask at an index.
abbrev pub digit : Bitmask → ℕ → ℕ
digit m id = bit (id % 64) (word m (id / 64))

pub has-digit : (m : Bitmask) (id : ℕ) → has m id ≡ (digit m id == 1)
unfolding has
has-digit m id = ground (
  arith,
  bit-lt (id % 64) (word m (id / 64)),
  bit_and-pow_zero (id % 64) (word m (id / 64)),
  bit_and-pow_one (id % 64) (word m (id / 64)),
)

pub word-set_word :
    (m : Bitmask) (i j v : ℕ)
    → i < 4
    → j < 4
    → word (set_word m i v) j ≡ (if i == j then v else word m j)
word-set_word m i j v hi hj = ground arith

-- Two indices below 256 in one word differ in their digit.
digit_of_set_word :
    (m : Bitmask) (i j v : ℕ)
    → i < 256
    → j < 256
    → digit (set_word m (i / 64) v) j ≡ (if i / 64 == j / 64 then bit (j % 64) v else digit m j)
digit_of_set_word m i j v hi hj =
    ground (arith, word-set_word m (i / 64) (j / 64) v (omega arith) (omega arith))

pub digit-set :
    (m : Bitmask) (i j : ℕ)
    → i < 256
    → j < 256
    → digit (set m i) j ≡ (if i == j then 1 else digit m j)
unfolding set
digit-set m i j hi hj = ground (
  arith,
  digit_of_set_word m i j (bit_or (word m (i / 64)) (2 ^ (i % 64))) hi hj,
  bit-bit_or (j % 64) (word m (i / 64)) (2 ^ (i % 64)),
  bit-pow_self (i % 64),
  bit-pow_ne (j % 64) (i % 64),
  bit-lt (j % 64) (word m (j / 64)),
)

pub digit-clear :
    (m : Bitmask) (i j : ℕ)
    → i < 256
    → j < 256
    → digit (clear m i) j ≡ (if i == j then 0 else digit m j)
unfolding clear
digit-clear m i j hi hj = ground (
  arith,
  digit_of_set_word m i j (and_not (word m (i / 64)) (2 ^ (i % 64))) hi hj,
  bit-and_not (j % 64) (word m (i / 64)) (2 ^ (i % 64)),
  bit-pow_self (i % 64),
  bit-pow_ne (j % 64) (i % 64),
  bit-lt (j % 64) (word m (j / 64)),
)

-- Setting an index adds that index and no other.
pub has-set :
    (m : Bitmask) (i j : ℕ)
    → i < 256
    → j < 256
    → has (set m i) j ≡ (if i == j then true else has m j)
has-set m i j hi hj = ground (arith, has-digit (set m i) j, has-digit m j, digit-set m i j hi hj)

-- Clearing an index removes that index and no other.
pub has-clear :
    (m : Bitmask) (i j : ℕ)
    → i < 256
    → j < 256
    → has (clear m i) j ≡ (if i == j then false else has m j)
has-clear m i j hi hj =
    ground (arith, has-digit (clear m i) j, has-digit m j, digit-clear m i j hi hj)

pow_fits : (k : ℕ) → k < 64 → 2 ^ k < 2 ^ 64
pow_fits k h =
    omega
      (arith, pow-suc 2 k, pow-le-pow_right {n = 2} (omega arith) {i = suc k} {j = 64} h, one_le k)
  where
    one_le : (n : ℕ) → 1 ≤ 2 ^ n
    one_le zero = omega arith
    one_le (suc n) = omega (arith, pow-suc 2 n, one_le n)

word_fits : (m : Bitmask) (i : ℕ) → IsMask m → word m i < 2 ^ 64
word_fits m i v = ground arith

set_word-IsMask : (m : Bitmask) (i w : ℕ) → IsMask m → w < 2 ^ 64 → IsMask (set_word m i w)
set_word-IsMask m i w v h = ground arith

pub set-IsMask : (m : Bitmask) (i : ℕ) → IsMask m → IsMask (set m i)
unfolding set
set-IsMask m i v =
    set_word-IsMask m (i / 64) _ v
      (bit_or-lt 64 _ _ (word_fits m (i / 64) v) (pow_fits (i % 64) (omega arith)))

pub clear-IsMask : (m : Bitmask) (i : ℕ) → IsMask m → IsMask (clear m i)
unfolding clear
clear-IsMask m i v = set_word-IsMask m (i / 64) _ v (and_not-lt 64 _ _ (word_fits m (i / 64) v))
