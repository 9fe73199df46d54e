-- ===== src/Bitmask/Algebra.antt =====
-- bitmask.go: `Or`, `And`, `AndNot` index by index, and `Count` as the number of indices set.
use pecs.Prelude.{
  ℕ, zero, suc, ◌+◌, ◌*◌, ◌/◌, ◌%◌, ◌<◌, ◌≡◌, refl, ◌∙◌, Bool, not, ◌&&◌, ◌||◌, bit_and, bit_or,
  arith, if◌then◌else◌,
}
use pecs.Prelude.Bits.{bit, and_not, bit-lt, bit-bit_and, bit-bit_or, bit-and_not, bit_or-lt}
use pecs.Bitmask.{
  Bitmask, word, has, or_mask, and_mask, and_not_mask, ones_count, count_bits, IsMask,
}
use pecs.Bitmask.Digits.{has-digit}
use pecs.Bitmask.Containment.{has_at}

word-or_mask :
    (m other : Bitmask) (i : ℕ) → word (or_mask m other) i ≡ bit_or (word m i) (word other i)
unfolding or_mask
word-or_mask m other i = ground arith

-- `Or` has the indices of either mask.
pub has-or_mask :
    (m other : Bitmask) (id : ℕ) → has (or_mask m other) id ≡ (has m id || has other id)
has-or_mask m other id = ground (
  arith,
  has-digit (or_mask m other) id,
  has-digit m id,
  has-digit other id,
  word-or_mask m other (id / 64),
  bit-bit_or (id % 64) (word m (id / 64)) (word other (id / 64)),
  bit-lt (id % 64) (word m (id / 64)),
  bit-lt (id % 64) (word other (id / 64)),
)

word-and_mask :
    (m other : Bitmask) (i : ℕ) → word (and_mask m other) i ≡ bit_and (word m i) (word other i)
unfolding and_mask
word-and_mask m other i = ground arith

-- `And` has the indices of both.
pub has-and_mask :
    (m other : Bitmask) (id : ℕ) → has (and_mask m other) id ≡ (has m id && has other id)
has-and_mask m other id = ground (
  arith,
  has-digit (and_mask m other) id,
  has-digit m id,
  has-digit other id,
  word-and_mask m other (id / 64),
  bit-bit_and (id % 64) (word m (id / 64)) (word other (id / 64)),
  bit-lt (id % 64) (word m (id / 64)),
  bit-lt (id % 64) (word other (id / 64)),
)

word-and_not_mask :
    (m other : Bitmask) (i : ℕ) → word (and_not_mask m other) i ≡ and_not (word m i) (word other i)
unfolding and_not_mask
word-and_not_mask m other i = ground arith

-- `AndNot` has the indices of the first that the second lacks.
pub has-and_not_mask :
    (m other : Bitmask) (id : ℕ) → has (and_not_mask m other) id ≡ (has m id && not (has other id))
has-and_not_mask m other id = ground (
  arith,
  has-digit (and_not_mask m other) id,
  has-digit m id,
  has-digit other id,
  word-and_not_mask m other (id / 64),
  bit-and_not (id % 64) (word m (id / 64)) (word other (id / 64)),
  bit-lt (id % 64) (word m (id / 64)),
  bit-lt (id % 64) (word other (id / 64)),
)

pub or_mask-IsMask : (m other : Bitmask) → IsMask m → IsMask other → IsMask (or_mask m other)
unfolding or_mask
or_mask-IsMask m other v w = record {
  fits0 = bit_or-lt 64 m.w0 other.w0 v.fits0 w.fits0;
  fits1 = bit_or-lt 64 m.w1 other.w1 v.fits1 w.fits1;
  fits2 = bit_or-lt 64 m.w2 other.w2 v.fits2 w.fits2;
  fits3 = bit_or-lt 64 m.w3 other.w3 v.fits3 w.fits3;
}

-- The sum of the first `n` values.
unfoldable pub sum_below : ℕ → (ℕ → ℕ) → ℕ
sum_below zero f = 0
sum_below (suc n) f = sum_below n f + f n

sum_below_first : (n : ℕ) (f : ℕ → ℕ) → sum_below (suc n) f ≡ f 0 + sum_below n (λ k. f (suc k))
unfolding sum_below
sum_below_first zero f = omega arith
sum_below_first (suc n) f = omega (arith, sum_below_first n f)

sum_below_split :
    (n m : ℕ) (f : ℕ → ℕ) → sum_below (n + m) f ≡ sum_below n f + sum_below m (λ k. f (n + k))
unfolding sum_below
sum_below_split n zero f = let e : n + 0 ≡ n = omega arith in rw e (omega arith)
sum_below_split n (suc m) f =
    let e : n + suc m ≡ suc (n + m) = omega arith in rw e (omega (arith, sum_below_split n m f))

sum_below_ext :
    (n : ℕ) (f g : ℕ → ℕ) → ((k : ℕ) → k < n → f k ≡ g k) → sum_below n f ≡ sum_below n g
unfolding sum_below
sum_below_ext zero f g h = refl
sum_below_ext (suc n) f g h =
    omega (arith, sum_below_ext n f g (λ k l. h k (omega arith)), h n (omega arith))

ones_count_sum : (n w : ℕ) → ones_count n w ≡ sum_below n (λ k. bit k w)
unfolding ones_count sum_below bit
ones_count_sum zero w = refl
ones_count_sum (suc n) w = omega (arith, ones_count_sum n (w / 2), sum_below_first n (λ k. bit k w))

abbrev one_if : Bool → ℕ
one_if b = if b then 1 else 0

ones_of_word :
    (m : Bitmask) (i : ℕ)
    → i < 4
    → ones_count 64 (word m i) ≡ sum_below 64 (λ k. one_if (has m (64 * i + k)))
ones_of_word m i h =
    ones_count_sum 64 (word m i)
    ∙ sum_below_ext 64 _ _ (λ k l. ground (arith, has_at m i k h l, bit-lt k (word m i)))

sum_below_zero : (f : ℕ → ℕ) → sum_below 0 f ≡ 0
unfolding sum_below
sum_below_zero f = refl

-- `Count` is the number of indices below 256 that are set.
pub count_bits_lem : (m : Bitmask) → count_bits m ≡ sum_below 256 (λ id. one_if (has m id))
unfolding count_bits
count_bits_lem m =
    let f : ℕ → ℕ = λ id. one_if (has m id) in
    omega (
      arith,
      sum_below_split 192 64 f,
      sum_below_split 128 64 f,
      sum_below_split 64 64 f,
      sum_below_split 0 64 f,
      sum_below_zero f,
      ones_of_word m 0 (omega arith),
      ones_of_word m 1 (omega arith),
      ones_of_word m 2 (omega arith),
      ones_of_word m 3 (omega arith),
    )
