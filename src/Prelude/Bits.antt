-- ===== src/Prelude/Bits.antt =====
-- The binary digits of native numbers at every width, and what `bit_and`, `bit_or` and `bit_xor`
-- do to each digit.
use Prim.Native.Nat.{
  ℕ, zero, suc, ◌+◌, ◌-◌, ◌*◌, ◌/◌, ◌%◌, ◌^◌, ◌≤◌, ◌<◌, min, max, bit_and, bit_or, bit_xor, digits,
  bitwise, differ, bit_and-bitwise, bit_or-bitwise, bit_xor-bitwise,
}
use mathlib.Core.Path.{◌≡◌, refl, ap, sym, ◌∙◌}
use mathlib.Core.Logic.{◌≢◌}
use native.Mathlib.Nat.{pow-suc, le_refl}
use native.Mathlib.Decide.{ℕ_discrete}
use native.Mathlib.Omega.{arith}

-- Digit `k` of a number, the lowest first.
unfoldable pub bit : ℕ → ℕ → ℕ
bit zero w = w % 2
bit (suc k) w = bit k (w / 2)

-- The native operations recur on a count of digits; a count past the first number's digits changes
-- nothing, so that each of them is known by what it does to the lowest digit.
module _ (end : ℕ → ℕ) (op : ℕ → ℕ → ℕ) where
  no_digits : (count y : ℕ) → digits end op count 0 y ≡ end y
  no_digits zero y = refl
  no_digits (suc count) y = refl

  spare_digits :
      (x count spare y : ℕ)
      → x ≤ count
      → digits end op (count + spare) x y ≡ digits end op count x y
  spare_digits zero count spare y h = no_digits (count + spare) y ∙ sym (no_digits count y)
  spare_digits (suc x) zero spare y h = absurd (omega arith)
  spare_digits (suc x) (suc count) spare y h =
      let one_more : suc count + spare ≡ suc (count + spare) = omega arith in
      rw (one_more, spare_digits (suc x / 2) count spare (y / 2) (omega arith))

  lowest_digit :
      ((y : ℕ) → end y ≡ end (y / 2) * 2 + op 0 (y % 2))
      → (x y : ℕ) → bitwise end op x y ≡ bitwise end op (x / 2) (y / 2) * 2 + op (x % 2) (y % 2)
  lowest_digit at_end zero y = at_end y
  lowest_digit at_end (suc x) y =
      let half : ℕ = suc x / 2 in
      let enough : half + (x - half) ≡ x = omega arith in
      omega (arith, rw enough at (spare_digits half half (x - half) (y / 2) (omega arith)))

bit_and_lowest : (a b : ℕ) → bit_and a b ≡ bit_and (a / 2) (b / 2) * 2 + min (a % 2) (b % 2)
bit_and_lowest a b = simp bit_and-bitwise (lowest_digit (λ y. 0) min (λ y. omega arith) a b)

bit_or_lowest : (a b : ℕ) → bit_or a b ≡ bit_or (a / 2) (b / 2) * 2 + max (a % 2) (b % 2)
bit_or_lowest a b = simp bit_or-bitwise (lowest_digit (λ y. y) max (λ y. omega arith) a b)

bit_xor_lowest : (a b : ℕ) → bit_xor a b ≡ bit_xor (a / 2) (b / 2) * 2 + differ (a % 2) (b % 2)
bit_xor_lowest a b = simp bit_xor-bitwise (lowest_digit (λ y. y) differ (λ y. omega arith) a b)

differ-lt : (x y : ℕ) → x < 2 → y < 2 → differ x y < 2
differ-lt zero y p q = q
differ-lt (suc zero) zero p q = omega arith
differ-lt (suc zero) (suc y) p q = omega arith
differ-lt (suc (suc x)) y p q = absurd (omega arith)

pub bit-lt : (k w : ℕ) → bit k w < 2
unfolding bit
bit-lt zero w = omega arith
bit-lt (suc k) w = bit-lt k (w / 2)

pub bit-zero : (k : ℕ) → bit k 0 ≡ 0
unfolding bit
bit-zero zero = refl
bit-zero (suc k) = bit-zero k

-- Each operation acts on one digit at a time.
pub bit-bit_and : (k a b : ℕ) → bit k (bit_and a b) ≡ min (bit k a) (bit k b)
unfolding bit
bit-bit_and zero a b = omega (arith, bit_and_lowest a b)
bit-bit_and (suc k) a b =
    let half : bit_and a b / 2 ≡ bit_and (a / 2) (b / 2) = omega (arith, bit_and_lowest a b) in
    rw half (bit-bit_and k (a / 2) (b / 2))

pub bit-bit_or : (k a b : ℕ) → bit k (bit_or a b) ≡ max (bit k a) (bit k b)
unfolding bit
bit-bit_or zero a b = omega (arith, bit_or_lowest a b)
bit-bit_or (suc k) a b =
    let half : bit_or a b / 2 ≡ bit_or (a / 2) (b / 2) = omega (arith, bit_or_lowest a b) in
    rw half (bit-bit_or k (a / 2) (b / 2))

pub bit-bit_xor : (k a b : ℕ) → bit k (bit_xor a b) ≡ differ (bit k a) (bit k b)
unfolding bit
bit-bit_xor zero a b =
    omega (arith, bit_xor_lowest a b, differ-lt (a % 2) (b % 2) (omega arith) (omega arith))
bit-bit_xor (suc k) a b =
    let low = differ-lt (a % 2) (b % 2) (omega arith) (omega arith) in
    let half : bit_xor a b / 2 ≡ bit_xor (a / 2) (b / 2) = omega (arith, bit_xor_lowest a b, low) in
    rw half (bit-bit_xor k (a / 2) (b / 2))

-- The digits of a power of two: one, at its exponent.
pub bit-pow_self : (k : ℕ) → bit k (2 ^ k) ≡ 1
unfolding bit
bit-pow_self zero = refl
bit-pow_self (suc k) =
    let half : 2 ^ suc k / 2 ≡ 2 ^ k = omega (arith, pow-suc 2 k) in rw half (bit-pow_self k)

pub bit-pow_ne : (j k : ℕ) → (j ≡ k → ⊥) → bit j (2 ^ k) ≡ 0
unfolding bit
bit-pow_ne zero zero h = absurd (h refl)
bit-pow_ne zero (suc k) h = omega (arith, pow-suc 2 k)
bit-pow_ne (suc j) zero h = bit-zero j
bit-pow_ne (suc j) (suc k) h =
    let half : 2 ^ suc k / 2 ≡ 2 ^ k = omega (arith, pow-suc 2 k) in
    rw half (bit-pow_ne j k (λ e. h (omega arith)))

-- Numbers with the same digits are equal.
eq_of_bits_below : (n a b : ℕ) → a ≤ n → b ≤ n → ((k : ℕ) → bit k a ≡ bit k b) → a ≡ b
unfolding bit
eq_of_bits_below zero a b p q h = omega arith
eq_of_bits_below (suc n) a b p q h =
    let halves = eq_of_bits_below n (a / 2) (b / 2) (omega arith) (omega arith) (λ k. h (suc k)) in
    omega (arith, halves, h 0)

pub eq_of_bits : (a b : ℕ) → ((k : ℕ) → bit k a ≡ bit k b) → a ≡ b
eq_of_bits a b = eq_of_bits_below (a + b) a b (omega arith) (omega arith)

-- A number of `n` digits has none from the n-th on.
pub bit-above : (n k w : ℕ) → w < 2 ^ n → n ≤ k → bit k w ≡ 0
unfolding bit
bit-above zero k w h le = let e : w ≡ 0 = omega arith in rw e (bit-zero k)
bit-above (suc n) zero w h le = absurd (omega arith)
bit-above (suc n) (suc k) w h le = bit-above n k (w / 2) (omega (arith, pow-suc 2 n)) (omega arith)

pub lt_of_bits : (n w : ℕ) → ((k : ℕ) → n ≤ k → bit k w ≡ 0) → w < 2 ^ n
unfolding bit
lt_of_bits zero w h =
    let e = eq_of_bits w 0 (λ k. h k (omega arith) ∙ sym (bit-zero k)) in omega (arith, e)
lt_of_bits (suc n) w h =
    let half = lt_of_bits n (w / 2) (λ k le. h (suc k) (omega arith)) in
    omega (arith, pow-suc 2 n, half)

pub bit_or-lt : (n a b : ℕ) → a < 2 ^ n → b < 2 ^ n → bit_or a b < 2 ^ n
bit_or-lt zero a b p q =
    let e : a ≡ 0 = omega arith in let e' : b ≡ 0 = omega arith in rw (e, e') (omega arith)
bit_or-lt (suc n) a b p q =
    let halves =
      bit_or-lt n (a / 2) (b / 2) (omega (arith, pow-suc 2 n)) (omega (arith, pow-suc 2 n)) in
    omega (arith, pow-suc 2 n, bit_or_lowest a b, halves)

zero-bit_and : (b : ℕ) → bit_and 0 b ≡ 0
zero-bit_and b = bit_and-bitwise 0 b

bit_and-le_below : (n a b : ℕ) → a ≤ n → bit_and a b ≤ a
bit_and-le_below n zero b p = omega (arith, zero-bit_and b)
bit_and-le_below zero (suc a) b p = absurd (omega arith)
bit_and-le_below (suc n) (suc a) b p =
    omega (arith, bit_and_lowest (suc a) b, bit_and-le_below n (suc a / 2) (b / 2) (omega arith))

pub bit_and-le : (a b : ℕ) → bit_and a b ≤ a
bit_and-le a b = bit_and-le_below a a b (le_refl a)

-- Go's `a &^ b`: the digits of `a` that `b` does not have.
unfoldable pub and_not : ℕ → ℕ → ℕ
and_not a b = bit_xor a (bit_and a b)

pub bit-and_not : (k a b : ℕ) → bit k (and_not a b) ≡ bit k a - bit k b
unfolding and_not
bit-and_not k a b =
    rw (bit-bit_xor k a (bit_and a b), bit-bit_and k a b)
      (differ-min (bit k a) (bit k b) (bit-lt k a) (bit-lt k b))
  where
    differ-min : (x y : ℕ) → x < 2 → y < 2 → differ x (min x y) ≡ x - y
    differ-min zero y p q = omega arith
    differ-min (suc zero) zero p q = refl
    differ-min (suc zero) (suc zero) p q = refl
    differ-min (suc zero) (suc (suc y)) p q = absurd (omega arith)
    differ-min (suc (suc x)) y p q = absurd (omega arith)

-- A mask of one digit reads that digit.
pub bit_and-pow_zero : (k w : ℕ) → bit k w ≡ 0 → bit_and w (2 ^ k) ≡ 0
bit_and-pow_zero k w h = eq_of_bits (bit_and w (2 ^ k)) 0 digit
  where
    digit : (j : ℕ) → bit j (bit_and w (2 ^ k)) ≡ bit j 0
    digit j = elim (ℕ_discrete j k) [
      | yes e ↦ rw (e, bit-bit_and k w (2 ^ k), bit-zero k) (omega (arith, h))
      | no n ↦ omega (arith, bit-bit_and j w (2 ^ k), bit-zero j, bit-pow_ne j k n)
    ]

pub bit_and-pow_one : (k w : ℕ) → bit k w ≡ 1 → bit_and w (2 ^ k) ≢ 0
bit_and-pow_one k w h e =
    omega (arith, bit-bit_and k w (2 ^ k), bit-pow_self k, bit-zero k, ap (bit k) e)

pub and_not-lt : (n a b : ℕ) → a < 2 ^ n → and_not a b < 2 ^ n
and_not-lt n a b h =
    lt_of_bits n (and_not a b) λ k le. omega (arith, bit-and_not k a b, bit-above n k a h le)
