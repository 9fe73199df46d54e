-- ===== src/Bitmask.antt =====
-- bitmask.go: the 256-bit mask of component presence, as four 64-bit words.
-- A word is a number below 2 ^ 64; no operation of the file can leave that range, so none wraps.
-- An index is a ComponentID, a uint8, so `id / 64` is one of 0, 1, 2, 3.
pub mod Digits
pub mod Containment
pub mod Algebra
mod Tests
use pecs.Prelude.{
  ℕ, zero, suc, ◌+◌, ◌/◌, ◌%◌, ◌^◌, ◌<◌, bit_and, bit_or, Bool, true, false, not, ◌&&◌, ◌||◌, ◌==◌,
  if◌then◌else◌,
}
use pecs.Prelude.Bits.{and_not}

pub record Bitmask : Type 0 where
  pub w0 : ℕ
  pub w1 : ℕ
  pub w2 : ℕ
  pub w3 : ℕ

-- The value `Bitmask{}`.
abbrev pub no_bits : Bitmask
no_bits = record { w0 = 0; w1 = 0; w2 = 0; w3 = 0 }

-- `m[i]`, and the assignment to it.
abbrev pub word : Bitmask → ℕ → ℕ
word m i = if i == 0 then m.w0 else if i == 1 then m.w1 else if i == 2 then m.w2 else m.w3

abbrev pub set_word : Bitmask → ℕ → ℕ → Bitmask
set_word m i v =
    if i == 0
    then record m { w0 = v }
    else if i == 1
    then record m { w1 = v }
    else if i == 2
    then record m { w2 = v }
    else record m { w3 = v }

unfoldable pub set : Bitmask → ℕ → Bitmask
set m id = set_word m (id / 64) (bit_or (word m (id / 64)) (2 ^ (id % 64)))

unfoldable pub clear : Bitmask → ℕ → Bitmask
clear m id = set_word m (id / 64) (and_not (word m (id / 64)) (2 ^ (id % 64)))

unfoldable pub has : Bitmask → ℕ → Bool
has m id = not (bit_and (word m (id / 64)) (2 ^ (id % 64)) == 0)

unfoldable pub contains_all : Bitmask → Bitmask → Bool
contains_all m other =
    if not (bit_and m.w0 other.w0 == other.w0)
    then false
    else if other.w1 == 0 && other.w2 == 0 && other.w3 == 0
    then true
    else bit_and m.w1 other.w1 == other.w1
      && bit_and m.w2 other.w2 == other.w2
      && bit_and m.w3 other.w3 == other.w3

unfoldable pub contains_any : Bitmask → Bitmask → Bool
contains_any m other =
    if not (bit_and m.w0 other.w0 == 0)
    then true
    else if other.w1 == 0 && other.w2 == 0 && other.w3 == 0
    then false
    else not (bit_and m.w1 other.w1 == 0)
      || not (bit_and m.w2 other.w2 == 0)
      || not (bit_and m.w3 other.w3 == 0)

unfoldable pub is_zero : Bitmask → Bool
is_zero m = m.w0 == 0 && m.w1 == 0 && m.w2 == 0 && m.w3 == 0

unfoldable pub or_mask : Bitmask → Bitmask → Bitmask
or_mask m other = record {
  w0 = bit_or m.w0 other.w0;
  w1 = bit_or m.w1 other.w1;
  w2 = bit_or m.w2 other.w2;
  w3 = bit_or m.w3 other.w3;
}

unfoldable pub and_mask : Bitmask → Bitmask → Bitmask
and_mask m other = record {
  w0 = bit_and m.w0 other.w0;
  w1 = bit_and m.w1 other.w1;
  w2 = bit_and m.w2 other.w2;
  w3 = bit_and m.w3 other.w3;
}

unfoldable pub and_not_mask : Bitmask → Bitmask → Bitmask
and_not_mask m other = record {
  w0 = and_not m.w0 other.w0;
  w1 = and_not m.w1 other.w1;
  w2 = and_not m.w2 other.w2;
  w3 = and_not m.w3 other.w3;
}

-- `bits.OnesCount64` on a word of at most `n` digits.
unfoldable pub ones_count : ℕ → ℕ → ℕ
ones_count zero w = 0
ones_count (suc n) w = w % 2 + ones_count n (w / 2)

unfoldable pub count_bits : Bitmask → ℕ
count_bits m = ones_count 64 m.w0 + ones_count 64 m.w1 + ones_count 64 m.w2 + ones_count 64 m.w3

unfoldable pub clone : Bitmask → Bitmask
clone m = m

unfoldable pub equals : Bitmask → Bitmask → Bool
equals m other = m.w0 == other.w0 && m.w1 == other.w1 && m.w2 == other.w2 && m.w3 == other.w3

unfoldable pub is_disjoint : Bitmask → Bitmask → Bool
unfolding contains_any
is_disjoint m other = not (contains_any m other)

-- Every word is a uint64.
pub record IsMask (m : Bitmask) : Type 0 where
  pub fits0 : m.w0 < 2 ^ 64
  pub fits1 : m.w1 < 2 ^ 64
  pub fits2 : m.w2 < 2 ^ 64
  pub fits3 : m.w3 < 2 ^ 64
