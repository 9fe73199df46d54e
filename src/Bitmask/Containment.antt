-- ===== src/Bitmask/Containment.antt =====
-- bitmask.go: `ContainsAll`, `ContainsAny`, `IsDisjoint`, `IsZero` and `Equals`, with their fast
-- paths, against the sets of indices that masks stand for.
use pecs.Prelude.{
  ℕ, zero, suc, ◌+◌, ◌*◌, ◌/◌, ◌%◌, ◌^◌, ◌≤◌, ◌<◌, ◌≡◌, refl, ap, ◌↔◌, ◌≢◌, inl, inr, true, false,
  bit_and, arith, ◌==◌, ltb, Bool-cases,
}
use pecs.Prelude.Bits.{bit, bit-lt, bit-zero, bit-bit_and, bit-above, eq_of_bits}
use pecs.Bitmask.{
  Bitmask, word, has, contains_all, contains_any, is_disjoint, is_zero, equals, IsMask,
}
use pecs.Bitmask.Digits.{has-digit}

-- Two masks share no index, one has every index of the other, they have the same.
abbrev pub Covers : Bitmask → Bitmask → Type 0
Covers m other = (id : ℕ) → id < 256 → has other id ≡ true → has m id ≡ true

abbrev pub Shares : Bitmask → Bitmask → Type 0
Shares m other = (id : ℕ) × (id < 256) × (has m id ≡ true) × (has other id ≡ true)

-- Word level.
abbrev CoversWord : ℕ → ℕ → Type 0
CoversWord a b = (k : ℕ) → k < 64 → bit k b ≤ bit k a

covers_of_and : (a b : ℕ) → bit_and a b ≡ b → CoversWord a b
covers_of_and a b e k h = omega (arith, ap (bit k) e, bit-bit_and k a b)

and_of_covers : (a b : ℕ) → b < 2 ^ 64 → CoversWord a b → bit_and a b ≡ b
and_of_covers a b fits c = eq_of_bits (bit_and a b) b same
  where
    same : (k : ℕ) → bit k (bit_and a b) ≡ bit k b
    same k = elim (Bool-cases (ltb k 64)) [
      | inl low ↦ omega (arith, bit-bit_and k a b, c k (ground arith))
      | inr high ↦ omega (arith, bit-bit_and k a b, bit-above 64 k b fits (ground arith))
    ]

-- A number other than zero has a digit.
digit_of_ne_zero : (n w : ℕ) → w ≤ n → w ≢ 0 → (k : ℕ) × (bit k w ≡ 1)
unfolding bit
digit_of_ne_zero zero w le h = absurd (omega arith)
digit_of_ne_zero (suc n) w le h = elim (Bool-cases (w % 2 == 1)) [
  | inl odd ↦ (0, ground arith)
  | inr even ↦
      let (k, e) = digit_of_ne_zero n (w / 2) (omega arith) (λ z. h (ground arith)) in (suc k, e)
]

share_of_and :
    (a b : ℕ) → b < 2 ^ 64 → bit_and a b ≢ 0 → (k : ℕ) × (k < 64) × (bit k a ≡ 1) × (bit k b ≡ 1)
share_of_and a b fits h =
    let (k, e) = digit_of_ne_zero (bit_and a b) (bit_and a b) (omega arith) h in
    (
      k,
      elim (Bool-cases (ltb k 64)) [
        | inl low ↦ ground arith
        | inr high ↦ absurd (ground (arith, bit-bit_and k a b, bit-above 64 k b fits))
      ],
      ground (arith, bit-bit_and k a b, bit-lt k a, bit-lt k b),
      ground (arith, bit-bit_and k a b, bit-lt k a, bit-lt k b),
    )

and_of_share : (a b k : ℕ) → bit k a ≡ 1 → bit k b ≡ 1 → bit_and a b ≢ 0
and_of_share a b k p q e = omega (arith, ap (bit k) e, bit-bit_and k a b, bit-zero k)

-- The index of a digit.
pub has_at : (m : Bitmask) (i k : ℕ) → i < 4 → k < 64 → has m (64 * i + k) ≡ (bit k (word m i) == 1)
has_at m i k hi hk =
    let in_word : (64 * i + k) / 64 ≡ i = omega arith in
    let in_digit : (64 * i + k) % 64 ≡ k = omega arith in
    rw (has-digit m (64 * i + k), in_word, in_digit)

Covers-word :
    (m other : Bitmask) (i : ℕ) → i < 4 → Covers m other → CoversWord (word m i) (word other i)
Covers-word m other i hi c k hk = ground (
  arith,
  has_at m i k hi hk,
  has_at other i k hi hk,
  c (64 * i + k) (omega arith),
  bit-lt k (word m i),
  bit-lt k (word other i),
)

Covers-of_words :
    (m other : Bitmask) → ((i : ℕ) → i < 4 → CoversWord (word m i) (word other i)) → Covers m other
Covers-of_words m other c id h own = ground (
  arith,
  has-digit m id,
  has-digit other id,
  c (id / 64) (omega arith) (id % 64) (omega arith),
  bit-lt (id % 64) (word m (id / 64)),
)

each_word {ℓ} : (P : ℕ → Type ℓ) → P 0 → P 1 → P 2 → P 3 → (i : ℕ) → i < 4 → P i
each_word P a b c d zero h = a
each_word P a b c d (suc zero) h = b
each_word P a b c d (suc (suc zero)) h = c
each_word P a b c d (suc (suc (suc zero))) h = d
each_word P a b c d (suc (suc (suc (suc i)))) h = absurd (omega arith)

bit_and-zero : (a : ℕ) → bit_and a 0 ≡ 0
bit_and-zero a = and_of_covers a 0 (omega arith) (λ k h. omega (arith, bit-zero k))

-- What the tests of `ContainsAll` come to, the fast path included.
contains_all_words :
    (m other : Bitmask)
    → (contains_all m other ≡ true) ↔ (
        (bit_and m.w0 other.w0 ≡ other.w0)
        × (bit_and m.w1 other.w1 ≡ other.w1)
        × (bit_and m.w2 other.w2 ≡ other.w2)
        × (bit_and m.w3 other.w3 ≡ other.w3))
unfolding contains_all
contains_all_words m other = ground (arith, bit_and-zero m.w1, bit_and-zero m.w2, bit_and-zero m.w3)

-- `ContainsAll` is inclusion of the index sets.
pub contains_all_iff :
    (m other : Bitmask) → IsMask other → (contains_all m other ≡ true) ↔ Covers m other
contains_all_iff m other v = (
  λ e.
      let h = (contains_all_words m other).0 e in
      Covers-of_words m other (
        each_word (λ i. CoversWord (word m i) (word other i)) (covers_of_and _ _ h.0)
          (covers_of_and _ _ h.1) (covers_of_and _ _ h.2) (covers_of_and _ _ h.3)),
  λ c. (contains_all_words m other).1 (
    and_of_covers _ _ v.fits0 (Covers-word m other 0 (omega arith) c),
    and_of_covers _ _ v.fits1 (Covers-word m other 1 (omega arith) c),
    and_of_covers _ _ v.fits2 (Covers-word m other 2 (omega arith) c),
    and_of_covers _ _ v.fits3 (Covers-word m other 3 (omega arith) c),
  ),
)

-- What the tests of `ContainsAny` come to.
contains_any_words :
    (m other : Bitmask)
    → (contains_any m other ≡ false) ↔ (
        (bit_and m.w0 other.w0 ≡ 0)
        × (bit_and m.w1 other.w1 ≡ 0)
        × (bit_and m.w2 other.w2 ≡ 0)
        × (bit_and m.w3 other.w3 ≡ 0))
unfolding contains_any
contains_any_words m other = ground (arith, bit_and-zero m.w1, bit_and-zero m.w2, bit_and-zero m.w3)

word-IsMask : (m : Bitmask) → IsMask m → (i : ℕ) → i < 4 → word m i < 2 ^ 64
word-IsMask m v = each_word (λ i. word m i < 2 ^ 64) v.fits0 v.fits1 v.fits2 v.fits3

Shares-of_word :
    (m other : Bitmask) (i : ℕ)
    → IsMask other
    → i < 4
    → bit_and (word m i) (word other i) ≢ 0
    → Shares m other
Shares-of_word m other i v hi h =
    let (k, hk, p, q) = share_of_and (word m i) (word other i) (word-IsMask other v i hi) h in
    (64 * i + k, omega arith, rw (has_at m i k hi hk, p), rw (has_at other i k hi hk, q))

and_of_Shares :
    (m other : Bitmask) (s : Shares m other)
    → bit_and (word m (s.0 / 64)) (word other (s.0 / 64)) ≢ 0
and_of_Shares m other (id, h, p, q) =
    and_of_share _ _ (id % 64) (ground (arith, has-digit m id)) (ground (arith, has-digit other id))

-- `ContainsAny` says whether the masks have an index in common.
pub contains_any_iff :
    (m other : Bitmask) → IsMask other → (contains_any m other ≡ true) ↔ Shares m other
contains_any_iff m other v = (found, some_word)
  where
    some_word : Shares m other → contains_any m other ≡ true
    some_word s = elim (Bool-cases (contains_any m other)) [
      | inl e ↦ e
      | inr e ↦
          let h = (contains_any_words m other).0 e in
          let all = each_word (λ i. bit_and (word m i) (word other i) ≡ 0) h.0 h.1 h.2 h.3 in
          absurd (and_of_Shares m other s (all (s.0 / 64) (omega (arith, s.1))))
    ]

    found : contains_any m other ≡ true → Shares m other
    found e = elim (Bool-cases (bit_and m.w0 other.w0 == 0)) [
      | inr n ↦ Shares-of_word m other 0 v (omega arith) (ground arith)
      | inl z0 ↦ elim (Bool-cases (bit_and m.w1 other.w1 == 0)) [
        | inr n ↦ Shares-of_word m other 1 v (omega arith) (ground arith)
        | inl z1 ↦ elim (Bool-cases (bit_and m.w2 other.w2 == 0)) [
          | inr n ↦ Shares-of_word m other 2 v (omega arith) (ground arith)
          | inl z2 ↦
              Shares-of_word m other 3 v (omega arith)
                (ground (arith, (contains_any_words m other).1))
        ]
      ]
    ]

-- `IsDisjoint` says that they have none.
pub is_disjoint_iff :
    (m other : Bitmask) → IsMask other → (is_disjoint m other ≡ true) ↔ (¬ Shares m other)
unfolding is_disjoint
is_disjoint_iff m other v = elim (Bool-cases (contains_any m other)) [
  | inl e ↦ rw e ((λ f. cc), λ n. absurd (n ((contains_any_iff m other v).0 e)))
  | inr e ↦ rw e ((λ _ s. cc (e, (contains_any_iff m other v).1 s)), λ _. refl)
]

-- A word with no index set is zero.
zero_word :
    (m : Bitmask) (i : ℕ)
    → IsMask m
    → i < 4
    → ((id : ℕ) → id < 256 → has m id ≡ false)
    → word m i ≡ 0
zero_word m i v hi unset = elim (Bool-cases (word m i == 0)) [
  | inl z ↦ ground arith
  | inr n ↦
      let (k, e) = digit_of_ne_zero (word m i) (word m i) (omega arith) (ground arith) in
      let low : k < 64 = elim (Bool-cases (ltb k 64)) [
        | inl l ↦ ground arith
        | inr h ↦
            absurd
              (omega (arith, e, bit-above 64 k (word m i) (word-IsMask m v i hi) (ground arith)))
      ] in
      absurd (ground (arith, has_at m i k hi low, unset (64 * i + k) (omega arith)))
]

-- `IsZero` says that no index is set.
pub is_zero_iff :
    (m : Bitmask) → IsMask m → (is_zero m ≡ true) ↔ ((id : ℕ) → id < 256 → has m id ≡ false)
unfolding is_zero
is_zero_iff m v = (
  λ e id h.
      let words : (i : ℕ) → i < 4 → word m i ≡ 0 =
        each_word (λ i. word m i ≡ 0) (ground arith) (ground arith) (ground arith) (ground arith) in
      ground (arith, words (id / 64) (omega arith), has-digit m id, bit-zero (id % 64)),
  λ unset. ground (
    arith,
    zero_word m 0 v (omega arith) unset,
    zero_word m 1 v (omega arith) unset,
    zero_word m 2 v (omega arith) unset,
    zero_word m 3 v (omega arith) unset,
  ),
)

-- Masks with the same indices are equal, and `Equals` says so.
pub mask_ext :
    (m other : Bitmask) → IsMask m → IsMask other → Covers m other → Covers other m → m ≡ other
mask_ext m other v v' c d = ground (arith, same 0, same 1, same 2, same 3)
  where
    same : (i : ℕ) → i < 4 → word m i ≡ word other i
    same i h = eq_of_bits (word m i) (word other i) λ k. elim (Bool-cases (ltb k 64)) [
      | inl l ↦ omega (
        arith,
        Covers-word m other i h c k (ground arith),
        Covers-word other m i h d k (ground arith),
      )
      | inr n ↦ omega (
        arith,
        bit-above 64 k (word m i) (word-IsMask m v i h) (ground arith),
        bit-above 64 k (word other i) (word-IsMask other v' i h) (ground arith),
      )
    ]

-- `Equals` on masks of 64-bit words is equality of the sets of indices.
pub equals_iff :
    (m other : Bitmask)
    → IsMask m
    → IsMask other
    → (equals m other ≡ true) ↔ (Covers m other × Covers other m)
unfolding equals
equals_iff m other v v' = (
  λ e. let same : m ≡ other = ground arith in rw same ((λ id h p. p), (λ id h p. p)),
  λ c. rw (mask_ext m other v v' c.0 c.1) (ground arith),
)
