-- ===== src/Access/Laws.antt =====
-- meta.go: the precomputed sets do not change the conflict test, and the test is symmetric.
use pecs.Prelude.{
  ℕ, ◌≡◌, refl, sym, ◌∙◌, ◌↔◌, ◌⊎◌, inl, inr, Bool, true, false, ◌||◌, Option, List, [], ◌∷◌, ◌++◌,
  arith, ◌==◌, contains, any, Bool-cases,
}
use pecs.Access.{AccessMeta, add_key, add_keys, build_set, prepare_sets, is_in, overlaps, conflicts}

contains-append :
    (xs ys : List ℕ) (a : ℕ) → contains (xs ++ ys) a ≡ (contains xs a || contains ys a)
contains-append [] ys a = refl
contains-append (x ∷ xs) ys a = ground (arith, contains-append xs ys a)

contains-add_key :
    (t : ℕ) (m : List ℕ) (a : ℕ) → contains (add_key t m) a ≡ (t == a || contains m a)
unfolding add_key
contains-add_key t m a = elim (Bool-cases (t == a)) [
  | inl e ↦
      let same : t ≡ a = ground arith in rw same (ground (arith, contains-append m (a ∷ []) a))
  | inr n ↦ ground (arith, contains-append m (t ∷ []) a)
]

contains-add_keys :
    (src m : List ℕ) (a : ℕ) → contains (add_keys src m) a ≡ (contains src a || contains m a)
unfolding add_keys
contains-add_keys [] m a = refl
contains-add_keys (t ∷ src) m a =
    ground (arith, contains-add_keys src (add_key t m) a, contains-add_key t m a)

is_in-build_set : (src : List ℕ) (a : ℕ) → is_in (build_set src) src a ≡ contains src a
unfolding is_in build_set
is_in-build_set [] a = refl
is_in-build_set (t ∷ src) a = ground (arith, contains-add_keys (t ∷ src) [] a)

-- A set that is nil, or has the keys of its slice: what an AccessMeta holds before and after
-- PrepareSets.
abbrev IsSetOf : Option (List ℕ) → List ℕ → Type 0
IsSetOf keys slice = (a : ℕ) → is_in keys slice a ≡ contains slice a

pub record IsAccess (m : AccessMeta) : Type 0 where
  pub reads_agree : IsSetOf m.reads_set m.reads
  pub writes_agree : IsSetOf m.writes_set m.writes
  pub res_reads_agree : IsSetOf m.res_reads_set m.res_reads
  pub res_writes_agree : IsSetOf m.res_writes_set m.res_writes

-- After PrepareSets the sets agree with the slices, whatever they were before.
pub prepare_sets-IsAccess : (m : AccessMeta) → IsAccess (prepare_sets m)
unfolding prepare_sets
prepare_sets-IsAccess m = record {
  reads_agree = is_in-build_set m.reads;
  writes_agree = is_in-build_set m.writes;
  res_reads_agree = is_in-build_set m.res_reads;
  res_writes_agree = is_in-build_set m.res_writes;
}

-- Two lists have a common member.
abbrev pub Meets : List ℕ → List ℕ → Type 0
Meets xs ys = (t : ℕ) × (contains xs t ≡ true) × (contains ys t ≡ true)

any-Meets :
    (keys : Option (List ℕ)) (slice xs : List ℕ)
    → IsSetOf keys slice
    → (any (is_in keys slice) xs ≡ true) ↔ Meets xs slice
any-Meets keys slice xs v = (found xs, at xs)
  where
    found : (xs : List ℕ) → any (is_in keys slice) xs ≡ true → Meets xs slice
    found [] e = cc
    found (x ∷ xs) e = elim (Bool-cases (is_in keys slice x)) [
      | inl hit ↦ (x, ground arith, sym (v x) ∙ hit)
      | inr miss ↦ let (t, p, q) = found xs (ground arith) in (t, ground arith, q)
    ]

    at : (xs : List ℕ) → Meets xs slice → any (is_in keys slice) xs ≡ true
    at [] (t, p, q) = cc
    at (x ∷ xs) (t, p, q) = elim (Bool-cases (x == t)) [
      | inl e ↦ let same : x ≡ t = ground arith in rw (same, v t, q)
      | inr n ↦ ground (arith, at xs (t, ground arith, q))
    ]

-- One side writes what the other touches.
abbrev pub Clash : List ℕ → List ℕ → List ℕ → List ℕ → Type 0
Clash reads writes other_reads other_writes =
    Meets writes other_reads ⊎ (Meets writes other_writes ⊎ Meets reads other_writes)

or_iff {ℓ κ} :
    {b c : Bool} {P : Type ℓ} {Q : Type κ}
    → ((b ≡ true) ↔ P)
    → ((c ≡ true) ↔ Q)
    → ((b || c) ≡ true) ↔ (P ⊎ Q)
or_iff {b = true} f g = (λ e. inl (f.0 refl), λ p. refl)
or_iff {b = false} {c = true} f g = (λ e. inr (g.0 refl), λ p. refl)
or_iff {b = false} {c = false} {P} {Q} f g = (λ e. cc, neither)
  where
    neither : P ⊎ Q → (false || false) ≡ true
    neither (inl p) = f.1 p
    neither (inr q) = g.1 q

overlaps_iff :
    (r w : List ℕ) (rs : Option (List ℕ)) (r' : List ℕ) (ws : Option (List ℕ)) (w' : List ℕ)
    → IsSetOf rs r'
    → IsSetOf ws w'
    → (overlaps r w rs r' ws w' ≡ true) ↔ Clash r w r' w'
unfolding overlaps
overlaps_iff r w rs r' ws w' v v' =
    or_iff (any-Meets rs r' w v) (or_iff (any-Meets ws w' w v') (any-Meets ws w' r v'))

-- Conflicts holds exactly if one of the two writes a component, or a resource, that the other reads
-- or writes. It holds with the precomputed sets as without them.
pub conflicts_iff :
    (a other : AccessMeta)
    → IsAccess other
    → (conflicts a other ≡ true) ↔ (
        Clash a.reads a.writes other.reads other.writes
        ⊎ Clash a.res_reads a.res_writes other.res_reads other.res_writes)
unfolding conflicts
conflicts_iff a other v =
    or_iff
      (overlaps_iff a.reads a.writes other.reads_set other.reads other.writes_set other.writes
        v.reads_agree v.writes_agree)
      (overlaps_iff a.res_reads a.res_writes other.res_reads_set other.res_reads
        other.res_writes_set other.res_writes v.res_reads_agree v.res_writes_agree)

Meets-sym : (xs ys : List ℕ) → Meets xs ys → Meets ys xs
Meets-sym xs ys (t, p, q) = (t, q, p)

Clash-sym : (r w r' w' : List ℕ) → Clash r w r' w' → Clash r' w' r w
Clash-sym r w r' w' (inl m) = inr (inr (Meets-sym w r' m))
Clash-sym r w r' w' (inr (inl m)) = inr (inl (Meets-sym w w' m))
Clash-sym r w r' w' (inr (inr m)) = inl (Meets-sym r w' m)

conflicts_flip :
    (a b : AccessMeta) → IsAccess a → IsAccess b → conflicts a b ≡ true → conflicts b a ≡ true
conflicts_flip a b va vb e = by_part ((conflicts_iff a b vb).0 e)
  where
    by_part :
        Clash a.reads a.writes b.reads b.writes
          ⊎ Clash a.res_reads a.res_writes b.res_reads b.res_writes
        → conflicts b a ≡ true
    by_part (inl c) = (conflicts_iff b a va).1 (inl (Clash-sym _ _ _ _ c))
    by_part (inr c) = (conflicts_iff b a va).1 (inr (Clash-sym _ _ _ _ c))

-- The test does not depend on which system asks.
pub conflicts_comm : (a b : AccessMeta) → IsAccess a → IsAccess b → conflicts a b ≡ conflicts b a
conflicts_comm a b va vb = elim (Bool-cases (conflicts a b)) [
  | inl e ↦ e ∙ sym (conflicts_flip a b va vb e)
  | inr e ↦ elim (Bool-cases (conflicts b a)) [
    | inl f ↦ cc (conflicts_flip b a vb va f)
    | inr f ↦ e ∙ sym f
  ]
]
