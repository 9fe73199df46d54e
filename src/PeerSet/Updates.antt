-- ===== src/PeerSet/Updates.antt =====
-- peer.go: no update of a PeerSet is lost.
use pecs.Prelude.{
  ℕ, ◌-◌, ◌⊎◌, ◌≤◌, ◌<◌, ◌≡◌, refl, sym, ◌∙◌, ap, subst, true, false, Option, none, some, List, [],
  ◌∷◌, ◌++◌, arith, ◌==◌, contains, if◌then◌else◌, count, count-append, contains_iff_count, inl,
  inr, Bool-cases,
}
use pecs.Registry.{write}
use pecs.PeerSet.{
  PeerSet, read, contents, publish, built, drop_first, Update, adding, removing, Turn, Race, Step,
  loads, swaps, fails,
}

-- Steps, with the updates that were published.
pub data Run (r : Race) : List Update → Race → Type 0 where
  here : Run r [] r
  next : {s t : Race} {us vs : List Update} → Run r us s → Step s vs t → Run r (us ++ vs) t

-- An update as one step: what it builds, or no change.
abbrev pub apply : Update → Option (List ℕ) → Option (List ℕ)
apply u l = elim (built u l) [ none ↦ l | some new ↦ some new ]

abbrev pub apply_all : List Update → Option (List ℕ) → Option (List ℕ)
apply_all [] l = l
apply_all (u ∷ us) l = apply_all us (apply u l)

-- Addresses in use lie below `next`, and a turn has built from the slice at its old address.
pub record IsRace (r : Race) : Type 0 where
  pub used : (a : ℕ) → r.set.ids ≡ some a → a < r.set.next
  pub old_used : (g : ℕ) (t : Turn) (a : ℕ) → r.turns g ≡ some t → t.old ≡ some a → a < r.set.next
  pub from_old :
      (g : ℕ) (t : Turn) → r.turns g ≡ some t → built t.update (read r.set t.old) ≡ some t.new

read-publish :
    (ps : PeerSet) (l : List ℕ) (o : Option ℕ)
    → ((a : ℕ) → o ≡ some a → a < ps.next)
    → read (publish l ps) o ≡ read ps o
read-publish ps l none f = refl
read-publish ps l (some a) f = let below = f a refl in ground arith

written :
    (turns : ℕ → Option Turn) (g h : ℕ) (x : Option Turn) (t : Turn)
    → write turns g x h ≡ some t
    → (x ≡ some t) ⊎ (turns h ≡ some t)
written turns g h x t p = elim (Bool-cases (g == h)) [
  | inl e ↦ inl (sym (if_same e) ∙ p)
  | inr e ↦ inr (sym (if_other e) ∙ p)
]
  where
    if_same : (g == h) ≡ true → write turns g x h ≡ x
    if_same e = rw (write, e) refl

    if_other : (g == h) ≡ false → write turns g x h ≡ turns h
    if_other e = rw (write, e) refl

abbrev held : Turn → Option Turn → Turn
held d none = d
held d (some t) = t

Step-IsRace : {r s : Race} {us : List Update} → IsRace r → Step r us s → IsRace s
Step-IsRace {r = r} v (loads g u l idle e) = record {
  used = v.used;
  old_used = λ h t a p q. elim (written r.turns g h _ t p) [
    | inl same ↦ v.used a (ap (λ x. x.old) (ap (held t) same) ∙ q)
    | inr kept ↦ v.old_used h t a kept q
  ];
  from_old = λ h t p. elim (written r.turns g h _ t p) [
    | inl same ↦ subst (λ x. built x.update (read r.set x.old) ≡ some x.new) (ap (held t) same) e
    | inr kept ↦ v.from_old h t kept
  ];
}
Step-IsRace {r = r} v (swaps g t e same) = record {
  used = λ a p. ground arith;
  old_used = λ h u a p q. ground (arith, v.old_used h u a);
  from_old = λ h u p. elim (written r.turns g h none u p) [
    | inl empty ↦ absurd cc
    | inr kept ↦
        ap (built u.update) (read-publish r.set t.new u.old (λ a q. v.old_used h u a kept q))
        ∙ v.from_old h u kept
  ];
}
Step-IsRace {r = r} v (fails g t e other) = record {
  used = v.used;
  old_used = λ h u a p q. ground (arith, v.old_used h u a);
  from_old = λ h u p. ground (arith, v.from_old h u);
}

Run-IsRace : {r s : Race} {us : List Update} → IsRace r → Run r us s → IsRace s
Run-IsRace v here = v
Run-IsRace v (next run step) = Step-IsRace (Run-IsRace v run) step

apply_all-append :
    (us vs : List Update) (l : Option (List ℕ))
    → apply_all (us ++ vs) l ≡ apply_all vs (apply_all us l)
apply_all-append [] vs l = refl
apply_all-append (u ∷ us) vs l = apply_all-append us vs (apply u l)

Step-apply_all :
    {r s : Race} {us : List Update}
    → IsRace r
    → Step r us s
    → contents s.set ≡ apply_all us (contents r.set)
Step-apply_all v (loads g u l idle e) = refl
Step-apply_all {r = r} v (swaps g t e same) =
    let from : built t.update (contents r.set) ≡ some t.new =
      ap (λ o. built t.update (read r.set o)) same ∙ v.from_old g t e in
    rw (apply, from) (ground arith)
Step-apply_all v (fails g t e other) = refl

-- However Add and Remove interleave, the set holds what the updates that were published make of it
-- one after the other, in the order in which they were published.
pub Run-apply_all :
    {r s : Race} {us : List Update}
    → IsRace r
    → Run r us s
    → contents s.set ≡ apply_all us (contents r.set)
Run-apply_all v here = refl
Run-apply_all {r = r} v (next {us = us} {vs = vs} run step) =
    Step-apply_all (Run-IsRace v run) step
    ∙ (ap (apply_all vs) (Run-apply_all v run) ∙ sym (apply_all-append us vs (contents r.set)))

count-drop_first :
    (id x : ℕ) (xs : List ℕ)
    → count x (drop_first id xs) ≡ (if id == x then count x xs - 1 else count x xs)
unfolding drop_first
count-drop_first id x [] = ground arith
count-drop_first id x (y ∷ xs) = ground (arith, count-drop_first id x xs)

-- How often an identifier stands in the set, nil or not.
abbrev pub tally : ℕ → Option (List ℕ) → ℕ
tally x none = 0
tally x (some l) = count x l

-- On a set without duplicates, after Add the identifier stands in it once, after Remove it does not,
-- and neither changes how often another stands in it.
pub apply_lem :
    (id x : ℕ) (l : Option (List ℕ))
    → ((y : ℕ) → tally y l ≤ 1)
    → (tally x (apply (adding id) l) ≡ (if id == x then 1 else tally x l))
      × (tally x (apply (removing id) l) ≡ (if id == x then 0 else tally x l))
unfolding built
apply_lem id x none v = (ground arith, ground arith)
apply_lem id x (some l) v = elim (Bool-cases (contains l id)) [
  | inl e ↦
      rw (apply, built, e)
        (ground (arith, contains_iff_count id l, v x), ground (arith, count-drop_first id x l, v x))
  | inr e ↦
      rw (apply, built, e)
        (
          ground (arith, contains_iff_count id l, count-append x l (id ∷ [])),
          ground (arith, contains_iff_count id l),
        )
]
