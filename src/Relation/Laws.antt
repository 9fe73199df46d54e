-- ===== src/Relation/Laws.antt =====
-- relation.go: what a relation resolves to, what a set keeps, and what a session that closes leaves.
use pecs.Prelude.{
  ℕ, ◌≤◌, ◌≡◌, ◌↔◌, refl, sym, ◌∙◌, ap, inl, inr, Bool, true, false, Option, none, some, List, [],
  ◌∷◌, ◌++◌, map, All, arith, ◌==◌, if◌then◌else◌, contains, count, count-append,
  contains_iff_count, Bool-cases, Option-cases,
}
use mathlib.Core.Option.{some-injective}
use pecs.Session.Components.{get}
use pecs.Session.Laws.{InOrder, is_present}
use pecs.Session.Running.{has_component_present}
use pecs.Relation.{
  World, is_closed, Relation, Resolution, valid_target, resolve_target, get_relation,
  valid_relation, resolve_relation, RelationSet, add_target, remove_target, without, has_target,
  open_targets, has_closed, cleanup_closed, all_targets, resolved_targets, resolve_targets, Field,
  relation, relation_set, plain, clear_field, clear_relations_to,
}

-- The target is open and has the component.
abbrev pub Resolves : World → ℕ → Relation → Type 0
Resolves w t r =
    (s : ℕ) × (c : ℕ) × (r.target ≡ some s) × (is_closed w s ≡ false) × (get t (w s) ≡ some c)

-- What Resolve returns and Valid says of a relation.
abbrev pub Resolved : World → ℕ → Relation → Resolution → Bool → Type 0
Resolved w t r out ok =
    ((out.found ≡ true) ↔ Resolves w t r)
    × (ok ≡ out.found)
    × ((s : ℕ) → out.session ≡ some s → (r.target ≡ some s) × (is_closed w s ≡ false))
    × (out.component ≡ none → out.found ≡ false)
    × ((s : ℕ) → r.target ≡ some s → is_closed w s ≡ false → out.session ≡ some s)
    × ((s : ℕ) → r.target ≡ some s → is_closed w s ≡ false → out.component ≡ get t (w s))
    × ((out.session ≡ none) → out.component ≡ none)

get_none :
    (w : World) → get_relation w (record { target = none }) ≡ (none, record { target = none })
unfolding get_relation
get_none w = refl

get_closed :
    (w : World) (s : ℕ)
    → is_closed w s ≡ true
    → get_relation w (record { target = some s }) ≡ (none, record { target = none })
unfolding get_relation
get_closed w s e = rw (get_relation, e) refl

get_open :
    (w : World) (s : ℕ)
    → is_closed w s ≡ false
    → get_relation w (record { target = some s }) ≡ (some s, record { target = some s })
unfolding get_relation
get_open w s e = rw (get_relation, e) refl

-- Over sessions whose masks agree with their components, Resolve of a relation succeeds exactly if the
-- target is open and has the component, and Valid says so; it then returns the target and its component.
-- Of an open target without the component it returns the target and nil, and else nil and nil.
pub resolve_relation_lem :
    (w : World) (t : ℕ) (r : Relation)
    → ((s : ℕ) → InOrder (w s))
    → Resolved w t r (resolve_relation w t r).0 (valid_relation w t r).0
unfolding resolve_relation valid_relation
resolve_relation_lem w t r v = by_target r.target
  where
    by_target :
        (target : Option ℕ)
        → Resolved w t
            (record { target = target })
            (resolve_target w t (get_relation w (record { target = target }))).0
            (valid_target w t (get_relation w (record { target = target }))).0
    by_target none = rw (get_none w) (
      (λ e. absurd cc, λ (s, c, e, g, h). absurd cc),
      refl,
      (λ s e. absurd cc),
      (λ e. refl),
      (λ s e g. absurd cc),
      (λ s e g. absurd cc),
      λ e. refl,
    )
    by_target (some s) = elim (Bool-cases (is_closed w s)) [
      | inl closed ↦ rw (get_closed w s closed) (
        (λ e. absurd cc, λ (x, c, e, g, h). absurd cc),
        refl,
        (λ x e. absurd cc),
        (λ e. refl),
        (λ x e g. absurd cc),
        (λ x e g. absurd cc),
        λ e. refl,
      )
      | inr alive ↦
          let held = has_component_present t (w s) (v s) in
          elim (Option-cases (get t (w s))) [
            | inl e ↦
                rw (get_open w s alive, resolve_target, e)
                  (
                    (λ f. absurd cc, λ (x, c, f, g, h). absurd cc),
                    held ∙ ap is_present e,
                    (λ x f. (f, cc)),
                    (λ f. refl),
                    (λ x f g. f),
                    (λ x f g. sym (ap (λ y. get t (w y)) (sym (some-injective s x f)) ∙ e)),
                    λ f. refl,
                  )
            | inr (c, e) ↦
                rw (get_open w s alive, resolve_target, e)
                  (
                    (λ f. (s, c, refl, alive, e), λ f. refl),
                    held ∙ ap is_present e,
                    (λ x f. (f, cc)),
                    (λ f. absurd cc),
                    (λ x f g. f),
                    (λ x f g. sym (ap (λ y. get t (w y)) (sym (some-injective s x f)) ∙ e)),
                    λ f. absurd cc,
                  )
          ]
    ]

count-open_targets :
    (w : World) (x : ℕ) (xs : List ℕ)
    → count x (open_targets w xs) ≡ (if is_closed w x then 0 else count x xs)
unfolding open_targets
count-open_targets w x [] = ground arith
count-open_targets w x (y ∷ xs) = ground (arith, count-open_targets w x xs)

has_closed-false :
    (w : World) (x : ℕ) (xs : List ℕ) → has_closed w xs ≡ false → open_targets w xs ≡ xs
unfolding has_closed open_targets
has_closed-false w x [] e = refl
has_closed-false w x (y ∷ xs) e = ground (arith, has_closed-false w x xs)

-- The sessions of a result, and what is said of each of its entries.
abbrev pub Found : World → ℕ → ℕ × ℕ → Type 0
Found w t (s, c) = (is_closed w s ≡ false) × (get t (w s) ≡ some c)

resolved_targets-Found :
    (w : World) (t : ℕ) (xs : List ℕ) → All (Found w t) (resolved_targets w t xs)
unfolding resolved_targets
resolved_targets-Found w t [] = tt
resolved_targets-Found w t (x ∷ xs) =
    let rest = resolved_targets-Found w t xs in
    elim (Bool-cases (is_closed w x)) [
      | inl closed ↦ rw (resolved_targets, closed) rest
      | inr alive ↦ elim (Option-cases (get t (w x))) [
        | inl e ↦ rw (resolved_targets, e, alive) rest
        | inr (c, e) ↦ rw (resolved_targets, e, alive) ((alive, e), rest)
      ]
    ]

count-resolved_targets :
    (w : World) (t x : ℕ) (xs : List ℕ)
    → count x (map (λ e. e.0) (resolved_targets w t xs))
      ≡ (if is_closed w x then 0 else if is_present (get t (w x)) then count x xs else 0)
unfolding resolved_targets
count-resolved_targets w t x [] = ground arith
count-resolved_targets w t x (y ∷ xs) = ground (arith, count-resolved_targets w t x xs)

-- The targets that are left, once a loop that met a closed one has cleaned up.
kept-open :
    (w : World) (rs : RelationSet)
    → (if has_closed w rs.targets then cleanup_closed w rs else rs)
      ≡ record { targets = open_targets w rs.targets }
unfolding cleanup_closed
kept-open w rs = elim (Bool-cases (has_closed w rs.targets)) [
  | inl e ↦ rw e refl
  | inr e ↦ rw (e, has_closed-false w 0 rs.targets e) refl
]

-- What All and Resolve return of a set, and the set that they leave.
abbrev pub SetResolved : World → ℕ → RelationSet → Type 0
SetResolved w t rs =
    All (Found w t) (resolve_targets w t rs).0
    × ((x : ℕ)
        → (count x (map (λ e. e.0) (resolve_targets w t rs).0) ≡ (
            if is_closed w x
            then 0
            else if is_present (get t (w x))
            then count x rs.targets
            else 0))
          × (count x (all_targets w rs).0 ≡ (if is_closed w x then 0 else count x rs.targets))
          × (count x (resolve_targets w t rs).1.targets
              ≡ (if is_closed w x then 0 else count x rs.targets)))
    × ((resolve_targets w t rs).1 ≡ (all_targets w rs).1)

-- Resolve of a set returns exactly the targets that are open and have the component, each as often
-- as the set holds it and with its component; All returns the open targets; both leave the set with
-- the open targets.
pub resolve_targets_lem : (w : World) (t : ℕ) (rs : RelationSet) → SetResolved w t rs
unfolding resolve_targets all_targets
resolve_targets_lem w t rs = (
  resolved_targets-Found w t rs.targets,
  (λ x. (
    count-resolved_targets w t x rs.targets,
    count-open_targets w x rs.targets,
    ap (λ r. count x r.targets) (kept-open w rs) ∙ count-open_targets w x rs.targets,
  )),
  refl,
)

-- Does a field refer to a session?
abbrev pub refers : ℕ → Field → Bool
refers u (relation r) = elim r.target [ none ↦ false | some x ↦ x == u ]
refers u (relation_set rs) = contains rs.targets u
refers u (plain v) = false

contains-without :
    (s u : ℕ) (xs : List ℕ) → contains (without s xs) u ≡ (if s == u then false else contains xs u)
unfolding without
contains-without s u [] = ground arith
contains-without s u (x ∷ xs) = ground (arith, contains-without s u xs)

refers-clear_field :
    (s u : ℕ) (f : Field) → refers u (clear_field s f) ≡ (if s == u then false else refers u f)
unfolding clear_field
refers-clear_field s u (relation r) = ground (arith, Option-cases r.target)
refers-clear_field s u (relation_set rs) = contains-without s u rs.targets
refers-clear_field s u (plain v) = ground arith

-- After clearRelationsTo no field of the component refers to the session, and each field refers to
-- the same other sessions as before.
pub clear_relations_to_lem :
    (s u : ℕ) (fs : List Field)
    → map (refers u) (clear_relations_to s fs) ≡ map (λ f. if s == u then false else refers u f) fs
unfolding clear_relations_to
clear_relations_to_lem s u [] = refl
clear_relations_to_lem s u (f ∷ fs) =
    rw (refers-clear_field s u f, clear_relations_to_lem s u fs) refl

-- A set in which no session stands twice.
abbrev pub IsRelationSet : RelationSet → Type 0
IsRelationSet rs = (x : ℕ) → count x rs.targets ≤ 1

pub count-without :
    (s x : ℕ) (xs : List ℕ) → count x (without s xs) ≡ (if s == x then 0 else count x xs)
unfolding without
count-without s x [] = ground arith
count-without s x (y ∷ xs) = ground (arith, count-without s x xs)

-- Add and Remove: Has then holds of the session, or does not, and of the others as before; no
-- session stands twice.
pub has_target_lem :
    (s u : ℕ) (rs : RelationSet)
    → IsRelationSet rs
    → (has_target (some u) (add_target (some s) rs)
        ≡ (if s == u then true else has_target (some u) rs))
      × (has_target (some u) (remove_target (some s) rs)
          ≡ (if s == u then false else has_target (some u) rs))
      × IsRelationSet (add_target (some s) rs)
      × IsRelationSet (remove_target (some s) rs)
unfolding has_target add_target remove_target
has_target_lem s u rs v = (
  added u,
  contains-without s u rs.targets,
  once_added,
  λ x. ground (arith, count-without s x rs.targets, v x),
)
  where
    added :
        (x : ℕ)
        → contains (if contains rs.targets s then rs.targets else rs.targets ++ s ∷ []) x
          ≡ (if s == x then true else contains rs.targets x)
    added x = elim (Bool-cases (contains rs.targets s)) [
      | inl e ↦ rw e (ground arith)
      | inr e ↦ rw e (
          ground (
            arith,
            contains_iff_count x rs.targets,
            contains_iff_count x (rs.targets ++ s ∷ []),
            count-append x rs.targets (s ∷ []),
          ))
    ]

    once_added :
        (x : ℕ) → count x (if contains rs.targets s then rs.targets else rs.targets ++ s ∷ []) ≤ 1
    once_added x = elim (Bool-cases (contains rs.targets s)) [
      | inl e ↦ rw e (v x)
      | inr e ↦
          rw e (
            ground
              (arith, contains_iff_count s rs.targets, count-append x rs.targets (s ∷ []), v x))
    ]
