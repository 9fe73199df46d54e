-- ===== src/Relation.antt =====
-- relation.go: references from a component to other sessions.
-- A session is known by its identity, a number, and `World` gives the state of each. The component
-- type T of a Relation[T] or RelationSet[T] is the argument `t`.
pub mod Laws
mod Tests
use pecs.Prelude.{
  ℕ, zero, suc, ◌+◌, Bool, true, false, not, ◌&&◌, Option, none, some, List, [], ◌∷◌, ◌++◌, ◌==◌,
  if◌then◌else◌, contains, length,
}
use pecs.Registry.{get_type}
use pecs.Session.{Session, State, get_component_unsafe}
use pecs.Session.Components.{get, has_component}

abbrev pub World : Type 0
World = ℕ → State

abbrev pub is_closed : World → ℕ → Bool
is_closed w s = (w s).session.closed

-- Relation[T]: its target, nil at first.
pub record Relation : Type 0 where
  pub target : Option ℕ

unfoldable pub set_relation : Option ℕ → Relation → Relation
set_relation target r = record { target = target }

unfoldable pub clear_relation : Relation → Relation
clear_relation r = record { target = none }

-- Get: the target, and the relation after it, which forgets a target that is closed.
unfoldable pub get_relation : World → Relation → Option ℕ × Relation
get_relation w r = elim r.target [
  | none ↦ (none, r)
  | some s ↦ if is_closed w s then (none, record { target = none }) else (some s, r)
]

-- What Valid says once Get has returned.
abbrev pub valid_target : World → ℕ → Option ℕ × Relation → Bool × Relation
valid_target w t (none, r) = (false, r)
valid_target w t (some s, r) = (has_component t (w s), r)

unfoldable pub valid_relation : World → ℕ → Relation → Bool × Relation
valid_relation w t r = valid_target w t (get_relation w r)

-- What Resolve returns: a session, a component, and whether there are both.
pub record Resolution : Type 0 where
  pub session : Option ℕ
  pub component : Option ℕ
  pub found : Bool

-- What Resolve returns once Get has returned.
abbrev pub resolve_target : World → ℕ → Option ℕ × Relation → Resolution × Relation
resolve_target w t (none, r) = (record { session = none; component = none; found = false }, r)
resolve_target w t (some s, r) = elim (get t (w s)) [
  | none ↦ (record { session = some s; component = none; found = false }, r)
  | some c ↦ (record { session = some s; component = some c; found = true }, r)
]

unfoldable pub resolve_relation : World → ℕ → Relation → Resolution × Relation
resolve_relation w t r = resolve_target w t (get_relation w r)

-- RelationSet[T]: the keys of its map, each once, in the order in which they are ranged over. A nil
-- map and an empty one behave alike. A nil target is `none`.
pub record RelationSet : Type 0 where
  pub targets : List ℕ

unfoldable pub add_target : Option ℕ → RelationSet → RelationSet
add_target none rs = rs
add_target (some s) rs = record {
  targets = if contains rs.targets s then rs.targets else rs.targets ++ s ∷ [];
}

-- `delete(rs.targets, target)`
unfoldable pub without : ℕ → List ℕ → List ℕ
without s [] = []
without s (x ∷ xs) = let rest = without s xs in if x == s then rest else x ∷ rest

unfoldable pub remove_target : Option ℕ → RelationSet → RelationSet
remove_target none rs = rs
remove_target (some s) rs = record { targets = without s rs.targets }

unfoldable pub has_target : Option ℕ → RelationSet → Bool
has_target none rs = false
has_target (some s) rs = contains rs.targets s

unfoldable pub clear_targets : RelationSet → RelationSet
clear_targets rs = record { targets = [] }

unfoldable pub count_targets : RelationSet → ℕ
count_targets rs = length rs.targets

-- The targets that are not closed, of a loop over the map.
unfoldable pub open_targets : World → List ℕ → List ℕ
open_targets w [] = []
open_targets w (x ∷ xs) = let rest = open_targets w xs in if is_closed w x then rest else x ∷ rest

unfoldable pub has_closed : World → List ℕ → Bool
has_closed w [] = false
has_closed w (x ∷ xs) = let rest = has_closed w xs in if is_closed w x then true else rest

unfoldable pub cleanup_closed : World → RelationSet → RelationSet
unfolding open_targets
cleanup_closed w rs = record { targets = open_targets w rs.targets }

-- All: the targets, and the set after it.
unfoldable pub all_targets : World → RelationSet → List ℕ × RelationSet
all_targets w rs =
    (open_targets w rs.targets, if has_closed w rs.targets then cleanup_closed w rs else rs)

-- The loop of Resolve: the targets that are open and have the component, with it.
unfoldable pub resolved_targets : World → ℕ → List ℕ → List (ℕ × ℕ)
resolved_targets w t [] = []
resolved_targets w t (x ∷ xs) =
    let rest = resolved_targets w t xs in
    if is_closed w x then rest else (elim (get t (w x)) [ none ↦ rest | some c ↦ (x, c) ∷ rest ])

unfoldable pub resolve_targets : World → ℕ → RelationSet → List (ℕ × ℕ) × RelationSet
resolve_targets w t rs =
    (resolved_targets w t rs.targets, if has_closed w rs.targets then cleanup_closed w rs else rs)

unfoldable pub get_targets : RelationSet → List ℕ
get_targets rs = rs.targets

unfoldable pub get_relation_set_targets : World → RelationSet → List ℕ
get_relation_set_targets w rs = open_targets w rs.targets

-- A field of a component, as the test on its kind and the name of its type sees it.
pub data Field : Type 0 where
  relation : Relation → Field
  relation_set : RelationSet → Field
  plain : ℕ → Field

unfoldable pub clear_field : ℕ → Field → Field
unfolding without
clear_field s (relation r) = elim r.target [
  | none ↦ relation r
  | some x ↦ if x == s then relation (record { target = none }) else relation r
]
clear_field s (relation_set rs) = relation_set (record { targets = without s rs.targets })
clear_field s (plain v) = plain v

-- clearRelationsTo, on the fields of a component that is a struct.
unfoldable pub clear_relations_to : ℕ → List Field → List Field
unfolding clear_field
clear_relations_to s [] = []
clear_relations_to s (f ∷ fs) = clear_field s f ∷ clear_relations_to s fs

-- The fields of the component at `p` cleared, and no others.
abbrev pub clear_at : ℕ → ℕ → (ℕ → List Field) → ℕ → List Field
clear_at s p fields a = if a == p then clear_relations_to s (fields a) else fields a

-- Session.clearRelationsTo, over `n` identifiers from `id`, on the fields of every component that is
-- present with a registered type.
unfoldable pub clear_session_relations : ℕ → ℕ → State → ℕ → (ℕ → List Field) → ℕ → List Field
clear_session_relations zero id st s fields = fields
clear_session_relations (suc n) id st s fields = elim (get_component_unsafe st.session id) [
  | none ↦ clear_session_relations n (suc id) st s fields
  | some p ↦ elim (get_type st.registry id) [
    | none ↦ clear_session_relations n (suc id) st s fields
    | some t ↦ clear_session_relations n (suc id) st s (clear_at s p fields)
  ]
]
