-- ===== src/Inject/Covers.antt =====
-- inject.go: each turn of injectSystem that goes on writes all of its field.
use pecs.Prelude.{ℕ, refl, Option, none, some, List, [], ◌∷◌, either_branch}
use pecs.System.{
  GoType, FieldKind, kind_session, kind_manager, kind_component, kind_relation, kind_relation_slice,
  kind_resource, kind_payload, kind_peer, kind_peer_slice, kind_shared, kind_shared_slice,
  FieldMeta,
}
use pecs.Relation.{World, is_closed}
use pecs.Inject.{Heap, Resolver, Cursor, put_data}
use pecs.Inject.Turns.{
  put_resource, put_resolved, fill_resolved, put_target, relation_turn, relation_slice_turn,
  peer_turn, peer_slice_turn, shared_turn, shared_slice_turn, component_turn, manager_turn,
  resource_turn, session_turn, inject_field,
}
use pecs.Inject.Writes.{in_pointer, in_slice, shape, CoversIn}

pub put_data-CoversIn :
    (f : FieldMeta) (last p : Option ℕ) → CoversIn in_pointer f (put_data f last p)
put_data-CoversIn f last (some p) = refl
put_data-CoversIn f last none = either_branch (CoversIn in_pointer f) f.optional refl tt

put_resource-CoversIn :
    (f : FieldMeta) (last p : Option ℕ) → CoversIn in_pointer f (put_resource f last p)
put_resource-CoversIn f last none = tt
put_resource-CoversIn f last (some p) = refl

put_resolved-CoversIn :
    (m : Option Resolver) (g : Resolver → List ℕ → GoType → Option ℕ) (f : FieldMeta)
    (last : Option ℕ) (id : List ℕ)
    → CoversIn in_pointer f (put_resolved m g f last id)
unfolding put_resolved
put_resolved-CoversIn m g f last [] = put_data-CoversIn f last none
put_resolved-CoversIn none g f last (b ∷ id) = tt
put_resolved-CoversIn (some m) g f last (b ∷ id) = put_data-CoversIn f last _

fill_resolved-CoversIn :
    (m : Option Resolver) (g : Resolver → List (List ℕ) → GoType → List (Option ℕ)) (f : FieldMeta)
    (last : Option ℕ) (ids : List (List ℕ))
    → CoversIn in_slice f (fill_resolved m g f last ids)
unfolding fill_resolved
fill_resolved-CoversIn m g f last [] = refl
fill_resolved-CoversIn none g f last (id ∷ ids) = tt
fill_resolved-CoversIn (some m) g f last (id ∷ ids) = refl

manager_turn-CoversIn :
    (m : Option Resolver) (f : FieldMeta) (last : Option ℕ)
    → CoversIn in_pointer f (manager_turn m f last)
unfolding manager_turn
manager_turn-CoversIn none f last = tt
manager_turn-CoversIn (some m) f last = refl

resource_turn-CoversIn :
    (m : Option Resolver) (f : FieldMeta) (last : Option ℕ)
    → CoversIn in_pointer f (resource_turn m f last)
unfolding resource_turn
resource_turn-CoversIn none f last = tt
resource_turn-CoversIn (some m) f last = put_resource-CoversIn f last _

session_turn-CoversIn :
    (u : Option ℕ) (f : FieldMeta) (last : Option ℕ) → CoversIn in_pointer f (session_turn u f last)
unfolding session_turn
session_turn-CoversIn none f last = refl
session_turn-CoversIn (some u) f last = refl

module _ (w : World) (heap : Heap) (manager : Option Resolver) where
  put_target-CoversIn :
      (f : FieldMeta) (last u : Option ℕ)
      → CoversIn in_pointer f (put_target w heap manager f last u)
  unfolding put_target
  put_target-CoversIn f last none = put_data-CoversIn f last none
  put_target-CoversIn f last (some u) =
      either_branch (CoversIn in_pointer f) (is_closed w u) (put_data-CoversIn f last none)
        (put_data-CoversIn f last _)

  relation_turn-CoversIn :
      (f : FieldMeta) (last : Option ℕ)
      → CoversIn in_pointer f (relation_turn w heap manager f last)
  unfolding relation_turn
  relation_turn-CoversIn f none = put_data-CoversIn f none none
  relation_turn-CoversIn f (some p) = put_target-CoversIn f (some p) _

  relation_slice_turn-CoversIn :
      (f : FieldMeta) (last : Option ℕ)
      → CoversIn in_slice f (relation_slice_turn w heap manager f last)
  unfolding relation_slice_turn
  relation_slice_turn-CoversIn f none = refl
  relation_slice_turn-CoversIn f (some p) = refl

  peer_turn-CoversIn :
      (f : FieldMeta) (last : Option ℕ) → CoversIn in_pointer f (peer_turn w heap manager f last)
  unfolding peer_turn
  peer_turn-CoversIn f none = put_data-CoversIn f none none
  peer_turn-CoversIn f (some p) = put_resolved-CoversIn manager _ f (some p) _

  peer_slice_turn-CoversIn :
      (f : FieldMeta) (last : Option ℕ)
      → CoversIn in_slice f (peer_slice_turn w heap manager f last)
  unfolding peer_slice_turn
  peer_slice_turn-CoversIn f none = refl
  peer_slice_turn-CoversIn f (some p) = fill_resolved-CoversIn manager _ f (some p) _

  shared_turn-CoversIn :
      (f : FieldMeta) (last : Option ℕ) → CoversIn in_pointer f (shared_turn w heap manager f last)
  unfolding shared_turn
  shared_turn-CoversIn f none = put_data-CoversIn f none none
  shared_turn-CoversIn f (some p) = put_resolved-CoversIn manager _ f (some p) _

  shared_slice_turn-CoversIn :
      (f : FieldMeta) (last : Option ℕ)
      → CoversIn in_slice f (shared_slice_turn w heap manager f last)
  unfolding shared_slice_turn
  shared_slice_turn-CoversIn f none = refl
  shared_slice_turn-CoversIn f (some p) = fill_resolved-CoversIn manager _ f (some p) _

  component_turn-CoversIn :
      (f : FieldMeta) (u : Option ℕ) → CoversIn in_pointer f (component_turn w heap manager f u)
  unfolding component_turn
  component_turn-CoversIn f none = tt
  component_turn-CoversIn f (some u) = put_data-CoversIn f _ _

  -- A turn that goes on has written all of its field.
  pub inject_field-CoversIn :
      (kind : FieldKind) (f : FieldMeta) (c : Cursor)
      → CoversIn (shape kind) f (inject_field w heap manager kind f c)
  unfolding inject_field
  inject_field-CoversIn kind_session f c = session_turn-CoversIn c.current f c.last
  inject_field-CoversIn kind_manager f c = manager_turn-CoversIn manager f c.last
  inject_field-CoversIn kind_component f c = component_turn-CoversIn f c.current
  inject_field-CoversIn kind_relation f c = relation_turn-CoversIn f c.last
  inject_field-CoversIn kind_relation_slice f c = relation_slice_turn-CoversIn f c.last
  inject_field-CoversIn kind_resource f c = resource_turn-CoversIn manager f c.last
  inject_field-CoversIn kind_payload f c = (refl, refl)
  inject_field-CoversIn kind_peer f c = peer_turn-CoversIn f c.last
  inject_field-CoversIn kind_peer_slice f c = peer_slice_turn-CoversIn f c.last
  inject_field-CoversIn kind_shared f c = shared_turn-CoversIn f c.last
  inject_field-CoversIn kind_shared_slice f c = shared_slice_turn-CoversIn f c.last
  inject_field-CoversIn _ f c = tt
