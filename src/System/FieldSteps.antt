-- ===== src/System/FieldSteps.antt =====
-- meta.go: the fields that access no component of their own, and what they add.
use pecs.Prelude.{ℕ, refl, Bool, true, false, Option, none, some, arith, either_branch}
use pecs.Registry.{Registration, registered, limit_exceeded}
use pecs.Access.{AccessMeta}
use pecs.System.{
  GoType, StructField, Reflection, kind_phantom_with, kind_phantom_without, kind_resource,
  kind_payload, FieldMeta,
}
use pecs.System.Tags.{TagInfo}
use pecs.System.Walk.{
  Walk, add_field, start_field, phantom_field, resource_field, peer_field, shared_field,
  access_component, access_resource, linked_peer, linked_shared, traversal, peer_kind, shared_kind,
  pointer_elem, slice_elem, is_slice_type,
}
use pecs.System.Analyze.{payload_field}
use pecs.System.Extended.{
  Grows, Grows-refl, contains-append, Extended, Stepped, length-update_last, quiet-Extended,
}

module _ (types : Reflection) where
  pub phantom_field-Stepped :
      (is_without : Bool) (t : GoType) (field : StructField) (tag : TagInfo) (w : Walk)
      (reg : Registration)
      → Stepped types field false w (phantom_field types is_without t field tag w reg)
  unfolding phantom_field
  phantom_field-Stepped is_without t field tag w (limit_exceeded r) = tt
  phantom_field-Stepped true t field tag w (registered id r) =
      quiet-Extended types field w _
        (record (start_field field tag w.window_index) {
          kind = kind_phantom_without;
          component_id = id;
          component_type = some t;
        })
        refl refl refl refl refl refl (length-update_last types _ w.windows) refl Grows-refl
  phantom_field-Stepped false t field tag w (registered id r) =
      quiet-Extended types field w _
        (record (start_field field tag w.window_index) {
          kind = kind_phantom_with;
          component_id = id;
          component_type = some t;
        })
        refl refl refl refl refl refl (length-update_last types _ w.windows) refl Grows-refl

  Grows-resource : (tag : TagInfo) (t : ℕ) (a : AccessMeta) → Grows a (access_resource tag t a)
  Grows-resource tag t a =
      either_branch (Grows a) tag.mutable (record { reads_grow = λ u e. e; writes_grow = λ u e. e })
        (record { reads_grow = λ u e. e; writes_grow = λ u e. e })

  pub Grows-component :
      (tag : TagInfo) (t : ℕ) (a : AccessMeta) → Grows a (access_component tag t a)
  Grows-component tag t a =
      either_branch (Grows a) tag.mutable
        (record {
          reads_grow = λ u e. e;
          writes_grow = λ u e. ground (arith, e, contains-append a.writes u t);
        })
        (record {
          reads_grow = λ u e. ground (arith, e, contains-append a.reads u t);
          writes_grow = λ u e. e;
        })

  pub resource_field-Extended :
      (field : StructField) (tag : TagInfo) (w : Walk)
      → Extended types field false w (resource_field types field tag w)
  unfolding resource_field
  resource_field-Extended field tag w =
      quiet-Extended types field w _
        (record (start_field field tag w.window_index) {
          kind = kind_resource;
          component_type = some (pointer_elem field.type);
        })
        refl refl refl refl refl refl refl refl (Grows-resource tag _ w.access)

  pub payload_field-Extended :
      (field : StructField) (tag : TagInfo) (w : Walk)
      → Extended types field false w (payload_field types field tag w)
  unfolding payload_field
  payload_field-Extended field tag w =
      quiet-Extended types field w _
        (record (start_field field tag w.window_index) {
          kind = kind_payload;
          component_type = some field.type;
          size = types.size_of field.type;
        })
        refl refl refl refl refl refl refl refl Grows-refl

  pub peer_field-Extended :
      (field : StructField) (tag : TagInfo) (w : Walk)
      → Extended types field false w (peer_field types field tag w)
  unfolding peer_field
  peer_field-Extended field tag w = of_source w.last (is_slice_type field.type)
    where
      t : GoType
      t = pointer_elem (slice_elem field.type)

      of_source :
          (last : Option (ℕ × FieldMeta)) (s : Bool)
          → Extended types field false w (
              add_field
                (linked_peer types t last
                  (traversal peer_kind s t 0 (start_field field tag w.window_index)))
                (record w { is_local = true }))
      of_source none true =
          quiet-Extended types field w _ _ refl refl refl refl refl refl refl refl Grows-refl
      of_source none false =
          quiet-Extended types field w _ _ refl refl refl refl refl refl refl refl Grows-refl
      of_source (some l) true =
          quiet-Extended types field w _ _ refl refl refl refl refl refl refl refl Grows-refl
      of_source (some l) false =
          quiet-Extended types field w _ _ refl refl refl refl refl refl refl refl Grows-refl

  pub shared_field-Extended :
      (field : StructField) (tag : TagInfo) (w : Walk)
      → Extended types field false w (shared_field types field tag w)
  unfolding shared_field
  shared_field-Extended field tag w = of_source w.last (is_slice_type field.type)
    where
      t : GoType
      t = pointer_elem (slice_elem field.type)

      of_source :
          (last : Option (ℕ × FieldMeta)) (s : Bool)
          → Extended types field false w (
              add_field
                (linked_shared types t last
                  (traversal shared_kind s t 0 (start_field field tag w.window_index)))
                (record w { is_local = true }))
      of_source none true =
          quiet-Extended types field w _ _ refl refl refl refl refl refl refl refl Grows-refl
      of_source none false =
          quiet-Extended types field w _ _ refl refl refl refl refl refl refl refl Grows-refl
      of_source (some l) true =
          quiet-Extended types field w _ _ refl refl refl refl refl refl refl refl Grows-refl
      of_source (some l) false =
          quiet-Extended types field w _ _ refl refl refl refl refl refl refl refl Grows-refl
