-- ===== src/System/Analyze.antt =====
-- meta.go: analyzeSystem, the fields that register a component type, and the loop.
use pecs.Prelude.{
  ℕ, true, false, not, Option, none, some, List, [], ◌∷◌, if◌then◌else◌, length, ltb,
}
use pecs.Bitmask.{no_bits}
use pecs.Registry.{ComponentRegistry, Registration, registered, limit_exceeded, register}
use pecs.Access.{AccessMeta, prepare_sets}
use pecs.System.{
  GoType, session_type, manager_type, pointer, phantom, StructField, Reflection, kind_component,
  kind_payload, FieldMeta, SystemMeta,
}
use pecs.System.Tags.{TagInfo, parse_tag}
use pecs.System.Walk.{
  Walk, Step, goes_on, panics, is_slice_type, slice_elem, pointer_elem, is_struct, update_last,
  add_field, start_field, session_field, manager_field, require_unless, source_offset,
  access_component, is_relation_to, traversal, relation_kind, source_fields, phantom_field,
  resource_field, peer_field, shared_field,
}

-- The result: the meta data with the registry, the error of a type that is no struct, or the panic.
pub data Analysis : Type 0 where
  analyzed : SystemMeta → ComponentRegistry → Analysis
  not_a_struct : Analysis
  panicked : ComponentRegistry → Analysis

abbrev pub no_access : AccessMeta
no_access = record {
  reads = [];
  writes = [];
  res_reads = [];
  res_writes = [];
  reads_set = none;
  writes_set = none;
  res_reads_set = none;
  res_writes_set = none;
}

abbrev pub start_walk : ComponentRegistry → Walk
start_walk r = record {
  registry = r;
  require_mask = no_bits;
  exclude_mask = no_bits;
  fields = [];
  windows = [];
  access = no_access;
  window_index = 0;
  last = none;
  session_count = 0;
  is_local = false;
}

unfoldable pub finish : Step → Analysis
finish (panics r) = panicked r
finish (goes_on w) =
    let closed = update_last (λ v. record v { end_field_index = length w.fields }) w.windows in
    analyzed
      (record {
        require_mask = w.require_mask;
        exclude_mask = w.exclude_mask;
        fields = w.fields;
        windows = closed;
        is_multi_session = ltb 1 (length closed);
        is_global = not w.is_local;
        access = prepare_sets w.access;
      })
      w.registry

module _ (types : Reflection) where
  -- The field of a relation traversal, linked to the last component field.
  abbrev pub linked_relation : GoType → Option (ℕ × FieldMeta) → FieldMeta → FieldMeta
  linked_relation t none meta = meta
  linked_relation t (some (i, source)) meta = record meta {
    relation_source_index = i;
    relation_source_field = source.name;
    relation_data_offset =
        source_offset (is_relation_to types meta.is_slice t) (source_fields types source);
  }

  unfoldable pub relation_field : GoType → StructField → TagInfo → Walk → Registration → Step
  relation_field t field tag w (limit_exceeded r) = panics r
  relation_field t field tag w (registered id r) =
      let meta =
        traversal relation_kind (is_slice_type field.type) t id
          (start_field field tag w.window_index) in
      goes_on (
        add_field (linked_relation t w.last meta) (record w {
          registry = r;
          is_local = true;
          access = access_component tag (types.id_of t) w.access;
        }))

  abbrev pub component_meta : GoType → ℕ → FieldMeta → FieldMeta
  component_meta t id meta = record meta {
    kind = kind_component;
    component_id = id;
    component_type = some t;
  }

  unfoldable pub component_field : GoType → StructField → TagInfo → Walk → Registration → Step
  component_field t field tag w (limit_exceeded r) = panics r
  component_field t field tag w (registered id r) =
      let meta = component_meta t id (start_field field tag w.window_index) in
      let known : Walk = record w {
        registry = r;
        is_local = true;
        last = some (length w.fields, meta);
        access = access_component tag (types.id_of t) w.access;
      } in
      goes_on (add_field meta (require_unless tag.optional id known))

  unfoldable pub payload_field : StructField → TagInfo → Walk → Walk
  payload_field field tag w =
      add_field
        (record (start_field field tag w.window_index) {
          kind = kind_payload;
          component_type = some field.type;
          size = types.size_of field.type;
        })
        w

  abbrev pub register_type : Walk → GoType → Registration
  register_type w t = register w.registry (types.id_of t) (types.name_of t)

  -- A field without a tag of its own: a component, or payload.
  unfoldable pub untagged_field : GoType → StructField → TagInfo → Walk → Step
  untagged_field (pointer t) field tag w =
      if is_struct t
      then component_field t field tag w (register_type w t)
      else goes_on (payload_field field tag w)
  untagged_field _ field tag w = goes_on (payload_field field tag w)

  -- The checks after those for a session, a manager and a phantom type.
  unfoldable pub tagged_field : StructField → TagInfo → Walk → Step
  tagged_field field tag w =
      if tag.resource
      then goes_on (resource_field types field tag w)
      else if tag.peer
      then goes_on (peer_field types field tag w)
      else if tag.shared
      then goes_on (shared_field types field tag w)
      else if tag.relation
      then (let t = pointer_elem (slice_elem field.type) in
          relation_field t field tag w (register_type w t))
      else untagged_field field.type field tag w

  -- One turn of the loop, on the type of the field.
  unfoldable pub walk_type : GoType → StructField → TagInfo → Walk → Step
  walk_type (pointer session_type) field tag w = goes_on (session_field field tag w)
  walk_type (pointer manager_type) field tag w = goes_on (manager_field field tag w)
  walk_type (phantom is_without t) field tag w =
      phantom_field types is_without t field tag w (register_type w t)
  walk_type (pointer (phantom is_without t)) field tag w = panics w.registry
  walk_type _ field tag w = tagged_field field tag w

  unfoldable pub walk_field : StructField → Walk → Step
  walk_field field w = walk_type field.type field (parse_tag field.tag) w

  unfoldable pub walk_fields : List StructField → Step → Step
  walk_fields fields (panics r) = panics r
  walk_fields [] (goes_on w) = goes_on w
  walk_fields (f ∷ fs) (goes_on w) = walk_fields fs (walk_field f w)

  unfoldable pub analyze_system : GoType → ComponentRegistry → Analysis
  unfolding finish walk_fields
  analyze_system system r =
      let t = pointer_elem system in
      if is_struct t
      then finish (walk_fields (types.fields_of t) (goes_on (start_walk r)))
      else not_a_struct
