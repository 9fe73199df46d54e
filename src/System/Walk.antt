-- ===== src/System/Walk.antt =====
-- meta.go: analyzeSystem, field by field. reflect.Type.Kind and Elem are clauses on GoType.
use pecs.Prelude.{
  ℕ, ◌+◌, Bool, true, false, Option, none, some, List, [], ◌∷◌, ◌++◌, ◌==◌, if◌then◌else◌, length,
  ltb,
}
use pecs.Bitmask.{Bitmask, no_bits, set}
use pecs.Registry.{ComponentRegistry, Registration, registered, limit_exceeded}
use pecs.Access.{AccessMeta}
use pecs.System.{
  GoType, plain_type, relation_type, relation_set_type, peer_type, peer_set_type, shared_type,
  shared_set_type, pointer, slice, StructField, Reflection, FieldKind, kind_session, kind_manager,
  kind_relation, kind_relation_slice, kind_resource, kind_phantom_with, kind_phantom_without,
  kind_peer, kind_peer_slice, kind_shared, kind_shared_slice, FieldMeta, WindowMeta,
}
use pecs.System.Tags.{TagInfo}

-- What the loop of analyzeSystem has built. `current_window` is the last window, once there is one;
-- `last` is the index and the meta data of the last component field.
pub record Walk : Type 0 where
  pub registry : ComponentRegistry
  pub require_mask : Bitmask
  pub exclude_mask : Bitmask
  pub fields : List FieldMeta
  pub windows : List WindowMeta
  pub access : AccessMeta
  pub window_index : ℕ
  pub last : Option (ℕ × FieldMeta)
  pub session_count : ℕ
  pub is_local : Bool

-- A step goes on, or panics: at the limit of component types, or on a pointer to a phantom type.
pub data Step : Type 0 where
  goes_on : Walk → Step
  panics : ComponentRegistry → Step

abbrev pub is_slice_type : GoType → Bool
is_slice_type (slice t) = true
is_slice_type _ = false

-- The element of a slice, then of a pointer: `compType` of a traversal.
abbrev pub slice_elem : GoType → GoType
slice_elem (slice t) = t
slice_elem t = t

abbrev pub pointer_elem : GoType → GoType
pointer_elem (pointer t) = t
pointer_elem t = t

-- `Kind() == reflect.Struct`
abbrev pub is_struct : GoType → Bool
is_struct (plain_type n) = false
is_struct (pointer t) = false
is_struct (slice t) = false
is_struct _ = true

-- The last window changed; none is changed if there is none.
abbrev pub update_last : (WindowMeta → WindowMeta) → List WindowMeta → List WindowMeta
update_last f [] = []
update_last f (w ∷ []) = f w ∷ []
update_last f (w ∷ v ∷ ws) = w ∷ update_last f (v ∷ ws)

abbrev pub add_field : FieldMeta → Walk → Walk
add_field f w = record w { fields = w.fields ++ f ∷ [] }

-- The meta data of a field before its kind is known, with the window of the walk.
abbrev pub start_field : StructField → TagInfo → ℕ → FieldMeta
start_field field tag window = record {
  offset = field.offset;
  size = 0;
  name = field.name;
  kind = kind_session;
  component_id = 0;
  component_type = none;
  optional = tag.optional;
  mutable = tag.mutable;
  window_index = window;
  relation_source_field = [];
  relation_source_index = 0;
  relation_data_offset = 0;
  is_slice = false;
  peer_source_index = 0;
  peer_source_offset = 0;
  shared_source_index = 0;
  shared_source_offset = 0;
}

unfoldable pub session_field : StructField → TagInfo → Walk → Walk
session_field field tag w =
    let index = if ltb 0 w.session_count then w.window_index + 1 else w.window_index in
    let closed = update_last (λ v. record v { end_field_index = length w.fields }) w.windows in
    let opened : WindowMeta = record {
      session_field_index = length w.fields;
      start_field_index = length w.fields;
      end_field_index = 0;
      require_mask = no_bits;
      exclude_mask = no_bits;
    } in
    record w {
      is_local = true;
      window_index = index;
      session_count = w.session_count + 1;
      windows = closed ++ opened ∷ [];
      fields = w.fields ++ start_field field tag index ∷ [];
    }

unfoldable pub manager_field : StructField → TagInfo → Walk → Walk
manager_field field tag w =
    add_field (record (start_field field tag w.window_index) { kind = kind_manager }) w

abbrev pub require : ℕ → Walk → Walk
require id w = record w {
  require_mask = set w.require_mask id;
  windows = update_last (λ v. record v { require_mask = set v.require_mask id }) w.windows;
}

-- A component that is optional is not required.
abbrev pub require_unless : Bool → ℕ → Walk → Walk
require_unless true id w = w
require_unless false id w = require id w

abbrev pub exclude : ℕ → Walk → Walk
exclude id w = record w {
  exclude_mask = set w.exclude_mask id;
  windows = update_last (λ v. record v { exclude_mask = set v.exclude_mask id }) w.windows;
}

-- The first field of the source component that `matches`, and offset 0 if there is none.
abbrev pub source_offset : (GoType → Bool) → List StructField → ℕ
source_offset matches [] = 0
source_offset matches (f ∷ fs) =
    let rest = source_offset matches fs in if matches f.type then f.offset else rest

abbrev pub or_none : Option GoType → GoType
or_none none = plain_type 0
or_none (some t) = t

abbrev pub peer_kind : Bool → FieldKind
peer_kind false = kind_peer
peer_kind true = kind_peer_slice

abbrev pub shared_kind : Bool → FieldKind
shared_kind false = kind_shared
shared_kind true = kind_shared_slice

abbrev pub relation_kind : Bool → FieldKind
relation_kind false = kind_relation
relation_kind true = kind_relation_slice

-- A field that is filled through the last component, a slice or not.
abbrev pub traversal : (Bool → FieldKind) → Bool → GoType → ℕ → FieldMeta → FieldMeta
traversal kind_for in_slice t id meta = record meta {
  kind = kind_for in_slice;
  component_id = id;
  component_type = some t;
  is_slice = in_slice;
}

abbrev pub access_component : TagInfo → ℕ → AccessMeta → AccessMeta
access_component tag t a =
    if tag.mutable
    then record a { writes = a.writes ++ t ∷ [] }
    else record a { reads = a.reads ++ t ∷ [] }

abbrev pub access_resource : TagInfo → ℕ → AccessMeta → AccessMeta
access_resource tag t a =
    if tag.mutable
    then record a { res_writes = a.res_writes ++ t ∷ [] }
    else record a { res_reads = a.res_reads ++ t ∷ [] }

module _ (types : Reflection) where
  abbrev pub same_type : GoType → GoType → Bool
  same_type a b = types.id_of a == types.id_of b

  -- Is the type the reference to `target` that a field of the kind resolves, a set for a slice?
  abbrev pub is_peer_to : Bool → GoType → GoType → Bool
  is_peer_to false target (peer_type t) = same_type t target
  is_peer_to true target (peer_set_type t) = same_type t target
  is_peer_to _ target _ = false

  abbrev pub is_shared_to : Bool → GoType → GoType → Bool
  is_shared_to false target (shared_type t) = same_type t target
  is_shared_to true target (shared_set_type t) = same_type t target
  is_shared_to _ target _ = false

  abbrev pub is_relation_to : Bool → GoType → GoType → Bool
  is_relation_to false target (relation_type t) = same_type t target
  is_relation_to true target (relation_set_type t) = same_type t target
  is_relation_to _ target _ = false

  abbrev pub source_fields : FieldMeta → List StructField
  source_fields f = types.fields_of (or_none f.component_type)

  unfoldable pub phantom_field : Bool → GoType → StructField → TagInfo → Walk → Registration → Step
  phantom_field is_without t field tag w (limit_exceeded r) = panics r
  phantom_field is_without t field tag w (registered id r) =
      let known = record w { registry = r; is_local = true } in
      let meta = record (start_field field tag w.window_index) {
        kind = if is_without then kind_phantom_without else kind_phantom_with;
        component_id = id;
        component_type = some t;
      } in
      goes_on (add_field meta (if is_without then exclude id known else require id known))

  unfoldable pub resource_field : StructField → TagInfo → Walk → Walk
  resource_field field tag w =
      let t = pointer_elem field.type in
      let meta = record (start_field field tag w.window_index) {
        kind = kind_resource;
        component_type = some t;
      } in
      add_field meta (record w { access = access_resource tag (types.id_of t) w.access })

  -- The field of a peer or shared traversal, linked to the last component field.
  abbrev pub linked_peer : GoType → Option (ℕ × FieldMeta) → FieldMeta → FieldMeta
  linked_peer t none meta = meta
  linked_peer t (some (i, source)) meta = record meta {
    peer_source_index = i;
    peer_source_offset = source_offset (is_peer_to meta.is_slice t) (source_fields source);
  }

  abbrev pub linked_shared : GoType → Option (ℕ × FieldMeta) → FieldMeta → FieldMeta
  linked_shared t none meta = meta
  linked_shared t (some (i, source)) meta = record meta {
    shared_source_index = i;
    shared_source_offset = source_offset (is_shared_to meta.is_slice t) (source_fields source);
  }

  unfoldable pub peer_field : StructField → TagInfo → Walk → Walk
  peer_field field tag w =
      let t = pointer_elem (slice_elem field.type) in
      let meta =
        traversal peer_kind (is_slice_type field.type) t 0 (start_field field tag w.window_index) in
      add_field (linked_peer t w.last meta) (record w { is_local = true })

  unfoldable pub shared_field : StructField → TagInfo → Walk → Walk
  shared_field field tag w =
      let t = pointer_elem (slice_elem field.type) in
      let meta =
        traversal shared_kind (is_slice_type field.type) t 0
          (start_field field tag w.window_index) in
      add_field (linked_shared t w.last meta) (record w { is_local = true })
