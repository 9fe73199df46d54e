-- ===== src/System.antt =====
-- tags.go and meta.go: the tags of a system's fields and their analysis by reflection.
-- A Go type is a term of GoType. What reflection says of types is a record: the fields of a struct,
-- and the identity, the name and the size of a type. A *With[T] field makes getPhantomInfo call a
-- method on a nil pointer, which panics.
pub mod Tags
pub mod Walk
pub mod Analyze
pub mod FieldMasks
pub mod Masks
pub mod Roles
pub mod RoleMasks
pub mod Extended
pub mod FieldSteps
pub mod Stepped
pub mod Walked
pub mod Windows
pub mod Accesses
pub mod Tests
use pecs.Prelude.{ℕ, Bool, true, false, Option, none, some, List, [], ◌∷◌, ◌==◌}
use pecs.Bitmask.{Bitmask, no_bits}
use pecs.Access.{AccessMeta}

-- A type as analyzeSystem sees it: the structs Session and Manager, other structs, the generic types
-- of the program, With[T] and Without[T], pointers and slices, and types of any other kind.
pub data GoType : Type 0 where
  session_type manager_type : GoType
  struct_type plain_type : ℕ → GoType
  relation_type relation_set_type peer_type peer_set_type : GoType → GoType
  shared_type shared_set_type pointer slice : GoType → GoType
  phantom : Bool → GoType → GoType

-- reflect.StructField, with the value of the tag `pecs`.
pub record StructField : Type 0 where
  pub name : List ℕ
  pub offset : ℕ
  pub type : GoType
  pub tag : List ℕ

pub record Reflection : Type 0 where
  pub fields_of : GoType → List StructField
  pub id_of : GoType → ℕ
  pub name_of : GoType → List ℕ
  pub size_of : GoType → ℕ

pub data FieldKind : Type 0 where
  kind_session kind_manager kind_component kind_relation kind_relation_slice : FieldKind
  kind_resource kind_phantom_with kind_phantom_without kind_payload kind_peer : FieldKind
  kind_peer_slice kind_shared kind_shared_slice kind_peer_source : FieldKind
  kind_peer_set_source kind_shared_source kind_shared_set_source : FieldKind

pub record FieldMeta : Type 0 where
  pub offset : ℕ
  pub size : ℕ
  pub name : List ℕ
  pub kind : FieldKind
  pub component_id : ℕ
  pub component_type : Option GoType
  pub optional : Bool
  pub mutable : Bool
  pub window_index : ℕ
  pub relation_source_field : List ℕ
  pub relation_source_index : ℕ
  pub relation_data_offset : ℕ
  pub is_slice : Bool
  pub peer_source_index : ℕ
  pub peer_source_offset : ℕ
  pub shared_source_index : ℕ
  pub shared_source_offset : ℕ

pub record WindowMeta : Type 0 where
  pub session_field_index : ℕ
  pub start_field_index : ℕ
  pub end_field_index : ℕ
  pub require_mask : Bitmask
  pub exclude_mask : Bitmask

-- SystemMeta without the pool, the bundle and the stage, which are set by others.
pub record SystemMeta : Type 0 where
  pub require_mask : Bitmask
  pub exclude_mask : Bitmask
  pub fields : List FieldMeta
  pub windows : List WindowMeta
  pub is_multi_session : Bool
  pub is_global : Bool
  pub access : AccessMeta
