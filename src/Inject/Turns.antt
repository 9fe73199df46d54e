-- ===== src/Inject/Turns.antt =====
-- inject.go: the kinds of fields, the loop of injectSystem, and zeroSystem.
use pecs.Prelude.{ℕ, ◌+◌, not, Option, none, some, List, [], ◌∷◌, if◌then◌else◌}
use pecs.Session.{get_component_unsafe}
use pecs.Relation.{World, is_closed, get_relation_set_targets}
use pecs.System.{
  GoType, FieldKind, kind_session, kind_manager, kind_component, kind_relation, kind_relation_slice,
  kind_resource, kind_phantom_with, kind_phantom_without, kind_payload, kind_peer, kind_peer_slice,
  kind_shared, kind_shared_slice, FieldMeta, SystemMeta,
}
use pecs.System.Walk.{or_none}
use pecs.Inject.{
  to_session, to_data, to_manager, Instance, Heap, Resolver, Write, puts, fills, empties, zeroes,
  leaves, Turn, writes, refuses, faults, Injection, injected, refused, faulted, apply_write, Cursor,
  enter_window, put_data, all_ids, collect_component_ptrs, collect_non_nil_ptrs,
}

abbrev pub component_type : FieldMeta → GoType
component_type field = or_none field.component_type

-- A resource that is missing is refused, also for a field that is optional.
abbrev pub put_resource : FieldMeta → Option ℕ → Option ℕ → Turn
put_resource field last none = refuses
put_resource field last (some p) = writes (puts field.offset (some (to_data p))) last

-- A peer or a shared entity, by its identifier; the empty one stands for none. A nil manager is read
-- through.
unfoldable pub put_resolved :
    Option Resolver → (Resolver → List ℕ → GoType → Option ℕ) → FieldMeta → Option ℕ → List ℕ → Turn
put_resolved manager resolve field last [] = put_data field last none
put_resolved none resolve field last (b ∷ id) = faults
put_resolved (some m) resolve field last (b ∷ id) =
    put_data field last (resolve m (b ∷ id) (component_type field))

unfoldable pub fill_resolved :
    Option Resolver
    → (Resolver → List (List ℕ) → GoType → List (Option ℕ))
    → FieldMeta
    → Option ℕ
    → List (List ℕ)
    → Turn
fill_resolved manager resolve field last [] = writes (empties field.offset) last
fill_resolved none resolve field last (id ∷ ids) = faults
fill_resolved (some m) resolve field last (id ∷ ids) =
    writes (fills field.offset (collect_non_nil_ptrs (resolve m (id ∷ ids) (component_type field))))
      last

unfoldable pub manager_turn : Option Resolver → FieldMeta → Option ℕ → Turn
manager_turn none field last = refuses
manager_turn (some m) field last = writes (puts field.offset (some to_manager)) last

unfoldable pub resource_turn : Option Resolver → FieldMeta → Option ℕ → Turn
resource_turn none field last = refuses
resource_turn (some m) field last = put_resource field last (m.get_resource (component_type field))

-- A nil session is put as nil.
unfoldable pub session_turn : Option ℕ → FieldMeta → Option ℕ → Turn
session_turn none field last = writes (puts field.offset none) last
session_turn (some u) field last = writes (puts field.offset (some (to_session u))) last

module _ (w : World) (heap : Heap) (manager : Option Resolver) where
  -- The component of the target of a relation, if the target is open.
  unfoldable pub put_target : FieldMeta → Option ℕ → Option ℕ → Turn
  put_target field last none = put_data field last none
  put_target field last (some u) =
      if is_closed w u
      then put_data field last none
      else put_data field last (get_component_unsafe (w u).session field.component_id)

  unfoldable pub relation_turn : FieldMeta → Option ℕ → Turn
  unfolding put_target
  relation_turn field none = put_data field none none
  relation_turn field (some p) =
      put_target field (some p) (heap.relation_at (p + field.relation_data_offset)).target

  unfoldable pub relation_slice_turn : FieldMeta → Option ℕ → Turn
  relation_slice_turn field none = writes (empties field.offset) none
  relation_slice_turn field (some p) =
      let targets =
        get_relation_set_targets w (heap.relation_set_at (p + field.relation_data_offset)) in
      writes (fills field.offset (collect_component_ptrs w field.component_id targets)) (some p)

  unfoldable pub peer_turn : FieldMeta → Option ℕ → Turn
  unfolding put_resolved
  peer_turn field none = put_data field none none
  peer_turn field (some p) =
      put_resolved manager (λ m. m.resolve_peer) field (some p)
        (heap.peer_id_at (p + field.peer_source_offset))

  unfoldable pub peer_slice_turn : FieldMeta → Option ℕ → Turn
  unfolding fill_resolved
  peer_slice_turn field none = writes (empties field.offset) none
  peer_slice_turn field (some p) =
      fill_resolved manager (λ m. m.resolve_peers) field (some p)
        (all_ids (heap.peer_ids_at (p + field.peer_source_offset)))

  unfoldable pub shared_turn : FieldMeta → Option ℕ → Turn
  unfolding put_resolved
  shared_turn field none = put_data field none none
  shared_turn field (some p) =
      put_resolved manager (λ m. m.resolve_shared) field (some p)
        (heap.shared_id_at (p + field.shared_source_offset))

  unfoldable pub shared_slice_turn : FieldMeta → Option ℕ → Turn
  unfolding fill_resolved
  shared_slice_turn field none = writes (empties field.offset) none
  shared_slice_turn field (some p) =
      fill_resolved manager (λ m. m.resolve_shared_many) field (some p)
        (all_ids (heap.shared_ids_at (p + field.shared_source_offset)))

  -- The component of the current session, which is the last component from then on.
  unfoldable pub component_turn : FieldMeta → Option ℕ → Turn
  component_turn field none = faults
  component_turn field (some u) =
      let ptr = get_component_unsafe (w u).session field.component_id in put_data field ptr ptr

  -- The switch on the kind; the other kinds fall through it.
  unfoldable pub inject_field : FieldKind → FieldMeta → Cursor → Turn
  unfolding relation_turn relation_slice_turn peer_turn peer_slice_turn shared_turn
      shared_slice_turn component_turn manager_turn resource_turn session_turn
  inject_field kind_session field c = session_turn c.current field c.last
  inject_field kind_manager field c = manager_turn manager field c.last
  inject_field kind_component field c = component_turn field c.current
  inject_field kind_relation field c = relation_turn field c.last
  inject_field kind_relation_slice field c = relation_slice_turn field c.last
  inject_field kind_resource field c = resource_turn manager field c.last
  inject_field kind_phantom_with field c = writes leaves c.last
  inject_field kind_phantom_without field c = writes leaves c.last
  inject_field kind_payload field c = writes (zeroes field.offset field.size) c.last
  inject_field kind_peer field c = peer_turn field c.last
  inject_field kind_peer_slice field c = peer_slice_turn field c.last
  inject_field kind_shared field c = shared_turn field c.last
  inject_field kind_shared_slice field c = shared_slice_turn field c.last
  inject_field _ field c = writes leaves c.last

  -- What a turn does before the fields after it, `rest`.
  unfoldable pub inject_turn :
      Cursor → Turn → (Cursor → Instance → Injection) → Instance → Injection
  unfolding apply_write
  inject_turn c refuses rest i = refused i
  inject_turn c faults rest i = faulted i
  inject_turn c (writes write last) rest i = rest (record c { last = last }) (apply_write write i)

  -- The field once its window is entered.
  unfoldable pub inject_entered :
      FieldMeta → Option Cursor → (Cursor → Instance → Injection) → Instance → Injection
  unfolding inject_field inject_turn
  inject_entered field none rest i = refused i
  inject_entered field (some c) rest i = inject_turn c (inject_field field.kind field c) rest i

  unfoldable pub inject_fields : List ℕ → List FieldMeta → Cursor → Instance → Injection
  unfolding enter_window inject_entered
  inject_fields sessions [] c i = injected i
  inject_fields sessions (field ∷ fields) c i =
      inject_entered field (enter_window sessions field c) (inject_fields sessions fields) i

  unfoldable pub inject_system : List ℕ → SystemMeta → Instance → Injection
  unfolding inject_fields
  inject_system [] meta i =
      if not meta.is_global
      then refused i
      else inject_fields [] meta.fields (record { current = none; window = 0; last = none }) i
  inject_system (u ∷ sessions) meta i =
      inject_fields (u ∷ sessions) meta.fields
        (record { current = some u; window = 0; last = none }) i

-- What zeroSystem writes to a field of the kind.
unfoldable pub zero_kind : FieldKind → FieldMeta → Write
zero_kind kind_session field = puts field.offset none
zero_kind kind_manager field = puts field.offset none
zero_kind kind_component field = puts field.offset none
zero_kind kind_relation field = puts field.offset none
zero_kind kind_resource field = puts field.offset none
zero_kind kind_peer field = puts field.offset none
zero_kind kind_shared field = puts field.offset none
zero_kind kind_relation_slice field = empties field.offset
zero_kind kind_peer_slice field = empties field.offset
zero_kind kind_shared_slice field = empties field.offset
zero_kind kind_payload field = zeroes field.offset field.size
zero_kind _ field = leaves

unfoldable pub zero_fields : List FieldMeta → Instance → Instance
unfolding zero_kind apply_write
zero_fields [] i = i
zero_fields (field ∷ fields) i = zero_fields fields (apply_write (zero_kind field.kind field) i)

unfoldable pub zero_system : SystemMeta → Instance → Instance
unfolding zero_fields
zero_system meta i = zero_fields meta.fields i
