-- ===== src/Inject.antt =====
-- inject.go: a system's fields filled from the sessions that it runs on, and cleared for reuse.
-- The memory of an instance is seen three ways, each by the offset in the struct: the pointers, the
-- headers of the slices and the bytes. The memory of components, at an address, is a record of what
-- lies there. A mutex is held for one read.
pub mod Turns
pub mod Slices
pub mod Writes
pub mod Covers
pub mod Reuse
pub mod Zero
pub mod Runs
pub mod Filled
pub mod Met
pub mod Admitted
mod Tests
use pecs.Prelude.{
  ℕ, zero, suc, ◌+◌, Bool, true, false, not, ◌&&◌, Option, none, some, List, [], ◌∷◌, ◌==◌,
  if◌then◌else◌, length, get_elem?, take, ltb, leb,
}
use pecs.Registry.{write}
use pecs.Session.{get_component_unsafe}
use pecs.Relation.{World, Relation, RelationSet, is_closed, get_relation_set_targets}
use pecs.System.{
  GoType, FieldKind, kind_session, kind_manager, kind_component, kind_relation, kind_relation_slice,
  kind_resource, kind_phantom_with, kind_phantom_without, kind_payload, kind_peer, kind_peer_slice,
  kind_shared, kind_shared_slice, kind_peer_source, kind_peer_set_source, kind_shared_source,
  kind_shared_set_source, FieldMeta, SystemMeta,
}
use pecs.System.Walk.{or_none}

-- A pointer that is not nil; a session and what lies at an address are known by numbers.
pub data Pointer : Type 0 where
  to_session to_data : ℕ → Pointer
  to_manager : Pointer

-- The header of a []*T, with its array up to the capacity.
pub record PtrSlice : Type 0 where
  pub backing : List ℕ
  pub len : ℕ

pub record Instance : Type 0 where
  pub pointers : ℕ → Option Pointer
  pub slices : ℕ → PtrSlice
  pub bytes : ℕ → ℕ

-- What the memory of components has at an address. A string is a list of bytes.
pub record Heap : Type 0 where
  pub relation_at : ℕ → Relation
  pub relation_set_at : ℕ → RelationSet
  pub peer_id_at : ℕ → List ℕ
  pub peer_ids_at : ℕ → Option (List (List ℕ))
  pub shared_id_at : ℕ → List ℕ
  pub shared_ids_at : ℕ → Option (List (List ℕ))

-- What injectSystem asks of the manager: getResource, ResolvePeer, ResolvePeers, ResolveShared and
-- ResolveSharedMany.
pub record Resolver : Type 0 where
  pub get_resource : GoType → Option ℕ
  pub resolve_peer : List ℕ → GoType → Option ℕ
  pub resolve_peers : List (List ℕ) → GoType → List (Option ℕ)
  pub resolve_shared : List ℕ → GoType → Option ℕ
  pub resolve_shared_many : List (List ℕ) → GoType → List (Option ℕ)

-- `copy(existing, ptrs)`
unfoldable pub copy_into : List ℕ → List ℕ → List ℕ
copy_into [] existing = existing
copy_into (p ∷ ptrs) [] = []
copy_into (p ∷ ptrs) (e ∷ existing) = p ∷ copy_into ptrs existing

unfoldable pub set_slice : List ℕ → PtrSlice → PtrSlice
unfolding copy_into
set_slice [] dst = record dst { len = 0 }
set_slice (p ∷ ptrs) dst =
    if leb (length (p ∷ ptrs)) (length dst.backing)
    then record { backing = copy_into (p ∷ ptrs) dst.backing; len = length (p ∷ ptrs) }
    else record { backing = p ∷ ptrs; len = length (p ∷ ptrs) }

unfoldable pub set_slice_from_ptrs : ℕ → List ℕ → Instance → Instance
set_slice_from_ptrs offset ptrs i = record i {
  slices = write i.slices offset (set_slice ptrs (i.slices offset));
}

unfoldable pub set_field_ptr : ℕ → Option Pointer → Instance → Instance
set_field_ptr offset value i = record i { pointers = write i.pointers offset value }

unfoldable pub clear_slice : ℕ → Instance → Instance
clear_slice offset i = record i {
  slices = write i.slices offset (record (i.slices offset) { len = 0 });
}

-- The bytes from the offset on, as many as the size, are 0.
unfoldable pub zero_field : ℕ → ℕ → Instance → Instance
zero_field offset size i = record i {
  bytes = λ k. if leb offset k && ltb k (offset + size) then 0 else i.bytes k;
}

-- The components of the sessions that have it, and the pointers that are not nil.
unfoldable pub collect_component_ptrs : World → ℕ → List ℕ → List ℕ
collect_component_ptrs w id [] = []
collect_component_ptrs w id (u ∷ sessions) =
    let rest = collect_component_ptrs w id sessions in
    elim (get_component_unsafe (w u).session id) [ none ↦ rest | some p ↦ p ∷ rest ]

unfoldable pub collect_non_nil_ptrs : List (Option ℕ) → List ℕ
collect_non_nil_ptrs [] = []
collect_non_nil_ptrs (none ∷ ptrs) = collect_non_nil_ptrs ptrs
collect_non_nil_ptrs (some p ∷ ptrs) = p ∷ collect_non_nil_ptrs ptrs

-- A turn of the loop of injectSystem ends with one write, or none, and may change the last component;
-- or it refuses, which makes injectSystem return false; or it reads through a nil pointer, a panic.
pub data Write : Type 0 where
  puts : ℕ → Option Pointer → Write
  fills : ℕ → List ℕ → Write
  empties : ℕ → Write
  zeroes : ℕ → ℕ → Write
  leaves : Write

pub data Turn : Type 0 where
  writes : Write → Option ℕ → Turn
  refuses : Turn
  faults : Turn

pub data Injection : Type 0 where
  injected : Instance → Injection
  refused : Instance → Injection
  faulted : Instance → Injection

unfoldable pub apply_write : Write → Instance → Instance
unfolding set_field_ptr set_slice_from_ptrs clear_slice zero_field
apply_write (puts offset value) i = set_field_ptr offset value i
apply_write (fills offset ptrs) i = set_slice_from_ptrs offset ptrs i
apply_write (empties offset) i = clear_slice offset i
apply_write (zeroes offset size) i = zero_field offset size i
apply_write leaves i = i

-- currentSession, currentWindowIndex and lastComponentPtr.
pub record Cursor : Type 0 where
  pub current : Option ℕ
  pub window : ℕ
  pub last : Option ℕ

-- The session of the field's window, which forgets the last component; `none` if there are too few.
unfoldable pub enter_window : List ℕ → FieldMeta → Cursor → Option Cursor
enter_window sessions field c =
    if field.window_index == c.window
    then some c
    else elim (get_elem? sessions field.window_index) [
      | none ↦ none
      | some u ↦ some (record { current = some u; window = field.window_index; last = none })
    ]

-- The data at an address put into the field; nil is refused unless the field is optional.
abbrev pub put_data : FieldMeta → Option ℕ → Option ℕ → Turn
put_data field last (some p) = writes (puts field.offset (some (to_data p))) last
put_data field last none = if field.optional then writes (puts field.offset none) last else refuses

abbrev pub all_ids : Option (List (List ℕ)) → List (List ℕ)
all_ids none = []
all_ids (some ids) = ids
