-- ===== src/Inject/Tests.antt =====
-- inject.go on the system of System/Tests, which has a session, a component, a phantom type and payload.
use pecs.Prelude.{
  ℕ, ◌≡◌, refl, true, false, none, some, [], ◌∷◌, arith, get_elem?, if◌then◌else◌, ◌==◌,
}
use pecs.Prelude.Assoc.{lookup, insert}
use pecs.Bitmask.{no_bits, set, contains_all, contains_any}
use pecs.Bitmask.Digits.{has-set}
use pecs.Session.History.{no_bits-absent}
use pecs.Registry.{new_component_registry, register, store_type}
use pecs.Session.{State, can_run_unsafe}
use pecs.Session.Laws.{IsSession}
use pecs.Relation.{World}
use pecs.System.{struct_type, kind_component, FieldMeta}
use pecs.System.Tags.{parse_tag, add_parts, add_part, same_bytes, split_commas, trim_space}
use pecs.System.Walk.{phantom_field, session_field}
use pecs.System.Analyze.{
  analyze_system, walk_fields, walk_field, walk_type, tagged_field, untagged_field, component_field,
  payload_field,
}
use pecs.System.Tests.{casts, kinds, meta_of, registry_of, new-IdsFit}
use pecs.Inject.{PtrSlice, Instance, Heap, set_slice, injected}
use pecs.Inject.Turns.{inject_system, zero_system}
use pecs.Inject.Slices.{elements, elements-set_slice}
use pecs.Inject.Writes.{Cleared, shape}
use pecs.Inject.Zero.{zero_system-Cleared}
use pecs.Inject.Runs.{Final, Held}
use pecs.Inject.Filled.{inject_system-Held}
use pecs.Inject.Admitted.{analyze_system-admits}

abbrev two_of_three : PtrSlice
two_of_three = record { backing = 7 ∷ 8 ∷ 9 ∷ []; len = 2 }

elements-set_slice_example : elements (set_slice (4 ∷ 5 ∷ 6 ∷ []) two_of_three) ≡ 4 ∷ 5 ∷ 6 ∷ []
elements-set_slice_example = elements-set_slice (4 ∷ 5 ∷ 6 ∷ []) two_of_three

-- A session with the component 0, of the type that the system asks for.
abbrev holding : State
holding = record {
  usable = true;
  registry = new_component_registry;
  session = record {
    mask = set no_bits 0;
    components = λ id. if id == 0 then some 100 else none;
    expirations = [];
    closed = false;
    pending_tasks = [];
    provider_subs = [];
  };
  memory = λ a. 0;
  cancelled = λ t. false;
}

abbrev world : World
world = λ u. holding

abbrev heap : Heap
heap = record {
  relation_at = λ a. record { target = none };
  relation_set_at = λ a. record { targets = [] };
  peer_id_at = λ a. [];
  peer_ids_at = λ a. none;
  shared_id_at = λ a. [];
  shared_ids_at = λ a. none;
}

abbrev used : Instance
used = record { pointers = λ o. none; slices = λ o. two_of_three; bytes = λ k. 255 }

abbrev other : Instance
other = record {
  pointers = λ o. none;
  slices = λ o. record { backing = []; len = 0 };
  bytes = λ k. 1;
}

abbrev field_at : ℕ → FieldMeta
field_at k = elim (get_elem? (meta_of casts).fields k) [
  | some f ↦ f
  | none ↦ record {
    offset = 0;
    size = 0;
    name = [];
    kind = kind_component;
    component_id = 0;
    component_type = none;
    optional = false;
    mutable = false;
    window_index = 0;
    relation_source_field = [];
    relation_source_index = 0;
    relation_data_offset = 0;
    is_slice = false;
    peer_source_index = 0;
    peer_source_offset = 0;
    shared_source_index = 0;
    shared_source_offset = 0;
  }
]

zero_system-Cleared_example :
    Cleared (shape (field_at 3).kind) (field_at 3) (zero_system (meta_of casts) used)
unfolding analyze_system walk_fields walk_field walk_type tagged_field untagged_field
    component_field payload_field phantom_field session_field register store_type parse_tag
    add_parts add_part same_bytes split_commas trim_space new_component_registry lookup insert
zero_system-Cleared_example = zero_system-Cleared (meta_of casts) 3 (field_at 3) used refl

inject_system-Held_example :
    Final
      (Held world heap none (0 ∷ []) (field_at 1))
      (inject_system world heap none (0 ∷ []) (meta_of casts) used)
unfolding analyze_system walk_fields walk_field walk_type tagged_field untagged_field
    component_field payload_field phantom_field session_field register store_type parse_tag
    add_parts add_part same_bytes split_commas trim_space new_component_registry lookup insert
inject_system-Held_example =
    inject_system-Held world heap none (0 ∷ []) (meta_of casts) 1 (field_at 1) used
      (
        ((λ e. omega (arith, e)), ((λ e. omega (arith, e)), ((λ e. omega (arith, e)), tt))),
        (
          ((λ e. omega (arith, e)), ((λ e. omega (arith, e)), tt)),
          (((λ e. omega (arith, e)), tt), (tt, tt)),
        ),
      )
      refl refl

holding-IsSession : IsSession holding.session
holding-IsSession = record {
  dated = tt;
  agree = λ id h. ground (arith, has-set no_bits 0 id (omega arith) h, no_bits-absent id h);
  within = λ id h. ground (arith, h);
}

analyze_system-admits_example :
    (j : Instance) × (inject_system world heap none (0 ∷ []) (meta_of casts) used ≡ injected j)
unfolding analyze_system walk_fields walk_field walk_type tagged_field untagged_field
    component_field payload_field phantom_field session_field register store_type parse_tag
    add_parts add_part same_bytes split_commas trim_space new_component_registry lookup insert
    can_run_unsafe contains_all contains_any set
analyze_system-admits_example =
    analyze_system-admits kinds (struct_type 1) new_component_registry (registry_of casts)
      (meta_of casts) world heap none 0 used new-IdsFit refl (omega arith)
      (refl, (refl, (refl, (refl, tt)))) holding-IsSession refl
