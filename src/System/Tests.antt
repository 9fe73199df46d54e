-- ===== src/System/Tests.antt =====
-- tags.go and meta.go on concrete systems.
use pecs.Prelude.{ℕ, ◌≡◌, refl, true, false, none, List, [], ◌∷◌, arith, if◌then◌else◌, ◌==◌}
use pecs.Prelude.Assoc.{lookup, insert}
use pecs.Bitmask.{no_bits}
use pecs.Access.{conflicts}
use pecs.Registry.{ComponentRegistry, new_component_registry, register, store_type}
use pecs.Session.Laws.{IdsFit}
use pecs.System.{
  GoType, session_type, struct_type, plain_type, pointer, phantom, StructField, Reflection,
  SystemMeta,
}
use pecs.System.Tags.{
  parse_tag, has_tag, flag_mut, flag_of, modifier_of, parse_tag-has_tag, mod_mut, mod_opt,
  add_parts, add_part, same_bytes, split_commas, trim_space,
}
use pecs.System.Walk.{phantom_field, session_field}
use pecs.System.Analyze.{
  Analysis, analyzed, not_a_struct, panicked, analyze_system, walk_fields, walk_field, walk_type,
  tagged_field, untagged_field, component_field, payload_field,
}
use pecs.System.RoleMasks.{RoleMasks, analyze_system-RoleMasks}
use pecs.System.Windows.{AnalyzedWindows, analyze_system-AnalyzedWindows}
use pecs.System.Accesses.{analyze_system-conflicts}

-- The tag "mut, opt".
abbrev mut_opt : List ℕ
mut_opt = b'm' ∷ b'u' ∷ b't' ∷ b',' ∷ b' ' ∷ b'o' ∷ b'p' ∷ b't' ∷ []

parse_tag-has_tag_example :
    flag_of flag_mut (parse_tag mut_opt) ≡ has_tag mut_opt (modifier_of flag_mut)
parse_tag-has_tag_example = parse_tag-has_tag flag_mut mut_opt

abbrev field_at : ℕ → GoType → List ℕ → StructField
field_at offset type tag = record { name = []; offset = offset; type = type; tag = tag }

-- Type 1 is a system with a session, a mutable component, a phantom type and payload; type 5 one that
-- reads the same component.
abbrev casting : List StructField
casting =
    field_at 0 (pointer session_type) []
    ∷ field_at 8 (pointer (struct_type 2)) mod_mut
    ∷ field_at 16 (phantom true (struct_type 3)) []
    ∷ field_at 24 (plain_type 4) []
    ∷ []

abbrev watching : List StructField
watching = field_at 0 (pointer session_type) [] ∷ field_at 8 (pointer (struct_type 2)) mod_opt ∷ []

abbrev fields_in : GoType → List StructField
fields_in (struct_type n) = if n == 1 then casting else if n == 5 then watching else []
fields_in _ = []

abbrev number_of : GoType → ℕ
number_of (struct_type n) = n
number_of (plain_type n) = n
number_of _ = 0

abbrev pub kinds : Reflection
kinds = record { fields_of = fields_in; id_of = number_of; name_of = λ t. []; size_of = λ t. 8 }

pub new-IdsFit : IdsFit new_component_registry
unfolding new_component_registry lookup insert
new-IdsFit = record { fit = λ t id e. ground arith }

analyze_system-RoleMasks_example :
    RoleMasks kinds
      (kinds.fields_of (struct_type 1))
      (analyze_system kinds (pointer (struct_type 1)) new_component_registry)
analyze_system-RoleMasks_example =
    analyze_system-RoleMasks kinds (pointer (struct_type 1)) new_component_registry new-IdsFit

analyze_system-AnalyzedWindows_example :
    AnalyzedWindows kinds
      (kinds.fields_of (struct_type 1))
      (analyze_system kinds (struct_type 1) new_component_registry)
analyze_system-AnalyzedWindows_example =
    analyze_system-AnalyzedWindows kinds (struct_type 1) new_component_registry

abbrev pub no_meta : SystemMeta
no_meta = record {
  require_mask = no_bits;
  exclude_mask = no_bits;
  fields = [];
  windows = [];
  is_multi_session = false;
  is_global = true;
  access = record {
    reads = [];
    writes = [];
    res_reads = [];
    res_writes = [];
    reads_set = none;
    writes_set = none;
    res_reads_set = none;
    res_writes_set = none;
  };
}

abbrev pub meta_of : Analysis → SystemMeta
meta_of (analyzed m r) = m
meta_of _ = no_meta

abbrev pub registry_of : Analysis → ComponentRegistry
registry_of (analyzed m r) = r
registry_of (panicked r) = r
registry_of not_a_struct = new_component_registry

abbrev pub casts : Analysis
casts = analyze_system kinds (struct_type 1) new_component_registry

abbrev watches : Analysis
watches = analyze_system kinds (pointer (struct_type 5)) new_component_registry

analyze_system-conflicts_example :
    (conflicts (meta_of casts).access (meta_of watches).access ≡ true)
    × (conflicts (meta_of watches).access (meta_of casts).access ≡ true)
unfolding analyze_system walk_fields walk_field walk_type tagged_field untagged_field
    component_field payload_field phantom_field session_field register store_type parse_tag
    add_parts add_part same_bytes split_commas trim_space new_component_registry lookup insert
analyze_system-conflicts_example =
    analyze_system-conflicts kinds (struct_type 1) (pointer (struct_type 5)) new_component_registry
      (registry_of casts) new_component_registry (registry_of watches) (meta_of casts)
      (meta_of watches) 1 1 _ _ (struct_type 2) refl refl refl refl (refl, refl) (refl, refl) refl
