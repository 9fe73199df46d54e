-- ===== src/System/Masks.antt =====
-- meta.go: the masks of a system are those of its fields.
use pecs.Prelude.{refl, List, [], ◌∷◌, arith, either_branch}
use pecs.Registry.{ComponentRegistry}
use pecs.Session.Laws.{IdsFit, register-Fitting}
use pecs.Session.History.{no_bits-absent}
use pecs.System.{GoType, session_type, manager_type, pointer, phantom, StructField, Reflection}
use pecs.System.Tags.{TagInfo, parse_tag}
use pecs.System.Walk.{
  Walk, Step, goes_on, panics, start_field, session_field, manager_field, resource_field,
  peer_field, shared_field, linked_peer, linked_shared, traversal, peer_kind, shared_kind,
  pointer_elem, slice_elem, is_struct, is_slice_type,
}
use pecs.System.Analyze.{
  payload_field, untagged_field, tagged_field, walk_type, walk_field, walk_fields, Analysis,
  analyzed, not_a_struct, panicked, start_walk, finish, analyze_system,
}
use pecs.System.FieldMasks.{
  Masked, IsWalk, Kept, Masked-plain, phantom_field-Kept, component_field-Kept, peer-plain,
  shared-plain, relation_field-Kept,
}

module _ (types : Reflection) where
  untagged_field-Kept :
      (type : GoType) (field : StructField) (tag : TagInfo) (w : Walk)
      → IsWalk w
      → Kept (untagged_field types type field tag w)
  unfolding untagged_field payload_field
  untagged_field-Kept (pointer t) field tag w v =
      either_branch Kept (is_struct t)
        (component_field-Kept types t field tag w _ (register-Fitting _ _ _ v.fit) v)
        (record {
          fit = v.fit;
          masked = Masked-plain _ _ w.fields _ refl refl (omega arith) v.masked;
        })
  untagged_field-Kept _ field tag w v = record {
    fit = v.fit;
    masked = Masked-plain _ _ w.fields _ refl refl (omega arith) v.masked;
  }

  tagged_field-Kept :
      (field : StructField) (tag : TagInfo) (w : Walk)
      → IsWalk w
      → Kept (tagged_field types field tag w)
  unfolding tagged_field resource_field peer_field shared_field
  tagged_field-Kept field tag w v =
      let t = pointer_elem (slice_elem field.type) in
      let base = start_field field tag w.window_index in
      let p = peer-plain types t w.last (is_slice_type field.type) base in
      let s = shared-plain types t w.last (is_slice_type field.type) base in
      let peer_meta =
        linked_peer types t w.last (traversal peer_kind (is_slice_type field.type) t 0 base) in
      let shared_meta =
        linked_shared types t w.last (traversal shared_kind (is_slice_type field.type) t 0 base) in
      either_branch Kept tag.resource
        (record {
          fit = v.fit;
          masked = Masked-plain _ _ w.fields _ refl refl (omega arith) v.masked;
        })
        (either_branch Kept tag.peer
          (record {
            fit = v.fit;
            masked = Masked-plain _ _ w.fields peer_meta p.0 p.1 p.2 v.masked;
          })
          (either_branch Kept tag.shared
            (record {
              fit = v.fit;
              masked = Masked-plain _ _ w.fields shared_meta s.0 s.1 s.2 v.masked;
            })
            (either_branch Kept tag.relation
              (relation_field-Kept types t field tag w _ (register-Fitting _ _ _ v.fit) v)
              (untagged_field-Kept field.type field tag w v))))

  walk_type-Kept :
      (type : GoType) (field : StructField) (tag : TagInfo) (w : Walk)
      → IsWalk w
      → Kept (walk_type types type field tag w)
  unfolding walk_type session_field manager_field
  walk_type-Kept (pointer session_type) field tag w v = record {
    fit = v.fit;
    masked = Masked-plain _ _ w.fields _ refl refl (omega arith) v.masked;
  }
  walk_type-Kept (pointer manager_type) field tag w v = record {
    fit = v.fit;
    masked = Masked-plain _ _ w.fields _ refl refl (omega arith) v.masked;
  }
  walk_type-Kept (phantom is_without t) field tag w v =
      phantom_field-Kept types is_without t field tag w _ (register-Fitting _ _ _ v.fit) v
  walk_type-Kept (pointer (phantom is_without t)) field tag w v = tt
  walk_type-Kept _ field tag w v = tagged_field-Kept field tag w v

  walk_fields-Kept : (fs : List StructField) (s : Step) → Kept s → Kept (walk_fields types fs s)
  unfolding walk_fields walk_field
  walk_fields-Kept [] (panics r) v = tt
  walk_fields-Kept (f ∷ fs) (panics r) v = tt
  walk_fields-Kept [] (goes_on w) v = v
  walk_fields-Kept (f ∷ fs) (goes_on w) v =
      walk_fields-Kept fs _ (walk_type-Kept f.type f (parse_tag f.tag) w v)

  start-IsWalk : (r : ComponentRegistry) → IdsFit r → IsWalk (start_walk r)
  start-IsWalk r v = record {
    fit = v;
    masked = record {
      requires = no_bits-absent;
      excludes = no_bits-absent;
      require_fits = omega arith;
      exclude_fits = omega arith;
      ids_fit = tt;
    };
  }

  -- The masks of an analysis are those of its fields.
  abbrev pub AnalyzedMasks : Analysis → Type 0
  AnalyzedMasks (analyzed meta r) =
      Masked meta.require_mask meta.exclude_mask meta.fields × IdsFit r
  AnalyzedMasks not_a_struct = Unit
  AnalyzedMasks (panicked r) = Unit

  finish-AnalyzedMasks : (s : Step) → Kept s → AnalyzedMasks (finish s)
  unfolding finish
  finish-AnalyzedMasks (goes_on w) v = (v.masked, v.fit)
  finish-AnalyzedMasks (panics r) v = tt

  -- Over a registry whose identifiers fit, the RequireMask of an analyzed system has exactly the
  -- identifiers of its With[T] fields and of its component fields that are not optional, the ExcludeMask
  -- those of its Without[T] fields; both are masks of 64-bit words, and the identifiers of the fields and
  -- of the registry stay below 256.
  pub analyze_system-AnalyzedMasks :
      (system : GoType) (r : ComponentRegistry)
      → IdsFit r
      → AnalyzedMasks (analyze_system types system r)
  unfolding analyze_system
  analyze_system-AnalyzedMasks system r v =
      either_branch AnalyzedMasks (is_struct (pointer_elem system))
        (finish-AnalyzedMasks _ (
          walk_fields-Kept (types.fields_of (pointer_elem system)) (goes_on (start_walk r))
            (start-IsWalk r v)))
        tt
