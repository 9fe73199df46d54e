-- ===== src/System/Stepped.antt =====
-- meta.go: every turn of the loop of analyzeSystem adds one field, or panics.
use pecs.Prelude.{
  ℕ, ◌≡◌, refl, sym, ◌∙◌, Bool, true, false, Option, none, some, [], ◌∷◌, ◌++◌, if◌then◌else◌,
  arith, either_branch, length, contains,
}
use mathlib.Core.Option.{some-injective}
use pecs.Registry.{Registration, registered, limit_exceeded}
use pecs.Access.{AccessMeta}
use pecs.System.{
  GoType, session_type, manager_type, pointer, phantom, StructField, Reflection, FieldMeta,
}
use pecs.System.Tags.{TagInfo, parse_tag}
use pecs.System.Walk.{
  Walk, add_field, start_field, require_unless, access_component, traversal, relation_kind,
  pointer_elem, slice_elem, is_struct, is_slice_type,
}
use pecs.System.Analyze.{
  linked_relation, relation_field, component_meta, component_field, untagged_field, tagged_field,
  walk_type, walk_field,
}
use pecs.System.Extended.{
  is_session, opens_window, contains-append, Extended, Stepped, length-require,
  session_field-Extended, manager_field-Extended,
}
use pecs.System.FieldSteps.{
  Grows-component, phantom_field-Stepped, resource_field-Extended, payload_field-Extended,
  peer_field-Extended, shared_field-Extended,
}

module _ (types : Reflection) where
  -- The type of a field that accesses it is among the writes or the reads, as the tag says.
  tracked_component :
      (tag : TagInfo) (t : GoType) (a : AccessMeta)
      → contains
          (if tag.mutable
            then (access_component tag (types.id_of t) a).writes
            else (access_component tag (types.id_of t) a).reads)
          (types.id_of t)
        ≡ true
  tracked_component tag t a = ground (
    arith,
    contains-append a.writes (types.id_of t) (types.id_of t),
    contains-append a.reads (types.id_of t) (types.id_of t),
  )

  accessing-Extended :
      (field : StructField) (tag : TagInfo) (t : GoType) (w w' : Walk) (meta : FieldMeta)
      → w'.fields ≡ w.fields ++ meta ∷ []
      → meta.offset ≡ field.offset
      → meta.window_index ≡ w.window_index
      → meta.mutable ≡ tag.mutable
      → meta.component_type ≡ some t
      → is_session meta.kind ≡ false
      → w'.session_count ≡ w.session_count
      → length w'.windows ≡ length w.windows
      → w'.window_index ≡ w.window_index
      → w'.access ≡ access_component tag (types.id_of t) w.access
      → Extended types field false w w'
  accessing-Extended field tag t w w' meta a p i m k s c l n e = record {
    meta = meta;
    added = a;
    placed = p;
    in_window = i ∙ sym n;
    kinded = s;
    counted = c;
    windowed = l;
    indexed = n;
    grown = rw e (Grows-component types tag (types.id_of t) w.access);
    tracked =
        λ _ u q. rw (e, m, sym (some-injective t u (sym k ∙ q))) (tracked_component tag t w.access);
  }

  component_field-Stepped :
      (t : GoType) (field : StructField) (tag : TagInfo) (w : Walk) (reg : Registration)
      → Stepped types field false w (component_field types t field tag w reg)
  unfolding component_field
  component_field-Stepped t field tag w (limit_exceeded r) = tt
  component_field-Stepped t field tag w (registered id r) = of_optional tag.optional
    where
      meta : FieldMeta
      meta = component_meta types t id (start_field field tag w.window_index)

      known : Walk
      known = record w {
        registry = r;
        is_local = true;
        last = some (length w.fields, meta);
        access = access_component tag (types.id_of t) w.access;
      }

      of_optional :
          (o : Bool) → Extended types field false w (add_field meta (require_unless o id known))
      of_optional true =
          accessing-Extended field tag t w _ meta refl refl refl refl refl refl refl refl refl refl
      of_optional false =
          accessing-Extended field tag t w _ meta refl refl refl refl refl refl refl
            (length-require types false id known) refl refl

  relation_field-Stepped :
      (t : GoType) (field : StructField) (tag : TagInfo) (w : Walk) (reg : Registration)
      → Stepped types field false w (relation_field types t field tag w reg)
  unfolding relation_field
  relation_field-Stepped t field tag w (limit_exceeded r) = tt
  relation_field-Stepped t field tag w (registered id r) =
      of_source w.last (is_slice_type field.type)
    where
      of_source :
          (last : Option (ℕ × FieldMeta)) (s : Bool)
          → Extended types field false w (
              add_field
                (linked_relation types t last
                  (traversal relation_kind s t id (start_field field tag w.window_index)))
                (record w {
                  registry = r;
                  is_local = true;
                  access = access_component tag (types.id_of t) w.access;
                }))
      of_source none true =
          accessing-Extended field tag t w _ _ refl refl refl refl refl refl refl refl refl refl
      of_source none false =
          accessing-Extended field tag t w _ _ refl refl refl refl refl refl refl refl refl refl
      of_source (some l) true =
          accessing-Extended field tag t w _ _ refl refl refl refl refl refl refl refl refl refl
      of_source (some l) false =
          accessing-Extended field tag t w _ _ refl refl refl refl refl refl refl refl refl refl

  untagged_field-Stepped :
      (type : GoType) (field : StructField) (tag : TagInfo) (w : Walk)
      → Stepped types field false w (untagged_field types type field tag w)
  unfolding untagged_field
  untagged_field-Stepped (pointer t) field tag w =
      either_branch (Stepped types field false w) (is_struct t)
        (component_field-Stepped t field tag w _) (payload_field-Extended types field tag w)
  untagged_field-Stepped _ field tag w = payload_field-Extended types field tag w

  tagged_field-Stepped :
      (field : StructField) (tag : TagInfo) (w : Walk)
      → Stepped types field false w (tagged_field types field tag w)
  unfolding tagged_field
  tagged_field-Stepped field tag w =
      either_branch (Stepped types field false w) tag.resource
        (resource_field-Extended types field tag w)
        (either_branch (Stepped types field false w) tag.peer
          (peer_field-Extended types field tag w)
          (either_branch (Stepped types field false w) tag.shared
            (shared_field-Extended types field tag w)
            (either_branch (Stepped types field false w) tag.relation
              (relation_field-Stepped (pointer_elem (slice_elem field.type)) field tag w _)
              (untagged_field-Stepped field.type field tag w))))

  walk_type-Stepped :
      (type : GoType) (field : StructField) (tag : TagInfo) (w : Walk)
      → Stepped types field (opens_window type) w (walk_type types type field tag w)
  unfolding walk_type
  walk_type-Stepped (pointer session_type) field tag w = session_field-Extended types field tag w
  walk_type-Stepped (pointer manager_type) field tag w = manager_field-Extended types field tag w
  walk_type-Stepped (phantom is_without t) field tag w =
      phantom_field-Stepped types is_without t field tag w _
  walk_type-Stepped (pointer (phantom is_without t)) field tag w = tt
  walk_type-Stepped _ field tag w = tagged_field-Stepped field tag w

  pub walk_field-Stepped :
      (field : StructField) (w : Walk)
      → Stepped types field (opens_window field.type) w (walk_field types field w)
  unfolding walk_field
  walk_field-Stepped field w = walk_type-Stepped field.type field (parse_tag field.tag) w
