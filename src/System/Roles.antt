-- ===== src/System/Roles.antt =====
-- meta.go: what each field of a struct asks of a session, and the masks that analyzeSystem makes of it.
use pecs.Prelude.{
  ℕ, ◌<◌, ◌≡◌, refl, ◌∙◌, subst, Bool, true, false, Bool-cases, Option-cases, inl, inr, ◌||◌, ◌==◌,
  Option, none, some, List, arith, if◌then◌else◌, leb, length,
}
use pecs.Prelude.Assoc.{lookup, lookup-insert}
use pecs.Bitmask.{has}
use pecs.Bitmask.Digits.{has-set}
use pecs.Registry.{
  ComponentRegistry, Registration, registered, limit_exceeded, register, store_type, counted,
  allocated, max_components,
}
use pecs.Registry.Laws.{register_miss}
use pecs.Session.Laws.{IdsFit, Fitting, register-Fitting}
use pecs.System.{
  FieldMeta, GoType, session_type, manager_type, pointer, phantom, StructField, Reflection,
}
use pecs.System.Tags.{TagInfo}
use pecs.System.Walk.{
  Walk, Step, goes_on, panics, session_field, manager_field, resource_field, peer_field,
  shared_field, phantom_field, add_field, start_field, require_unless, access_component, is_struct,
}
use pecs.System.Analyze.{
  payload_field, component_field, relation_field, untagged_field, tagged_field, walk_type,
  component_meta,
}

-- The component type that a field without a tag for another kind needs: that of a pointer to a struct,
-- if it is not optional.
abbrev pub needed_plain : GoType → Bool → Option GoType
needed_plain (pointer t) optional =
    if is_struct t then (if optional then none else some t) else none
needed_plain _ optional = none

-- The component type that a field needs: that of With[T], or of a component.
abbrev pub needed_by : GoType → TagInfo → Option GoType
needed_by (phantom is_without t) tag = if is_without then none else some t
needed_by (pointer session_type) tag = none
needed_by (pointer manager_type) tag = none
needed_by (pointer (phantom is_without t)) tag = none
needed_by type tag =
    if tag.resource
    then none
    else if tag.peer
    then none
    else if tag.shared
    then none
    else if tag.relation
    then none
    else needed_plain type tag.optional

-- The component type that a field bars, that of Without[T].
abbrev pub barred_by : GoType → Option GoType
barred_by (phantom is_without t) = if is_without then some t else none
barred_by _ = none

-- What a registration does to a registry.
abbrev Registering : ComponentRegistry → ℕ → Registration → Type 0
Registering r t (registered id r') =
    (lookup t r'.types ≡ some id)
    × ((u j : ℕ) → lookup u r.types ≡ some j → lookup u r'.types ≡ some j)
Registering r t (limit_exceeded r') = Unit

register-Registering :
    (r : ComponentRegistry) (t : ℕ) (name : List ℕ) → Registering r t (register r t name)
unfolding register counted store_type
register-Registering r t name = elim (Option-cases (lookup t r.types)) [
  | inr (id, e) ↦ rw (e, register) (e, λ u j k. k)
  | inl e ↦ elim (Bool-cases (leb max_components (allocated r.next_id))) [
    | inl full ↦ rw (register_miss r t name e, full) tt
    | inr room ↦
        rw (register_miss r t name e, room, e, store_type)
          (
            ground (arith, lookup-insert t t (allocated r.next_id) r.types),
            λ u j k. ground (arith, lookup-insert t u (allocated r.next_id) r.types, k, e),
          )
  ]
]

module _ (types : Reflection) where
  -- Is it the identifier of the type, if there is a type?
  abbrev pub is_id_of : ComponentRegistry → ℕ → Option GoType → Bool
  is_id_of r id none = false
  is_id_of r id (some t) = elim (lookup (types.id_of t) r.types) [ none ↦ false | some j ↦ j == id ]

  abbrev pub IsKnown : ComponentRegistry → Option GoType → Type 0
  IsKnown r none = Unit
  IsKnown r (some t) = (j : ℕ) × (lookup (types.id_of t) r.types ≡ some j)

  -- A turn of the loop for a field that needs and bars types.
  pub record Obeys (w w' : Walk) (need bar : Option GoType) : Type 0 where
    pub ids : IdsFit w'.registry
    pub kept : (u j : ℕ) → lookup u w.registry.types ≡ some j → lookup u w'.registry.types ≡ some j
    pub known_need : IsKnown w'.registry need
    pub known_bar : IsKnown w'.registry bar
    pub requires :
        (id : ℕ)
        → id < 256
        → has w'.require_mask id ≡ (has w.require_mask id || is_id_of w'.registry id need)
    pub excludes :
        (id : ℕ)
        → id < 256
        → has w'.exclude_mask id ≡ (has w.exclude_mask id || is_id_of w'.registry id bar)

  abbrev pub Obeying : Walk → Option GoType → Option GoType → Step → Type 0
  Obeying w need bar (goes_on w') = Obeys w w' need bar
  Obeying w need bar (panics r) = Unit

  plain-Obeys :
      (w w' : Walk)
      → IdsFit w'.registry
      → ((u j : ℕ) → lookup u w.registry.types ≡ some j → lookup u w'.registry.types ≡ some j)
      → w'.require_mask ≡ w.require_mask
      → w'.exclude_mask ≡ w.exclude_mask
      → Obeys w w' none none
  plain-Obeys w w' v k p q = record {
    ids = v;
    kept = k;
    known_need = tt;
    known_bar = tt;
    requires = λ id h. rw p (ground arith);
    excludes = λ id h. rw q (ground arith);
  }

  phantom_field-Obeying :
      (is_without : Bool) (t : GoType) (field : StructField) (tag : TagInfo) (w : Walk)
      (reg : Registration)
      → Fitting reg
      → Registering w.registry (types.id_of t) reg
      → Obeying w
          (if is_without then none else some t)
          (if is_without then some t else none)
          (phantom_field types is_without t field tag w reg)
  unfolding phantom_field
  phantom_field-Obeying is_without t field tag w (limit_exceeded r) f g = tt
  phantom_field-Obeying true t field tag w (registered id r) f g = record {
    ids = f.0;
    kept = g.1;
    known_need = tt;
    known_bar = (id, g.0);
    requires = λ i h. ground arith;
    excludes = λ i h.
        rw (is_id_of, g.0) (has-set w.exclude_mask id i (omega (arith, f.1)) h ∙ ground arith);
  }
  phantom_field-Obeying false t field tag w (registered id r) f g = record {
    ids = f.0;
    kept = g.1;
    known_need = (id, g.0);
    known_bar = tt;
    requires = λ i h.
        rw (is_id_of, g.0) (has-set w.require_mask id i (omega (arith, f.1)) h ∙ ground arith);
    excludes = λ i h. ground arith;
  }

  component_field-Obeying :
      (t : GoType) (field : StructField) (tag : TagInfo) (w : Walk) (reg : Registration)
      → Fitting reg
      → Registering w.registry (types.id_of t) reg
      → Obeying w
          (if tag.optional then none else some t)
          none
          (component_field types t field tag w reg)
  unfolding component_field
  component_field-Obeying t field tag w (limit_exceeded r) f g = tt
  component_field-Obeying t field tag w (registered id r) f g = by_optional tag.optional
    where
      meta : FieldMeta
      meta = component_meta types t id (start_field field tag w.window_index)

      by_optional :
          (o : Bool)
          → Obeys w
              (add_field meta (
                require_unless o id (record w {
                  registry = r;
                  is_local = true;
                  last = some (length w.fields, meta);
                  access = access_component tag (types.id_of t) w.access;
                })))
              (if o then none else some t)
              none
      by_optional true = plain-Obeys w _ f.0 g.1 refl refl
      by_optional false = record {
        ids = f.0;
        kept = g.1;
        known_need = (id, g.0);
        known_bar = tt;
        requires = λ i h.
            rw (is_id_of, g.0) (has-set w.require_mask id i (omega (arith, f.1)) h ∙ ground arith);
        excludes = λ i h. ground arith;
      }

  relation_field-Obeying :
      (t : GoType) (field : StructField) (tag : TagInfo) (w : Walk) (reg : Registration)
      → Fitting reg
      → Registering w.registry (types.id_of t) reg
      → Obeying w none none (relation_field types t field tag w reg)
  unfolding relation_field
  relation_field-Obeying t field tag w (limit_exceeded r) f g = tt
  relation_field-Obeying t field tag w (registered id r) f g = plain-Obeys w _ f.0 g.1 refl refl

  both :
      {A B : Type 0} (P : A → B → Type 0) (b : Bool) {x y : A} {u v : B}
      → P x u
      → P y v
      → P (if b then x else y) (if b then u else v)
  both P true p q = p
  both P false p q = q

  untagged_field-Obeying :
      (type : GoType) (field : StructField) (tag : TagInfo) (w : Walk)
      → IdsFit w.registry
      → Obeying w (needed_plain type tag.optional) none (untagged_field types type field tag w)
  unfolding untagged_field payload_field
  untagged_field-Obeying (pointer t) field tag w v =
      both (λ n s. Obeying w n none s) (is_struct t)
        (component_field-Obeying t field tag w _ (register-Fitting _ _ _ v)
          (register-Registering _ _ _))
        (plain-Obeys w _ v (λ u j k. k) refl refl)
  untagged_field-Obeying _ field tag w v = plain-Obeys w _ v (λ u j k. k) refl refl

  tagged_field-Obeying :
      (field : StructField) (tag : TagInfo) (w : Walk)
      → IdsFit w.registry
      → Obeying w
          (if tag.resource
            then none
            else if tag.peer
            then none
            else if tag.shared
            then none
            else if tag.relation
            then none
            else needed_plain field.type tag.optional)
          none
          (tagged_field types field tag w)
  unfolding tagged_field resource_field peer_field shared_field
  tagged_field-Obeying field tag w v =
      both (λ n s. Obeying w n none s) tag.resource (plain-Obeys w _ v (λ u j k. k) refl refl)
        (both (λ n s. Obeying w n none s) tag.peer (plain-Obeys w _ v (λ u j k. k) refl refl)
          (both (λ n s. Obeying w n none s) tag.shared (plain-Obeys w _ v (λ u j k. k) refl refl)
            (both (λ n s. Obeying w n none s) tag.relation
              (relation_field-Obeying _ field tag w _ (register-Fitting _ _ _ v)
                (register-Registering _ _ _))
              (untagged_field-Obeying field.type field tag w v))))

  pub walk_type-Obeying :
      (type : GoType) (field : StructField) (tag : TagInfo) (w : Walk)
      → field.type ≡ type
      → IdsFit w.registry
      → Obeying w (needed_by type tag) (barred_by type) (walk_type types type field tag w)
  unfolding walk_type session_field manager_field
  walk_type-Obeying (pointer session_type) field tag w e v =
      plain-Obeys w _ v (λ u j k. k) refl refl
  walk_type-Obeying (pointer manager_type) field tag w e v =
      plain-Obeys w _ v (λ u j k. k) refl refl
  walk_type-Obeying (phantom is_without t) field tag w e v =
      phantom_field-Obeying is_without t field tag w _ (register-Fitting _ _ _ v)
        (register-Registering _ _ _)
  walk_type-Obeying (pointer (phantom is_without t)) field tag w e v = tt
  walk_type-Obeying _ field tag w e v =
      subst
        (λ t.
          Obeying w
            (if tag.resource
              then none
              else if tag.peer
              then none
              else if tag.shared
              then none
              else if tag.relation
              then none
              else needed_plain t tag.optional)
            none (tagged_field types field tag w))
        e (tagged_field-Obeying field tag w v)
