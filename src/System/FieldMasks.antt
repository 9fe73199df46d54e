-- ===== src/System/FieldMasks.antt =====
-- meta.go: what one field adds to the masks of a system.
use pecs.Prelude.{
  ℕ, ◌<◌, ◌≡◌, refl, Bool, true, false, not, ◌&&◌, ◌||◌, Option, none, some, List, [], ◌∷◌, ◌++◌,
  ◌==◌, any, any-append, All, All-append, arith, length,
}
use pecs.Bitmask.{Bitmask, has, IsMask}
use pecs.Bitmask.Digits.{has-set, set-IsMask}
use pecs.Registry.{Registration, registered, limit_exceeded}
use pecs.Session.Laws.{IdsFit, Fitting}
use pecs.System.{
  GoType, StructField, Reflection, FieldKind, kind_component, kind_phantom_with,
  kind_phantom_without, FieldMeta,
}
use pecs.System.Tags.{TagInfo}
use pecs.System.Walk.{
  Walk, Step, goes_on, panics, add_field, start_field, phantom_field, require_unless,
  access_component, linked_peer, linked_shared, traversal, peer_kind, shared_kind, relation_kind,
  is_slice_type,
}
use pecs.System.Analyze.{linked_relation, relation_field, component_meta, component_field}

-- A field that needs its component: With[T], or a component that is not optional.
abbrev pub is_required : FieldKind → Bool → Bool
is_required kind_phantom_with optional = true
is_required kind_component optional = not optional
is_required _ optional = false

abbrev pub is_excluded : FieldKind → Bool
is_excluded kind_phantom_without = true
is_excluded _ = false

abbrev pub needs : ℕ → FieldMeta → Bool
needs id f = is_required f.kind f.optional && f.component_id == id

abbrev pub bars : ℕ → FieldMeta → Bool
bars id f = is_excluded f.kind && f.component_id == id

-- The masks have the identifiers that the fields need or bar, and no others.
pub record Masked (require exclude : Bitmask) (fields : List FieldMeta) : Type 0 where
  pub requires : (id : ℕ) → id < 256 → has require id ≡ any (needs id) fields
  pub excludes : (id : ℕ) → id < 256 → has exclude id ≡ any (bars id) fields
  pub require_fits : IsMask require
  pub exclude_fits : IsMask exclude
  pub ids_fit : All (λ f. f.component_id < 256) fields

pub record IsWalk (w : Walk) : Type 0 where
  pub fit : IdsFit w.registry
  pub masked : Masked w.require_mask w.exclude_mask w.fields

abbrev pub Kept : Step → Type 0
Kept (goes_on w) = IsWalk w
Kept (panics r) = Unit

-- One field more, with the masks that it makes.
Masked-append :
    (req exc req' exc' : Bitmask) (fields : List FieldMeta) (f : FieldMeta)
    → ((id : ℕ) → id < 256 → has req' id ≡ (has req id || needs id f))
    → ((id : ℕ) → id < 256 → has exc' id ≡ (has exc id || bars id f))
    → (IsMask req → IsMask req')
    → (IsMask exc → IsMask exc')
    → f.component_id < 256
    → Masked req exc fields
    → Masked req' exc' (fields ++ f ∷ [])
Masked-append req exc req' exc' fields f p q a b l v = record {
  requires = λ id h. ground (arith, p id h, v.requires id h, any-append (needs id) fields (f ∷ []));
  excludes = λ id h. ground (arith, q id h, v.excludes id h, any-append (bars id) fields (f ∷ []));
  require_fits = a v.require_fits;
  exclude_fits = b v.exclude_fits;
  ids_fit = All-append (λ f. f.component_id < 256) fields (f ∷ []) v.ids_fit (l, tt);
}

-- A field that asks for nothing.
pub Masked-plain :
    (req exc : Bitmask) (fields : List FieldMeta) (f : FieldMeta)
    → is_required f.kind f.optional ≡ false
    → is_excluded f.kind ≡ false
    → f.component_id < 256
    → Masked req exc fields
    → Masked req exc (fields ++ f ∷ [])
Masked-plain req exc fields f p q l v =
    Masked-append req exc req exc fields f (λ id h. ground arith) (λ id h. ground arith) (λ m. m)
      (λ m. m) l v

module _ (types : Reflection) where
  pub phantom_field-Kept :
      (is_without : Bool) (t : GoType) (field : StructField) (tag : TagInfo) (w : Walk)
      (reg : Registration)
      → Fitting reg
      → IsWalk w
      → Kept (phantom_field types is_without t field tag w reg)
  unfolding phantom_field
  phantom_field-Kept is_without t field tag w (limit_exceeded r) g v = tt
  phantom_field-Kept true t field tag w (registered id r) g v = record {
    fit = g.0;
    masked =
        Masked-append w.require_mask w.exclude_mask _ _ w.fields _ (λ i h. ground arith)
          (λ i h. ground (arith, has-set w.exclude_mask id i (omega (arith, g.1)) h)) (λ m. m)
          (set-IsMask w.exclude_mask id) (omega (arith, g.1)) v.masked;
  }
  phantom_field-Kept false t field tag w (registered id r) g v = record {
    fit = g.0;
    masked =
        Masked-append w.require_mask w.exclude_mask _ _ w.fields _
          (λ i h. ground (arith, has-set w.require_mask id i (omega (arith, g.1)) h))
          (λ i h. ground arith) (set-IsMask w.require_mask id) (λ m. m) (omega (arith, g.1))
          v.masked;
  }

  pub component_field-Kept :
      (t : GoType) (field : StructField) (tag : TagInfo) (w : Walk) (reg : Registration)
      → Fitting reg
      → IsWalk w
      → Kept (component_field types t field tag w reg)
  unfolding component_field
  component_field-Kept t field tag w (limit_exceeded r) g v = tt
  component_field-Kept t field tag w (registered id r) g v = by_optional tag.optional
    where
      meta : Bool → FieldMeta
      meta o =
          component_meta types t id (start_field field (record tag { optional = o }) w.window_index)

      by_optional :
          (o : Bool)
          → IsWalk (
              add_field (meta o) (
                require_unless o id (record w {
                  registry = r;
                  is_local = true;
                  last = some (length w.fields, meta tag.optional);
                  access = access_component tag (types.id_of t) w.access;
                })))
      by_optional true = record {
        fit = g.0;
        masked =
            Masked-plain w.require_mask w.exclude_mask w.fields (meta true) refl refl
              (omega (arith, g.1)) v.masked;
      }
      by_optional false = record {
        fit = g.0;
        masked =
            Masked-append w.require_mask w.exclude_mask _ _ w.fields (meta false)
              (λ i h. ground (arith, has-set w.require_mask id i (omega (arith, g.1)) h))
              (λ i h. ground arith) (set-IsMask w.require_mask id) (λ m. m) (omega (arith, g.1))
              v.masked;
      }

  -- A traversal asks for nothing, linked or not.
  relation-plain :
      (t : GoType) (last : Option (ℕ × FieldMeta)) (s : Bool) (id : ℕ) (f : FieldMeta)
      → id < 256
      → let m = linked_relation types t last (traversal relation_kind s t id f) in
        (is_required m.kind m.optional ≡ false)
        × (is_excluded m.kind ≡ false)
        × (m.component_id < 256)
  relation-plain t none true id f b = (refl, refl, b)
  relation-plain t none false id f b = (refl, refl, b)
  relation-plain t (some l) true id f b = (refl, refl, b)
  relation-plain t (some l) false id f b = (refl, refl, b)

  pub peer-plain :
      (t : GoType) (last : Option (ℕ × FieldMeta)) (s : Bool) (f : FieldMeta)
      → let m = linked_peer types t last (traversal peer_kind s t 0 f) in
        (is_required m.kind m.optional ≡ false)
        × (is_excluded m.kind ≡ false)
        × (m.component_id < 256)
  peer-plain t none true f = (refl, refl, omega arith)
  peer-plain t none false f = (refl, refl, omega arith)
  peer-plain t (some l) true f = (refl, refl, omega arith)
  peer-plain t (some l) false f = (refl, refl, omega arith)

  pub shared-plain :
      (t : GoType) (last : Option (ℕ × FieldMeta)) (s : Bool) (f : FieldMeta)
      → let m = linked_shared types t last (traversal shared_kind s t 0 f) in
        (is_required m.kind m.optional ≡ false)
        × (is_excluded m.kind ≡ false)
        × (m.component_id < 256)
  shared-plain t none true f = (refl, refl, omega arith)
  shared-plain t none false f = (refl, refl, omega arith)
  shared-plain t (some l) true f = (refl, refl, omega arith)
  shared-plain t (some l) false f = (refl, refl, omega arith)

  pub relation_field-Kept :
      (t : GoType) (field : StructField) (tag : TagInfo) (w : Walk) (reg : Registration)
      → Fitting reg
      → IsWalk w
      → Kept (relation_field types t field tag w reg)
  unfolding relation_field
  relation_field-Kept t field tag w (limit_exceeded r) g v = tt
  relation_field-Kept t field tag w (registered id r) g v =
      let base = start_field field tag w.window_index in
      let p = relation-plain t w.last (is_slice_type field.type) id base (omega (arith, g.1)) in
      let meta =
        linked_relation types t w.last
          (traversal relation_kind (is_slice_type field.type) t id base) in
      record { fit = g.0; masked = Masked-plain _ _ w.fields meta p.0 p.1 p.2 v.masked }
