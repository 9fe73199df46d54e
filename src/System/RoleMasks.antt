-- ===== src/System/RoleMasks.antt =====
-- meta.go: the masks of analyzeSystem, by the With[T], Without[T] and component fields of the struct.
use mathlib.Core.List.{append_assoc, append-nil}
use pecs.Prelude.{
  ℕ, ◌<◌, ◌≡◌, refl, sym, subst, any-append, ◌++◌, Option, none, some, List, [], ◌∷◌, any, All,
  All-append, arith, either_branch,
}
use pecs.Prelude.Assoc.{lookup}
use pecs.Bitmask.{has}
use pecs.Registry.{ComponentRegistry}
use pecs.Session.Laws.{IdsFit}
use pecs.Session.History.{no_bits-absent}
use pecs.System.{GoType, StructField, Reflection}
use pecs.System.Tags.{parse_tag}
use pecs.System.Walk.{Walk, Step, goes_on, panics, pointer_elem, is_struct}
use pecs.System.Analyze.{
  walk_field, walk_fields, Analysis, analyzed, not_a_struct, panicked, start_walk, finish,
  analyze_system,
}
use pecs.System.Roles.{needed_by, barred_by, is_id_of, IsKnown, Obeys, Obeying, walk_type-Obeying}

module _ (types : Reflection) where
  abbrev pub need_of : StructField → Option GoType
  need_of f = needed_by f.type (parse_tag f.tag)

  abbrev pub bar_of : StructField → Option GoType
  bar_of f = barred_by f.type

  is_id_of-kept :
      (r r' : ComponentRegistry) (id : ℕ) (x : Option GoType)
      → ((u j : ℕ) → lookup u r.types ≡ some j → lookup u r'.types ≡ some j)
      → IsKnown types r x
      → is_id_of types r id x ≡ is_id_of types r' id x
  is_id_of-kept r r' id none k e = refl
  is_id_of-kept r r' id (some t) k (j, e) = rw (is_id_of, e, k (types.id_of t) j e) refl

  IsKnown-kept :
      (r r' : ComponentRegistry) (x : Option GoType)
      → ((u j : ℕ) → lookup u r.types ≡ some j → lookup u r'.types ≡ some j)
      → IsKnown types r x
      → IsKnown types r' x
  IsKnown-kept r r' none k e = tt
  IsKnown-kept r r' (some t) k (j, e) = (j, k (types.id_of t) j e)

  module _ (r r' : ComponentRegistry) (of : StructField → Option GoType) where
    All-kept :
        (fs : List StructField)
        → ((u j : ℕ) → lookup u r.types ≡ some j → lookup u r'.types ≡ some j)
        → All (λ f. IsKnown types r (of f)) fs
        → All (λ f. IsKnown types r' (of f)) fs
    All-kept [] k a = tt
    All-kept (f ∷ fs) k (a, b) = (IsKnown-kept r r' (of f) k a, All-kept fs k b)

    any-kept :
        (id : ℕ) (fs : List StructField)
        → ((u j : ℕ) → lookup u r.types ≡ some j → lookup u r'.types ≡ some j)
        → All (λ f. IsKnown types r (of f)) fs
        → any (λ f. is_id_of types r id (of f)) fs ≡ any (λ f. is_id_of types r' id (of f)) fs
    any-kept id [] k a = refl
    any-kept id (f ∷ fs) k (a, b) = rw (is_id_of-kept r r' id (of f) k a, any-kept id fs k b) refl

  -- The masks over the fields so far.
  record Roled (fs : List StructField) (w : Walk) : Type 0 where
    fits : IdsFit w.registry
    known_needs : All (λ f. IsKnown types w.registry (need_of f)) fs
    known_bars : All (λ f. IsKnown types w.registry (bar_of f)) fs
    needs_all :
        (id : ℕ)
        → id < 256
        → has w.require_mask id ≡ any (λ f. is_id_of types w.registry id (need_of f)) fs
    bars_all :
        (id : ℕ)
        → id < 256
        → has w.exclude_mask id ≡ any (λ f. is_id_of types w.registry id (bar_of f)) fs

  abbrev Roling : List StructField → Step → Type 0
  Roling fs (goes_on w) = Roled fs w
  Roling fs (panics r) = Unit

  Obeys-Roled :
      (fs : List StructField) (f : StructField) (w w' : Walk)
      → Roled fs w
      → Obeys types w w' (need_of f) (bar_of f)
      → Roled (fs ++ f ∷ []) w'
  Obeys-Roled fs f w w' v o = record {
    fits = o.ids;
    known_needs =
        All-append (λ f. IsKnown types w'.registry (need_of f)) fs (f ∷ [])
          (All-kept w.registry w'.registry need_of fs o.kept v.known_needs) (o.known_need, tt);
    known_bars =
        All-append (λ f. IsKnown types w'.registry (bar_of f)) fs (f ∷ [])
          (All-kept w.registry w'.registry bar_of fs o.kept v.known_bars) (o.known_bar, tt);
    needs_all = λ id h. ground (
      arith,
      o.requires id h,
      v.needs_all id h,
      any-kept w.registry w'.registry need_of id fs o.kept v.known_needs,
      any-append (λ f. is_id_of types w'.registry id (need_of f)) fs (f ∷ []),
    );
    bars_all = λ id h. ground (
      arith,
      o.excludes id h,
      v.bars_all id h,
      any-kept w.registry w'.registry bar_of id fs o.kept v.known_bars,
      any-append (λ f. is_id_of types w'.registry id (bar_of f)) fs (f ∷ []),
    );
  }

  walk_type-Roling :
      (fs : List StructField) (f : StructField) (w : Walk) (s : Step)
      → Roled fs w
      → Obeying types w (need_of f) (bar_of f) s
      → Roling (fs ++ f ∷ []) s
  walk_type-Roling fs f w (goes_on w') v o = Obeys-Roled fs f w w' v o
  walk_type-Roling fs f w (panics r) v o = tt

  walk_fields-Roling :
      (done fs : List StructField) (s : Step)
      → Roling done s
      → Roling (done ++ fs) (walk_fields types fs s)
  unfolding walk_fields walk_field
  walk_fields-Roling done [] (panics r) v = tt
  walk_fields-Roling done (f ∷ fs) (panics r) v = tt
  walk_fields-Roling done [] (goes_on w) v =
      subst (λ l. Roling l (goes_on w)) (sym (append-nil done)) v
  walk_fields-Roling done (f ∷ fs) (goes_on w) v =
      subst (λ l. Roling l (walk_fields types fs (walk_field types f w)))
        (append_assoc done (f ∷ []) fs)
        (walk_fields-Roling (done ++ f ∷ []) fs (walk_field types f w) (
          walk_type-Roling done f w _ v
            (walk_type-Obeying types f.type f (parse_tag f.tag) w refl v.fits)))

  start-Roled : (r : ComponentRegistry) → IdsFit r → Roled [] (start_walk r)
  start-Roled r v = record {
    fits = v;
    known_needs = tt;
    known_bars = tt;
    needs_all = no_bits-absent;
    bars_all = no_bits-absent;
  }

  -- What the masks of an analysis are for a struct with the fields, by the identifiers that the types
  -- have in the registry after it.
  abbrev pub RoleMasks : List StructField → Analysis → Type 0
  RoleMasks fs (analyzed meta r) =
      ((id : ℕ)
        → id < 256
        → has meta.require_mask id ≡ any (λ f. is_id_of types r id (need_of f)) fs)
      × ((id : ℕ)
          → id < 256
          → has meta.exclude_mask id ≡ any (λ f. is_id_of types r id (bar_of f)) fs)
      × All (λ f. IsKnown types r (need_of f)) fs
      × All (λ f. IsKnown types r (bar_of f)) fs
  RoleMasks fs not_a_struct = Unit
  RoleMasks fs (panicked r) = Unit

  finish-RoleMasks : (fs : List StructField) (s : Step) → Roling fs s → RoleMasks fs (finish s)
  unfolding finish
  finish-RoleMasks fs (goes_on w) v = (v.needs_all, v.bars_all, v.known_needs, v.known_bars)
  finish-RoleMasks fs (panics r) v = tt

  -- Over a registry whose identifiers are below the limit, an analysis that succeeds leaves the T of every
  -- With[T] and Without[T] field, and the component type of every field that is a pointer to a struct,
  -- without one of the tags for other kinds and not optional, with an identifier in the registry; the
  -- RequireMask has exactly the identifiers of the With[T] fields and of these component fields, and the
  -- ExcludeMask exactly those of the Without[T] fields.
  pub analyze_system-RoleMasks :
      (system : GoType) (r : ComponentRegistry)
      → IdsFit r
      → RoleMasks (types.fields_of (pointer_elem system)) (analyze_system types system r)
  unfolding analyze_system
  analyze_system-RoleMasks system r v =
      let fs = types.fields_of (pointer_elem system) in
      either_branch (RoleMasks fs) (is_struct (pointer_elem system))
        (finish-RoleMasks fs _
          (walk_fields-Roling [] fs (goes_on (start_walk r)) (start-Roled r v)))
        tt
