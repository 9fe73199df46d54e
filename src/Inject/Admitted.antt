-- ===== src/Inject/Admitted.antt =====
-- inject.go, meta.go and session.go: a session that passes the masks of a system fills its fields.
use pecs.Prelude.{
  ℕ, zero, suc, ◌+◌, ◌≤◌, ◌<◌, ◌≡◌, All, All-get_elem?, any, map, refl, sym, ◌∙◌, Bool, true, false,
  Option, none, some, List, [], ◌∷◌, arith, get_elem?, Bool-cases, inl, inr, ◌==◌, ◌&&◌,
}
use mathlib.Core.Option.{none-ne-some, some-injective}
use pecs.System.{GoType, FieldKind, kind_component, FieldMeta, SystemMeta}
use pecs.Relation.{World}
use pecs.Session.{get_component_unsafe}
use pecs.Inject.{Instance, Heap, Resolver, injected}
use pecs.Inject.Turns.{inject_system}
use pecs.Session.{can_run_unsafe}
use pecs.Session.Laws.{IsSession, IdsFit}
use pecs.Session.Running.{can_run_unsafe_iff}
use pecs.Registry.{ComponentRegistry}
use pecs.System.{Reflection, StructField}
use pecs.System.Extended.{opens_window}
use pecs.System.Walk.{pointer_elem}
use pecs.System.Analyze.{analyze_system, analyzed}
use pecs.System.FieldMasks.{needs, is_required}
use pecs.System.Masks.{analyze_system-AnalyzedMasks}
use pecs.System.Walked.{sessions_in, windows_of}
use pecs.System.Windows.{analyze_system-AnalyzedWindows}
use pecs.Inject.Met.{is_local, filter_of, Met, fields-Succeeds}

zero_windows :
    (fs : List StructField) (n : ℕ) → n + sessions_in fs ≤ 1 → All (λ m. m ≡ 0) (windows_of n fs)
zero_windows [] n h = tt
zero_windows (f ∷ fs) n h = elim (Bool-cases (opens_window f.type)) [
  | inl e ↦ rw e (ground (arith, h, e), zero_windows fs (n + 1) (ground (arith, h, e)))
  | inr e ↦ rw e (ground (arith, h, e), zero_windows fs n (ground (arith, h, e)))
]

All-map :
    (g : FieldMeta → ℕ) (P : ℕ → Type 0) (xs : List FieldMeta)
    → All P (map g xs)
    → All (λ x. P (g x)) xs
All-map g P [] h = tt
All-map g P (x ∷ xs) h = (h.0, All-map g P xs h.1)

any-get_elem? :
    (p : FieldMeta → Bool) (xs : List FieldMeta) (k : ℕ) (x : FieldMeta)
    → get_elem? xs k ≡ some x
    → p x ≡ true
    → any p xs ≡ true
any-get_elem? p [] k x e h = absurd (none-ne-some x e)
any-get_elem? p (y ∷ xs) zero x e h =
    let b = rw (sym (some-injective y x e)) at h in ground (arith, b)
any-get_elem? p (y ∷ xs) (suc k) x e h = ground (arith, any-get_elem? p xs k x e h)

All-of :
    (P : FieldMeta → Type 0) (xs : List FieldMeta)
    → ((k : ℕ) (x : FieldMeta) → get_elem? xs k ≡ some x → P x)
    → All P xs
All-of P [] h = tt
All-of P (x ∷ xs) h = (h 0 x refl, All-of P xs (λ k y e. h (suc k) y e))

needs_own :
    (f : FieldMeta) → f.kind ≡ kind_component → f.optional ≡ false → needs f.component_id f ≡ true
needs_own f q o = required f.kind f.optional q o (ground arith)
  where
    required :
        (kind : FieldKind) (optional : Bool)
        → kind ≡ kind_component
        → optional ≡ false
        → (f.component_id == f.component_id) ≡ true
        → (is_required kind optional && f.component_id == f.component_id) ≡ true
    required kind optional q o e = rw (q, o) e

-- An analyzed system with one *Session field at most, whose other fields are components, phantom types
-- and payload, is injected from any session that may run it, into any instance.
pub analyze_system-admits :
    (types : Reflection) (system : GoType) (r r' : ComponentRegistry) (meta : SystemMeta)
    (w : World) (heap : Heap) (manager : Option Resolver) (u : ℕ) (i : Instance)
    → IdsFit r
    → analyze_system types system r ≡ analyzed meta r'
    → sessions_in (types.fields_of (pointer_elem system)) ≤ 1
    → All (λ f. is_local f.kind ≡ true) meta.fields
    → IsSession (w u).session
    → can_run_unsafe (w u).session (filter_of meta) ≡ true
    → (j : Instance) × (inject_system w heap manager (u ∷ []) meta i ≡ injected j)
unfolding inject_system get_component_unsafe
analyze_system-admits types system r r' meta w heap manager u i fits e few locals v runs =
    let masked = (rw e at (analyze_system-AnalyzedMasks types system r fits)).0 in
    let found = rw e at (analyze_system-AnalyzedWindows types system r) in
    let fs = types.fields_of (pointer_elem system) in
    let zeros =
      All-map (λ f. f.window_index) (λ n. n ≡ 0) meta.fields
        (rw (found.1) (zero_windows fs 0 (omega (arith, few)))) in
    let present =
      ((can_run_unsafe_iff (w u).session (filter_of meta) v masked.require_fits
          masked.exclude_fits).0
        runs).0 in
    fields-Succeeds w heap manager u meta.fields
      (record { current = some u; window = 0; last = none }) i
      (All-of (Met w heap manager u) meta.fields (λ k f g. (
        All-get_elem? (λ f. is_local f.kind ≡ true) meta.fields k f g locals,
        All-get_elem? (λ f. f.window_index ≡ 0) meta.fields k f g zeros,
        λ q o.
            let fit = All-get_elem? (λ f. f.component_id < 256) meta.fields k f g masked.ids_fit in
            present f.component_id fit (
              masked.requires f.component_id fit
              ∙ any-get_elem? (needs f.component_id) meta.fields k f g (needs_own f q o)),
      )))
      refl refl
