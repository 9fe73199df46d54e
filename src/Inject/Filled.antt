-- ===== src/Inject/Filled.antt =====
-- inject.go: what the component fields of an injected instance hold.
use pecs.Prelude.{
  ℕ, zero, suc, ◌≡◌, ◌≢◌, refl, sym, ◌∙◌, ap, Bool, true, false, not, Option, none, some, List, [],
  ◌∷◌, arith, get_elem?, if◌then◌else◌,
}
use mathlib.Core.Bool.{false≢true}
use mathlib.Core.Option.{none-ne-some, some-injective}
use pecs.System.{FieldKind, kind_component, FieldMeta, SystemMeta}
use pecs.Relation.{World}
use pecs.Session.{get_component_unsafe}
use pecs.Inject.{
  Instance, Heap, Resolver, Write, puts, writes, refuses, refused, apply_write, set_field_ptr,
  Cursor, put_data,
}
use pecs.Inject.Turns.{component_turn, inject_field, inject_fields, inject_system}
use pecs.Inject.Writes.{Shape, shape, Covers}
use pecs.Inject.Covers.{inject_field-CoversIn}
use pecs.Inject.Runs.{
  Away, Apart, pointer_kept, Final, Held, Current, enter_window-Entered, Turned, Covers-Turned,
  Entered-Final,
}

module _ (w : World) (heap : Heap) (manager : Option Resolver) (sessions : List ℕ) where
  put-Held :
      (f : FieldMeta) (u : ℕ) (p : Option ℕ) (i : Instance)
      → get_elem? sessions f.window_index ≡ some u
      → get_component_unsafe (w u).session f.component_id ≡ p
      → Turned w heap manager sessions (Held w heap manager sessions f) i (put_data f p p)
  unfolding apply_write set_field_ptr
  put-Held f u (some p) i e q = record {
    session = u;
    in_window = e;
    holds = ground (arith, q);
    present = λ o. rw q refl;
  }
  put-Held f u none i e q = of_optional f.optional refl
    where
      of_optional :
          (o : Bool)
          → f.optional ≡ o
          → Turned w heap manager sessions
              (Held w heap manager sessions f)
              i
              (if o then writes (puts f.offset none) none else refuses)
      of_optional false h = tt
      of_optional true h = record {
        session = u;
        in_window = e;
        holds = ground (arith, q);
        present = λ o. absurd (false≢true (sym o ∙ h));
      }

  component_turn-Held :
      (f : FieldMeta) (u : Option ℕ) (i : Instance)
      → get_elem? sessions f.window_index ≡ u
      → Turned w heap manager sessions
          (Held w heap manager sessions f)
          i
          (component_turn w heap manager f u)
  unfolding component_turn
  component_turn-Held f none i e = tt
  component_turn-Held f (some u) i e = put-Held f u _ i e refl

  inject_component-Held :
      (kind : FieldKind) (f : FieldMeta) (c : Cursor) (i : Instance)
      → kind ≡ kind_component
      → Current w heap manager sessions c
      → c.window ≡ f.window_index
      → Turned w heap manager sessions
          (Held w heap manager sessions f)
          i
          (inject_field w heap manager kind f c)
  unfolding inject_field
  inject_component-Held kind f c i q v e =
      rw q (component_turn-Held f c.current i (ap (get_elem? sessions) (sym e) ∙ sym v))

  Held-kept :
      (f g : FieldMeta) (s : Shape) (write : Write) (i : Instance)
      → g.offset ≢ f.offset
      → Covers s g write
      → Held w heap manager sessions f i
      → Held w heap manager sessions f (apply_write write i)
  Held-kept f g s write i n h v = record {
    session = v.session;
    in_window = v.in_window;
    holds = pointer_kept s g write f.offset i h n ∙ v.holds;
    present = v.present;
  }

  fields-keep :
      (fields : List FieldMeta) (f : FieldMeta) (c : Cursor) (i : Instance)
      → Away f fields
      → Current w heap manager sessions c
      → Held w heap manager sessions f i
      → Final (Held w heap manager sessions f) (inject_fields w heap manager sessions fields c i)
  unfolding inject_fields
  fields-keep [] f c i a v h = h
  fields-keep (g ∷ fields) f c i a v h =
      Entered-Final w heap manager sessions (Held w heap manager sessions f)
        (Held w heap manager sessions f) g _ _ i
        (enter_window-Entered w heap manager sessions g c v)
        (λ d v' e.
          Covers-Turned w heap manager sessions (Held w heap manager sessions f) (shape g.kind) g i
            _ (inject_field-CoversIn w heap manager g.kind g d)
            (λ write k. Held-kept f g (shape g.kind) write i a.0 k h))
        (λ d j v' h'. fields-keep fields f d j a.1 v' h')

  first-Held :
      (fields : List FieldMeta) (f : FieldMeta) (c : Cursor) (i : Instance)
      → Away f fields
      → f.kind ≡ kind_component
      → Current w heap manager sessions c
      → Final
          (Held w heap manager sessions f)
          (inject_fields w heap manager sessions (f ∷ fields) c i)
  unfolding inject_fields
  first-Held fields f c i a q v =
      Entered-Final w heap manager sessions (Held w heap manager sessions f)
        (Held w heap manager sessions f) f _ _ i
        (enter_window-Entered w heap manager sessions f c v)
        (λ d v' e. inject_component-Held f.kind f d i q v' e)
        (λ d j v' h. fields-keep fields f d j a v' h)

  fields-Held :
      (fields : List FieldMeta) (k : ℕ) (f : FieldMeta) (c : Cursor) (i : Instance)
      → Apart fields
      → get_elem? fields k ≡ some f
      → f.kind ≡ kind_component
      → Current w heap manager sessions c
      → Final (Held w heap manager sessions f) (inject_fields w heap manager sessions fields c i)
  unfolding inject_fields
  fields-Held [] k f c i a e q v = absurd (none-ne-some f e)
  fields-Held (g ∷ fields) zero f c i a e q v =
      let same = some-injective g f e in
      rw (sym same) (first-Held fields g c i a.0 (ap (λ h. h.kind) same ∙ q) v)
  fields-Held (g ∷ fields) (suc k) f c i a e q v =
      Entered-Final w heap manager sessions (λ i. Unit) (Held w heap manager sessions f) g _ _ i
        (enter_window-Entered w heap manager sessions g c v)
        (λ d v' e'.
          Covers-Turned w heap manager sessions (λ i. Unit) (shape g.kind) g i _
            (inject_field-CoversIn w heap manager g.kind g d) (λ write k. tt))
        (λ d j v' h. fields-Held fields k f d j a.1 e q v')

  global-Held :
      (g : Bool) (meta : SystemMeta) (k : ℕ) (f : FieldMeta) (c : Cursor) (i : Instance)
      → Apart meta.fields
      → get_elem? meta.fields k ≡ some f
      → f.kind ≡ kind_component
      → Current w heap manager sessions c
      → Final
          (Held w heap manager sessions f)
          (if not g then refused i else inject_fields w heap manager sessions meta.fields c i)
  global-Held false meta k f c i a e q v = tt
  global-Held true meta k f c i a e q v = fields-Held meta.fields k f c i a e q v

-- Once a system is injected, each of its component fields points to the component that the session of
-- its window has, and to one that is there if the field is not optional, where no two fields of the
-- system lie at one offset.
pub inject_system-Held :
    (w : World) (heap : Heap) (manager : Option Resolver) (sessions : List ℕ) (meta : SystemMeta)
    (k : ℕ) (f : FieldMeta) (i : Instance)
    → Apart meta.fields
    → get_elem? meta.fields k ≡ some f
    → f.kind ≡ kind_component
    → Final (Held w heap manager sessions f) (inject_system w heap manager sessions meta i)
unfolding inject_system
inject_system-Held w heap manager [] meta k f i a e q =
    global-Held w heap manager [] meta.is_global meta k f _ i a e q refl
inject_system-Held w heap manager (u ∷ sessions) meta k f i a e q =
    fields-Held w heap manager (u ∷ sessions) meta.fields k f
      (record { current = some u; window = 0; last = none }) i a e q refl
