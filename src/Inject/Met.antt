-- ===== src/Inject/Met.antt =====
-- inject.go: a loop over fields that the session of one window can fill goes on to the end.
use pecs.Prelude.{
  ℕ, ◌≡◌, All, refl, sym, ◌∙◌, Bool, true, false, Option, none, some, List, [], ◌∷◌, arith,
  Bool-cases, inl, inr, ◌==◌,
}
use mathlib.Core.Bool.{false≢true}
use mathlib.Core.Option.{none-ne-some, some-injective}
use pecs.System.{
  FieldKind, kind_session, kind_component, kind_phantom_with, kind_phantom_without, kind_payload,
  FieldMeta, SystemMeta,
}
use pecs.Relation.{World}
use pecs.Session.{get_component_unsafe}
use pecs.Inject.{
  Instance, Heap, Resolver, Turn, writes, refuses, faults, Injection, injected, Cursor,
  enter_window, put_data,
}
use pecs.Inject.Turns.{
  component_turn, session_turn, inject_field, inject_turn, inject_entered, inject_fields,
}
use pecs.Session.{Filter}
use pecs.Session.Laws.{is_present}

-- The kinds that are filled from the session alone.
abbrev pub is_local : FieldKind → Bool
is_local kind_session = true
is_local kind_component = true
is_local kind_phantom_with = true
is_local kind_phantom_without = true
is_local kind_payload = true
is_local _ = false

-- The masks of a SystemMeta, as canRunUnsafe reads them.
abbrev pub filter_of : SystemMeta → Filter
filter_of meta = record { require_mask = meta.require_mask; exclude_mask = meta.exclude_mask }

abbrev goes : Turn → Bool
goes (writes write last) = true
goes _ = false

goes-put_data :
    (f : FieldMeta) (last p : Option ℕ)
    → (f.optional ≡ false → is_present p ≡ true)
    → goes (put_data f last p) ≡ true
goes-put_data f last (some p) h = refl
goes-put_data f last none h = elim (Bool-cases f.optional) [
  | inl e ↦ rw e refl
  | inr e ↦ absurd (false≢true (h e))
]

goes-component :
    (w : World) (heap : Heap) (manager : Option Resolver) (f : FieldMeta) (u : Option ℕ) (s : ℕ)
    → u ≡ some s
    → (f.optional ≡ false → is_present (get_component_unsafe (w s).session f.component_id) ≡ true)
    → goes (component_turn w heap manager f u) ≡ true
unfolding component_turn
goes-component w heap manager f none s e h = absurd (none-ne-some s e)
goes-component w heap manager f (some u) s e h =
    goes-put_data f _ _ (rw (sym (some-injective u s e)) at h)

module _ (w : World) (heap : Heap) (manager : Option Resolver) (u : ℕ) where
  -- The session has what the field needs.
  abbrev pub Met : FieldMeta → Type 0
  Met f =
      (is_local f.kind ≡ true)
      × (f.window_index ≡ 0)
      × (f.kind ≡ kind_component
          → f.optional ≡ false
          → is_present (get_component_unsafe (w u).session f.component_id) ≡ true)

  goes-inject_field :
      (kind : FieldKind) (f : FieldMeta) (c : Cursor)
      → is_local kind ≡ true
      → c.current ≡ some u
      → (kind ≡ kind_component
          → f.optional ≡ false
          → is_present (get_component_unsafe (w u).session f.component_id) ≡ true)
      → goes (inject_field w heap manager kind f c) ≡ true
  unfolding inject_field session_turn
  goes-inject_field kind_session f c l e h = rw e refl
  goes-inject_field kind_component f c l e h =
      goes-component w heap manager f c.current u e (h refl)
  goes-inject_field kind_phantom_with f c l e h = refl
  goes-inject_field kind_phantom_without f c l e h = refl
  goes-inject_field kind_payload f c l e h = refl
  goes-inject_field _ f c l e h = absurd (false≢true l)

  -- The system is injected.
  abbrev pub Succeeds : Injection → Type 0
  Succeeds x = (i : Instance) × (x ≡ injected i)

  turn-Succeeds :
      (c : Cursor) (t : Turn) (rest : Cursor → Instance → Injection) (i : Instance)
      → goes t ≡ true
      → ((last : Option ℕ) (j : Instance) → Succeeds (rest (record c { last = last }) j))
      → Succeeds (inject_turn w heap manager c t rest i)
  unfolding inject_turn
  turn-Succeeds c (writes write last) rest i g r = r last _
  turn-Succeeds c refuses rest i g r = absurd (false≢true g)
  turn-Succeeds c faults rest i g r = absurd (false≢true g)

  enter_first :
      (sessions : List ℕ) (f : FieldMeta) (c : Cursor)
      → f.window_index ≡ c.window
      → enter_window sessions f c ≡ some c
  unfolding enter_window
  enter_first sessions f c e =
      let t : (f.window_index == c.window) ≡ true = ground (arith, e) in rw t refl

  pub fields-Succeeds :
      (fields : List FieldMeta) (c : Cursor) (i : Instance)
      → All Met fields
      → c.window ≡ 0
      → c.current ≡ some u
      → Succeeds (inject_fields w heap manager (u ∷ []) fields c i)
  unfolding inject_fields inject_entered
  fields-Succeeds [] c i a z e = (i, refl)
  fields-Succeeds (f ∷ fields) c i a z e = rw (enter_first (u ∷ []) f c (a.0.1 ∙ sym z)) (
      turn-Succeeds c _ _ i (goes-inject_field f.kind f c a.0.0 e a.0.2)
        (λ last j. fields-Succeeds fields (record c { last = last }) j a.1 z e))
