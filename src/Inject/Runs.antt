-- ===== src/Inject/Runs.antt =====
-- inject.go: what holds along the loop of injectSystem, over its sessions and the current one.
use pecs.Prelude.{
  ℕ, ◌≡◌, ◌≢◌, All, refl, sym, true, false, Option, none, some, List, [], ◌∷◌, arith, get_elem?,
  Bool-cases, inl, inr, ◌==◌,
}
use pecs.System.{FieldMeta}
use pecs.Relation.{World}
use pecs.Session.{get_component_unsafe}
use pecs.Inject.{
  Pointer, to_data, Instance, Heap, Resolver, Write, puts, fills, empties, zeroes, leaves, Turn,
  writes, refuses, faults, Injection, injected, refused, faulted, apply_write, set_field_ptr,
  set_slice_from_ptrs, clear_slice, zero_field, Cursor, enter_window,
}
use pecs.Inject.Turns.{inject_field, inject_turn, inject_entered}
use pecs.Inject.Writes.{Shape, in_pointer, in_slice, in_bytes, in_nothing, Covers, CoversIn}
use pecs.Session.Laws.{is_present}

-- The field lies at another offset than each of the fields.
abbrev pub Away : FieldMeta → List FieldMeta → Type 0
Away f fields = All (λ g. g.offset ≢ f.offset) fields

-- No two fields lie at one offset.
abbrev pub Apart : List FieldMeta → Type 0
Apart [] = Unit
Apart (f ∷ fields) = Away f fields × Apart fields

pub pointer_kept :
    (s : Shape) (g : FieldMeta) (write : Write) (o : ℕ) (i : Instance)
    → Covers s g write
    → g.offset ≢ o
    → (apply_write write i).pointers o ≡ i.pointers o
unfolding apply_write set_field_ptr set_slice_from_ptrs clear_slice zero_field
pointer_kept in_pointer g (puts p v) o i h n =
    let e : (p == o) ≡ false = ground (arith, h, n) in rw e refl
pointer_kept in_slice g (puts p v) o i h n = absurd h
pointer_kept in_bytes g (puts p v) o i h n = absurd h
pointer_kept in_nothing g (puts p v) o i h n = absurd h
pointer_kept _ g (fills p ptrs) o i h n = refl
pointer_kept _ g (empties p) o i h n = refl
pointer_kept _ g (zeroes p m) o i h n = refl
pointer_kept _ g leaves o i h n = refl

abbrev pub data_pointer : Option ℕ → Option Pointer
data_pointer none = none
data_pointer (some p) = some (to_data p)

-- What holds of the instance, if it is injected.
abbrev pub Final : (Instance → Type 0) → Injection → Type 0
Final P (injected i) = P i
Final P (refused i) = Unit
Final P (faulted i) = Unit

module _ (w : World) (heap : Heap) (manager : Option Resolver) (sessions : List ℕ) where
  -- The session of the field's window, with what the field points to: its component, which is there
  -- unless the field is optional.
  pub record Held (f : FieldMeta) (i : Instance) : Type 0 where
    pub session : ℕ
    pub in_window : get_elem? sessions f.window_index ≡ some session
    pub holds :
        i.pointers f.offset ≡ data_pointer (get_component_unsafe (w session).session f.component_id)
    pub present :
        f.optional ≡ false
        → is_present (get_component_unsafe (w session).session f.component_id) ≡ true

  -- The current session is that of the window.
  abbrev pub Current : Cursor → Type 0
  Current c = c.current ≡ get_elem? sessions c.window

  abbrev pub Entered : FieldMeta → Option Cursor → Type 0
  Entered f none = Unit
  Entered f (some c) = Current c × (c.window ≡ f.window_index)

  pub enter_window-Entered :
      (f : FieldMeta) (c : Cursor) → Current c → Entered f (enter_window sessions f c)
  unfolding enter_window
  enter_window-Entered f c v = elim (Bool-cases (f.window_index == c.window)) [
    | inl e ↦ rw e (v, ground arith)
    | inr e ↦ rw e (switched (get_elem? sessions f.window_index) refl)
  ]
    where
      switched :
          (u : Option ℕ)
          → get_elem? sessions f.window_index ≡ u
          → Entered f (elim u [
            | none ↦ none
            | some u ↦ some (record { current = some u; window = f.window_index; last = none })
          ])
      switched none e = tt
      switched (some u) e = (sym e, refl)

  -- What holds of the instance after the write of the turn, if it goes on.
  abbrev pub Turned : (Instance → Type 0) → Instance → Turn → Type 0
  Turned P i (writes write last) = P (apply_write write i)
  Turned P i _ = Unit

  pub Covers-Turned :
      (P : Instance → Type 0) (s : Shape) (g : FieldMeta) (i : Instance) (t : Turn)
      → CoversIn s g t
      → ((write : Write) → Covers s g write → P (apply_write write i))
      → Turned P i t
  Covers-Turned P s g i (writes write last) h k = k write h
  Covers-Turned P s g i refuses h k = tt
  Covers-Turned P s g i faults h k = tt

  pub turn-Final :
      (P Q : Instance → Type 0) (c : Cursor) (t : Turn) (rest : Cursor → Instance → Injection)
      (i : Instance)
      → Current c
      → Turned P i t
      → ((d : Cursor) (i : Instance) → Current d → P i → Final Q (rest d i))
      → Final Q (inject_turn w heap manager c t rest i)
  unfolding inject_turn
  turn-Final P Q c refuses rest i v h r = tt
  turn-Final P Q c faults rest i v h r = tt
  turn-Final P Q c (writes write last) rest i v h r = r _ _ v h

  pub Entered-Final :
      (P Q : Instance → Type 0) (f : FieldMeta) (d : Option Cursor)
      (rest : Cursor → Instance → Injection) (i : Instance)
      → Entered f d
      → ((c : Cursor)
          → Current c
          → c.window ≡ f.window_index
          → Turned P i (inject_field w heap manager f.kind f c))
      → ((d : Cursor) (i : Instance) → Current d → P i → Final Q (rest d i))
      → Final Q (inject_entered w heap manager f d rest i)
  unfolding inject_entered
  Entered-Final P Q f none rest i v h r = tt
  Entered-Final P Q f (some c) rest i v h r =
      turn-Final P Q c (inject_field w heap manager f.kind f c) rest i v.0 (h c v.0 v.1) r
