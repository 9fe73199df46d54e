-- ===== src/System/Extended.antt =====
-- meta.go: what a field adds to the analysis: its meta data, and a window if it is a *Session.
use pecs.Prelude.{
  ℕ, suc, ◌+◌, ◌≡◌, refl, sym, ◌∙◌, ap, Bool, true, false, ◌&&◌, ◌||◌, some, List, [], ◌∷◌, ◌++◌,
  ◌==◌, if◌then◌else◌, arith, ltb, length, length-append, contains,
}
use mathlib.Core.Bool.{false≢true}
use pecs.Bitmask.{no_bits}
use pecs.Access.{AccessMeta}
use pecs.System.{
  GoType, session_type, pointer, StructField, Reflection, FieldKind, kind_session, kind_manager,
  kind_component, kind_relation, kind_relation_slice, FieldMeta, WindowMeta,
}
use pecs.System.Tags.{TagInfo}
use pecs.System.Walk.{
  Walk, Step, goes_on, panics, start_field, session_field, manager_field, require_unless,
  update_last,
}

abbrev pub is_session : FieldKind → Bool
is_session kind_session = true
is_session _ = false

-- A field of type *Session.
abbrev pub opens_window : GoType → Bool
opens_window (pointer session_type) = true
opens_window _ = false

-- A field that reads or writes components of its own type.
abbrev pub is_accessing : FieldKind → Bool
is_accessing kind_component = true
is_accessing kind_relation = true
is_accessing kind_relation_slice = true
is_accessing _ = false

-- The accesses that one list has are in the other.
pub record Grows (a b : AccessMeta) : Type 0 where
  pub reads_grow : (t : ℕ) → contains a.reads t ≡ true → contains b.reads t ≡ true
  pub writes_grow : (t : ℕ) → contains a.writes t ≡ true → contains b.writes t ≡ true

pub Grows-refl : {a : AccessMeta} → Grows a a
Grows-refl = record { reads_grow = λ t e. e; writes_grow = λ t e. e }

pub contains-append :
    (xs : List ℕ) (t u : ℕ) → contains (xs ++ u ∷ []) t ≡ (contains xs t || u == t)
contains-append [] t u = ground arith
contains-append (x ∷ xs) t u = ground (arith, contains-append xs t u)

module _ (types : Reflection) where
  -- The access list has the type of the field, among the writes if the field is mutable.
  abbrev pub Tracked : AccessMeta → FieldMeta → Type 0
  Tracked a f =
      is_accessing f.kind ≡ true
      → (t : GoType) → f.component_type ≡ some t
      → contains (if f.mutable then a.writes else a.reads) (types.id_of t) ≡ true

  -- One field of the struct makes one field of the meta data, at its offset and in the window that is
  -- open after it; a *Session opens one.
  pub record Extended (field : StructField) (opens : Bool) (w w' : Walk) : Type 0 where
    pub meta : FieldMeta
    pub added : w'.fields ≡ w.fields ++ meta ∷ []
    pub placed : meta.offset ≡ field.offset
    pub in_window : meta.window_index ≡ w'.window_index
    pub kinded : is_session meta.kind ≡ opens
    pub counted : w'.session_count ≡ (if opens then w.session_count + 1 else w.session_count)
    pub windowed : length w'.windows ≡ (if opens then length w.windows + 1 else length w.windows)
    pub indexed :
        w'.window_index
        ≡ (if opens && ltb 0 w.session_count then w.window_index + 1 else w.window_index)
    pub grown : Grows w.access w'.access
    pub tracked : Tracked w'.access meta

  abbrev pub Stepped : StructField → Bool → Walk → Step → Type 0
  Stepped field opens w (goes_on w') = Extended field opens w w'
  Stepped field opens w (panics r) = Unit

  pub length-update_last :
      (f : WindowMeta → WindowMeta) (ws : List WindowMeta) → length (update_last f ws) ≡ length ws
  length-update_last f [] = refl
  length-update_last f (w ∷ []) = refl
  length-update_last f (w ∷ v ∷ ws) = ap suc (length-update_last f (v ∷ ws))

  -- A field that opens no window and accesses no component.
  pub quiet-Extended :
      (field : StructField) (w w' : Walk) (meta : FieldMeta)
      → w'.fields ≡ w.fields ++ meta ∷ []
      → meta.offset ≡ field.offset
      → meta.window_index ≡ w.window_index
      → is_session meta.kind ≡ false
      → is_accessing meta.kind ≡ false
      → w'.session_count ≡ w.session_count
      → length w'.windows ≡ length w.windows
      → w'.window_index ≡ w.window_index
      → Grows w.access w'.access
      → Extended field false w w'
  quiet-Extended field w w' meta a p i s q c l n g = record {
    meta = meta;
    added = a;
    placed = p;
    in_window = i ∙ sym n;
    kinded = s;
    counted = c;
    windowed = l;
    indexed = n;
    grown = g;
    tracked = λ e t e'. absurd (false≢true (sym q ∙ e));
  }

  pub session_field-Extended :
      (field : StructField) (tag : TagInfo) (w : Walk)
      → Extended field true w (session_field field tag w)
  unfolding session_field
  session_field-Extended field tag w = record {
    meta =
        start_field field tag
          (if ltb 0 w.session_count then w.window_index + 1 else w.window_index);
    added = refl;
    placed = refl;
    in_window = refl;
    kinded = refl;
    counted = refl;
    windowed = omega (
      arith,
      length-append (update_last (λ v. record v { end_field_index = length w.fields }) w.windows) (
          record {
            session_field_index = length w.fields;
            start_field_index = length w.fields;
            end_field_index = 0;
            require_mask = no_bits;
            exclude_mask = no_bits;
          }
          ∷ []),
      length-update_last (λ v. record v { end_field_index = length w.fields }) w.windows,
    );
    indexed = refl;
    grown = Grows-refl;
    tracked = λ e t e'. absurd (false≢true e);
  }

  pub manager_field-Extended :
      (field : StructField) (tag : TagInfo) (w : Walk)
      → Extended field false w (manager_field field tag w)
  unfolding manager_field
  manager_field-Extended field tag w =
      quiet-Extended field w _
        (record (start_field field tag w.window_index) { kind = kind_manager }) refl refl refl refl
        refl refl refl refl Grows-refl

  pub length-require :
      (o : Bool) (id : ℕ) (w : Walk) → length (require_unless o id w).windows ≡ length w.windows
  length-require true id w = refl
  length-require false id w = length-update_last _ w.windows
