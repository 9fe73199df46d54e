-- ===== src/System/Walked.antt =====
-- meta.go: the loop of analyzeSystem over the fields of a struct, from any walk to the last.
use pecs.Prelude.{
  ℕ, ◌+◌, ◌-◌, ◌≡◌, sym, ◌∙◌, ap, Bool, true, false, List, [], ◌∷◌, ◌++◌, if◌then◌else◌, arith,
  length, map, map-append, All, All-append, All-mono, contains,
}
use pecs.Registry.{ComponentRegistry}
use pecs.Access.{AccessMeta}
use pecs.System.{StructField, Reflection, FieldMeta}
use pecs.System.Walk.{Walk, Step, goes_on, panics}
use pecs.System.Analyze.{walk_field, walk_fields}
use pecs.System.Extended.{opens_window, Grows, Tracked, Extended, Stepped}
use mathlib.Core.List.{append_assoc, append-nil}
use pecs.System.Stepped.{walk_field-Stepped}

-- How many fields are of type *Session.
abbrev pub sessions_in : List StructField → ℕ
sessions_in [] = 0
sessions_in (f ∷ fs) = if opens_window f.type then sessions_in fs + 1 else sessions_in fs

-- The window of each field, after `n` fields of type *Session: that of the last of them so far, and
-- the first window for the fields before the first.
abbrev pub windows_of : ℕ → List StructField → List ℕ
windows_of n [] = []
windows_of n (f ∷ fs) =
    let m = if opens_window f.type then n + 1 else n in (m - 1) ∷ windows_of m fs

-- The windows of a walk are counted by its fields of type *Session.
pub record IsCounted (w : Walk) : Type 0 where
  pub counted : length w.windows ≡ w.session_count
  pub indexed : w.window_index ≡ w.session_count - 1

-- A list mapped after one more field, and then others.
map_later :
    (g : FieldMeta → ℕ) (xs xs' ys : List FieldMeta) (m : FieldMeta) (y : ℕ) (zs : List ℕ)
    → map g ys ≡ map g xs' ++ zs
    → xs' ≡ xs ++ m ∷ []
    → g m ≡ y
    → map g ys ≡ map g xs ++ y ∷ zs
map_later g xs xs' ys m y zs a b c =
    a
    ∙ ap (λ l. map g l ++ zs) b
    ∙ ap (λ l. l ++ zs) (map-append g xs (m ∷ []))
    ∙ append_assoc (map g xs) (g m ∷ []) zs
    ∙ ap (λ n. map g xs ++ n ∷ zs) c

module _ (types : Reflection) where
  pub record Walked (fs : List StructField) (w w' : Walk) : Type 0 where
    pub placed :
        map (λ f. f.offset) w'.fields ≡ map (λ f. f.offset) w.fields ++ map (λ f. f.offset) fs
    pub in_windows :
        map (λ f. f.window_index) w'.fields
        ≡ map (λ f. f.window_index) w.fields ++ windows_of w.session_count fs
    pub windowed : length w'.windows ≡ w.session_count + sessions_in fs
    pub tracked : All (Tracked types w.access) w.fields → All (Tracked types w'.access) w'.fields

  abbrev pub WalkedTo : List StructField → Walk → Step → Type 0
  WalkedTo fs w (goes_on w') = Walked fs w w'
  WalkedTo fs w (panics r) = Unit

  Extended-IsCounted :
      (field : StructField) (opens : Bool) (w w' : Walk)
      → Extended types field opens w w'
      → IsCounted w
      → IsCounted w'
  Extended-IsCounted field opens w w' e v = record {
    counted = ground (arith, e.counted, e.windowed, v.counted);
    indexed = ground (arith, e.counted, e.indexed, v.indexed);
  }

  Tracked-Grows :
      (a b : AccessMeta) → Grows a b → (f : FieldMeta) → Tracked types a f → Tracked types b f
  Tracked-Grows a b g f h k t e = grown f.mutable (h k t e)
    where
      grown :
          (m : Bool)
          → contains (if m then a.writes else a.reads) (types.id_of t) ≡ true
          → contains (if m then b.writes else b.reads) (types.id_of t) ≡ true
      grown true p = g.writes_grow (types.id_of t) p
      grown false p = g.reads_grow (types.id_of t) p

  -- A field, and then the others.
  Walked-cons :
      (f : StructField) (fs : List StructField) (w w' w'' : Walk)
      → Extended types f (opens_window f.type) w w'
      → IsCounted w'
      → Walked fs w' w''
      → Walked (f ∷ fs) w w''
  Walked-cons f fs w w' w'' e v r = record {
    placed =
        map_later (λ m. m.offset) w.fields w'.fields w''.fields e.meta f.offset _ r.placed e.added
          e.placed;
    in_windows =
        map_later (λ m. m.window_index) w.fields w'.fields w''.fields e.meta _ _
          (rw (sym e.counted) r.in_windows) e.added
          (e.in_window ∙ v.indexed ∙ ap (λ n. n - 1) e.counted);
    windowed = ground (arith, r.windowed, e.counted);
    tracked = λ h. r.tracked (
        rw e.added (
          All-append (Tracked types w'.access) w.fields (e.meta ∷ [])
            (All-mono (Tracked types w.access) (Tracked types w'.access) w.fields
              (Tracked-Grows w.access w'.access e.grown) h)
            (e.tracked, tt)));
  }

  no_fields-Walked : (w : Walk) → IsCounted w → Walked [] w w
  no_fields-Walked w v = record {
    placed = sym (append-nil _);
    in_windows = sym (append-nil _);
    windowed = ground (arith, v.counted);
    tracked = λ h. h;
  }

  panics-WalkedTo :
      (fs gs : List StructField) (w : Walk) (r : ComponentRegistry)
      → WalkedTo fs w (walk_fields types gs (panics r))
  unfolding walk_fields
  panics-WalkedTo fs [] w r = tt
  panics-WalkedTo fs (g ∷ gs) w r = tt

  later-WalkedTo :
      (f : StructField) (fs : List StructField) (w w' : Walk) (s : Step)
      → IsCounted w
      → Extended types f (opens_window f.type) w w'
      → WalkedTo fs w' s
      → WalkedTo (f ∷ fs) w s
  later-WalkedTo f fs w w' (goes_on w'') v e r =
      Walked-cons f fs w w' w'' e (Extended-IsCounted f _ w w' e v) r
  later-WalkedTo f fs w w' (panics g) v e r = tt

  next-WalkedTo :
      (f : StructField) (fs : List StructField) (w : Walk) (s : Step)
      → IsCounted w
      → Stepped types f (opens_window f.type) w s
      → ((w' : Walk) → IsCounted w' → WalkedTo fs w' (walk_fields types fs (goes_on w')))
      → WalkedTo (f ∷ fs) w (walk_fields types fs s)
  next-WalkedTo f fs w (panics r) v e rest = panics-WalkedTo (f ∷ fs) fs w r
  next-WalkedTo f fs w (goes_on w') v e rest =
      later-WalkedTo f fs w w' _ v e (rest w' (Extended-IsCounted f _ w w' e v))

  pub walk_fields-WalkedTo :
      (fs : List StructField) (w : Walk)
      → IsCounted w
      → WalkedTo fs w (walk_fields types fs (goes_on w))
  unfolding walk_fields
  walk_fields-WalkedTo [] w v = no_fields-Walked w v
  walk_fields-WalkedTo (f ∷ fs) w v =
      next-WalkedTo f fs w (walk_field types f w) v (walk_field-Stepped types f w)
        (λ w' v'. walk_fields-WalkedTo fs w' v')
