-- ===== src/System/Accesses.antt =====
-- meta.go: the accesses that analyzeSystem records, and the conflicts between analyzed systems.
use pecs.Prelude.{
  ℕ, ◌≡◌, refl, ◌∙◌, ◌⊎◌, inl, inr, Bool-cases, get_elem?, true, some, List, arith, either_branch,
  All, All-get_elem?, contains,
}
use pecs.Registry.{ComponentRegistry}
use pecs.Access.{AccessMeta}
use pecs.System.{GoType, StructField, Reflection, FieldMeta, SystemMeta}
use pecs.System.Walk.{Step, goes_on, panics, pointer_elem, is_struct}
use pecs.System.Analyze.{
  Analysis, analyzed, not_a_struct, panicked, start_walk, finish, analyze_system,
}
use pecs.System.Extended.{is_accessing, Tracked}
use pecs.Access.{prepare_sets}
use pecs.Access.Laws.{IsAccess, prepare_sets-IsAccess}
use pecs.Access.{conflicts}
use pecs.Access.Laws.{conflicts_comm, Clash, conflicts_iff}
use pecs.System.Walked.{WalkedTo, walk_fields-WalkedTo}

module _ (types : Reflection) where
  -- The type of each component and relation field is among the writes of the analysis if the field is
  -- mutable, and among its reads if not.
  abbrev pub AnalyzedAccess : Analysis → Type 0
  AnalyzedAccess (analyzed meta r) =
      All (Tracked types meta.access) meta.fields × IsAccess meta.access
  AnalyzedAccess not_a_struct = Unit
  AnalyzedAccess (panicked r) = Unit

  finish-AnalyzedAccess :
      (fs : List StructField) (r : ComponentRegistry) (s : Step)
      → WalkedTo types fs (start_walk r) s
      → AnalyzedAccess (finish s)
  unfolding finish prepare_sets
  finish-AnalyzedAccess fs r (goes_on w) v = (v.tracked tt, prepare_sets-IsAccess w.access)
  finish-AnalyzedAccess fs r (panics g) v = tt

  pub analyze_system-AnalyzedAccess :
      (system : GoType) (r : ComponentRegistry) → AnalyzedAccess (analyze_system types system r)
  unfolding analyze_system
  analyze_system-AnalyzedAccess system r =
      let fs = types.fields_of (pointer_elem system) in
      either_branch AnalyzedAccess (is_struct (pointer_elem system))
        (finish-AnalyzedAccess fs r _ (
          walk_fields-WalkedTo types fs (start_walk r) (record { counted = refl; indexed = refl })))
        tt

  -- The field accesses components of the type.
  abbrev pub Accesses : GoType → FieldMeta → Type 0
  Accesses t f = (is_accessing f.kind ≡ true) × (f.component_type ≡ some t)

  Tracked-writes :
      (a : AccessMeta) (f : FieldMeta) (t : GoType)
      → Tracked types a f
      → Accesses t f
      → f.mutable ≡ true
      → contains a.writes (types.id_of t) ≡ true
  Tracked-writes a f t h (k, e) m = ground (arith, h k t e, m)

  Tracked-touches :
      (a : AccessMeta) (f : FieldMeta) (t : GoType)
      → Tracked types a f
      → Accesses t f
      → (contains a.reads (types.id_of t) ≡ true) ⊎ (contains a.writes (types.id_of t) ≡ true)
  Tracked-touches a f t h (k, e) = elim (Bool-cases f.mutable) [
    | inl m ↦ inr (ground (arith, h k t e, m))
    | inr m ↦ inl (ground (arith, h k t e, m))
  ]

  -- Two analyzed systems of which one has a mutable field of a component type that the other has a
  -- field of, mutable or not, conflict, whichever of the two is asked.
  pub analyze_system-conflicts :
      (system other : GoType) (r r' s s' : ComponentRegistry) (m n : SystemMeta) (i j : ℕ)
      (f g : FieldMeta) (t : GoType)
      → analyze_system types system r ≡ analyzed m r'
      → analyze_system types other s ≡ analyzed n s'
      → get_elem? m.fields i ≡ some f
      → get_elem? n.fields j ≡ some g
      → Accesses t f
      → Accesses t g
      → f.mutable ≡ true
      → (conflicts m.access n.access ≡ true) × (conflicts n.access m.access ≡ true)
  analyze_system-conflicts system other r r' s s' m n i j f g t p q k l a b w =
      let x = rw p at (analyze_system-AnalyzedAccess system r) in
      let y = rw q at (analyze_system-AnalyzedAccess other s) in
      let touched =
        Tracked-touches n.access g t (All-get_elem? (Tracked types n.access) n.fields j g l y.0)
          b in
      let wrote =
        Tracked-writes m.access f t (All-get_elem? (Tracked types m.access) m.fields i f k x.0) a
          w in
      let hit = (conflicts_iff m.access n.access y.1).1 (inl (clash touched wrote)) in
      (hit, conflicts_comm n.access m.access y.1 x.1 ∙ hit)
    where
      clash :
          (contains n.access.reads (types.id_of t) ≡ true)
            ⊎ (contains n.access.writes (types.id_of t) ≡ true)
          → contains m.access.writes (types.id_of t) ≡ true
          → Clash m.access.reads m.access.writes n.access.reads n.access.writes
      clash (inl e) h = inl (types.id_of t, h, e)
      clash (inr e) h = inr (inl (types.id_of t, h, e))
