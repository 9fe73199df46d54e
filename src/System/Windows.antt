-- ===== src/System/Windows.antt =====
-- meta.go: the fields and the windows that analyzeSystem finds, by the fields of the struct.
use pecs.Prelude.{◌≡◌, refl, ap, List, arith, either_branch, ltb, length, map}
use pecs.Registry.{ComponentRegistry}
use pecs.System.{GoType, StructField, Reflection}
use pecs.System.Walk.{Step, goes_on, panics, pointer_elem, is_struct, update_last}
use pecs.System.Analyze.{
  Analysis, analyzed, not_a_struct, panicked, start_walk, finish, analyze_system,
}
use pecs.System.Extended.{length-update_last}
use pecs.System.Walked.{sessions_in, windows_of, WalkedTo, walk_fields-WalkedTo}

module _ (types : Reflection) where
  -- What an analysis finds of a struct with the fields.
  abbrev pub AnalyzedWindows : List StructField → Analysis → Type 0
  AnalyzedWindows fs (analyzed meta r) =
      (map (λ f. f.offset) meta.fields ≡ map (λ f. f.offset) fs)
      × (map (λ f. f.window_index) meta.fields ≡ windows_of 0 fs)
      × (length meta.windows ≡ sessions_in fs)
      × (meta.is_multi_session ≡ ltb 1 (sessions_in fs))
  AnalyzedWindows fs not_a_struct = Unit
  AnalyzedWindows fs (panicked r) = Unit

  finish-AnalyzedWindows :
      (fs : List StructField) (r : ComponentRegistry) (s : Step)
      → WalkedTo types fs (start_walk r) s
      → AnalyzedWindows fs (finish s)
  unfolding finish
  finish-AnalyzedWindows fs r (goes_on w) v =
      let closed =
        length-update_last types (λ v. record v { end_field_index = length w.fields }) w.windows in
      let count : length
            (update_last (λ v. record v { end_field_index = length w.fields }) w.windows)
          ≡ sessions_in fs =
        omega (arith, closed, v.windowed) in
      (v.placed, v.in_windows, count, ap (ltb 1) count)
  finish-AnalyzedWindows fs r (panics g) v = tt

  -- An analyzed system has one field of meta data for each field of its struct, in order and at its
  -- offset, and one window for each field of type *Session; each field is in the window of the last
  -- such field up to it, or in the first; and the system is multi-session exactly if there are two.
  pub analyze_system-AnalyzedWindows :
      (system : GoType) (r : ComponentRegistry)
      → AnalyzedWindows (types.fields_of (pointer_elem system)) (analyze_system types system r)
  unfolding analyze_system
  analyze_system-AnalyzedWindows system r =
      let fs = types.fields_of (pointer_elem system) in
      either_branch (AnalyzedWindows fs) (is_struct (pointer_elem system))
        (finish-AnalyzedWindows fs r _ (
          walk_fields-WalkedTo types fs (start_walk r) (record { counted = refl; indexed = refl })))
        tt
