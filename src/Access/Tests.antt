-- ===== src/Access/Tests.antt =====
-- meta.go: the conflict test at concrete systems.
use pecs.Prelude.{◌≡◌, refl, ◌↔◌, ◌⊎◌, true, none, [], ◌∷◌}
use pecs.Access.{AccessMeta, prepare_sets, conflicts, is_in}
use pecs.Access.Laws.{IsAccess, Clash, prepare_sets-IsAccess, conflicts_iff, conflicts_comm}

-- Reads components 1 and 2, writes component 3.
abbrev mover : AccessMeta
mover = record {
  reads = 1 ∷ 2 ∷ [];
  writes = 3 ∷ [];
  res_reads = [];
  res_writes = [];
  reads_set = none;
  writes_set = none;
  res_reads_set = none;
  res_writes_set = none;
}

-- Reads component 3 and writes resource 9.
abbrev drawer : AccessMeta
drawer = record mover { reads = 3 ∷ []; writes = []; res_writes = 9 ∷ [] }

conflict_runs : conflicts mover (prepare_sets drawer) ≡ true
unfolding conflicts prepare_sets
conflict_runs = refl

reader_runs : conflicts drawer drawer ≡ true
unfolding conflicts
reader_runs = refl

mover-IsAccess : IsAccess mover
unfolding is_in
mover-IsAccess = record {
  reads_agree = λ a. refl;
  writes_agree = λ a. refl;
  res_reads_agree = λ a. refl;
  res_writes_agree = λ a. refl;
}

conflicts_iff_example :
    (conflicts mover (prepare_sets drawer) ≡ true)
    ↔ (Clash (1 ∷ 2 ∷ []) (3 ∷ []) (3 ∷ []) [] ⊎ Clash [] [] [] (9 ∷ []))
unfolding prepare_sets
conflicts_iff_example = conflicts_iff mover (prepare_sets drawer) (prepare_sets-IsAccess drawer)

conflicts_comm_example :
    conflicts mover (prepare_sets drawer) ≡ conflicts (prepare_sets drawer) mover
conflicts_comm_example =
    conflicts_comm mover (prepare_sets drawer) mover-IsAccess (prepare_sets-IsAccess drawer)
