-- ===== src/Scheduler/Tests.antt =====
-- scheduler.go: the loops of a small scheduler.
use mathlib.Core.List.Perm
use pecs.Prelude.{
  ℕ, ◌≤◌, ◌<◌, ◌≡◌, refl, ◌↔◌, ◌⊎◌, Bool, true, false, none, some, List, [], ◌∷◌, All, ◌==◌, ◌≢◌,
  arith,
}
use pecs.Prelude.Partial.{Yields}
use pecs.Access.{AccessMeta, conflicts}
use pecs.Session.{Session}
use pecs.Bitmask.{no_bits}
use pecs.Scheduler.Ticks.{process_world_batches, run_global_loops}
use pecs.Scheduler.Worlds.{Sound, process_world_batches-Sound, run_global_loops-first}
use pecs.Scheduler.{
  LoopState, Scheduler, default, should_run, mark_run, fill_batches, fill_batch, conflicts_with,
  rebuild_batches,
}
use pecs.Scheduler.Timing.{should_run_iff, mark_run_plans}
use pecs.Scheduler.Batches.{Rebuilt, rebuild_batches_lem}

abbrev access_of : List ℕ → List ℕ → AccessMeta
access_of r w = record {
  reads = r;
  writes = w;
  res_reads = [];
  res_writes = [];
  reads_set = none;
  writes_set = none;
  res_reads_set = none;
  res_writes_set = none;
}

abbrev loop_of : ℕ → List ℕ → List ℕ → LoopState
loop_of name r w = record {
  name = name ∷ [];
  access = access_of r w;
  is_global = false;
  interval = 50;
  last_run = 0;
  next_run = 100;
}

-- The first two both write component 7; the third only reads component 8.
abbrev a_loop : LoopState
a_loop = loop_of 97 [] (7 ∷ [])

abbrev b_loop : LoopState
b_loop = loop_of 98 [] (7 ∷ [])

abbrev c_loop : LoopState
c_loop = loop_of 99 (8 ∷ []) []

fill_batches_runs :
    fill_batches 3 (a_loop ∷ b_loop ∷ c_loop ∷ [])
    ≡ some ((a_loop ∷ c_loop ∷ []) ∷ (b_loop ∷ []) ∷ [])
unfolding fill_batches fill_batch conflicts_with conflicts
fill_batches_runs = refl

abbrev small : Scheduler
small = record {
  loops = λ stage. a_loop ∷ b_loop ∷ c_loop ∷ [];
  batches = λ stage. [];
  global_loops = λ stage. [];
  global_batches = λ stage. [];
}

-- A sort for three loops that are sorted already.
abbrev same_order : (LoopState → LoopState → Bool) → List LoopState → List LoopState
same_order less l = l

rebuild_batches_lem_example :
    Yields (Rebuilt small default false) (rebuild_batches same_order small default false)
rebuild_batches_lem_example =
    rebuild_batches_lem same_order (λ less l. Perm.rfl) small default false

should_run_iff_example : (should_run a_loop 120 ≡ true) ↔ ((a_loop.interval ≡ 0) ⊎ (100 ≤ 120))
should_run_iff_example = should_run_iff a_loop 120

mark_run_plans_example :
    (120 ≤ (mark_run a_loop 120).next_run)
    × ((mark_run a_loop 120).next_run ≤ 170)
    × (120 ≤ 150 → (mark_run a_loop 120).next_run ≡ 150)
    × (150 < 120 → (mark_run a_loop 120).next_run ≡ 170)
    × ((mark_run a_loop 120).last_run ≡ 120)
    × ((mark_run a_loop 120).interval ≡ 50)
unfolding should_run
mark_run_plans_example = mark_run_plans a_loop 120 (omega arith) refl

-- Two open sessions, of which the second has no player in the transaction.
abbrev two_open : ℕ → Session
two_open u = record {
  mask = no_bits;
  components = λ id. none;
  expirations = [];
  closed = false;
  pending_tasks = [];
  provider_subs = [];
}

process_world_batches-Sound_example :
    All
      (Sound two_open (λ u. u == 1) 120)
      (process_world_batches two_open
        (λ u. u == 1)
        120
        5
        (1 ∷ 2 ∷ [])
        ((a_loop ∷ c_loop ∷ []) ∷ (b_loop ∷ []) ∷ [])).0
unfolding conflicts
process_world_batches-Sound_example =
    process_world_batches-Sound two_open (λ u. u == 1) 120 5 (1 ∷ 2 ∷ [])
      ((a_loop ∷ c_loop ∷ []) ∷ (b_loop ∷ []) ∷ []) (((refl, tt), (tt, tt)), ((tt, tt), tt))

-- Both loops are due at 120, one interval after which lies 150.
run_global_loops-first_example :
    All
      (λ g. g.world ≡ 5)
      (run_global_loops 120 (5 ∷ 6 ∷ []) (λ stage. (a_loop ∷ c_loop ∷ []) ∷ [])).0
run_global_loops-first_example =
    run_global_loops-first 120 5 (6 ∷ []) (λ stage. (a_loop ∷ c_loop ∷ []) ∷ [])
      (λ stage. (((omega arith, off), ((omega arith, off), tt)), tt))
  where
    off : ◌≢◌ {A = ℕ} 150 120
    off e = omega arith
