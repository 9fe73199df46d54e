-- ===== src/Scheduler/Worlds.antt =====
-- scheduler.go: which loops run in which world of a tick.
use pecs.Prelude.{
  ℕ, ◌+◌, ◌<◌, ◌≡◌, ◌≢◌, refl, Bool, true, false, not, ◌&&◌, List, [], ◌∷◌, ◌==◌, keep_if, length,
  All, All-append, arith, inl, inr, Bool-cases,
}
use pecs.Session.{Session}
use pecs.Scheduler.{LoopState, Stage, before, default, after, update, should_run, mark_run}
use pecs.Scheduler.Batches.{IsIndependent}
use pecs.Scheduler.Ticks.{
  Group, runnable_loops, mark_runnable, process_global_world_batches, process_world_batches,
  valid_sessions, run_global_stages, run_global_loops,
}

keep_if-All {ℓ κ} :
    {A : Type ℓ} (P : A → Type κ) (p : A → Bool) (xs : List A) → All P xs → All P (keep_if p xs)
keep_if-All P p [] v = tt
keep_if-All P p (x ∷ xs) v = elim (Bool-cases (p x)) [
  | inl e ↦ rw (keep_if, e) (v.0, keep_if-All P p xs v.1)
  | inr e ↦ rw (keep_if, e) (keep_if-All P p xs v.1)
]

keep_if-passed {ℓ} :
    {A : Type ℓ} (p : A → Bool) (xs : List A) → All (λ x. p x ≡ true) (keep_if p xs)
keep_if-passed p [] = tt
keep_if-passed p (x ∷ xs) = elim (Bool-cases (p x)) [
  | inl e ↦ rw (keep_if, e) (e, keep_if-passed p xs)
  | inr e ↦ rw (keep_if, e) (keep_if-passed p xs)
]

runnable-IsIndependent :
    (p : LoopState → Bool) (batch : List LoopState)
    → IsIndependent batch
    → IsIndependent (keep_if p batch)
runnable-IsIndependent p [] v = tt
runnable-IsIndependent p (l ∷ batch) v = elim (Bool-cases (p l)) [
  | inl e ↦ rw (keep_if, e) (keep_if-All _ p batch v.0, runnable-IsIndependent p batch v.1)
  | inr e ↦ rw (keep_if, e) (runnable-IsIndependent p batch v.1)
]

-- A group of loops that are all due, without conflicts, for sessions that are all valid.
abbrev pub Sound : (ℕ → Session) → (ℕ → Bool) → ℕ → Group → Type 0
Sound s in_tx now g =
    All (λ l. should_run l now ≡ true) g.loops
    × IsIndependent g.loops
    × All (λ u. (not (s u).closed && in_tx u) ≡ true) g.sessions
    × (0 < length g.loops)
    × (0 < length g.sessions)

-- The loops that processWorldBatches starts at once are due and do not conflict, and the sessions
-- are open and present, where the batches have no conflicts.
pub process_world_batches-Sound :
    (s : ℕ → Session) (in_tx : ℕ → Bool) (now w : ℕ) (sessions : List ℕ)
    (batches : List (List LoopState))
    → All IsIndependent batches
    → All (Sound s in_tx now) (process_world_batches s in_tx now w sessions batches).0
unfolding process_world_batches
process_world_batches-Sound s in_tx now w sessions [] v = tt
process_world_batches-Sound s in_tx now w sessions (batch ∷ batches) v =
    let rest = process_world_batches-Sound s in_tx now w sessions batches v.1 in
    elim (Bool-cases (length (runnable_loops now batch) == 0)) [
      | inl e ↦ rw (process_world_batches, e) rest
      | inr e ↦ elim (Bool-cases (length (valid_sessions s in_tx sessions) == 0)) [
        | inl f ↦ rw (process_world_batches, e, f) rest
        | inr f ↦
            rw (process_world_batches, e, f)
              (
                (
                  keep_if-passed (λ l. should_run l now) batch,
                  runnable-IsIndependent _ batch v.0,
                  keep_if-passed (λ u. not (s u).closed && in_tx u) sessions,
                  ground arith,
                  ground arith,
                ),
                rest,
              )
      ]
    ]

-- A loop with an interval whose plan, one interval later, does not fall on `now`.
abbrev pub Paced : ℕ → LoopState → Type 0
Paced now l = (0 < l.interval) × (l.next_run + l.interval ≢ now)

-- None of the loops is due.
abbrev pub Idle : ℕ → List (List LoopState) → Type 0
Idle now batches = All (All (λ l. should_run l now ≡ false)) batches

mark_runnable-Idle :
    (now : ℕ) (batch : List LoopState)
    → All (Paced now) batch
    → All (λ l. should_run l now ≡ false) (mark_runnable now batch)
unfolding should_run mark_run
mark_runnable-Idle now [] v = tt
mark_runnable-Idle now (l ∷ batch) v =
    let pos = v.0.0 in let off = v.0.1 in (ground arith, mark_runnable-Idle now batch v.1)

none_runnable :
    (now : ℕ) (batch : List LoopState)
    → (length (runnable_loops now batch) == 0) ≡ true
    → All (λ l. should_run l now ≡ false) batch
none_runnable now [] e = tt
none_runnable now (l ∷ batch) e = elim (Bool-cases (should_run l now)) [
  | inl due ↦ absurd (ground arith)
  | inr early ↦ (early, none_runnable now batch (ground arith))
]

idle_runnable :
    (now : ℕ) (batch : List LoopState)
    → All (λ l. should_run l now ≡ false) batch
    → (length (runnable_loops now batch) == 0) ≡ true
idle_runnable now [] v = refl
idle_runnable now (l ∷ batch) v = rw (keep_if, v.0) (idle_runnable now batch v.1)

global-Idle :
    (now w : ℕ) (batches : List (List LoopState))
    → All (All (Paced now)) batches
    → Idle now (process_global_world_batches now w batches).1
unfolding process_global_world_batches
global-Idle now w [] v = tt
global-Idle now w (batch ∷ batches) v =
    let rest = global-Idle now w batches v.1 in
    elim (Bool-cases (length (runnable_loops now batch) == 0)) [
      | inl e ↦ rw (process_global_world_batches, e) (none_runnable now batch e, rest)
      | inr e ↦ rw (process_global_world_batches, e) (mark_runnable-Idle now batch v.0, rest)
    ]

nothing_due :
    (now w : ℕ) (batches : List (List LoopState))
    → Idle now batches
    → process_global_world_batches now w batches ≡ ([], batches)
unfolding process_global_world_batches
nothing_due now w [] v = refl
nothing_due now w (batch ∷ batches) v =
    rw (process_global_world_batches, idle_runnable now batch v.0, nothing_due now w batches v.1)
      refl

global-world :
    (now w : ℕ) (batches : List (List LoopState))
    → All (λ g. g.world ≡ w) (process_global_world_batches now w batches).0
unfolding process_global_world_batches
global-world now w [] = tt
global-world now w (batch ∷ batches) =
    let rest = global-world now w batches in
    elim (Bool-cases (length (runnable_loops now batch) == 0)) [
      | inl e ↦ rw (process_global_world_batches, e) rest
      | inr e ↦ rw (process_global_world_batches, e) (refl, rest)
    ]

stages-Idle :
    (now w : ℕ) (batches : Stage → List (List LoopState))
    → ((stage : Stage) → All (All (Paced now)) (batches stage))
    → (stage : Stage) → Idle now ((run_global_stages now w batches).1 stage)
unfolding run_global_stages
stages-Idle now w batches v before = global-Idle now w (batches before) (v before)
stages-Idle now w batches v default = global-Idle now w (batches default) (v default)
stages-Idle now w batches v after = global-Idle now w (batches after) (v after)

nothing_due_stages :
    (now w : ℕ) (batches : Stage → List (List LoopState))
    → ((stage : Stage) → Idle now (batches stage))
    → ((run_global_stages now w batches).0 ≡ [])
      × ((stage : Stage) → Idle now ((run_global_stages now w batches).1 stage))
unfolding run_global_stages
nothing_due_stages now w batches v =
    let at : (stage : Stage)
        → process_global_world_batches now w (batches stage) ≡ ([], batches stage) =
      λ stage. nothing_due now w (batches stage) (v stage) in
    rw (at before, at default, at after) (refl, kept)
  where
    kept :
        (stage : Stage)
        → Idle now (
            update
              (update (update batches before (batches before)) default (batches default))
              after
              (batches after)
              stage)
    kept before = v before
    kept default = v default
    kept after = v after

stages-world :
    (now w : ℕ) (batches : Stage → List (List LoopState))
    → All (λ g. g.world ≡ w) (run_global_stages now w batches).0
unfolding run_global_stages
stages-world now w batches =
    All-append _ _ _
      (All-append _ _ _ (global-world now w (batches before))
        (global-world now w (batches default)))
      (global-world now w (batches after))

nothing_due_worlds :
    (now : ℕ) (worlds : List ℕ) (batches : Stage → List (List LoopState))
    → ((stage : Stage) → Idle now (batches stage))
    → (run_global_loops now worlds batches).0 ≡ []
unfolding run_global_loops
nothing_due_worlds now [] batches v = refl
nothing_due_worlds now (w ∷ worlds) batches v =
    let one = nothing_due_stages now w batches v in
    rw (one.0, nothing_due_worlds now worlds (run_global_stages now w batches).1 one.1) refl

-- In a tick every global loop with an interval runs in the first world only, unless its plan, one
-- interval later, falls on the tick's own time.
pub run_global_loops-first :
    (now w : ℕ) (worlds : List ℕ) (batches : Stage → List (List LoopState))
    → ((stage : Stage) → All (All (Paced now)) (batches stage))
    → All (λ g. g.world ≡ w) (run_global_loops now (w ∷ worlds) batches).0
unfolding run_global_loops
run_global_loops-first now w worlds batches v =
    All-append _ (run_global_stages now w batches).0 _ (stages-world now w batches) (
      rw
        (nothing_due_worlds now worlds (run_global_stages now w batches).1
          (stages-Idle now w batches v))
        tt)
