-- ===== src/Scheduler/Ticks.antt =====
-- scheduler.go: the loops that a tick runs, world by world.
-- The loops of a batch are the objects that ShouldRun and MarkRun share, so a world is given the
-- batches as the world before it left them. The jobs of the worlds of a stage run one after the
-- other, as they do when the worker pool is full. What a loop does, and a panic that is recovered,
-- leaves no trace here: a group records that its loops were started.
use pecs.Prelude.{
  ℕ, Bool, not, ◌&&◌, Option, none, some, List, [], ◌∷◌, ◌++◌, ◌==◌, if◌then◌else◌, keep_if, length,
}
use pecs.Session.{Session, Filter, can_run_unsafe}
use pecs.Scheduler.{LoopState, Stage, before, default, after, update, should_run, mark_run}

-- Loops that run at once in a transaction of a world, over the sessions that are valid there.
pub record Group : Type 0 where
  pub world : ℕ
  pub loops : List LoopState
  pub sessions : List ℕ

abbrev pub runnable_loops : ℕ → List LoopState → List LoopState
runnable_loops now batch = keep_if (λ l. should_run l now) batch

-- The batch once its runnable loops are marked.
abbrev pub mark_runnable : ℕ → List LoopState → List LoopState
mark_runnable now [] = []
mark_runnable now (l ∷ batch) =
    (if should_run l now then mark_run l now else l) ∷ mark_runnable now batch

unfoldable pub process_global_world_batches :
    ℕ → ℕ → List (List LoopState) → List Group × List (List LoopState)
process_global_world_batches now w [] = ([], [])
process_global_world_batches now w (batch ∷ batches) =
    let (groups, rest) = process_global_world_batches now w batches in
    let runnable = runnable_loops now batch in
    if length runnable == 0 then (groups, batch ∷ rest) else (
      record { world = w; loops = runnable; sessions = [] } ∷ groups,
      mark_runnable now batch ∷ rest,
    )

-- The sessions that a transaction takes: not closed, and with a player in it.
abbrev pub valid_sessions : (ℕ → Session) → (ℕ → Bool) → List ℕ → List ℕ
valid_sessions s in_tx sessions = keep_if (λ u. not (s u).closed && in_tx u) sessions

unfoldable pub process_world_batches :
    (ℕ → Session)
    → (ℕ → Bool)
    → ℕ
    → ℕ
    → List ℕ
    → List (List LoopState)
    → List Group × List (List LoopState)
process_world_batches s in_tx now w sessions [] = ([], [])
process_world_batches s in_tx now w sessions (batch ∷ batches) =
    let (groups, rest) = process_world_batches s in_tx now w sessions batches in
    let runnable = runnable_loops now batch in
    let valid = valid_sessions s in_tx sessions in
    if length runnable == 0 then (groups, batch ∷ rest) else (
      if length valid == 0
          then groups
          else record { world = w; loops = runnable; sessions = valid } ∷ groups,
      mark_runnable now batch ∷ rest,
    )

-- executeLoopForSessions: the sessions for which the loop is run, where `inject` says whether
-- injectSystem succeeds.
unfoldable pub execute_loop_for_sessions :
    (ℕ → Session) → (LoopState → Filter) → (LoopState → ℕ → Bool) → LoopState → List ℕ → List ℕ
execute_loop_for_sessions s meta inject loop [] = []
execute_loop_for_sessions s meta inject loop (u ∷ sessions) =
    let rest = execute_loop_for_sessions s meta inject loop sessions in
    if not (can_run_unsafe (s u) (meta loop))
    then rest
    else if not (inject loop u)
    then rest
    else u ∷ rest

-- One world of runGlobalLoops: its stages in order.
unfoldable pub run_global_stages :
    ℕ → ℕ → (Stage → List (List LoopState)) → List Group × (Stage → List (List LoopState))
run_global_stages now w batches =
    let (first, b1) = process_global_world_batches now w (batches before) in
    let (second, b2) = process_global_world_batches now w (batches default) in
    let (third, b3) = process_global_world_batches now w (batches after) in
    (first ++ second ++ third, update (update (update batches before b1) default b2) after b3)

unfoldable pub run_global_loops :
    ℕ → List ℕ → (Stage → List (List LoopState)) → List Group × (Stage → List (List LoopState))
unfolding run_global_stages
run_global_loops now [] batches = ([], batches)
run_global_loops now (w ∷ worlds) batches =
    let (groups, left) = run_global_stages now w batches in
    let (more, rest) = run_global_loops now worlds left in (groups ++ more, rest)

-- runLoopsForStage over the worlds with their sessions; nil is `none`. `in_tx w u` says whether the
-- player of u is in the transaction of w.
unfoldable pub run_loops_for_stage :
    (ℕ → Session)
    → (ℕ → ℕ → Bool)
    → ℕ
    → List (Option ℕ × List ℕ)
    → List (List LoopState)
    → List Group × List (List LoopState)
run_loops_for_stage s in_tx now [] batches = ([], batches)
run_loops_for_stage s in_tx now ((none, sessions) ∷ worlds) batches =
    run_loops_for_stage s in_tx now worlds batches
run_loops_for_stage s in_tx now ((some w, []) ∷ worlds) batches =
    run_loops_for_stage s in_tx now worlds batches
run_loops_for_stage s in_tx now ((some w, u ∷ us) ∷ worlds) batches =
    let (groups, left) = process_world_batches s (in_tx w) now w (u ∷ us) batches in
    let (more, rest) = run_loops_for_stage s in_tx now worlds left in (groups ++ more, rest)
