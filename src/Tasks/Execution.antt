-- ===== src/Tasks/Execution.antt =====
-- scheduler.go and task.go: due tasks grouped by stage and world and run, and what a repeating task does.
use pecs.Prelude.{
  ℕ, zero, suc, ◌+◌, Bool, true, false, not, ◌&&◌, Option, none, some, List, [], ◌∷◌, ◌++◌, ◌==◌,
  if◌then◌else◌, keep_if,
}
use pecs.TaskQueue.{pop_due}
use pecs.Bitmask.{contains_all, contains_any}
use pecs.Registry.{write}
use pecs.Session.{Session, can_run_unsafe}
use pecs.Relation.{is_closed}
use pecs.Scheduler.{Stage, before, default, after}
use pecs.System.{WindowMeta, SystemMeta}
use pecs.Tasks.{ℤ, pos, Work, inner, repeating, Job, Runtime, remove_from_sessions, enqueue}
use pecs.Tasks.Scheduling.{is_unfit}

-- What the scheduler calls: the world of a session, whether its player is in the transaction of a
-- world, injectSystem on a task, a user's Run, time.Now, and the
-- order in which the jobs of a stage are done, each of which is a world's transaction. A panic in Run is recovered, and what is
-- done then is `recovered`.
pub data Ran : Type 0 where
  returned panicked : Runtime → Ran

pub record TaskHost : Type 0 where
  pub world_of : Runtime → ℕ → Option ℕ
  pub in_tx : ℕ → Runtime → ℕ → Bool
  pub inject : Runtime → ℕ → Bool
  pub run : ℕ → Runtime → Ran
  pub clock : Runtime → ℕ
  pub recovered : Runtime → Runtime
  pub job_order : List (ℕ × List ℕ) → List (ℕ × List ℕ)

abbrev pub is_stage : Stage → Stage → Bool
is_stage before before = true
is_stage default default = true
is_stage after after = true
is_stage _ _ = false

-- Where executeTasksForStage puts a task.
pub data Place : Type 0 where
  skipped global : Place
  in_world : ℕ → Place

abbrev pub to_place : Option ℕ → Place
to_place none = skipped
to_place (some w) = in_world w

module _ (host : TaskHost) where
  -- The loop over the sessions of a task, with the world so far; a session that is closed or in
  -- another world makes it skipped.
  unfoldable pub place_sessions : Runtime → Option ℕ → List ℕ → Place
  place_sessions rt world [] = to_place world
  place_sessions rt none (u ∷ us) =
      let rest = place_sessions rt (host.world_of rt u) us in
      if is_closed rt.states u then skipped else rest
  place_sessions rt (some w) (u ∷ us) =
      let rest = place_sessions rt (some w) us in
      if is_closed rt.states u
      then skipped
      else elim (host.world_of rt u) [ none ↦ skipped | some v ↦ if v == w then rest else skipped ]

  abbrev pub place_job : Runtime → List ℕ → Place
  place_job rt [] = global
  place_job rt (u ∷ us) = place_sessions rt none (u ∷ us)

  unfoldable pub place_task : Runtime → ℕ → Place
  unfolding place_sessions
  place_task rt task =
      if (rt.queue.tasks task).cancelled then skipped else place_job rt (rt.jobs task).sessions

  -- The task added to the group of its world, which is last if it is new.
  unfoldable pub add_to_group : ℕ → ℕ → List (ℕ × List ℕ) → List (ℕ × List ℕ)
  add_to_group w task [] = (w, task ∷ []) ∷ []
  add_to_group w task ((v, tasks) ∷ groups) =
      let rest = add_to_group w task groups in
      if v == w then (v, tasks ++ task ∷ []) ∷ groups else (v, tasks) ∷ rest

  abbrev pub add_placed : Place → ℕ → List (ℕ × List ℕ) × List ℕ → List (ℕ × List ℕ) × List ℕ
  add_placed skipped task (groups, globals) = (groups, globals)
  add_placed global task (groups, globals) = (groups, globals ++ task ∷ [])
  add_placed (in_world w) task (groups, globals) = (add_to_group w task groups, globals)

  unfoldable pub group_tasks :
      Runtime → List ℕ → List (ℕ × List ℕ) × List ℕ → List (ℕ × List ℕ) × List ℕ
  unfolding place_task add_to_group
  group_tasks rt [] grouped = grouped
  group_tasks rt (task ∷ tasks) grouped =
      group_tasks rt tasks (add_placed (place_task rt task) task grouped)

  -- `!ContainsAll || ContainsAny` of one window.
  abbrev pub passes_window : Session → WindowMeta → Bool
  passes_window s window =
      contains_all s.mask window.require_mask && not (contains_any s.mask window.exclude_mask)

  -- Each session against its window, as far as there are both.
  unfoldable pub passes_windows : Runtime → List ℕ → List WindowMeta → Bool
  passes_windows rt [] windows = true
  passes_windows rt (u ∷ us) [] = true
  passes_windows rt (u ∷ us) (window ∷ windows) =
      passes_window (rt.states u).session window && passes_windows rt us windows

  abbrev pub passes_first : Runtime → SystemMeta → List ℕ → Bool
  passes_first rt meta [] = true
  passes_first rt meta (u ∷ us) =
      can_run_unsafe (rt.states u).session
        (record { require_mask = meta.require_mask; exclude_mask = meta.exclude_mask })

  unfoldable pub passes_masks : Runtime → Job → Bool
  unfolding passes_windows
  passes_masks rt job =
      if job.meta.system.is_multi_session
      then passes_windows rt job.sessions job.meta.system.windows
      else passes_first rt job.meta.system job.sessions

  unfoldable pub all_in_tx : ℕ → Runtime → List ℕ → Bool
  all_in_tx w rt [] = true
  all_in_tx w rt (u ∷ us) = host.in_tx w rt u && all_in_tx w rt us

  abbrev pub count_down : ℤ → ℤ
  count_down (pos (suc n)) = pos n
  count_down n = n

  abbrev pub is_done : ℤ → Bool
  is_done (pos zero) = true
  is_done _ = false

  abbrev pub or_panics : Runtime → Option Runtime → Ran
  or_panics rt none = panicked rt
  or_panics rt (some rt') = returned rt'

  -- The wrapper enqueued again, if its session is still there.
  unfoldable pub reschedule : ℕ → Option ℕ → Runtime → Ran
  unfolding enqueue
  reschedule w none rt = returned rt
  reschedule w (some u) rt =
      if is_unfit rt u
      then returned rt
      else or_panics rt (
          enqueue (host.clock rt + (rt.wrappers w).interval)
            (record {
              sessions = u ∷ [];
              work = repeating w;
              meta = (rt.wrappers w).meta;
              bundle = (rt.wrappers w).bundle;
            })
            rt)

  -- What the wrapper does after the inner task.
  unfoldable pub after_inner : ℕ → Ran → Ran
  unfolding reschedule
  after_inner w (panicked rt) = panicked rt
  after_inner w (returned rt) =
      let left = count_down (rt.wrappers w).remaining in
      let counted : Runtime = record rt {
        wrappers = write rt.wrappers w (record (rt.wrappers w) { remaining = left });
      } in
      if (rt.wrappers w).handle_cancelled
      then returned rt
      else if is_done left
      then returned counted
      else reschedule w (rt.wrappers w).session counted

  unfoldable pub run_wrapper : ℕ → Runtime → Ran
  unfolding after_inner
  run_wrapper w rt =
      if (rt.wrappers w).handle_cancelled
      then returned rt
      else after_inner w (host.run (rt.wrappers w).task rt)

  abbrev pub run_work : Work → Runtime → Ran
  run_work (inner task) rt = host.run task rt
  run_work (repeating w) rt = run_wrapper w rt

  abbrev pub after_run : Ran → Runtime
  after_run (returned rt) = rt
  after_run (panicked rt) = host.recovered rt

  unfoldable pub execute_task : ℕ → ℕ → Runtime → Runtime
  unfolding all_in_tx passes_masks run_wrapper remove_from_sessions
  execute_task w task rt =
      let job = rt.jobs task in
      let ran = after_run (run_work job.work rt) in
      if not (all_in_tx w rt job.sessions)
      then rt
      else if not (passes_masks rt job)
      then rt
      else if not (host.inject rt task)
      then rt
      else record ran { states = remove_from_sessions job.sessions task ran.states }

  unfoldable pub execute_tasks_for_world : ℕ → List ℕ → Runtime → Runtime
  unfolding execute_task
  execute_tasks_for_world w [] rt = rt
  execute_tasks_for_world w (task ∷ tasks) rt =
      execute_tasks_for_world w tasks
        (if (rt.queue.tasks task).cancelled then rt else execute_task w task rt)

  unfoldable pub execute_groups : List (ℕ × List ℕ) → Runtime → Runtime
  unfolding execute_tasks_for_world
  execute_groups [] rt = rt
  execute_groups ((w, tasks) ∷ groups) rt =
      execute_groups groups (execute_tasks_for_world w tasks rt)

  -- The job of the global tasks, in the first of the scheduler's worlds.
  abbrev pub global_job : List ℕ → List ℕ → List (ℕ × List ℕ)
  global_job [] tasks = []
  global_job (w ∷ worlds) [] = []
  global_job (w ∷ worlds) (t ∷ tasks) = (w, t ∷ tasks) ∷ []

  unfoldable pub execute_tasks_for_stage : List ℕ → List ℕ → Runtime → Runtime
  unfolding group_tasks execute_groups
  execute_tasks_for_stage worlds tasks rt =
      let grouped = group_tasks rt tasks ([], []) in
      execute_groups (host.job_order (grouped.0 ++ global_job worlds grouped.1)) rt

  abbrev pub tasks_of_stage : Stage → Runtime → List ℕ → List ℕ
  tasks_of_stage stage rt tasks = keep_if (λ task. is_stage (rt.jobs task).meta.stage stage) tasks

  -- The stages in order; `none` is a panic of PopDue.
  unfoldable pub process_tasks : List ℕ → ℕ → Runtime → Option Runtime
  unfolding execute_tasks_for_stage pop_due
  process_tasks worlds now rt = elim (pop_due rt.queue now) [
    | none ↦ none
    | some (due, queue) ↦
        let popped : Runtime = record rt { queue = queue } in
        let first = execute_tasks_for_stage worlds (tasks_of_stage before popped due) popped in
        let second = execute_tasks_for_stage worlds (tasks_of_stage default popped due) first in
        some (execute_tasks_for_stage worlds (tasks_of_stage after popped due) second)
  ]
