-- ===== src/Tasks/Executed.antt =====
-- scheduler.go: which tasks executeTasksForStage runs, and in which worlds.
use pecs.Prelude.{ℕ, ◌≡◌, Bool, false, ◌||◌, List, [], ◌∷◌, ◌++◌, ◌==◌, if◌then◌else◌}
use pecs.Tasks.{Runtime}
use pecs.Tasks.Execution.{TaskHost, execute_task}

-- The tasks of a world among runs, which are a world and a task each.
abbrev pub tasks_in : ℕ → List (ℕ × ℕ) → List ℕ
tasks_in w [] = []
tasks_in w ((v, t) ∷ runs) = if v == w then t ∷ tasks_in w runs else tasks_in w runs

abbrev pub runs_at : ℕ → List ℕ → List (ℕ × ℕ)
runs_at w [] = []
runs_at w (t ∷ tasks) = (w, t) ∷ runs_at w tasks

abbrev pub all_runs : List (ℕ × List ℕ) → List (ℕ × ℕ)
all_runs [] = []
all_runs ((w, tasks) ∷ groups) = runs_at w tasks ++ all_runs groups

abbrev pub has_group : ℕ → List (ℕ × List ℕ) → Bool
has_group w [] = false
has_group w ((v, tasks) ∷ groups) = v == w || has_group w groups

-- No two groups are of one world.
abbrev pub AreDistinct : List (ℕ × List ℕ) → Type 0
AreDistinct [] = Unit
AreDistinct ((w, tasks) ∷ groups) = (has_group w groups ≡ false) × AreDistinct groups

module _ (host : TaskHost) where
  -- The runs one after the other, those of tasks that are cancelled by then left out.
  abbrev pub run_each : List (ℕ × ℕ) → Runtime → Runtime
  run_each [] rt = rt
  run_each ((w, t) ∷ runs) rt =
      run_each runs (if (rt.queue.tasks t).cancelled then rt else execute_task host w t rt)

  -- The job of the global tasks, if there are any.
  abbrev pub job_at : ℕ → List ℕ → List (ℕ × List ℕ)
  job_at d [] = []
  job_at d (t ∷ tasks) = (d, t ∷ tasks) ∷ []
