-- ===== src/Tasks/Repeats.antt =====
-- task.go: how often a repeating task runs.
use pecs.Prelude.{ℕ, zero, suc, ◌≤◌, ◌<◌, ◌≡◌, false, Option, none, some, if◌then◌else◌, ltb, count}
use pecs.TaskQueue.Heap.{IsQueue}
use pecs.Registry.{write}
use pecs.Tasks.{ℤ, pos, repeating, Runtime}
use pecs.Tasks.Scheduling.{is_unfit}
use pecs.Tasks.Execution.{TaskHost, Ran, returned, panicked, run_work}
use pecs.Tasks.Enqueued.{Enqueued}

-- A user's task that returns and leaves the scheduler alone, and does `f` to the user's state.
abbrev pub Does : TaskHost → ℕ → (ℕ → ℕ) → Type 0
Does host task f = (rt : Runtime) → host.run task rt ≡ returned (record rt { user = f rt.user })

abbrev pub iterate : ℕ → (ℕ → ℕ) → ℕ → ℕ
iterate zero f x = x
iterate (suc n) f x = iterate n f (f x)

-- A wrapper with runs left, whose session is there, on a queue in order.
pub record Ready (w u task : ℕ) (left : ℤ) (rt : Runtime) : Type 0 where
  pub runs : (rt.wrappers w).task ≡ task
  pub remaining : (rt.wrappers w).remaining ≡ left
  pub active : (rt.wrappers w).handle_cancelled ≡ false
  pub session : (rt.wrappers w).session ≡ some u
  pub fit : is_unfit rt u ≡ false
  pub queue : IsQueue rt.queue
  pub fresh : (a : ℕ) → rt.next ≤ a → count a rt.queue.heap ≡ 0

-- The job at an address is run, and then the one that it enqueues, `fuel` jobs at most.
abbrev pub run_jobs : TaskHost → ℕ → ℕ → Runtime → Option Runtime
run_jobs host zero task rt = none
run_jobs host (suc fuel) task rt = elim (run_work host (rt.jobs task).work rt) [
  | panicked rt' ↦ none
  | returned rt' ↦ if ltb rt.next rt'.next then run_jobs host fuel rt.next rt' else some rt'
]

module _ (host : TaskHost) (w : ℕ) (f : ℕ → ℕ) where
  -- A run that is not the last: it enqueues the wrapper.
  Again : ℕ → ℕ → ℤ → ℕ → Runtime → Ran → Type 0
  Again u task left user rt ran =
      (rt' : Runtime) × (ran ≡ returned rt')
      × Ready w u task left rt'
      × (rt.next < rt'.next)
      × ((rt'.jobs rt.next).work ≡ repeating w)
      × (rt'.user ≡ user)

  counted_down : ℤ → Runtime → Runtime
  counted_down left rt = record rt {
    wrappers = write rt.wrappers w (record (rt.wrappers w) { remaining = left });
  }

  worked : Runtime → Runtime
  worked rt = record rt { user = f rt.user }

  -- The runs of the wrapper did `g` to the user's state, and it has none left.
  abbrev pub IsOver : (ℕ → ℕ) → ℕ → Runtime → Type 0
  IsOver g user rt = (rt.user ≡ g user) × ((rt.wrappers w).remaining ≡ pos 0)

  -- What follows a run of the job at an address.
  after_job : (fuel : ℕ) → Runtime → Ran → Option Runtime
  after_job fuel rt ran = elim ran [
    | panicked rt' ↦ none
    | returned rt' ↦ if ltb rt.next rt'.next then run_jobs host fuel rt.next rt' else some rt'
  ]
