-- ===== src/Tasks.antt =====
-- task.go and scheduler.go: tasks scheduled for sessions, run by the scheduler, and repeated.
-- A scheduledTask is two records at one address: what the queue reads, in TaskQueue, and its payload, a
-- Job. A session is a number, its state that of Relation's World; there is one manager. time.Now is a
-- clock. The worker pool's jobs are each one step, in an order that is not known.
pub mod Scheduling
pub mod Execution
pub mod Enqueued
pub mod Placed
pub mod Executed
pub mod Repeats
mod Tests
use pecs.Prelude.{
  ℕ, zero, suc, ◌+◌, ◌-◌, Bool, true, false, not, ◌&&◌, ◌||◌, Option, none, some, List, [], ◌∷◌,
  ◌++◌, ◌==◌, if◌then◌else◌,
}
use pecs.TaskQueue.{ScheduledTask, TaskQueue, cancel, push}
use pecs.Registry.{ComponentRegistry, write}
use pecs.Session.{Session, State}
use pecs.Session.Closing.{add_task, remove_task}
use pecs.Relation.{World}
use pecs.Scheduler.{Stage, before}
use pecs.System.{GoType, Reflection, SystemMeta}
use pecs.System.Analyze.{Analysis, analyzed, not_a_struct, panicked, analyze_system}

-- Go's int, of which only the sign and the value matter here.
pub data ℤ : Type 0 where
  pos negsuc : ℕ → ℤ

-- A Runnable: a user's task, or a repeatingTaskWrapper at an address.
pub data Work : Type 0 where
  inner repeating : ℕ → Work

-- A SystemMeta with its stage.
pub record TaskMeta : Type 0 where
  pub system : SystemMeta
  pub stage : Stage

-- scheduledTask, less what the queue reads.
pub record Job : Type 0 where
  pub sessions : List ℕ
  pub work : Work
  pub meta : TaskMeta
  pub bundle : Option ℕ

-- repeatingTaskWrapper with its RepeatingTaskHandle.
pub record Wrapper : Type 0 where
  pub task : ℕ
  pub interval : ℕ
  pub remaining : ℤ
  pub handle_cancelled : Bool
  pub session : Option ℕ
  pub meta : TaskMeta
  pub bundle : Option ℕ

-- What the operations change. `next` and `next_wrapper` are addresses not in use; `user` stands for the
-- state of the user's program, which its tasks change.
pub record Runtime : Type 0 where
  pub states : World
  pub registry : ComponentRegistry
  pub queue : TaskQueue
  pub jobs : ℕ → Job
  pub next : ℕ
  pub wrappers : ℕ → Wrapper
  pub next_wrapper : ℕ
  pub user : ℕ

-- What stays: reflection, the type of each task, which a nil task has none of, and the task types of each bundle, in order.
pub record Program : Type 0 where
  pub types : Reflection
  pub type_of : ℕ → Option GoType
  pub bundles : List (ℕ × (GoType → Option TaskMeta))

-- getTaskMeta of the manager, and the bundle that is found for a task.
unfoldable pub get_task_meta :
    List (ℕ × (GoType → Option TaskMeta)) → GoType → Option (ℕ × TaskMeta)
get_task_meta [] t = none
get_task_meta ((b, metas) ∷ bundles) t = elim (metas t) [
  | none ↦ get_task_meta bundles t
  | some m ↦ some (b, m)
]

-- The meta data for a task, with the registry after it: registered, or analyzed on the fly.
pub data Found : Type 0 where
  found : TaskMeta → Option ℕ → ComponentRegistry → Found
  missing : Found
  panics : Found

abbrev pub from_analysis : Bool → Analysis → Found
from_analysis multi (analyzed m r) =
    let meta = if multi then record m { is_multi_session = true } else m in
    found (record { system = meta; stage = before }) none r
from_analysis multi not_a_struct = missing
from_analysis multi (panicked r) = panics

-- `multi` is Schedule2, which marks the meta data that it analyzes as multi-session.
abbrev pub or_analyzed : Program → Bool → GoType → ComponentRegistry → Option (ℕ × TaskMeta) → Found
or_analyzed p multi t r (some (b, m)) = found m (some b) r
or_analyzed p multi t r none = from_analysis multi (analyze_system p.types t r)

-- The type that is nil is asked for its kind.
unfoldable pub find_meta : Program → Bool → Option GoType → ComponentRegistry → Found
unfolding get_task_meta
find_meta p multi none r = panics
find_meta p multi (some t) r = or_analyzed p multi t r (get_task_meta p.bundles t)

abbrev pub update_session : ℕ → (Session → Session) → World → World
update_session u f w v = if v == u then record (w v) { session = f (w v).session } else w v

unfoldable pub add_to_sessions : List ℕ → ℕ → World → World
add_to_sessions [] task w = w
add_to_sessions (u ∷ us) task w = add_to_sessions us task (update_session u (add_task task) w)

unfoldable pub remove_from_sessions : List ℕ → ℕ → World → World
remove_from_sessions [] task w = w
remove_from_sessions (u ∷ us) task w =
    remove_from_sessions us task (update_session u (remove_task task) w)

-- A new scheduledTask: its payload stored, the task added to its sessions and pushed. `none` is a
-- panic of Push.
unfoldable pub enqueue : ℕ → Job → Runtime → Option Runtime
unfolding add_to_sessions push
enqueue execute_at job rt =
    let task = rt.next in
    let fresh : ScheduledTask = record {
      execute_at = execute_at;
      cancelled = false;
      index = some 0;
    } in
    let queue = record rt.queue { tasks = write rt.queue.tasks task fresh } in
    elim (push queue task) [
      | none ↦ none
      | some q ↦ some (record rt {
        states = add_to_sessions job.sessions task rt.states;
        queue = q;
        jobs = write rt.jobs task job;
        next = task + 1;
      })
    ]

-- TaskHandle.Cancel; a nil handle is none.
unfoldable pub cancel_task : Option ℕ → Runtime → Runtime
cancel_task none rt = rt
cancel_task (some task) rt = record rt { queue = cancel rt.queue task }

-- RepeatingTaskHandle.Cancel
unfoldable pub cancel_repeating : Option ℕ → Runtime → Runtime
cancel_repeating none rt = rt
cancel_repeating (some w) rt = record rt {
  wrappers = write rt.wrappers w (record (rt.wrappers w) { handle_cancelled = true });
}
