-- ===== src/Tasks/Tests.antt =====
-- task.go and scheduler.go on two sessions, of which the second is in no world.
use pecs.Prelude.{
  ℕ, List, ◌+◌, ◌≡◌, refl, true, false, none, some, [], ◌∷◌, ◌==◌, if◌then◌else◌, keep_if,
}
use pecs.Bitmask.{no_bits}
use pecs.Registry.{new_component_registry}
use pecs.TaskQueue.{new_task_queue, ScheduledTask}
use pecs.Session.{State}
use pecs.Scheduler.{default}
use pecs.System.{struct_type}
use pecs.System.Tests.{kinds, no_meta}
use pecs.Tasks.{pos, inner, repeating, TaskMeta, Job, Runtime, Program}
use pecs.Tasks.Execution.{TaskHost, returned, place_task, place_sessions}
use pecs.Tasks.Placed.{is_place_in, is_global_place}
use mathlib.Core.List.{Perm}
use mathlib.Core.List.Perm

abbrev player : State
player = record {
  usable = true;
  registry = new_component_registry;
  session = record {
    mask = no_bits;
    components = λ id. none;
    expirations = [];
    closed = false;
    pending_tasks = [];
    provider_subs = [];
  };
  memory = λ a. 0;
  cancelled = λ t. false;
}

abbrev plain : TaskMeta
plain = record { system = no_meta; stage = default }

abbrev objects : ℕ → ScheduledTask
objects a = record { execute_at = 5; cancelled = false; index = none }

abbrev pair_job : Job
pair_job = record { sessions = 2 ∷ 1 ∷ []; work = inner 9; meta = plain; bundle = none }

abbrev wrapped_job : Job
wrapped_job = record { sessions = 1 ∷ []; work = repeating 0; meta = plain; bundle = none }

abbrev global_job : Job
global_job = record { sessions = []; work = inner 9; meta = plain; bundle = none }

abbrev runtime : Runtime
runtime = record {
  states = λ u. player;
  registry = new_component_registry;
  queue = new_task_queue objects;
  jobs = λ a. if a == 2 then wrapped_job else if a == 4 then global_job else pair_job;
  next = 3;
  wrappers = λ w. record {
    task = 9;
    interval = 20;
    remaining = pos 3;
    handle_cancelled = false;
    session = some 1;
    meta = plain;
    bundle = none;
  };
  next_wrapper = 1;
  user = 50;
}

abbrev program : Program
program = record {
  types = kinds;
  type_of = λ task. some (struct_type 1);
  bundles = (0, λ t. some plain) ∷ [];
}

abbrev host : TaskHost
host = record {
  world_of = λ rt u. if u == 1 then some 7 else none;
  in_tx = λ w rt u. true;
  inject = λ rt task. true;
  run = λ task rt. returned (record rt { user = rt.user + 2 });
  clock = λ rt. 100;
  recovered = λ rt. rt;
  job_order = λ jobs. jobs;
}

-- Of the three, two are placed in the world of their sessions, and the one without sessions is global.
execute_tasks_for_stage_run :
    (keep_if (λ t. is_place_in 7 (place_task host runtime t)) (0 ∷ 2 ∷ 4 ∷ []) ≡ 0 ∷ 2 ∷ [])
    × (keep_if (λ t. is_global_place (place_task host runtime t)) (0 ∷ 2 ∷ 4 ∷ []) ≡ 4 ∷ [])
unfolding place_task place_sessions new_task_queue
execute_tasks_for_stage_run = (refl, refl)
