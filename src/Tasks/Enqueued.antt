-- ===== src/Tasks/Enqueued.antt =====
-- task.go: what Schedule does to the queue, the payloads and the pending tasks of the sessions.
use pecs.Prelude.{
  ℕ, ◌+◌, ◌≤◌, ◌<◌, ◌≡◌, refl, sym, ◌∙◌, ap, Bool, true, false, not, ◌||◌, Option, none, some, List,
  [], ◌∷◌, ◌++◌, ◌==◌, if◌then◌else◌, arith, length, count, Bool-cases, inl, inr, either_branch,
}
use pecs.Prelude.Items.{item, count-item}
use pecs.Prelude.Partial.{Yields, yields}
use mathlib.Core.List.{append_assoc, append-nil}
use pecs.Scheduler.{before}
use pecs.TaskQueue.{ScheduledTask, TaskQueue, push, parent}
use pecs.TaskQueue.Heap.{IsQueue, key}
use pecs.TaskQueue.Compact.{Pushed, push_lem}
use pecs.Registry.{ComponentRegistry, write}
use pecs.System.{GoType}
use pecs.System.Analyze.{Analysis, analyzed, not_a_struct, panicked, analyze_system}
use pecs.Session.{State}
use pecs.Session.Closing.{add_task}
use pecs.Relation.{World}
use pecs.Tasks.{
  inner, TaskMeta, Job, Runtime, Program, get_task_meta, update_session, add_to_sessions, enqueue,
}
use pecs.Tasks.Scheduling.{Scheduled, refused, scheduled, broken, is_unfit}

-- The queue with the object of a task stored at its address.
abbrev stored : TaskQueue → ℕ → ScheduledTask → TaskQueue
stored q task t = record q { tasks = write q.tasks task t }

module _ (q : TaskQueue) (task : ℕ) (t : ScheduledTask) (fresh : count task q.heap ≡ 0) where
  stored_off :
      (i : ℕ)
      → i < length q.heap
      → (stored q task t).tasks (item q.heap i) ≡ q.tasks (item q.heap i)
  stored_off i h = elim (Bool-cases (task == item q.heap i)) [
    | inl e ↦
        let same : task ≡ item q.heap i = ground (arith, e) in
        absurd (omega (arith, count-item q.heap i h, rw same at fresh))
    | inr e ↦ rw e refl
  ]

  key-stored : (i : ℕ) → i < length q.heap → key (stored q task t) i ≡ key q i
  key-stored i h = ap (λ s. s.execute_at) (stored_off i h)

  stored-IsQueue : IsQueue q → IsQueue (stored q task t)
  stored-IsQueue v = record {
    heap_order = λ c p l b.
        rw (key-stored (parent c) (omega (arith, l)), key-stored c l) (v.heap_order c p l b);
    indexed = λ i h. ap (λ s. s.index) (stored_off i h) ∙ v.indexed i h;
  }

-- The task once for each time that the session stands in the list.
abbrev pub for_session : ℕ → List ℕ → ℕ → List ℕ
for_session v [] task = []
for_session v (u ∷ us) task = if v == u then task ∷ for_session v us task else for_session v us task

abbrev pub pending : World → ℕ → List ℕ
pending w v = (w v).session.pending_tasks

add_to_sessions_lem :
    (us : List ℕ) (task : ℕ) (w : World) (v : ℕ)
    → pending (add_to_sessions us task w) v ≡ pending w v ++ for_session v us task
unfolding add_to_sessions add_task
add_to_sessions_lem [] task w v = sym (append-nil (pending w v))
add_to_sessions_lem (u ∷ us) task w v =
    add_to_sessions_lem us task (update_session u (add_task task) w) v ∙ first (v == u)
  where
    first :
        (b : Bool)
        → (if b
              then record (w v) { session = add_task task (w v).session }
              else w v).session.pending_tasks
            ++ for_session v us task
          ≡ pending w v ++ (if b then task ∷ for_session v us task else for_session v us task)
    first true = append_assoc (pending w v) (task ∷ []) (for_session v us task)
    first false = refl

unfit_kept :
    (us : List ℕ) (task : ℕ) (w : World) (v : ℕ)
    → (not (add_to_sessions us task w v).usable || (add_to_sessions us task w v).session.closed)
      ≡ (not (w v).usable || (w v).session.closed)
unfolding add_to_sessions add_task
unfit_kept [] task w v = refl
unfit_kept (u ∷ us) task w v =
    unfit_kept us task (update_session u (add_task task) w) v
    ∙ either_branch
        (λ (x : State).
          (not x.usable || x.session.closed) ≡ (not (w v).usable || (w v).session.closed))
        (v == u) refl refl

-- A task that was enqueued with the payload, to be run at the time.
pub record Enqueued (execute_at : ℕ) (job : Job) (rt rt' : Runtime) : Type 0 where
  pub queue : IsQueue rt'.queue
  pub held : 0 < count rt.next rt'.queue.heap
  pub live :
      (a : ℕ)
      → (rt.queue.tasks a).cancelled ≡ false
      → count a rt'.queue.heap ≡ count a (rt.next ∷ rt.queue.heap)
  pub due : (rt'.queue.tasks rt.next).execute_at ≡ execute_at
  pub active : (rt'.queue.tasks rt.next).cancelled ≡ false
  pub payload : rt'.jobs rt.next ≡ job
  pub added :
      (v : ℕ) → pending rt'.states v ≡ pending rt.states v ++ for_session v job.sessions rt.next
  pub no_more : (a : ℕ) → count a rt'.queue.heap ≤ count a (rt.next ∷ rt.queue.heap)
  pub same_wrappers : rt'.wrappers ≡ rt.wrappers
  pub moved : rt'.next ≡ rt.next + 1
  pub same_user : rt'.user ≡ rt.user
  pub same_fit : (v : ℕ) → is_unfit rt' v ≡ is_unfit rt v

pub enqueue_lem :
    (execute_at : ℕ) (job : Job) (rt : Runtime)
    → IsQueue rt.queue
    → count rt.next rt.queue.heap ≡ 0
    → Yields (Enqueued execute_at job rt) (enqueue execute_at job rt)
unfolding enqueue
enqueue_lem execute_at job rt v fresh =
    pushed (push (stored rt.queue rt.next t) rt.next) (
      push_lem (stored rt.queue rt.next t) rt.next (stored-IsQueue rt.queue rt.next t fresh v)
        fresh)
  where
    t : ScheduledTask
    t = record { execute_at = execute_at; cancelled = false; index = some 0 }

    pushed :
        (r : Option TaskQueue)
        → Yields (Pushed (stored rt.queue rt.next t) rt.next) r
        → Yields (Enqueued execute_at job rt) (elim r [
          | none ↦ none
          | some q ↦ some (record rt {
            states = add_to_sessions job.sessions rt.next rt.states;
            queue = q;
            jobs = write rt.jobs rt.next job;
            next = rt.next + 1;
          })
        ])
    pushed none y = elim y [ ]
    pushed (some r) (yields p) = yields (record {
      queue = p.queue;
      held = p.held;
      live = λ a e. p.live a (still a e);
      due = p.times rt.next ∙ ground arith;
      active = p.flags rt.next ∙ ground arith;
      payload = ground arith;
      added = add_to_sessions_lem job.sessions rt.next rt.states;
      no_more = p.no_more;
      same_wrappers = refl;
      moved = refl;
      same_user = refl;
      same_fit = unfit_kept job.sessions rt.next rt.states;
    })
      where
        still :
            (a : ℕ)
            → (rt.queue.tasks a).cancelled ≡ false
            → ((stored rt.queue rt.next t).tasks a).cancelled ≡ false
        still a e = ground (arith, e)

-- A handle to the task, which is enqueued with the meta data and the bundle.
abbrev pub IsScheduled :
    List ℕ → ℕ → ℕ → Runtime → TaskMeta → Option ℕ → ComponentRegistry → Scheduled → Type 0
IsScheduled sessions task execute_at rt meta bundle r s =
    (rt' : Runtime) × (s ≡ scheduled rt.next rt')
    × Enqueued execute_at
        (record { sessions = sessions; work = inner task; meta = meta; bundle = bundle })
        (record rt { registry = r }) rt'

-- What a call for two sessions returns for a task that is not registered, by its analysis.
abbrev pub OnTheFly : List ℕ → ℕ → ℕ → Runtime → Analysis → Scheduled → Type 0
OnTheFly sessions task execute_at rt not_a_struct s = s ≡ refused
OnTheFly sessions task execute_at rt (panicked r) s = s ≡ broken
OnTheFly sessions task execute_at rt (analyzed m r) s =
    IsScheduled sessions task execute_at rt
      (record { system = record m { is_multi_session = true }; stage = before }) none r s

-- By what the bundles have for the type.
abbrev pub ByBundle :
    Program → List ℕ → ℕ → ℕ → Runtime → GoType → Option (ℕ × TaskMeta) → Scheduled → Type 0
ByBundle p sessions task execute_at rt t (some (b, m)) s =
    IsScheduled sessions task execute_at rt m (some b) rt.registry s
ByBundle p sessions task execute_at rt t none s =
    OnTheFly sessions task execute_at rt (analyze_system p.types t rt.registry) s

abbrev pub Outcome : Program → List ℕ → ℕ → ℕ → Runtime → Option GoType → Scheduled → Type 0
Outcome p sessions task execute_at rt none s = s ≡ broken
Outcome p sessions task execute_at rt (some t) s =
    ByBundle p sessions task execute_at rt t (get_task_meta p.bundles t) s
