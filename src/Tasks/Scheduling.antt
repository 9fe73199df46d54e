-- ===== src/Tasks/Scheduling.antt =====
-- task.go: Schedule and its kin.
use pecs.Prelude.{
  ℕ, zero, ◌+◌, Bool, true, false, not, ◌||◌, Option, none, some, List, [], ◌∷◌, if◌then◌else◌,
}
use pecs.Registry.{write}
use pecs.Tasks.{
  ℤ, pos, inner, repeating, Job, Wrapper, Runtime, Program, Found, found, missing, panics,
  find_meta, enqueue,
}

-- A call returns nil, or the address that its handle refers to, or panics.
pub data Scheduled : Type 0 where
  refused : Scheduled
  scheduled : ℕ → Runtime → Scheduled
  broken : Scheduled

-- `s == nil || s.closed.Load() || s.manager == nil`
abbrev pub is_unfit : Runtime → ℕ → Bool
is_unfit rt u = not (rt.states u).usable || (rt.states u).session.closed

abbrev pub handle_to : ℕ → Option Runtime → Scheduled
handle_to a none = broken
handle_to a (some rt) = scheduled a rt

-- The task with the meta data that was found.
unfoldable pub schedule_found : List ℕ → ℕ → ℕ → Runtime → Found → Scheduled
unfolding enqueue
schedule_found sessions task execute_at rt missing = refused
schedule_found sessions task execute_at rt panics = broken
schedule_found sessions task execute_at rt (found meta bundle r) = handle_to rt.next (
    enqueue execute_at
      (record { sessions = sessions; work = inner task; meta = meta; bundle = bundle })
      (record rt { registry = r }))

module _ (p : Program) where
  -- `usable` says that the manager is not nil.
  unfoldable pub schedule_global : Bool → ℕ → ℕ → ℕ → Runtime → Scheduled
  unfolding schedule_found find_meta
  schedule_global usable now task delay rt =
      if not usable
      then refused
      else schedule_found [] task (now + delay) rt (find_meta p false (p.type_of task) rt.registry)

  unfoldable pub dispatch_global : Bool → ℕ → ℕ → Runtime → Scheduled
  unfolding schedule_global
  dispatch_global usable now task rt = schedule_global usable now task 0 rt

  -- ScheduleAt; Schedule is at a delay from now, which is not negative.
  unfoldable pub schedule_at : ℕ → ℕ → ℕ → Runtime → Scheduled
  unfolding schedule_found find_meta
  schedule_at u task at rt =
      if is_unfit rt u
      then refused
      else schedule_found (u ∷ []) task at rt (find_meta p false (p.type_of task) rt.registry)

  unfoldable pub schedule : ℕ → ℕ → ℕ → ℕ → Runtime → Scheduled
  unfolding schedule_found find_meta
  schedule now u task delay rt =
      if is_unfit rt u
      then refused
      else schedule_found (u ∷ []) task (now + delay) rt
          (find_meta p false (p.type_of task) rt.registry)

  unfoldable pub dispatch : ℕ → ℕ → ℕ → Runtime → Scheduled
  unfolding schedule
  dispatch now u task rt = schedule now u task 0 rt

  -- `same` says that the two sessions have one manager.
  unfoldable pub schedule2 : Bool → ℕ → ℕ → ℕ → ℕ → ℕ → Runtime → Scheduled
  unfolding schedule_found find_meta
  schedule2 same now u v task delay rt =
      if is_unfit rt u || is_unfit rt v
      then refused
      else if not same
      then refused
      else schedule_found (u ∷ v ∷ []) task (now + delay) rt
          (find_meta p true (p.type_of task) rt.registry)

  unfoldable pub dispatch2 : Bool → ℕ → ℕ → ℕ → ℕ → Runtime → Scheduled
  unfolding schedule2
  dispatch2 same now u v task rt = schedule2 same now u v task 0 rt

  abbrev pub is_zero_times : ℤ → Bool
  is_zero_times (pos zero) = true
  is_zero_times _ = false

  -- The wrapper stored, and its first run enqueued; the handle refers to the wrapper.
  unfoldable pub repeat_found : ℕ → ℕ → ℕ → ℤ → ℕ → Runtime → Found → Scheduled
  unfolding enqueue
  repeat_found u task interval times now rt missing = refused
  repeat_found u task interval times now rt panics = broken
  repeat_found u task interval times now rt (found meta bundle r) =
      let wrapper : Wrapper = record {
        task = task;
        interval = interval;
        remaining = times;
        handle_cancelled = false;
        session = some u;
        meta = meta;
        bundle = bundle;
      } in
      let job : Job = record {
        sessions = u ∷ [];
        work = repeating rt.next_wrapper;
        meta = meta;
        bundle = bundle;
      } in
      handle_to rt.next_wrapper (
        enqueue (now + interval) job (record rt {
          registry = r;
          wrappers = write rt.wrappers rt.next_wrapper wrapper;
          next_wrapper = rt.next_wrapper + 1;
        }))

  unfoldable pub schedule_repeating : ℕ → ℕ → ℕ → ℕ → ℤ → Runtime → Scheduled
  unfolding repeat_found find_meta
  schedule_repeating now u task interval times rt =
      if is_unfit rt u
      then refused
      else if is_zero_times times
      then refused
      else repeat_found u task interval times now rt
          (find_meta p false (p.type_of task) rt.registry)
