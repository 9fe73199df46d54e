-- ===== src/TaskQueue.antt =====
-- task.go: the priority queue of scheduled tasks, a binary heap of task pointers.
-- A task is an object that the queue, the sessions and the handles share: the heap is a list of
-- identities, and `tasks` is the store of the objects. A time is a number of nanoseconds.
-- `none` is Go's panic on an index out of range, or the model's fuel running out.
-- The mutex makes each public operation one step; Go's int is unbounded here, so the test
-- `left < 0` of `down` (overflow of 2*i+1) never holds.
pub mod Heap
pub mod Sink
pub mod Compact
pub mod Remove
pub mod Insert
pub mod Due
pub mod History
mod Tests
use pecs.Prelude.{
  ℕ, zero, suc, ◌+◌, ◌-◌, ◌*◌, ◌/◌, ◌%◌, Bool, true, false, not, ◌&&◌, Option, none, some, List, [],
  ◌∷◌, ◌++◌, ltb, leb, ◌==◌, if◌then◌else◌, length, get_elem?, set, take,
}
use pecs.Prelude.Partial.{◌>>=◌}

-- scheduledTask, less the payload that the queue does not read. `none` is the index -1.
pub record ScheduledTask : Type 0 where
  pub execute_at : ℕ
  pub cancelled : Bool
  pub index : Option ℕ

-- `notified` says that a message waits in the channel `notif`, whose capacity is 1.
pub record TaskQueue : Type 0 where
  pub heap : List ℕ
  pub tasks : ℕ → ScheduledTask
  pub notified : Bool

abbrev pub set_index : (ℕ → ScheduledTask) → ℕ → Option ℕ → ℕ → ScheduledTask
set_index tasks a i b = if b == a then record (tasks b) { index = i } else tasks b

-- newTaskQueue, over a store of tasks that exist already.
unfoldable pub new_task_queue : (ℕ → ScheduledTask) → TaskQueue
new_task_queue tasks = record { heap = []; tasks = tasks; notified = false }

-- `q.heap[i].executeAt.Before(q.heap[j].executeAt)`
unfoldable pub before : TaskQueue → ℕ → ℕ → Option Bool
before q i j = do
  a ← get_elem? q.heap i
  b ← get_elem? q.heap j
  some (ltb (q.tasks a).execute_at (q.tasks b).execute_at)

unfoldable pub swap : TaskQueue → ℕ → ℕ → Option TaskQueue
swap q i j = do
  a ← get_elem? q.heap i
  b ← get_elem? q.heap j
  some (record q {
    heap = set (set q.heap i b) j a;
    tasks = set_index (set_index q.tasks b (some i)) a (some j);
  })

-- Go divides -1 by 2 to 0, as the truncated subtraction does.
abbrev pub parent : ℕ → ℕ
parent i = (i - 1) / 2

unfoldable pub up_loop : ℕ → TaskQueue → ℕ → Option TaskQueue
unfolding before swap
up_loop zero q i = none
up_loop (suc k) q i =
    let rise = swap q i (parent i) >>= λ r. up_loop k r (parent i) in
    let step = before q i (parent i) >>= λ less. if less then rise else some q in
    if parent i == i then some q else step

unfoldable pub up : TaskQueue → ℕ → Option TaskQueue
up q i = up_loop (i + 1) q i

-- The child that `down` compares with: `right` if it exists and is due earlier.
unfoldable pub earlier_child : TaskQueue → ℕ → ℕ → Option ℕ
unfolding before
earlier_child q left n =
    let right = left + 1 in
    if ltb right n
    then (before q right left >>= λ less. some (if less then right else left))
    else some left

unfoldable pub down_loop : ℕ → TaskQueue → ℕ → ℕ → Option TaskQueue
unfolding before swap earlier_child
down_loop zero q i n = none
down_loop (suc k) q i n =
    let left = 2 * i + 1 in
    let step : Option TaskQueue = do
      j ← earlier_child q left n
      less ← before q j i
      let sink = swap q i j >>= λ r. down_loop k r j n
      if less then sink else some q
    in if leb n left then some q else step

unfoldable pub down : TaskQueue → ℕ → ℕ → Option TaskQueue
down q i n = down_loop (n + 1) q i n

-- The first loop of compactHeap. It writes below what it reads, so the entries still to be read
-- are those of the old heap; `kept` is the part written.
unfoldable pub compact_scan : List ℕ → List ℕ → (ℕ → ScheduledTask) → List ℕ × (ℕ → ScheduledTask)
compact_scan [] kept tasks = (kept, tasks)
compact_scan (x ∷ rest) kept tasks = elim (tasks x).cancelled [
  | true ↦ compact_scan rest kept tasks
  | false ↦ compact_scan rest (kept ++ x ∷ []) (set_index tasks x (some (length kept)))
]

-- Its last loop, from `i - 1` down to 0.
unfoldable pub heapify : ℕ → TaskQueue → Option TaskQueue
heapify zero q = some q
heapify (suc i) q = down q i (length q.heap) >>= heapify i

unfoldable pub compact_heap : TaskQueue → Option TaskQueue
compact_heap q =
    let (kept, tasks) = compact_scan q.heap [] q.tasks in
    heapify (length kept / 2) (record q { heap = kept; tasks = tasks })

-- `push`, without the lock.
unfoldable pub push_heap : TaskQueue → ℕ → Option TaskQueue
push_heap q task =
    let i = length q.heap in
    up (record q { heap = q.heap ++ task ∷ []; tasks = set_index q.tasks task (some i) }) i

-- `Push`
unfoldable pub push : TaskQueue → ℕ → Option TaskQueue
push q task = do
  q' ← if ltb 100 (length q.heap) && length q.heap % 100 == 0 then compact_heap q else some q
  r ← push_heap q' task
  some (record r { notified = true })

-- `pop`. On an empty heap `swap(0, -1)` panics.
unfoldable pub pop : TaskQueue → Option (ℕ × TaskQueue)
pop q = if length q.heap == 0 then none else do
  let n = length q.heap - 1
  r ← swap q 0 n
  s ← down r 0 n
  task ← get_elem? s.heap n
  some (task, record s { heap = take n s.heap; tasks = set_index s.tasks task none })

-- The loop condition of PopDue: the root exists and is not after `now`.
unfoldable pub root_due : TaskQueue → ℕ → Bool
root_due q now = elim q.heap [ [] ↦ false | x ∷ _ ↦ not (ltb now (q.tasks x).execute_at) ]

-- The loop of PopDue, with the due tasks and the cancelled ones met so far.
unfoldable pub pop_due_loop : ℕ → TaskQueue → ℕ → List ℕ → ℕ → Option (List ℕ × ℕ × TaskQueue)
pop_due_loop zero q now due dropped = none
pop_due_loop (suc k) q now due dropped =
    let step = pop q >>= λ (task, r).
    let skip = (r.tasks task).cancelled in
    pop_due_loop k r now (if skip then due else due ++ task ∷ [])
      (if skip then dropped + 1 else dropped) in
    if root_due q now then step else some (due, dropped, q)

unfoldable pub pop_due : TaskQueue → ℕ → Option (List ℕ × TaskQueue)
pop_due q now = do
  (due, dropped, r) ← pop_due_loop (length q.heap + 1) q now [] 0
  s ← if ltb 50 dropped && ltb 0 (length r.heap) then compact_heap r else some r
  some (due, s)

-- `none` is `(time.Time{}, false)`.
unfoldable pub peek : TaskQueue → Option ℕ
peek q = elim q.heap [ [] ↦ none | x ∷ _ ↦ some (q.tasks x).execute_at ]

-- `Remove`, and `Cancel` of a handle: they mark the task and leave the heap alone.
unfoldable pub cancel : TaskQueue → ℕ → TaskQueue
cancel q task = record q {
  tasks = λ b. if b == task then record (q.tasks b) { cancelled = true } else q.tasks b;
}

unfoldable pub len : TaskQueue → ℕ
len q = length q.heap

-- `Clear`. It leaves the index of each task as it was.
unfoldable pub clear : TaskQueue → TaskQueue
clear q = record q { heap = [] }
