-- ===== src/TaskQueue/Tests.antt =====
-- task.go: runs of the queue on small inputs, and the theorems at them.
use pecs.Prelude.{
  ℕ, zero, suc, ◌+◌, ◌≤◌, ◌≡◌, refl, false, Option, none, some, List, [], ◌∷◌, arith, ◌==◌,
  if◌then◌else◌, count,
}
use pecs.Prelude.Items.{item}
use pecs.Prelude.Partial.{Yields}
use pecs.TaskQueue.{
  TaskQueue, ScheduledTask, new_task_queue, push, push_heap, pop, pop_due, cancel, compact_heap,
  before, swap, up, up_loop, down, down_loop, earlier_child, heapify, compact_scan, pop_due_loop,
  root_due,
}
use pecs.TaskQueue.Heap.{IsHeapFrom, IsIndexed, IsQueue}
use pecs.TaskQueue.Remove.{root_earliest}
use pecs.TaskQueue.Compact.{Pushed, push_lem}
use pecs.TaskQueue.Due.{DuePopped, pop_due_lem}
use pecs.TaskQueue.History.{
  History, start, pushes, pops, cancels, History-IsQueue, History-conserves, new-IsQueue,
}

-- Task 1 is due at 10, task 2 at 20, task 3 at 15 (and cancelled), any other at 5.
abbrev store : ℕ → ScheduledTask
store a = record {
  execute_at = if a == 1 then 10 else if a == 2 then 20 else if a == 3 then 15 else 5;
  cancelled = a == 3;
  index = if a == 1 then some 0 else if a == 2 then some 1 else if a == 3 then some 2 else none;
}

abbrev three : TaskQueue
three = record { heap = 1 ∷ 2 ∷ 3 ∷ []; tasks = store; notified = false }

three_order : IsHeapFrom 0 3 three
unfolding item
three_order zero p h l = absurd (omega arith)
three_order (suc zero) p h l = omega arith
three_order (suc (suc zero)) p h l = omega arith
three_order (suc (suc (suc c))) p h l = absurd (omega arith)

three-IsIndexed : IsIndexed three
unfolding item
three-IsIndexed zero h = refl
three-IsIndexed (suc zero) h = refl
three-IsIndexed (suc (suc zero)) h = refl
three-IsIndexed (suc (suc (suc c))) h = absurd (omega arith)

three-IsQueue : IsQueue three
three-IsQueue = record { heap_order = three_order; indexed = three-IsIndexed }

abbrev heap_of : Option TaskQueue → Option (List ℕ)
heap_of none = none
heap_of (some q) = some q.heap

-- The new task is due first and rises to the root.
push_runs : heap_of (push three 4) ≡ some (4 ∷ 1 ∷ 3 ∷ 2 ∷ [])
unfolding push push_heap up up_loop before swap
push_runs = refl

abbrev answer_of : Option (List ℕ × TaskQueue) → Option (List ℕ × List ℕ)
answer_of none = none
answer_of (some (due, q)) = some (due, q.heap)

-- At time 15 tasks 1 and 3 are due, and 3 is cancelled.
pop_due_runs : answer_of (pop_due three 15) ≡ some (1 ∷ [], 2 ∷ [])
unfolding pop_due pop_due_loop root_due pop swap down down_loop earlier_child before
pop_due_runs = refl

compact_heap_runs : heap_of (compact_heap three) ≡ some (1 ∷ 2 ∷ [])
unfolding compact_heap compact_scan heapify down down_loop earlier_child before swap
compact_heap_runs = refl

root_earliest_example : 10 ≤ 20
unfolding item
root_earliest_example = root_earliest three 2 three-IsQueue (omega arith)

push_lem_example : Yields (Pushed three 4) (push three 4)
push_lem_example = push_lem three 4 three-IsQueue refl

pop_due_lem_example : Yields (DuePopped three 15) (pop_due three 15)
pop_due_lem_example = pop_due_lem three 15 three-IsQueue

-- A history: push task 1 on the new queue, pop what is due at 15, cancel task 2.
abbrev state_of : Option TaskQueue → TaskQueue
state_of none = three
state_of (some q) = q

abbrev rest_of : Option (List ℕ × TaskQueue) → TaskQueue
rest_of none = three
rest_of (some (due, q)) = q

abbrev new_queue : TaskQueue
new_queue = new_task_queue store

abbrev with_one : TaskQueue
with_one = state_of (push new_queue 1)

new_queue-IsQueue : IsQueue new_queue
new_queue-IsQueue = new-IsQueue store

short-History : History new_queue (1 ∷ []) (1 ∷ []) (cancel (rest_of (pop_due with_one 15)) 2)
unfolding new_task_queue push push_heap up up_loop pop_due pop_due_loop root_due pop swap down
    down_loop before
short-History = cancels 2 (pops 15 (1 ∷ []) (1 ∷ []) (pushes 1 start refl refl) refl refl)

History-IsQueue_example : IsQueue (cancel (rest_of (pop_due with_one 15)) 2)
History-IsQueue_example = History-IsQueue new_queue new_queue-IsQueue short-History

History-conserves_example :
    count 1 (1 ∷ []) + count 1 (cancel (rest_of (pop_due with_one 15)) 2).heap ≡ 1
unfolding new_task_queue push push_heap up up_loop pop_due pop_due_loop root_due pop swap down
    down_loop before cancel
History-conserves_example = History-conserves new_queue 1 new_queue-IsQueue short-History refl
