-- ===== src/TaskQueue/History.antt =====
-- task.go: any history of `Push`, `PopDue` and cancellation, as a relation on the queue. Each
-- operation holds the mutex, and `Cancel` is one atomic store, so a history is a sequence of them.
use pecs.Prelude.{
  ℕ, ◌+◌, ◌≡◌, refl, sym, ◌∙◌, false, some, List, [], ◌∷◌, ◌++◌, arith, count, count-append,
}
use pecs.Prelude.Partial.{Yields-value}
use pecs.TaskQueue.{TaskQueue, ScheduledTask, new_task_queue, push, pop_due, cancel}
use pecs.TaskQueue.Heap.{IsQueue}
use pecs.TaskQueue.Compact.{Pushed, push_lem}
use pecs.TaskQueue.Due.{DuePopped, pop_due_lem}

-- `History q pushed popped r`: from `q`, pushes of the first list and pops that returned the second
-- lead to `r`.
pub data History (q : TaskQueue) : List ℕ → List ℕ → TaskQueue → Type 0 where
  start : History q [] [] q
  pushes :
      {pushed popped : List ℕ} {r s : TaskQueue} (task : ℕ)
      → History q pushed popped r
      → count task r.heap ≡ 0
      → push r task ≡ some s
      → History q (task ∷ pushed) popped s
  pops :
      {pushed popped : List ℕ} {r s : TaskQueue} (now : ℕ) (due : List ℕ) (all : List ℕ)
      → History q pushed popped r
      → pop_due r now ≡ some (due, s)
      → all ≡ due ++ popped
      → History q pushed all s
  cancels :
      {pushed popped : List ℕ} {r : TaskQueue} (task : ℕ)
      → History q pushed popped r
      → History q pushed popped (cancel r task)

cancel-IsQueue : (q : TaskQueue) (task : ℕ) → IsQueue q → IsQueue (cancel q task)
unfolding cancel
cancel-IsQueue q task v = record {
  heap_order = λ c p h l. ground (arith, v.heap_order c p h l);
  indexed = λ i h. ground (arith, v.indexed i h);
}

-- Every history from a queue in order ends in one.
pub History-IsQueue :
    (q : TaskQueue) {pushed popped : List ℕ} {r : TaskQueue}
    → IsQueue q
    → History q pushed popped r
    → IsQueue r
History-IsQueue q v start = v
History-IsQueue q v (pushes {r = r} task h fresh e) =
    (Yields-value (Pushed r task) (push_lem r task (History-IsQueue q v h) fresh) e).queue
History-IsQueue q v (pops {r = r} now due all h e _) =
    (Yields-value (DuePopped r now) (pop_due_lem r now (History-IsQueue q v h)) e).queue
History-IsQueue q v (cancels {r = r} task h) = cancel-IsQueue r task (History-IsQueue q v h)

cancel_flag :
    (q : TaskQueue) (task a : ℕ)
    → ((cancel q task).tasks a).cancelled ≡ false
    → (q.tasks a).cancelled ≡ false
unfolding cancel
cancel_flag q task a h = ground arith

cancel_heap : (q : TaskQueue) (task : ℕ) → (cancel q task).heap ≡ q.heap
unfolding cancel
cancel_heap q task = refl

-- A task that is not cancelled at the end was pushed as often as it was returned or is still held:
-- none is lost, and none is returned twice.
pub History-conserves :
    (q : TaskQueue) {pushed popped : List ℕ} {r : TaskQueue} (a : ℕ)
    → IsQueue q
    → History q pushed popped r
    → (r.tasks a).cancelled ≡ false
    → count a popped + count a r.heap ≡ count a pushed + count a q.heap
History-conserves q a v start live = omega arith
History-conserves q a v (pushes {r = r} task h fresh e) live =
    let p = Yields-value (Pushed r task) (push_lem r task (History-IsQueue q v h) fresh) e in
    let was_live : (r.tasks a).cancelled ≡ false = sym (p.flags a) ∙ live in
    ground (arith, p.live a was_live, History-conserves q a v h was_live)
History-conserves q a v (pops {popped = popped} {r = r} now due all h e f) live =
    let p = Yields-value (DuePopped r now) (pop_due_lem r now (History-IsQueue q v h)) e in
    let was_live : (r.tasks a).cancelled ≡ false = sym (p.flags a) ∙ live in
    rw f (
      omega
        (arith, p.live a was_live, History-conserves q a v h was_live, count-append a due popped))
History-conserves q a v (cancels {r = r} task h) live =
    rw (cancel_heap r task) (History-conserves q a v h (cancel_flag r task a live))

-- The new queue is one, and holds no task.
pub new-IsQueue : (tasks : ℕ → ScheduledTask) → IsQueue (new_task_queue tasks)
unfolding new_task_queue
new-IsQueue tasks = record {
  heap_order = λ c p h l. absurd (omega arith);
  indexed = λ i h. absurd (omega arith);
}
