-- ===== src/TaskQueue/Compact.antt =====
-- task.go: `compactHeap`, which drops the cancelled tasks and rebuilds the heap, and `Push`.
use pecs.Prelude.{
  ℕ, suc, ◌+◌, ◌/◌, ◌%◌, ◌≤◌, ◌<◌, ◌≡◌, refl, sym, ◌∙◌, inl, inr, Bool-cases, true, false, ◌&&◌,
  some, List, [], ◌∷◌, ◌++◌, arith, ltb, ◌==◌, if◌then◌else◌, length, length-append, count,
  count-append,
}
use pecs.Prelude.Items.{item, item-append, item-append_last, index_of_count, count-item}
use pecs.Prelude.Partial.{Yields, yields, Yields-mono, Yields-then}
use pecs.TaskQueue.{TaskQueue, ScheduledTask, set_index, compact_scan, compact_heap, push}
use pecs.TaskQueue.Heap.{IsIndexed, IsQueue}
use pecs.TaskQueue.Sink.{heapify_restores}
use pecs.TaskQueue.Insert.{push_heap_lem}

item_cons :
    (x : ℕ) (xs : List ℕ) (i : ℕ) → (item (x ∷ xs) 0 ≡ x) × (item (x ∷ xs) (suc i) ≡ item xs i)
unfolding item
item_cons x xs i = (refl, refl)

distinct_of_items :
    (xs : List ℕ)
    → ((i j : ℕ) → i < length xs → j < length xs → item xs i ≡ item xs j → i ≡ j)
    → (a : ℕ) → count a xs ≤ 1
distinct_of_items [] d a = omega arith
distinct_of_items (x ∷ xs) d a = elim (Bool-cases (x == a)) [
  | inr n ↦ ground (
    arith,
    distinct_of_items xs
        (λ i j p q e. omega (
          arith,
          d (suc i) (suc j) (omega arith) (omega arith)
              ((item_cons x xs i).1 ∙ e ∙ sym ((item_cons x xs j).1)),
        ))
        a,
  )
  | inl e ↦ elim (Bool-cases (count a xs == 0)) [
    | inl z ↦ ground arith
    | inr n ↦
        let (j, l, f) = index_of_count a xs (ground arith) in
        absurd (
          omega (arith, d 0 (suc j) (omega arith) (omega arith) (ground (arith, item_cons x xs j))))
  ]
]

-- No task stands in the heap twice.
pub count-IsIndexed : (q : TaskQueue) → IsIndexed q → (a : ℕ) → count a q.heap ≤ 1
count-IsIndexed q v = distinct_of_items q.heap λ i j p l e. ground (arith, v i p, v j l)

-- What the scan keeps of a list, and the index that it gives to each task kept.
record Scanned (tasks : ℕ → ScheduledTask) (rest kept : List ℕ) (p : List ℕ × (ℕ → ScheduledTask))
    : Type 0 where
  items : (a : ℕ) → count a p.0 ≡ count a kept + (if (tasks a).cancelled then 0 else count a rest)
  times : (a : ℕ) → (p.1 a).execute_at ≡ (tasks a).execute_at
  flags : (a : ℕ) → (p.1 a).cancelled ≡ (tasks a).cancelled
  indexed : (i : ℕ) → i < length p.0 → (p.1 (item p.0 i)).index ≡ some i

abbrev IsIndexedList : (ℕ → ScheduledTask) → List ℕ → Type 0
IsIndexedList tasks kept = (i : ℕ) → i < length kept → (tasks (item kept i)).index ≡ some i

keep-IsIndexedList :
    (tasks : ℕ → ScheduledTask) (kept : List ℕ) (x : ℕ)
    → IsIndexedList tasks kept
    → count x kept ≡ 0
    → IsIndexedList (set_index tasks x (some (length kept))) (kept ++ x ∷ [])
keep-IsIndexedList tasks kept x v fresh i h = elim (Bool-cases (i == length kept)) [
  | inl last ↦
      let e : i ≡ length kept = ground arith in rw (e, item-append_last kept x) (ground arith)
  | inr inner ↦
      let l : i < length kept = ground (arith, length-append kept (x ∷ [])) in
      ground (arith, item-append kept (x ∷ []) i l, v i l, count-item kept i l)
]

compact_scan_lem :
    (rest kept : List ℕ) (tasks : ℕ → ScheduledTask)
    → ((a : ℕ) → count a kept + count a rest ≤ 1)
    → IsIndexedList tasks kept
    → Scanned tasks rest kept (compact_scan rest kept tasks)
unfolding compact_scan
compact_scan_lem [] kept tasks d v = record {
  items = λ a. ground arith;
  times = λ a. refl;
  flags = λ a. refl;
  indexed = v;
}
compact_scan_lem (x ∷ rest) kept tasks d v = elim (Bool-cases (tasks x).cancelled) [
  | inl dropped ↦
      let s = compact_scan_lem rest kept tasks (λ a. ground (arith, d a)) v in
      rw (dropped, compact_scan)
        (record {
          items = λ a. ground (arith, s.items a);
          times = s.times;
          flags = s.flags;
          indexed = s.indexed;
        })
  | inr live ↦
      let s =
        compact_scan_lem rest (kept ++ x ∷ []) (set_index tasks x (some (length kept)))
          (λ a. ground (arith, d a, count-append a kept (x ∷ [])))
          (keep-IsIndexedList tasks kept x v (ground (arith, d x))) in
      rw (live, compact_scan)
        (record {
          items = λ a. ground (arith, s.items a, count-append a kept (x ∷ []));
          times = λ a. ground (arith, s.times a);
          flags = λ a. ground (arith, s.flags a);
          indexed = s.indexed;
        })
]

-- `r` is a queue in order of the tasks of `q` that are not cancelled.
pub record Compacted (q r : TaskQueue) : Type 0 where
  pub queue : IsQueue r
  pub items : (a : ℕ) → count a r.heap ≡ (if (q.tasks a).cancelled then 0 else count a q.heap)
  pub times : (a : ℕ) → (r.tasks a).execute_at ≡ (q.tasks a).execute_at
  pub flags : (a : ℕ) → (r.tasks a).cancelled ≡ (q.tasks a).cancelled

-- compactHeap drops exactly the cancelled tasks and leaves a heap.
pub compact_heap_lem : (q : TaskQueue) → IsQueue q → Yields (Compacted q) (compact_heap q)
unfolding compact_heap
compact_heap_lem q v =
    let s =
      compact_scan_lem q.heap [] q.tasks (λ a. omega (arith, count-IsIndexed q v.indexed a))
        (λ i h. absurd (omega arith)) in
    let scan = compact_scan q.heap [] q.tasks in
    let before : TaskQueue = record q { heap = scan.0; tasks = scan.1 } in
    Yields-mono
      (heapify_restores (length scan.0 / 2) (length scan.0) before refl
        (λ c p h l. absurd (omega arith)))
      λ r (order, same). record {
        queue = record { heap_order = rw same.size order; indexed = same.indexed s.indexed };
        items = λ a. omega (arith, same.items a, s.items a);
        times = λ a. same.times a ∙ s.times a;
        flags = λ a. same.flags a ∙ s.flags a;
      }

-- `r` is a queue in order that holds the live tasks of `q` and the new one, and nothing else but
-- cancelled tasks of `q`.
pub record Pushed (q : TaskQueue) (task : ℕ) (r : TaskQueue) : Type 0 where
  pub queue : IsQueue r
  pub live : (a : ℕ) → (q.tasks a).cancelled ≡ false → count a r.heap ≡ count a (task ∷ q.heap)
  pub no_more : (a : ℕ) → count a r.heap ≤ count a (task ∷ q.heap)
  pub held : 0 < count task r.heap
  pub times : (a : ℕ) → (r.tasks a).execute_at ≡ (q.tasks a).execute_at
  pub flags : (a : ℕ) → (r.tasks a).cancelled ≡ (q.tasks a).cancelled
  pub notice : r.notified ≡ true

-- `Push` of a task that is not in the heap yet, compaction included.
pub push_lem :
    (q : TaskQueue) (task : ℕ)
    → IsQueue q
    → count task q.heap ≡ 0
    → Yields (Pushed q task) (push q task)
unfolding push
push_lem q task v fresh = elim (Bool-cases (ltb 100 (length q.heap) && length q.heap % 100 == 0)) [
  | inl crowded ↦ rw crowded (
      Yields-then (compact_heap_lem q v) λ c s.
        Yields-then (push_heap_lem c task s.queue (ground (arith, s.items task))) λ r h.
          yields (record {
            queue = record { heap_order = h.queue.heap_order; indexed = h.queue.indexed };
            live = λ a alive. ground (arith, h.items a, s.items a);
            no_more = λ a. ground (arith, h.items a, s.items a);
            held = ground (arith, h.items task);
            times = λ a. h.times a ∙ s.times a;
            flags = λ a. h.flags a ∙ s.flags a;
            notice = refl;
          }))
  | inr room ↦ rw room (
      Yields-then (push_heap_lem q task v fresh) λ r h. yields (record {
        queue = record { heap_order = h.queue.heap_order; indexed = h.queue.indexed };
        live = λ a alive. h.items a;
        no_more = λ a. omega (arith, h.items a);
        held = ground (arith, h.items task);
        times = h.times;
        flags = h.flags;
        notice = refl;
      }))
]
