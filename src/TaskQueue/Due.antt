-- ===== src/TaskQueue/Due.antt =====
-- task.go: `PopDue`, its loop and the compaction at its end, and what a cancelled task comes to.
use pecs.Prelude.{
  ℕ, zero, suc, ◌+◌, ◌≤◌, ◌<◌, ◌≡◌, refl, sym, ◌∙◌, inl, inr, Bool-cases, Bool, true, false, ◌&&◌,
  not, List, [], ◌∷◌, ◌++◌, arith, ltb, length, count, count-append, All, All-append, All-mono,
}
use pecs.Prelude.Items.{item}
use pecs.Prelude.Partial.{Yields, yields, Yields-then}
use pecs.TaskQueue.{TaskQueue, root_due, pop_due_loop, pop_due}
use pecs.TaskQueue.Heap.{key, IsQueue}
use pecs.TaskQueue.Remove.{Popped, pop_lem, root_earliest}
use pecs.TaskQueue.Compact.{compact_heap_lem}

-- The times of the tasks do not fall along the list.
abbrev pub IsAscending : (ℕ → ℕ) → List ℕ → Type 0
IsAscending time [] = Unit
IsAscending time (x ∷ xs) = All (λ y. time x ≤ time y) xs × IsAscending time xs

append-IsAscending :
    (time : ℕ → ℕ) (xs : List ℕ) (x : ℕ)
    → IsAscending time xs
    → All (λ y. time y ≤ time x) xs
    → IsAscending time (xs ++ x ∷ [])
append-IsAscending time [] x s h = (tt, tt)
append-IsAscending time (y ∷ xs) x s h = (
  All-append (λ z. time y ≤ time z) xs (x ∷ []) s.0 (h.0, tt),
  append-IsAscending time xs x s.1 h.1,
)

item_head : (x : ℕ) (h : List ℕ) → item (x ∷ h) 0 ≡ x
unfolding item
item_head x h = refl

-- What the loop condition says.
root_due_yes :
    (q : TaskQueue) (now : ℕ) → root_due q now ≡ true → (0 < length q.heap) × (key q 0 ≤ now)
unfolding root_due
root_due_yes q now e = by_heap q.heap refl e
  where
    by_heap :
        (h : List ℕ)
        → q.heap ≡ h
        → elim h [ [] ↦ false | x ∷ _ ↦ not (ltb now (q.tasks x).execute_at) ] ≡ true
        → (0 < length q.heap) × (key q 0 ≤ now)
    by_heap [] f t = cc
    by_heap (x ∷ h) f t = rw f (omega arith, rw (item_head x h) (ground arith))

root_due_no :
    (q : TaskQueue) (now a : ℕ)
    → IsQueue q
    → root_due q now ≡ false
    → 0 < count a q.heap
    → now < (q.tasks a).execute_at
unfolding root_due
root_due_no q now a v e held = by_heap q.heap refl e
  where
    by_heap :
        (h : List ℕ)
        → q.heap ≡ h
        → elim h [ [] ↦ false | x ∷ _ ↦ not (ltb now (q.tasks x).execute_at) ] ≡ false
        → now < (q.tasks a).execute_at
    by_heap [] f t = let none_held : 0 < count a [] = rw f at held in absurd (omega arith)
    by_heap (x ∷ h) f t =
        let top : item q.heap 0 ≡ x = rw f (item_head x h) in
        ground (arith, top, root_earliest q a v held)

-- Over the times and flags of the tasks and the heap at the start:
module _ (time : ℕ → ℕ) (flag : ℕ → Bool) (start : List ℕ) (now : ℕ) where
  -- the loop invariant of PopDue.
  record Collected (due : List ℕ) (q : TaskQueue) : Type 0 where
    queue : IsQueue q
    times : (a : ℕ) → (q.tasks a).execute_at ≡ time a
    flags : (a : ℕ) → (q.tasks a).cancelled ≡ flag a
    sorted : IsAscending time due
    ahead : All (λ y. (a : ℕ) → 0 < count a q.heap → time y ≤ time a) due
    past : All (λ y. (time y ≤ now) × (flag y ≡ false)) due
    live : (a : ℕ) → flag a ≡ false → count a due + count a q.heap ≡ count a start
    no_more : (a : ℕ) → count a due + count a q.heap ≤ count a start

  module _ (due : List ℕ) (q : TaskQueue) (v : Collected due q) where
    module _ (task : ℕ) (r : TaskQueue) (p : Popped q (task, r)) where
      stays_ahead : All (λ y. (a : ℕ) → 0 < count a r.heap → time y ≤ time a) due
      stays_ahead = All-mono _ _ due (λ y h a held. h a (ground (arith, p.items a))) v.ahead

      skip-Collected : (r.tasks task).cancelled ≡ true → Collected due r
      skip-Collected off = record {
        queue = p.queue;
        times = λ a. p.times a ∙ v.times a;
        flags = λ a. p.flags a ∙ v.flags a;
        sorted = v.sorted;
        ahead = stays_ahead;
        past = v.past;
        live = λ a alive. ground (arith, v.live a alive, p.items a, p.flags task, v.flags task);
        no_more = λ a. ground (arith, v.no_more a, p.items a);
      }

      task_held : 0 < count task q.heap
      task_held = ground (arith, p.items task)

      task_ahead : (a : ℕ) → 0 < count a r.heap → time task ≤ time a
      task_ahead a held =
          omega (arith, p.first a (ground (arith, p.items a)), v.times task, v.times a)

      take-Collected :
          (q.tasks task).execute_at ≤ now
          → (r.tasks task).cancelled ≡ false
          → Collected (due ++ task ∷ []) r
      take-Collected early live_task = record {
        queue = p.queue;
        times = λ a. p.times a ∙ v.times a;
        flags = λ a. p.flags a ∙ v.flags a;
        sorted =
            append-IsAscending time due task v.sorted
              (All-mono _ _ due (λ y h. h task task_held) v.ahead);
        ahead = All-append _ due (task ∷ []) stays_ahead (task_ahead, tt);
        past = All-append _ due (task ∷ []) v.past (
          (omega (arith, v.times task), sym (v.flags task) ∙ sym (p.flags task) ∙ live_task),
          tt,
        );
        live = λ a alive. ground (arith, v.live a alive, p.items a, count-append a due (task ∷ []));
        no_more = λ a. ground (arith, v.no_more a, p.items a, count-append a due (task ∷ []));
      }

  -- What the loop returns.
  abbrev Drained : List ℕ × ℕ × TaskQueue → Type 0
  Drained t = Collected t.0 t.2 × ((a : ℕ) → 0 < count a t.2.heap → now < time a)

  pop_due_loop_lem :
      (k : ℕ) (q : TaskQueue) (due : List ℕ) (dropped : ℕ)
      → length q.heap < k
      → Collected due q
      → Yields Drained (pop_due_loop k q now due dropped)
  unfolding pop_due_loop
  pop_due_loop_lem zero q due dropped f v = absurd (omega arith)
  pop_due_loop_lem (suc k) q due dropped f v = elim (Bool-cases (root_due q now)) [
    | inr over ↦
        rw over
          (yields (v, λ a held. ground (arith, v.times a, root_due_no q now a v.queue over held)))
    | inl go ↦
        let root = root_due_yes q now go in
        rw go (
          Yields-then (pop_lem q v.queue root.0) λ (task, r) p.
            let early : (q.tasks task).execute_at ≤ now = ground (arith, p.root, root.1) in
            let less : length r.heap < k = omega (arith, p.size) in
            elim (Bool-cases (r.tasks task).cancelled) [
              | inl off ↦ rw off (
                  pop_due_loop_lem k r due (dropped + 1) less (skip-Collected due q v task r p off))
              | inr live_task ↦ rw live_task (
                  pop_due_loop_lem k r (due ++ task ∷ []) dropped less
                    (take-Collected due q v task r p early live_task))
            ])
  ]

-- The answer of PopDue: `due` and the queue that is left.
pub record DuePopped (q : TaskQueue) (now : ℕ) (p : List ℕ × TaskQueue) : Type 0 where
  pub queue : IsQueue p.1
  -- every task returned is due and live, in order of its time
  pub past : All (λ a. ((q.tasks a).execute_at ≤ now) × ((q.tasks a).cancelled ≡ false)) p.0
  pub sorted : IsAscending (λ a. (q.tasks a).execute_at) p.0
  -- every task left is due later
  pub later : (a : ℕ) → 0 < count a p.1.heap → now < (q.tasks a).execute_at
  -- no live task is lost or doubled, and none is made up
  pub live :
      (a : ℕ) → (q.tasks a).cancelled ≡ false → count a p.0 + count a p.1.heap ≡ count a q.heap
  pub no_more : (a : ℕ) → count a p.0 + count a p.1.heap ≤ count a q.heap
  pub times : (a : ℕ) → (p.1.tasks a).execute_at ≡ (q.tasks a).execute_at
  pub flags : (a : ℕ) → (p.1.tasks a).cancelled ≡ (q.tasks a).cancelled

-- PopDue ends, and returns the live tasks that are due.
pub pop_due_lem : (q : TaskQueue) (now : ℕ) → IsQueue q → Yields (DuePopped q now) (pop_due q now)
unfolding pop_due
pop_due_lem q now v =
    let time : ℕ → ℕ = λ a. (q.tasks a).execute_at in
    let flag : ℕ → Bool = λ a. (q.tasks a).cancelled in
    Yields-then
      (pop_due_loop_lem time flag q.heap now (length q.heap + 1) q [] 0 (omega arith) (record {
        queue = v;
        times = λ a. refl;
        flags = λ a. refl;
        sorted = tt;
        ahead = tt;
        past = tt;
        live = λ a alive. omega arith;
        no_more = λ a. omega arith;
      }))
      λ (due, dropped, r) (c, later). elim (Bool-cases (ltb 50 dropped && ltb 0 (length r.heap))) [
        | inr few ↦ rw few (
            yields (record {
              queue = c.queue;
              past = c.past;
              sorted = c.sorted;
              later = later;
              live = c.live;
              no_more = c.no_more;
              times = c.times;
              flags = c.flags;
            }))
        | inl many ↦ rw many (
            Yields-then (compact_heap_lem r c.queue) λ s m. yields (record {
              queue = m.queue;
              past = c.past;
              sorted = c.sorted;
              later = λ a held. later a (ground (arith, m.items a));
              live = λ a alive. ground (arith, c.live a alive, m.items a, c.flags a);
              no_more = λ a. ground (arith, c.no_more a, m.items a);
              times = λ a. m.times a ∙ c.times a;
              flags = λ a. m.flags a ∙ c.flags a;
            }))
      ]
