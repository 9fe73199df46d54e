-- ===== src/TaskQueue/Heap.antt =====
-- task.go: the heap order, the index field, and what a swap does to them.
use pecs.Prelude.{
  ℕ, ◌≤◌, ◌<◌, ◌≡◌, refl, ◌∙◌, some, List, arith, ltb, ◌==◌, if◌then◌else◌, length, set, length-set,
  count,
}
use pecs.Prelude.Items.{item, get_elem?-item, item-set, count-set}
use pecs.TaskQueue.{TaskQueue, set_index, before, swap, parent}

-- The due time of the task at an index of the heap.
abbrev pub key : TaskQueue → ℕ → ℕ
key q i = (q.tasks (item q.heap i)).execute_at

-- Every edge among the first `n` entries whose parent is at `lo` or later is in order.
abbrev pub IsHeapFrom : ℕ → ℕ → TaskQueue → Type 0
IsHeapFrom lo n q = (c : ℕ) → 0 < c → c < n → lo ≤ parent c → key q (parent c) ≤ key q c

-- Every task in the heap knows its index.
abbrev pub IsIndexed : TaskQueue → Type 0
IsIndexed q = (i : ℕ) → i < length q.heap → (q.tasks (item q.heap i)).index ≡ some i

-- `r` holds the tasks of `q`, in another order of the first `n` entries.
pub record Reorders (n : ℕ) (q r : TaskQueue) : Type 0 where
  pub times : (a : ℕ) → (r.tasks a).execute_at ≡ (q.tasks a).execute_at
  pub flags : (a : ℕ) → (r.tasks a).cancelled ≡ (q.tasks a).cancelled
  pub items : (a : ℕ) → count a r.heap ≡ count a q.heap
  pub size : length r.heap ≡ length q.heap
  pub rest : (c : ℕ) → n ≤ c → item r.heap c ≡ item q.heap c
  pub notice : r.notified ≡ q.notified
  pub indexed : IsIndexed q → IsIndexed r

pub Reorders-refl : (n : ℕ) (q : TaskQueue) → Reorders n q q
Reorders-refl n q = record {
  times = λ a. refl;
  flags = λ a. refl;
  items = λ a. refl;
  size = refl;
  rest = λ c h. refl;
  notice = refl;
  indexed = λ v. v;
}

pub Reorders-trans : {n : ℕ} {q r s : TaskQueue} → Reorders n q r → Reorders n r s → Reorders n q s
Reorders-trans f g = record {
  times = λ a. g.times a ∙ f.times a;
  flags = λ a. g.flags a ∙ f.flags a;
  items = λ a. g.items a ∙ f.items a;
  size = g.size ∙ f.size;
  rest = λ c h. g.rest c h ∙ f.rest c h;
  notice = g.notice ∙ f.notice;
  indexed = λ v. g.indexed (f.indexed v);
}

-- The state after a swap within bounds.
abbrev pub swapped : TaskQueue → ℕ → ℕ → TaskQueue
swapped q i j = record q {
  heap = set (set q.heap i (item q.heap j)) j (item q.heap i);
  tasks = set_index (set_index q.tasks (item q.heap j) (some i)) (item q.heap i) (some j);
}

module _ (q : TaskQueue) (i j : ℕ) (hi : i < length q.heap) (hj : j < length q.heap) where
  pub before-some : before q i j ≡ some (ltb (key q i) (key q j))
  unfolding before
  before-some = rw (get_elem?-item q.heap i hi, get_elem?-item q.heap j hj)

  pub swap-some : swap q i j ≡ some (swapped q i j)
  unfolding swap
  swap-some = rw (get_elem?-item q.heap i hi, get_elem?-item q.heap j hj)

  pub item-swapped :
      (c : ℕ)
      → item (swapped q i j).heap c
        ≡ (if j == c then item q.heap i else if i == c then item q.heap j else item q.heap c)
  item-swapped c = rw (
    item-set (set q.heap i (item q.heap j)) j (item q.heap i) c (rw length-set hj),
    item-set q.heap i (item q.heap j) c hi,
  )

  times-swapped : (a : ℕ) → ((swapped q i j).tasks a).execute_at ≡ (q.tasks a).execute_at
  times-swapped a = ground arith

  pub key-swapped :
      (c : ℕ)
      → key (swapped q i j) c ≡ (if j == c then key q i else if i == c then key q j else key q c)
  key-swapped c = times-swapped _ ∙ ground (arith, item-swapped c)

  count-swapped : (a : ℕ) → count a (swapped q i j).heap ≡ count a q.heap
  count-swapped a = ground (
    arith,
    count-set a (set q.heap i (item q.heap j)) j (item q.heap i) (rw length-set hj),
    item-set q.heap i (item q.heap j) j hi,
    count-set a q.heap i (item q.heap j) hi,
  )

  swapped-IsIndexed : IsIndexed q → IsIndexed (swapped q i j)
  swapped-IsIndexed v c h =
      ground (arith, item-swapped c, v i hi, v j hj, v c (rw (length-set, length-set) at h))

  pub swapped-Reorders : (n : ℕ) → i < n → j < n → Reorders n q (swapped q i j)
  swapped-Reorders n p r = record {
    times = times-swapped;
    flags = λ a. ground arith;
    items = count-swapped;
    size = rw (length-set, length-set);
    rest = λ c h. ground (arith, item-swapped c);
    notice = refl;
    indexed = swapped-IsIndexed;
  }

-- The heap order and the tasks, after a run of `up` or `down`.
abbrev pub Restored : ℕ → ℕ → TaskQueue → TaskQueue → Type 0
Restored lo n q r = IsHeapFrom lo n r × Reorders n q r

-- A queue in order: the heap order, and every task knows its index.
pub record IsQueue (q : TaskQueue) : Type 0 where
  pub heap_order : IsHeapFrom 0 (length q.heap) q
  pub indexed : IsIndexed q

-- `r` is a queue in order that holds exactly the tasks of the list.
pub record Holds (q : TaskQueue) (tasks : List ℕ) (r : TaskQueue) : Type 0 where
  pub queue : IsQueue r
  pub items : (a : ℕ) → count a r.heap ≡ count a tasks
  pub times : (a : ℕ) → (r.tasks a).execute_at ≡ (q.tasks a).execute_at
  pub flags : (a : ℕ) → (r.tasks a).cancelled ≡ (q.tasks a).cancelled
