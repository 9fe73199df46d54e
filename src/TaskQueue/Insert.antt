-- ===== src/TaskQueue/Insert.antt =====
-- task.go: `up`, and `push` with it.
use pecs.Prelude.{
  ℕ, zero, suc, ◌+◌, ◌≤◌, ◌<◌, ◌≡◌, refl, ◌∙◌, ◌≢◌, inl, inr, Bool-cases, some, [], ◌∷◌, ◌++◌,
  arith, ltb, ◌==◌, length, length-append, length-set, count, count-append,
}
use pecs.Prelude.Items.{item-append, item-append_last, count-item}
use pecs.Prelude.Partial.{Yields, yields, Yields-mono, Yields-split}
use pecs.TaskQueue.{TaskQueue, set_index, parent, up_loop, up, push_heap}
use pecs.TaskQueue.Heap.{
  key, IsIndexed, Restored, IsQueue, Holds, Reorders-refl, Reorders-trans, swapped, before-some,
  swap-some, key-swapped, swapped-Reorders,
}

-- The heap is in order but for the edge above `i`, and may be mended by moving `i` up.
record IsLowAt (i : ℕ) (q : TaskQueue) : Type 0 where
  within : i < length q.heap
  others : (c : ℕ) → 0 < c → c < length q.heap → c ≢ i → key q (parent c) ≤ key q c
  past : (c : ℕ) → 0 < c → c < length q.heap → parent c ≡ i → 0 < i → key q (parent i) ≤ key q c

lift-IsLowAt :
    (q : TaskQueue) (i : ℕ)
    → IsLowAt i q
    → 0 < i
    → key q i < key q (parent i)
    → IsLowAt (parent i) (swapped q i (parent i))
lift-IsLowAt q i v pos less =
    let key_at = key-swapped q i (parent i) v.within (omega (arith, v.within)) in
    let same_size : length (swapped q i (parent i)).heap ≡ length q.heap =
      rw (length-set, length-set) in
    record {
      within = omega (arith, same_size, v.within);
      others = λ c p h n.
          ground (arith, key_at c, key_at (parent c), v.others c, v.past c, v.others i, same_size);
      past = λ c p h e pos'.
          ground (
            arith,
            key_at c,
            key_at (parent (parent i)),
            v.others c,
            v.others (parent i),
            same_size,
          );
    }

up_loop_restores :
    (k n : ℕ) (q : TaskQueue) (i : ℕ)
    → length q.heap ≡ n
    → i < k
    → IsLowAt i q
    → Yields (Restored 0 n q) (up_loop k q i)
unfolding up_loop
up_loop_restores zero n q i e f v = absurd (omega arith)
up_loop_restores (suc k) n q i e f v =
    let above : parent i < length q.heap = omega (arith, v.within) in
    let moved =
      swapped-Reorders q i (parent i) v.within above n (omega (arith, v.within)) (omega arith) in
    rw (before-some q i (parent i) v.within above, swap-some q i (parent i) v.within above)
      (Yields-split (parent i == i)
        (λ root. yields ((λ c p h l. v.others c p (omega arith) (ground arith)), Reorders-refl n q))
        (λ inner.
          Yields-split (ltb (key q i) (key q (parent i)))
            (λ less.
              Yields-mono
                (up_loop_restores k n (swapped q i (parent i)) (parent i) (moved.size ∙ e)
                  (ground arith) (lift-IsLowAt q i v (ground arith) (ground arith)))
                (λ r s. (s.0, Reorders-trans moved s.1)))
            (λ fits. yields ((λ c p h l. ground (arith, v.others c)), Reorders-refl n q))))

up_restores : (q : TaskQueue) (i : ℕ) → IsLowAt i q → Yields (Restored 0 (length q.heap) q) (up q i)
unfolding up
up_restores q i v = up_loop_restores (i + 1) (length q.heap) q i refl (omega arith) v

-- The state that `push` hands to `up`.
abbrev appended : TaskQueue → ℕ → TaskQueue
appended q task = record q {
  heap = q.heap ++ task ∷ [];
  tasks = set_index q.tasks task (some (length q.heap));
}

appended-key : (q : TaskQueue) (task c : ℕ) → c < length q.heap → key (appended q task) c ≡ key q c
appended-key q task c h = ground (arith, item-append q.heap (task ∷ []) c h)

appended-IsLowAt :
    (q : TaskQueue) (task : ℕ) → IsQueue q → IsLowAt (length q.heap) (appended q task)
appended-IsLowAt q task v =
    let size = length-append q.heap (task ∷ []) in
    record {
      within = omega (arith, size);
      others = λ c p h n.
          ground
            (arith, size, appended-key q task c, appended-key q task (parent c), v.heap_order c);
      past = λ c p h e pos. absurd (omega (arith, size));
    }

-- A task that is not in the heap yet gets the last index.
appended-IsIndexed :
    (q : TaskQueue) (task : ℕ) → IsIndexed q → count task q.heap ≡ 0 → IsIndexed (appended q task)
appended-IsIndexed q task v fresh i h = elim (Bool-cases (i == length q.heap)) [
  | inl last ↦
      let e : i ≡ length q.heap = ground arith in
      rw (e, item-append_last q.heap task) (ground arith)
  | inr before ↦
      let l : i < length q.heap = ground (arith, length-append q.heap (task ∷ [])) in
      ground (arith, item-append q.heap (task ∷ []) i l, v i l, count-item q.heap i l)
]

-- `push` of a task that is not in the heap yet adds it and keeps the queue in order.
pub push_heap_lem :
    (q : TaskQueue) (task : ℕ)
    → IsQueue q
    → count task q.heap ≡ 0
    → Yields (Holds q (task ∷ q.heap)) (push_heap q task)
unfolding push_heap
push_heap_lem q task v fresh =
    Yields-mono (up_restores (appended q task) (length q.heap) (appended-IsLowAt q task v))
      λ r (order, same). record {
        queue = record {
          heap_order = rw same.size order;
          indexed = same.indexed (appended-IsIndexed q task v.indexed fresh);
        };
        items = λ a. ground (arith, same.items a, count-append a q.heap (task ∷ []));
        times = λ a. ground (arith, same.times a);
        flags = λ a. ground (arith, same.flags a);
      }
