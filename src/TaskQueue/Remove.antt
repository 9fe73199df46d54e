-- ===== src/TaskQueue/Remove.antt =====
-- task.go: `pop` and `Peek`.
use pecs.Prelude.{
  ℕ, zero, suc, ◌-◌, ◌≤◌, ◌<◌, ◌≡◌, refl, sym, ap, ◌∙◌, false, Option, none, some, List, [], ◌∷◌,
  arith, ◌==◌, length, take, count, count-append,
}
use pecs.Prelude.Items.{item, get_elem?-item, item-take, length-take, take_last, index_of_count}
use pecs.Prelude.Partial.{Yields, yields, Yields-then}
use pecs.TaskQueue.{TaskQueue, set_index, parent, pop, peek}
use pecs.TaskQueue.Heap.{
  key, IsHeapFrom, IsIndexed, IsQueue, Restored, swapped, item-swapped, swap-some, key-swapped,
  swapped-Reorders,
}
use pecs.TaskQueue.Sink.{IsHighAt, down_restores}

root_earliest_below :
    (k : ℕ) (q : TaskQueue) (i : ℕ)
    → IsHeapFrom 0 (length q.heap) q
    → i < k
    → i < length q.heap
    → key q 0 ≤ key q i
root_earliest_below zero q i h f p = absurd (omega arith)
root_earliest_below (suc k) q i h f p = ground (arith, h i, root_earliest_below k q (parent i) h)

-- The root is due no later than any task of the heap.
pub root_earliest :
    (q : TaskQueue) (a : ℕ) → IsQueue q → 0 < count a q.heap → key q 0 ≤ (q.tasks a).execute_at
root_earliest q a v held =
    let (i, l, e) = index_of_count a q.heap held in
    rw (← e) (root_earliest_below (suc i) q i v.heap_order (omega arith) l)

-- `pop` took a task that is due first, and left the others in order.
pub record Popped (q : TaskQueue) (p : ℕ × TaskQueue) : Type 0 where
  pub queue : IsQueue p.1
  pub items : (a : ℕ) → count a q.heap ≡ count a (p.0 ∷ p.1.heap)
  pub first : (a : ℕ) → 0 < count a q.heap → (q.tasks p.0).execute_at ≤ (q.tasks a).execute_at
  pub times : (a : ℕ) → (p.1.tasks a).execute_at ≡ (q.tasks a).execute_at
  pub flags : (a : ℕ) → (p.1.tasks a).cancelled ≡ (q.tasks a).cancelled
  pub no_index : (p.1.tasks p.0).index ≡ none
  pub size : length q.heap ≡ suc (length p.1.heap)
  pub root : p.0 ≡ item q.heap 0

item_first : (x : ℕ) (h : List ℕ) → item (x ∷ h) 0 ≡ x
unfolding item
item_first x h = refl

-- The state that `pop` ends in, from the state after `down`.
abbrev shortened : ℕ → TaskQueue → TaskQueue
shortened n s = record s { heap = take n s.heap; tasks = set_index s.tasks (item s.heap n) none }

shortened-IsIndexed :
    (n : ℕ) (s : TaskQueue) → length s.heap ≡ suc n → IsIndexed s → IsIndexed (shortened n s)
shortened-IsIndexed n s e v i h =
    let l : i < n = omega (arith, length-take n s.heap (omega arith)) in
    ground (arith, item-take n s.heap i l, v i (omega arith), v n (omega arith))

shortened-heap_order :
    (n : ℕ) (s : TaskQueue)
    → length s.heap ≡ suc n
    → IsHeapFrom 0 n s
    → IsHeapFrom 0 (length (take n s.heap)) (shortened n s)
shortened-heap_order n s e h c p l le =
    let l' : c < n = omega (arith, length-take n s.heap (omega arith)) in
    ground (arith, item-take n s.heap c l', item-take n s.heap (parent c) (omega arith), h c p l')

shortened-count :
    (n : ℕ) (s : TaskQueue) (a : ℕ)
    → length s.heap ≡ suc n
    → count a s.heap ≡ count a (item s.heap n ∷ take n s.heap)
shortened-count n s a e =
    ap (count a) (sym (take_last n s.heap e))
    ∙ ground (arith, count-append a (take n s.heap) (item s.heap n ∷ []))

swapped_root-IsHighAt :
    (q : TaskQueue) (n : ℕ)
    → length q.heap ≡ suc n
    → IsHeapFrom 0 (length q.heap) q
    → IsHighAt 0 n 0 (swapped q 0 n)
swapped_root-IsHighAt q n e h =
    let key_at = key-swapped q 0 n (omega arith) (omega arith) in
    record {
      others = λ c p l _ m. ground (arith, key_at c, key_at (parent c), h c);
      past = λ c p l m pos _. absurd (omega arith);
    }

module _ (q : TaskQueue) (n : ℕ) (v : IsQueue q) (e : length q.heap ≡ suc n) where
  -- What `pop` returns once `down` has ended in `s`.
  Popped-of_sunk :
      (s : TaskQueue) → Restored 0 n (swapped q 0 n) s → Popped q (item s.heap n, shortened n s)
  Popped-of_sunk s (order, same) =
      let full =
        swapped-Reorders q 0 n (omega arith) (omega arith) (suc n) (omega arith) (omega arith) in
      let size : length s.heap ≡ suc n = same.size ∙ full.size ∙ e in
      let top : item s.heap n ≡ item q.heap 0 =
        same.rest n (omega arith)
        ∙ ground (arith, item-swapped q 0 n (omega arith) (omega arith) n) in
      record {
        queue = record {
          heap_order = shortened-heap_order n s size order;
          indexed = shortened-IsIndexed n s size (same.indexed (full.indexed v.indexed));
        };
        items = λ a. sym (full.items a) ∙ sym (same.items a) ∙ shortened-count n s a size;
        first = λ a held. rw top (root_earliest q a v held);
        times = λ a. ground (arith, same.times a, full.times a);
        flags = λ a. ground (arith, same.flags a, full.flags a);
        no_index = ground arith;
        size = omega (arith, size, length-take n s.heap (omega arith));
        root = top;
      }

  pop_at : Yields (Popped q) (pop q)
  unfolding pop
  pop_at =
      let last : length q.heap - 1 ≡ n = omega arith in
      let nonempty : (length q.heap == 0) ≡ false = ground arith in
      let full =
        swapped-Reorders q 0 n (omega arith) (omega arith) (suc n) (omega arith) (omega arith) in
      rw (nonempty, last, swap-some q 0 n (omega arith) (omega arith))
        (Yields-then
          (down_restores 0 n (swapped q 0 n) 0 (omega (arith, full.size))
            (swapped_root-IsHighAt q n e v.heap_order))
          λ s t.
            let size : length s.heap ≡ suc n = t.1.size ∙ full.size ∙ e in
            rw (get_elem?-item s.heap n (omega arith)) (yields (Popped-of_sunk s t)))

-- `pop` on a heap that is not empty returns a task that is due first, and keeps the others in order.
pub pop_lem : (q : TaskQueue) → IsQueue q → 0 < length q.heap → Yields (Popped q) (pop q)
pop_lem q v h = pop_at q (length q.heap - 1) v (omega arith)

-- On an empty heap it panics.
pub pop_empty : (q : TaskQueue) → q.heap ≡ [] → pop q ≡ none
unfolding pop
pop_empty q e = rw e

-- What an answer of `Peek` says.
abbrev pub Peeked : TaskQueue → Option ℕ → Type 0
Peeked q none = q.heap ≡ []
Peeked q (some t) =
    ((a : ℕ) × (0 < count a q.heap) × ((q.tasks a).execute_at ≡ t))
    × ((a : ℕ) → 0 < count a q.heap → t ≤ (q.tasks a).execute_at)

-- `Peek` returns the least due time, and fails on the empty heap only.
pub peek_lem : (q : TaskQueue) → IsQueue q → Peeked q (peek q)
unfolding peek
peek_lem q v = by_heap q.heap refl
  where
    by_heap :
        (h : List ℕ)
        → q.heap ≡ h
        → Peeked q (elim q.heap [ [] ↦ none | x ∷ _ ↦ some (q.tasks x).execute_at ])
    by_heap [] e = rw e refl
    by_heap (x ∷ h) e =
        let top : item q.heap 0 ≡ x = rw e (item_first x h) in
        rw e
          ((x, ground arith, refl), λ a held. ground (arith, top, root_earliest q a v (rw e held)))
