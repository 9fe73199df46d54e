-- ===== src/TaskQueue/Sink.antt =====
-- task.go: `down`, which the removal of the root and the rebuilding of the heap share.
use pecs.Prelude.{
  ℕ, zero, suc, ◌+◌, ◌-◌, ◌*◌, ◌≤◌, ◌<◌, ◌≡◌, refl, ◌∙◌, ◌≢◌, ◌⊎◌, inl, inr, Bool-cases, arith, ltb,
  leb, if◌then◌else◌, length,
}
use pecs.Prelude.Partial.{Yields, yields, Yields-mono, Yields-then, Yields-split}
use pecs.TaskQueue.{TaskQueue, parent, earlier_child, down_loop, down, heapify}
use pecs.TaskQueue.Heap.{
  key, IsHeapFrom, Restored, Reorders-refl, Reorders-trans, swapped, before-some, swap-some,
  key-swapped, swapped-Reorders,
}

-- The first `n` entries are in order from `lo` on but for the edges below `i`, and may be mended
-- by moving `i` down.
pub record IsHighAt (lo n i : ℕ) (q : TaskQueue) : Type 0 where
  pub others : (c : ℕ) → 0 < c → c < n → lo ≤ parent c → parent c ≢ i → key q (parent c) ≤ key q c
  pub past :
      (c : ℕ) → 0 < c → c < n → parent c ≡ i → 0 < i → lo ≤ parent i → key q (parent i) ≤ key q c

-- `j` is the child of `i` that is due first.
record IsEarlierChild (q : TaskQueue) (n i j : ℕ) : Type 0 where
  inside : j < n
  child : (j ≡ 2 * i + 1) ⊎ (j ≡ 2 * i + 2)
  least : (c : ℕ) → 0 < c → c < n → parent c ≡ i → key q j ≤ key q c

earlier_child_lem :
    (q : TaskQueue) (n i : ℕ)
    → n ≤ length q.heap
    → 2 * i + 1 < n
    → Yields (IsEarlierChild q n i) (earlier_child q (2 * i + 1) n)
unfolding earlier_child
earlier_child_lem q n i le h = elim (Bool-cases (ltb (2 * i + 1 + 1) n)) [
  | inr only ↦ rw only (
      yields (record {
        inside = h;
        child = inl refl;
        least = λ c p l e. let only_one : c ≡ 2 * i + 1 = ground arith in rw only_one (omega arith);
      }))
  | inl both ↦
      rw (both, before-some q (2 * i + 1 + 1) (2 * i + 1) (ground arith) (omega arith))
        (yields (record {
          inside = ground arith;
          child = ground arith;
          least = λ c p l e. child_case c (omega arith);
        }))
]
  where
    child_case :
        (c : ℕ)
        → (c ≡ 2 * i + 1) ⊎ (c ≡ 2 * i + 1 + 1)
        → key q
            (if ltb (key q (2 * i + 1 + 1)) (key q (2 * i + 1)) then 2 * i + 1 + 1 else 2 * i + 1)
          ≤ key q c
    child_case c (inl e) = rw e (ground arith)
    child_case c (inr e) = rw e (ground arith)

sink-IsHighAt :
    (lo n i j : ℕ) (q : TaskQueue)
    → n ≤ length q.heap
    → IsHighAt lo n i q
    → IsEarlierChild q n i j
    → key q j < key q i
    → IsHighAt lo n j (swapped q i j)
sink-IsHighAt lo n i j q le v s less =
    let key_at = key-swapped q i j (omega (arith, s.child, s.inside)) (omega (arith, s.inside)) in
    record {
      others = λ c p h l m.
          ground (arith, key_at c, key_at (parent c), v.others c, v.past j, s.least c, s.child);
      past = λ c p h e pos l. ground (arith, key_at c, key_at (parent j), v.others c, s.child);
    }

down_loop_restores :
    (k lo n : ℕ) (q : TaskQueue) (i : ℕ)
    → n ≤ length q.heap
    → n - i < k
    → IsHighAt lo n i q
    → Yields (Restored lo n q) (down_loop k q i n)
unfolding down_loop
down_loop_restores zero lo n q i le f v = absurd (omega arith)
down_loop_restores (suc k) lo n q i le f v =
    Yields-split (leb n (2 * i + 1))
      (λ leaf. yields ((λ c p h l. v.others c p h l (ground arith)), Reorders-refl n q))
      (λ inner. Yields-then (earlier_child_lem q n i le (ground arith)) λ j s.
        let hi : i < n = omega (arith, s.child, s.inside) in
        let moved = swapped-Reorders q i j (omega arith) (omega (arith, s.inside)) n hi s.inside in
        rw
          (
            before-some q j i (omega (arith, s.inside)) (omega arith),
            swap-some q i j (omega arith) (omega (arith, s.inside)),
          )
          (Yields-split (ltb (key q j) (key q i))
            (λ less.
              Yields-mono
                (down_loop_restores k lo n (swapped q i j) j (omega (arith, moved.size))
                  (omega (arith, s.child, s.inside))
                  (sink-IsHighAt lo n i j q le v s (ground arith)))
                (λ r t. (t.0, Reorders-trans moved t.1)))
            (λ fits.
              yields ((λ c p h l. ground (arith, v.others c, s.least c)), Reorders-refl n q))))

-- `down` mends a heap whose entry at `i` is too late, over the first `n` entries.
pub down_restores :
    (lo n : ℕ) (q : TaskQueue) (i : ℕ)
    → n ≤ length q.heap
    → IsHighAt lo n i q
    → Yields (Restored lo n q) (down q i n)
unfolding down
down_restores lo n q i le v = down_loop_restores (n + 1) lo n q i le (omega arith) v

-- The last loop of compactHeap turns any order of the entries into a heap.
pub heapify_restores :
    (i n : ℕ) (q : TaskQueue)
    → length q.heap ≡ n
    → IsHeapFrom i n q
    → Yields (Restored 0 n q) (heapify i q)
unfolding heapify
heapify_restores zero n q e h = yields (h, Reorders-refl n q)
heapify_restores (suc i) n q e h = rw e (
    Yields-then
      (down_restores i n q i (omega arith) (record {
        others = λ c p l le ne. h c p l (omega arith);
        past = λ c p l eq pos le. absurd (omega arith);
      }))
      λ r s.
        Yields-mono (heapify_restores i n r (s.1.size ∙ e) s.0)
          λ t u. (u.0, Reorders-trans s.1 u.1))
