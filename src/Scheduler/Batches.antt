-- ===== src/Scheduler/Batches.antt =====
-- scheduler.go: `rebuildBatches` partitions the loops of a stage into batches without conflicts.
use mathlib.Core.List.{
  flatten, append_assoc, append-nil, Mem, mem-cons, not-mem-nil, Perm, perm_middle,
}
use mathlib.Core.Logic.Or
use mathlib.Core.Bool.{Bool-set}
use mathlib.Core.List.Perm
use native.Mathlib.Nat.{le_refl}
use pecs.Prelude.{
  ℕ, zero, suc, ◌+◌, ◌≤◌, ◌<◌, ◌≡◌, refl, ◌∙◌, inl, inr, Bool-cases, Bool, true, false, not, List,
  [], ◌∷◌, ◌++◌, arith, any-append, length, length-append, All, All-append, ◌==◌, if◌then◌else◌,
}
use pecs.Prelude.Partial.{Yields, yields, Yields-then}
use pecs.Access.{conflicts}
use pecs.Scheduler.{
  LoopState, Scheduler, Stage, same_stage, conflicts_with, fill_batch, fill_batches,
  rebuild_batches, sort_by_name, before, default, after,
}

-- No loop of the batch conflicts with an earlier one.
abbrev pub IsIndependent : List LoopState → Type 0
IsIndependent [] = Unit
IsIndependent (x ∷ xs) = All (λ y. conflicts y.access x.access ≡ false) xs × IsIndependent xs

conflicts_with-append :
    (c : LoopState) (xs ys : List LoopState)
    → conflicts_with c xs ≡ true
    → conflicts_with c (xs ++ ys) ≡ true
unfolding conflicts_with
conflicts_with-append c xs ys h = any-append (λ e. conflicts c.access e.access) xs ys ∙ ground arith

-- A loop that does not conflict with a batch joins it.
join-IsIndependent :
    (c : LoopState) (batch : List LoopState)
    → IsIndependent batch
    → conflicts_with c batch ≡ false
    → IsIndependent (batch ++ c ∷ [])
unfolding conflicts_with
join-IsIndependent c [] v h = (tt, tt)
join-IsIndependent c (x ∷ batch) v h = (
  All-append _ batch (c ∷ []) v.0 (ground arith, tt),
  join-IsIndependent c batch v.1 (ground arith),
)

-- What one round makes of the loops still to place, the batch and the loops put off.
record Filled (rest batch next : List LoopState) (p : List LoopState × List LoopState)
    : Type 0 where
  perm : Perm (p.0 ++ p.1) (batch ++ (next ++ rest))
  independent : IsIndependent p.0
  put_off : All (λ c. conflicts_with c p.0 ≡ true) p.1
  size : length p.0 + length p.1 ≡ length batch + length next + length rest
  grows : length batch ≤ length p.0

fill_first :
    (c : LoopState) (rest : List LoopState)
    → fill_batch (c ∷ rest) [] [] ≡ fill_batch rest (c ∷ []) []
unfolding fill_batch conflicts_with
fill_first c rest = refl

fill_batch_lem :
    (rest batch next : List LoopState)
    → IsIndependent batch
    → ((more : List LoopState) → All (λ c. conflicts_with c (batch ++ more) ≡ true) next)
    → Filled rest batch next (fill_batch rest batch next)
unfolding fill_batch
fill_batch_lem [] batch next v w = record {
  perm = rw append-nil Perm.rfl;
  independent = v;
  put_off = rw append-nil at (w []);
  size = omega arith;
  grows = omega arith;
}
fill_batch_lem (c ∷ rest) batch next v w = elim (Bool-cases (conflicts_with c batch)) [
  | inl clash ↦
      let f = fill_batch_lem rest batch (next ++ c ∷ []) v (λ more.
        All-append _ next (c ∷ []) (w more) (conflicts_with-append c batch more clash, tt)) in
      rw (clash, fill_batch)
        (record {
          perm = rw (append_assoc next (c ∷ []) rest) at f.perm;
          independent = f.independent;
          put_off = f.put_off;
          size = omega (arith, f.size, length-append next (c ∷ []));
          grows = f.grows;
        })
  | inr free ↦
      let f =
        fill_batch_lem rest (batch ++ c ∷ []) next (join-IsIndependent c batch v free)
          (λ more. rw (append_assoc batch (c ∷ []) more) (w (c ∷ more))) in
      rw (free, fill_batch)
        (record {
          perm =
              Perm.trans (rw (append_assoc batch (c ∷ []) (next ++ rest)) at f.perm)
                (Perm.append_left batch (Perm.symm (perm_middle next rest)));
          independent = f.independent;
          put_off = f.put_off;
          size = omega (arith, f.size, length-append batch (c ∷ []));
          grows = omega (arith, f.grows, length-append batch (c ∷ []));
        })
]

-- The batches are not empty, free of conflicts inside, and no loop could have run in an earlier
-- batch: it conflicts with a member of each.
abbrev pub IsBatching : List (List LoopState) → Type 0
IsBatching [] = Unit
IsBatching (b ∷ bs) =
    (0 < length b)
    × IsIndependent b
    × ((c : LoopState) → Mem c (flatten bs) → conflicts_with c b ≡ true)
    × IsBatching bs

All-mem {ℓ} :
    {A : Type ℓ} (p : A → Bool) (c : A) (xs : List A)
    → All (λ x. p x ≡ true) xs
    → Mem c xs
    → p c ≡ true
All-mem p c [] h m = absurd (not-mem-nil m)
All-mem p c (x ∷ xs) h m =
    Or.elim (Bool-set _ _) (mem-cons.0 m) (λ e. rw e h.0) (All-mem p c xs h.1)

-- `batches` holds the loops, each as often as the list, in a batching.
pub record Batched (loops : List LoopState) (batches : List (List LoopState)) : Type 0 where
  pub perm : Perm (flatten batches) loops
  pub batching : IsBatching batches

none-Batched : Batched [] []
unfolding flatten
none-Batched = record { perm = Perm.nil; batching = tt }

fill_batches_lem :
    (k : ℕ) (loops : List LoopState)
    → length loops ≤ k
    → Yields (Batched loops) (fill_batches k loops)
unfolding fill_batches flatten
fill_batches_lem zero [] h = yields none-Batched
fill_batches_lem zero (c ∷ rest) h = absurd (omega arith)
fill_batches_lem (suc k) [] h = yields none-Batched
fill_batches_lem (suc k) (c ∷ rest) h =
    let p = fill_batch (c ∷ rest) [] [] in
    let f : Filled rest (c ∷ []) [] p =
      rw (fill_first c rest) (fill_batch_lem rest (c ∷ []) [] (tt, tt) (λ more. tt)) in
    Yields-then (fill_batches_lem k p.1 (omega (arith, f.size, f.grows))) λ bs b. yields (record {
      perm = Perm.trans (Perm.append_left p.0 b.perm) f.perm;
      batching = (
        omega (arith, f.grows),
        f.independent,
        λ d m. All-mem (λ x. conflicts_with x p.0) d p.1 f.put_off (Perm.subset b.perm d m),
        b.batching,
      );
    })

same_stage_refl : (stage : Stage) → same_stage stage stage ≡ true
same_stage_refl before = refl
same_stage_refl default = refl
same_stage_refl after = refl

empty-Batched : (loops : List LoopState) → (length loops == 0) ≡ true → Batched loops []
empty-Batched [] h = none-Batched
empty-Batched (c ∷ rest) h = absurd (ground arith)

resorted :
    {loops sorted : List LoopState} {bs : List (List LoopState)}
    → Batched sorted bs
    → Perm sorted loops
    → Batched loops bs
resorted b p = record { perm = Perm.trans b.perm p; batching = b.batching }

-- The loops that rebuildBatches reads, and the batches that it writes.
abbrev pub loops_of : Bool → Scheduler → Stage → List LoopState
loops_of global s stage = if global then s.global_loops stage else s.loops stage

abbrev pub batches_of : Bool → Scheduler → Stage → List (List LoopState)
batches_of global s stage = if global then s.global_batches stage else s.batches stage

-- What rebuildBatches leaves: the loops of the stage in batches, and the rest as it was.
pub record Rebuilt (s : Scheduler) (stage : Stage) (global : Bool) (r : Scheduler) : Type 0 where
  pub same_loops : Perm (loops_of global r stage) (loops_of global s stage)
  pub batched : Batched (loops_of global s stage) (batches_of global r stage)
  pub other_stages :
      (t : Stage) → same_stage t stage ≡ false → batches_of global r t ≡ batches_of global s t
  pub other_kind : (t : Stage) → batches_of (not global) r t ≡ batches_of (not global) s t

-- Over a sort that returns a permutation:
module _ (sort : (LoopState → LoopState → Bool) → List LoopState → List LoopState)
    (sort-perm : (less : LoopState → LoopState → Bool) (l : List LoopState)
      → Perm (sort less l) l) where
  -- rebuildBatches ends, whatever the loops are.
  pub rebuild_batches_lem :
      (s : Scheduler) (stage : Stage) (global : Bool)
      → Yields (Rebuilt s stage global) (rebuild_batches sort s stage global)
  unfolding rebuild_batches
  rebuild_batches_lem s stage true = elim (Bool-cases (length (s.global_loops stage) == 0)) [
    | inl none_left ↦ rw none_left (
        yields (record {
          same_loops = Perm.rfl;
          batched = rw (same_stage_refl stage) (empty-Batched (s.global_loops stage) none_left);
          other_stages = λ t n. rw n;
          other_kind = λ t. refl;
        }))
    | inr some_left ↦ rw some_left (
        Yields-then (fill_batches_lem _ (sort_by_name sort (s.global_loops stage)) (le_refl _))
          λ bs b. yields (record {
            same_loops = rw (same_stage_refl stage) (sort-perm _ _);
            batched = rw (same_stage_refl stage) (resorted b (sort-perm _ _));
            other_stages = λ t n. rw n;
            other_kind = λ t. refl;
          }))
  ]
  rebuild_batches_lem s stage false = elim (Bool-cases (length (s.loops stage) == 0)) [
    | inl none_left ↦ rw none_left (
        yields (record {
          same_loops = Perm.rfl;
          batched = rw (same_stage_refl stage) (empty-Batched (s.loops stage) none_left);
          other_stages = λ t n. rw n;
          other_kind = λ t. refl;
        }))
    | inr some_left ↦ rw some_left (
        Yields-then (fill_batches_lem _ (sort_by_name sort (s.loops stage)) (le_refl _)) λ bs b.
          yields (record {
            same_loops = rw (same_stage_refl stage) (sort-perm _ _);
            batched = rw (same_stage_refl stage) (resorted b (sort-perm _ _));
            other_stages = λ t n. rw n;
            other_kind = λ t. refl;
          }))
  ]
