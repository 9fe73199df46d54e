-- ===== src/Scheduler.antt =====
-- scheduler.go and stage.go: the loops of the scheduler, their timing and their batches.
-- Go's sort.Slice is not stable, so the sort is a parameter that is given the comparison; the
-- theorems use only that it returns a permutation. A duration is a number of nanoseconds, not
-- negative. A loop is one record; the lists of the source share its object.
pub mod Timing
pub mod Batches
pub mod Ticks
pub mod Worlds
mod Tests
use pecs.Prelude.{
  ℕ, zero, suc, ◌+◌, Bool, true, false, not, Option, none, some, List, [], ◌∷◌, ◌++◌, ltb, ◌==◌,
  if◌then◌else◌, any, length,
}
use pecs.Prelude.Partial.{◌>>=◌}
use pecs.Access.{AccessMeta, conflicts}

pub data Stage : Type 0 where
  before default after : Stage

-- loopState, with the fields of its meta that the scheduler reads. A name is its bytes.
pub record LoopState : Type 0 where
  pub name : List ℕ
  pub access : AccessMeta
  pub is_global : Bool
  pub interval : ℕ
  pub last_run : ℕ
  pub next_run : ℕ

-- ShouldRun
unfoldable pub should_run : LoopState → ℕ → Bool
should_run l now = if l.interval == 0 then true else not (ltb now l.next_run)

-- MarkRun
unfoldable pub mark_run : LoopState → ℕ → LoopState
mark_run l now =
    let ran = record l { last_run = now } in
    if ltb 0 l.interval
    then (let next = l.next_run + l.interval in
        record ran { next_run = if ltb next now then now + l.interval else next })
    else ran

-- `<` on strings, byte by byte.
unfoldable pub name_less : List ℕ → List ℕ → Bool
name_less [] [] = false
name_less [] (y ∷ ys) = true
name_less (x ∷ xs) [] = false
name_less (x ∷ xs) (y ∷ ys) =
    let rest = name_less xs ys in if ltb x y then true else if ltb y x then false else rest

-- The inner loop of rebuildBatches: does the candidate conflict with the batch so far?
unfoldable pub conflicts_with : LoopState → List LoopState → Bool
conflicts_with candidate batch = any (λ existing. conflicts candidate.access existing.access) batch

-- One round of rebuildBatches over the remaining loops.
unfoldable pub fill_batch :
    List LoopState → List LoopState → List LoopState → List LoopState × List LoopState
fill_batch [] batch next = (batch, next)
fill_batch (c ∷ rest) batch next = elim (conflicts_with c batch) [
  | true ↦ fill_batch rest batch (next ++ c ∷ [])
  | false ↦ fill_batch rest (batch ++ c ∷ []) next
]

-- Its loop `for len(remaining) > 0`; `none` is the model's fuel running out.
unfoldable pub fill_batches : ℕ → List LoopState → Option (List (List LoopState))
fill_batches zero [] = some []
fill_batches zero (c ∷ rest) = none
fill_batches (suc k) [] = some []
fill_batches (suc k) (c ∷ rest) =
    let (batch, next) = fill_batch (c ∷ rest) [] [] in
    fill_batches k next >>= λ batches. some (batch ∷ batches)

pub record Scheduler : Type 0 where
  pub loops : Stage → List LoopState
  pub batches : Stage → List (List LoopState)
  pub global_loops : Stage → List LoopState
  pub global_batches : Stage → List (List LoopState)

abbrev pub same_stage : Stage → Stage → Bool
same_stage before before = true
same_stage default default = true
same_stage after after = true
same_stage _ _ = false

abbrev pub update {ℓ} : {A : Type ℓ} → (Stage → A) → Stage → A → Stage → A
update f stage v s = if same_stage s stage then v else f s

module _ (sort : (LoopState → LoopState → Bool) → List LoopState → List LoopState) where
  abbrev pub sort_by_name : List LoopState → List LoopState
  sort_by_name = sort (λ a b. name_less a.name b.name)

  -- rebuildBatches. The sort is in place, so the loops of the stage are sorted too.
  unfoldable pub rebuild_batches : Scheduler → Stage → Bool → Option Scheduler
  rebuild_batches s stage global =
      let loops = if global then s.global_loops stage else s.loops stage in
      let sorted = sort_by_name loops in
      let rebuilt = fill_batches (length sorted) sorted in
      if length loops == 0
      then some (
          if global
          then record s { global_batches = update s.global_batches stage [] }
          else record s { batches = update s.batches stage [] })
      else rebuilt >>= λ batches. some (
          if global
          then record s {
            global_loops = update s.global_loops stage sorted;
            global_batches = update s.global_batches stage batches;
          }
          else record s {
            loops = update s.loops stage sorted;
            batches = update s.batches stage batches;
          })

  -- addLoop, whose state is built with `nextRun: time.Now()`.
  unfoldable pub add_loop :
      Scheduler
      → (name : List ℕ) → AccessMeta
      → (is_global : Bool) → (interval : ℕ) → Stage
      → (now : ℕ) → Option Scheduler
  unfolding rebuild_batches
  add_loop s name access is_global interval stage now =
      let state : LoopState = record {
        name = name;
        access = access;
        is_global = is_global;
        interval = interval;
        last_run = 0;
        next_run = now;
      } in
      if is_global
      then rebuild_batches
          (record s {
            global_loops = update s.global_loops stage (s.global_loops stage ++ state ∷ []);
          })
          stage true
      else rebuild_batches (record s { loops = update s.loops stage (s.loops stage ++ state ∷ []) })
          stage false
