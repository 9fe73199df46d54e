-- ===== src/Scheduler/Timing.antt =====
-- scheduler.go: `ShouldRun` and `MarkRun`.
use pecs.Prelude.{ℕ, ◌+◌, ◌≤◌, ◌<◌, ◌≡◌, ◌↔◌, ◌⊎◌, true, arith}
use pecs.Scheduler.{LoopState, should_run, mark_run}

-- A loop without interval always runs; any other runs exactly when its time has come.
pub should_run_iff :
    (l : LoopState) (now : ℕ) → (should_run l now ≡ true) ↔ ((l.interval ≡ 0) ⊎ (l.next_run ≤ now))
unfolding should_run
should_run_iff l now = ground arith

-- After a run at `now` of a loop that was due, the next run is not before `now` and at most one
-- interval away; it is one interval after the last planned time, unless the loop is behind by more
-- than an interval, and then one interval after `now`. Nothing else of the loop changes.
pub mark_run_plans :
    (l : LoopState) (now : ℕ)
    → 0 < l.interval
    → should_run l now ≡ true
    → (now ≤ (mark_run l now).next_run)
      × ((mark_run l now).next_run ≤ now + l.interval)
      × (now ≤ l.next_run + l.interval → (mark_run l now).next_run ≡ l.next_run + l.interval)
      × (l.next_run + l.interval < now → (mark_run l now).next_run ≡ now + l.interval)
      × ((mark_run l now).last_run ≡ now)
      × ((mark_run l now).interval ≡ l.interval)
unfolding should_run mark_run
mark_run_plans l now pos due =
    (ground arith, ground arith, λ h. ground arith, λ h. ground arith, ground arith, ground arith)

-- Between two runs at least one interval passes, counted from the planned time of the first: a loop
-- that ran at `now` is due again at `later` only if `later` is past the old plan by an interval.
pub mark_run_spacing :
    (l : LoopState) (now later : ℕ)
    → 0 < l.interval
    → should_run l now ≡ true
    → should_run (mark_run l now) later ≡ true
    → l.next_run + l.interval ≤ later
unfolding should_run mark_run
mark_run_spacing l now later pos due again = ground arith
