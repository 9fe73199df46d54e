-- ===== src/Tasks/Placed.antt =====
-- scheduler.go: how executeTasksForStage groups the tasks by world.
use mathlib.Core.Bool.{false≢true, true≢false}
use pecs.Prelude.{
  ℕ, ◌≡◌, refl, sym, ◌∙◌, ap, ◌↔◌, ◌⊎◌, Bool, true, false, Option, none, some, List, [], ◌∷◌, ◌++◌,
  ◌==◌, if◌then◌else◌, arith, All, keep_if, Bool-cases, inl, inr,
}
use mathlib.Core.Option.{none-ne-some, some-injective}
use mathlib.Core.List.{append_assoc, append-nil}
use pecs.Relation.{is_closed}
use pecs.Tasks.{Runtime}
use pecs.Tasks.Execution.{
  TaskHost, Place, skipped, global, in_world, place_sessions, place_job, place_task, add_to_group,
  add_placed, group_tasks,
}

abbrev pub is_global_place : Place → Bool
is_global_place global = true
is_global_place _ = false

abbrev pub is_place_in : ℕ → Place → Bool
is_place_in w (in_world v) = v == w
is_place_in w _ = false

-- The group of a world.
abbrev pub group_of : ℕ → List (ℕ × List ℕ) → List ℕ
group_of w [] = []
group_of w ((v, tasks) ∷ groups) = if v == w then tasks else group_of w groups

module _ (host : TaskHost) where
  group_of-add_to_group :
      (w v task : ℕ) (groups : List (ℕ × List ℕ))
      → group_of w (add_to_group host v task groups)
        ≡ group_of w groups ++ (if v == w then task ∷ [] else [])
  unfolding add_to_group
  group_of-add_to_group w v task [] = refl
  group_of-add_to_group w v task ((x, tasks) ∷ groups) = elim (Bool-cases (x == v)) [
    | inl e ↦ let same : x ≡ v = ground (arith, e) in rw (e, sym same) (grown (x == w))
    | inr e ↦ elim (Bool-cases (x == w)) [
      | inl f ↦
          let other : (v == w) ≡ false = ground (arith, e, f) in
          rw (e, f, other) (sym (append-nil tasks))
      | inr f ↦ rw (e, f) (group_of-add_to_group w v task groups)
    ]
  ]
    where
      grown :
          (b : Bool)
          → (if b then tasks ++ task ∷ [] else group_of w groups)
            ≡ (if b then tasks else group_of w groups) ++ (if b then task ∷ [] else [])
      grown true = refl
      grown false = sym (append-nil (group_of w groups))

  -- What a task adds to the group of a world, and to the global tasks.
  group_of-add_placed :
      (w : ℕ) (p : Place) (task : ℕ) (g : List (ℕ × List ℕ) × List ℕ)
      → group_of w (add_placed host p task g).0
        ≡ group_of w g.0 ++ (if is_place_in w p then task ∷ [] else [])
  group_of-add_placed w skipped task (gs, globals) = sym (append-nil (group_of w gs))
  group_of-add_placed w global task (gs, globals) = sym (append-nil (group_of w gs))
  group_of-add_placed w (in_world v) task (gs, globals) = group_of-add_to_group w v task gs

  globals-add_placed :
      (p : Place) (task : ℕ) (g : List (ℕ × List ℕ) × List ℕ)
      → (add_placed host p task g).1 ≡ g.1 ++ (if is_global_place p then task ∷ [] else [])
  globals-add_placed skipped task (gs, globals) = sym (append-nil globals)
  globals-add_placed global task (gs, globals) = refl
  globals-add_placed (in_world v) task (gs, globals) = sym (append-nil globals)

  later :
      (b : Bool) (xs ys : List ℕ) (task : ℕ)
      → (xs ++ (if b then task ∷ [] else [])) ++ ys ≡ xs ++ (if b then task ∷ ys else ys)
  later true xs ys task = append_assoc xs (task ∷ []) ys
  later false xs ys task = ap (λ l. l ++ ys) (append-nil xs)

  group_tasks-keep :
      (rt : Runtime) (w : ℕ) (tasks : List ℕ) (g : List (ℕ × List ℕ) × List ℕ)
      → (group_of w (group_tasks host rt tasks g).0
          ≡ group_of w g.0 ++ keep_if (λ t. is_place_in w (place_task host rt t)) tasks)
        × ((group_tasks host rt tasks g).1
            ≡ g.1 ++ keep_if (λ t. is_global_place (place_task host rt t)) tasks)
  unfolding group_tasks
  group_tasks-keep rt w [] g = (sym (append-nil (group_of w g.0)), sym (append-nil g.1))
  group_tasks-keep rt w (task ∷ tasks) g =
      let p = place_task host rt task in
      let (a, b) = group_tasks-keep rt w tasks (add_placed host p task g) in
      (
        a
            ∙ ap (λ l. l ++ keep_if (λ t. is_place_in w (place_task host rt t)) tasks)
                (group_of-add_placed w p task g)
            ∙ later (is_place_in w p) (group_of w g.0) _ task,
        b
            ∙ ap (λ l. l ++ keep_if (λ t. is_global_place (place_task host rt t)) tasks)
                (globals-add_placed p task g)
            ∙ later (is_global_place p) g.1 _ task,
      )

  abbrev pub OpenIn : Runtime → ℕ → ℕ → Type 0
  OpenIn rt w u = (is_closed rt.states u ≡ false) × (host.world_of rt u ≡ some w)

  -- The sessions are open, and those from one on are in the world; those before it are in none.
  abbrev pub LiesIn : Runtime → ℕ → List ℕ → Type 0
  LiesIn rt w [] = ⊥
  LiesIn rt w (u ∷ us) =
      (is_closed rt.states u ≡ false)
      × (((host.world_of rt u ≡ some w) × All (OpenIn rt w) us)
          ⊎ ((host.world_of rt u ≡ none) × LiesIn rt w us))

  place_some :
      (rt : Runtime) (v w : ℕ) (us : List ℕ)
      → (is_place_in w (place_sessions host rt (some v) us) ≡ true)
        ↔ ((v ≡ w) × All (OpenIn rt v) us)
  unfolding place_sessions
  place_some rt v w [] = (λ e. (ground (arith, e), tt), λ h. ground (arith, h.0))
  place_some rt v w (u ∷ us) =
      of_open (is_closed rt.states u) refl (host.world_of rt u) refl (place_some rt v w us)
    where
      of_open :
          (c : Bool)
          → is_closed rt.states u ≡ c
          → (x : Option ℕ) → host.world_of rt u ≡ x
          → (is_place_in w (place_sessions host rt (some v) us) ≡ true)
            ↔ ((v ≡ w) × All (OpenIn rt v) us)
          → (is_place_in w (
                if c then skipped else elim x [
                  | none ↦ skipped
                  | some y ↦ if y == v then place_sessions host rt (some v) us else skipped
                ])
              ≡ true)
            ↔ ((v ≡ w) × (OpenIn rt v u × All (OpenIn rt v) us))
      of_open true c x f r =
          (λ e. absurd (false≢true e), λ h. absurd (true≢false (sym c ∙ h.1.0.0)))
      of_open false c none f r =
          (λ e. absurd (false≢true e), λ h. absurd (none-ne-some v (sym f ∙ h.1.0.1)))
      of_open false c (some y) f r = elim (Bool-cases (y == v)) [
        | inl g ↦
            let same : y ≡ v = ground (arith, g) in
            rw g (λ e. let (a, b) = r.0 e in (a, ((c, f ∙ ap some same), b)), λ h. r.1 (h.0, h.1.1))
        | inr g ↦ rw g (
          λ e. absurd (false≢true e),
          λ h.
              let same = some-injective y v (sym f ∙ h.1.0.1) in
              absurd (false≢true (sym g ∙ ground (arith, same))),
        )
      ]

  place_none :
      (rt : Runtime) (w : ℕ) (us : List ℕ)
      → (is_place_in w (place_sessions host rt none us) ≡ true) ↔ LiesIn rt w us
  unfolding place_sessions
  place_none rt w [] = (λ e. absurd (false≢true e), λ h. absurd h)
  place_none rt w (u ∷ us) =
      of_world (is_closed rt.states u) refl (host.world_of rt u) refl (place_none rt w us)
    where
      of_world :
          (c : Bool)
          → is_closed rt.states u ≡ c
          → (x : Option ℕ) → host.world_of rt u ≡ x
          → (is_place_in w (place_sessions host rt none us) ≡ true) ↔ LiesIn rt w us
          → (is_place_in w (if c then skipped else place_sessions host rt x us) ≡ true)
            ↔ LiesIn rt w (u ∷ us)
      of_world true c x f r = (λ e. absurd (false≢true e), λ h. absurd (true≢false (sym c ∙ h.0)))
      of_world false c none f r = (λ e. (c, inr (f, r.0 e)), λ h. back h.1)
        where
          back :
              ((host.world_of rt u ≡ some w) × All (OpenIn rt w) us)
                ⊎ ((host.world_of rt u ≡ none) × LiesIn rt w us)
              → is_place_in w (place_sessions host rt none us) ≡ true
          back (inl h) = absurd (none-ne-some w (sym f ∙ h.0))
          back (inr h) = r.1 h.1
      of_world false c (some v) f r = (
        λ e.
            let (same, a) = (place_some rt v w us).0 e in (c, inl (f ∙ ap some same, rw same at a)),
        λ h. back h.1,
      )
        where
          back :
              ((host.world_of rt u ≡ some w) × All (OpenIn rt w) us)
                ⊎ ((host.world_of rt u ≡ none) × LiesIn rt w us)
              → is_place_in w (place_sessions host rt (some v) us) ≡ true
          back (inl h) =
              let same = some-injective v w (sym f ∙ h.0) in
              (place_some rt v w us).1 (same, rw (sym same) at h.1)
          back (inr h) = absurd (none-ne-some v (sym h.0 ∙ f))

  place_job_in :
      (rt : Runtime) (w : ℕ) (us : List ℕ)
      → (is_place_in w (place_job host rt us) ≡ true) ↔ LiesIn rt w us
  place_job_in rt w [] = (λ e. absurd (false≢true e), λ h. absurd h)
  place_job_in rt w (u ∷ us) = place_none rt w (u ∷ us)

  -- executeTasksForStage gives a world, in their order, exactly the tasks that `place_task` puts there,
  -- and the default world the global ones; and it puts a task into a world exactly if the task is not
  -- cancelled, its sessions are open, and from one of them on they are in that world, those before it
  -- being in none.
  pub group_tasks_lem :
      (rt : Runtime) (w : ℕ) (tasks : List ℕ)
      → (group_of w (group_tasks host rt tasks ([], [])).0
          ≡ keep_if (λ t. is_place_in w (place_task host rt t)) tasks)
        × ((group_tasks host rt tasks ([], [])).1
            ≡ keep_if (λ t. is_global_place (place_task host rt t)) tasks)
        × ((t : ℕ)
            → (is_place_in w (place_task host rt t) ≡ true)
              ↔ (((rt.queue.tasks t).cancelled ≡ false) × LiesIn rt w (rt.jobs t).sessions))
  unfolding place_task
  group_tasks_lem rt w tasks =
      let (a, b) = group_tasks-keep rt w tasks ([], []) in
      (a, b, λ t. placed (rt.queue.tasks t).cancelled (rt.jobs t).sessions)
    where
      placed :
          (c : Bool) (us : List ℕ)
          → (is_place_in w (if c then skipped else place_job host rt us) ≡ true)
            ↔ ((c ≡ false) × LiesIn rt w us)
      placed true us = (λ e. absurd (false≢true e), λ h. absurd (true≢false h.0))
      placed false us = let (f, g) = place_job_in rt w us in (λ e. (refl, f e), λ h. g h.1)
