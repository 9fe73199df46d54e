-- ===== src/Session/Shutdown.antt =====
-- session.go: close, with code called back that does as it likes.
use pecs.Prelude.{
  ℕ, zero, suc, ◌<◌, ◌≡◌, refl, ap, either_branch, Option, ◌∙◌, inl, inr, true, false, Bool-cases,
  Option-cases, none, some, List, [], ◌∷◌, All, arith, if◌then◌else◌, contains,
}
use pecs.Bitmask.{has}
use pecs.Registry.{get_type, write, max_components}
use pecs.Session.{Session, State, Host, with_session, get_component_unsafe}
use pecs.Session.Laws.{IsHost, InOrder}
use pecs.Session.Closing.{
  close, close_subs, detach_all, disconnect_if, tell_manager, release, cancel_tasks, collect_detach,
  clear_components,
}
use pecs.Session.History.{no_bits-absent, all_cleared, before_clear-InOrder}

-- A session without components.
abbrev pub IsEmpty : Session → Type 0
IsEmpty s = ((i : ℕ) → s.components i ≡ none) × ((i : ℕ) → i < 256 → has s.mask i ≡ false)

-- The flags that close sets: of every pending task, and of no other.
pub cancel_tasks_lem :
    (tasks : List ℕ) (st : State) (task : ℕ)
    → (cancel_tasks tasks st).cancelled task
      ≡ (if contains tasks task then true else st.cancelled task)
unfolding cancel_tasks
cancel_tasks_lem [] st task = refl
cancel_tasks_lem (x ∷ tasks) st task =
    cancel_tasks_lem tasks (record st { cancelled = write st.cancelled x true }) task ∙ ground arith

-- What is called back does not open a session, nor take back a cancellation, as no code does; and
-- the closing of a subscription leaves the pending tasks.
pub record IsFinal (host : Host) : Type 0 where
  pub sub_closed :
      (x : ℕ) (st : State) → st.session.closed ≡ true → (host.close_sub x st).session.closed ≡ true
  pub sub_tasks :
      (x : ℕ) (st : State) → (host.close_sub x st).session.pending_tasks ≡ st.session.pending_tasks
  pub detach_closed :
      (t p : ℕ) (st : State) → st.session.closed ≡ true → (host.detach t p st).session.closed ≡ true
  pub detach_cancelled :
      (t p : ℕ) (st : State) (task : ℕ)
      → st.cancelled task ≡ true
      → (host.detach t p st).cancelled task ≡ true

-- A session that is closed for good: without components, and all its tasks cancelled.
abbrev pub IsGone : List ℕ → State → Type 0
IsGone tasks st =
    IsEmpty st.session
    × (st.session.closed ≡ true)
    × ((task : ℕ) → contains tasks task ≡ true → st.cancelled task ≡ true)

module _ (host : Host) (h : IsFinal host) (k : IsHost host) where
  close_subs-final :
      (subs : List (Option ℕ)) (st : State)
      → st.session.closed ≡ true
      → ((close_subs host subs st).session.closed ≡ true)
        × ((close_subs host subs st).session.pending_tasks ≡ st.session.pending_tasks)
  unfolding close_subs
  close_subs-final [] st c = (c, refl)
  close_subs-final (none ∷ subs) st c = close_subs-final subs st c
  close_subs-final (some x ∷ subs) st c =
      let (d, e) = close_subs-final subs (host.close_sub x st) (h.sub_closed x st c) in
      (d, e ∙ h.sub_tasks x st)

  detach_all-final :
      (found : List (ℕ × ℕ)) (st : State)
      → st.session.closed ≡ true
      → ((detach_all host found st).session.closed ≡ true)
        × ((task : ℕ) → st.cancelled task ≡ true → (detach_all host found st).cancelled task ≡ true)
  unfolding detach_all
  detach_all-final [] st c = (c, λ task e. e)
  detach_all-final ((t, p) ∷ found) st c =
      let (d, f) = detach_all-final found (host.detach t p st) (h.detach_closed t p st c) in
      (d, λ task e. f task (h.detach_cancelled t p st task e))

  cancel_tasks-session :
      (tasks : List ℕ) (st : State) → (cancel_tasks tasks st).session ≡ st.session
  unfolding cancel_tasks
  cancel_tasks-session [] st = refl
  cancel_tasks-session (x ∷ tasks) st = cancel_tasks-session tasks _

  release-IsGone : (st : State) → InOrder st → IsGone st.session.pending_tasks (release host st)
  unfolding release clear_components
  release-IsGone st v =
      let closing = with_session st (record st.session { closed = true; provider_subs = [] }) in
      let subs = st.session.provider_subs in
      let unsubscribed = close_subs host subs closing in
      let (c, same) = close_subs-final subs closing refl in
      let tasks = unsubscribed.session.pending_tasks in
      let alone = with_session unsubscribed (record unsubscribed.session { pending_tasks = [] }) in
      let idle = cancel_tasks tasks alone in
      let still = ap (λ s. s.closed) (cancel_tasks-session tasks alone) ∙ c in
      let found = collect_detach host idle max_components 0 in
      let (d, f) = detach_all-final found idle still in
      let w = before_clear-InOrder host k st v in
      (
        (all_cleared (detach_all host found idle).session w.session_order, no_bits-absent),
        d,
        λ task e. f task (cancel_tasks_lem tasks alone task ∙ rw (same, e) refl),
      )

  -- close of a session that is closed does nothing. One that is open, with its mask and components in
  -- order, is left closed, without a component or a digit of the mask, and with every task cancelled that
  -- was pending; and so the manager, if there is one, is told to remove it, while the connection is not
  -- told, with a handle or without. The code that is called back keeps the order, opens no session, takes
  -- back no cancellation, and no subscription changes the pending tasks.
  pub close_lem :
      (st : State)
      → InOrder st
      → (st.session.closed ≡ true → close host st ≡ st)
        × (st.session.closed ≡ false
            → (st' : State) × IsGone st.session.pending_tasks st'
              × (close host st ≡ (if st'.usable then host.remove_session st' else st')))
  unfolding close
  close_lem st v = (
    λ e. rw e refl,
    λ e.
        let gone = release-IsGone st v in
        let silent : disconnect_if host host.has_handle (release host st) ≡ release host st =
          either_branch (λ x. x ≡ release host st) host.has_handle (rw gone.1 refl) refl in
        (release host st, gone, rw e (ap (tell_manager host) silent)),
  )

-- A component that close detaches: present, registered, and with a type that is Detachable.
abbrev pub Detaching : Host → State → ℕ × ℕ → Type 0
Detaching host st (t, p) =
    (id : ℕ) × (st.session.components id ≡ some p)
    × (get_type st.registry id ≡ some t)
    × (host.detachable t ≡ true)

-- Detach is called only on components that are present, with their type.
pub collect_detach-Detaching :
    (host : Host) (st : State) (n id : ℕ) → All (Detaching host st) (collect_detach host st n id)
unfolding collect_detach get_component_unsafe
collect_detach-Detaching host st zero id = tt
collect_detach-Detaching host st (suc n) id =
    let rest = collect_detach-Detaching host st n (suc id) in
    elim (Option-cases (st.session.components id)) [
      | inl c ↦ rw (collect_detach, c) rest
      | inr (p, c) ↦ elim (Option-cases (get_type st.registry id)) [
        | inl k ↦ rw (collect_detach, c, k) rest
        | inr (t, k) ↦ elim (Bool-cases (host.detachable t)) [
          | inl d ↦ rw (collect_detach, c, k, d) ((id, c, k, d), rest)
          | inr d ↦ rw (collect_detach, c, k, d) rest
        ]
      ]
    ]
