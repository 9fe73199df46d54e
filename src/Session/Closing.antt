-- ===== src/Session/Closing.antt =====
-- session.go: close, addTask, addProviderSub and removeTask.
use pecs.Prelude.{
  ℕ, zero, suc, Bool, true, Option, none, some, List, [], ◌∷◌, ◌++◌, if◌then◌else◌, ◌==◌,
}
use pecs.Registry.{get_type, write, max_components}
use pecs.Bitmask.{no_bits}
use pecs.Session.{Session, State, Host, get_component_unsafe, with_session}

unfoldable pub add_task : ℕ → Session → Session
add_task task s = record s { pending_tasks = s.pending_tasks ++ (task ∷ []) }

-- The first occurrence goes.
unfoldable pub drop_task : ℕ → List ℕ → List ℕ
drop_task task [] = []
drop_task task (t ∷ ts) = if t == task then ts else t ∷ drop_task task ts

unfoldable pub remove_task : ℕ → Session → Session
remove_task task s = record s { pending_tasks = drop_task task s.pending_tasks }

unfoldable pub add_provider_sub : Option ℕ → Session → Session
add_provider_sub sub s = elim sub [
  | none ↦ s
  | some x ↦ record s { provider_subs = s.provider_subs ++ (some x ∷ []) }
]

unfoldable pub close_subs : Host → List (Option ℕ) → State → State
close_subs host [] st = st
close_subs host (none ∷ subs) st = close_subs host subs st
close_subs host (some x ∷ subs) st = close_subs host subs (host.close_sub x st)

unfoldable pub cancel_tasks : List ℕ → State → State
cancel_tasks [] st = st
cancel_tasks (task ∷ tasks) st =
    cancel_tasks tasks (record st { cancelled = write st.cancelled task true })

-- The components to detach among the identifiers from `id`, `n` of them: types and pointers.
unfoldable pub collect_detach : Host → State → ℕ → ℕ → List (ℕ × ℕ)
collect_detach host st zero id = []
collect_detach host st (suc n) id =
    let rest = collect_detach host st n (suc id) in
    elim (get_component_unsafe st.session id) [
      | none ↦ rest
      | some p ↦ elim (get_type st.registry id) [
        | none ↦ rest
        | some t ↦ if host.detachable t then (t, p) ∷ rest else rest
      ]
    ]

unfoldable pub detach_all : Host → List (ℕ × ℕ) → State → State
detach_all host [] st = st
detach_all host ((t, p) ∷ rest) st = detach_all host rest (host.detach t p st)

-- The loop that sets the pointers to nil, at the identifiers below `n`.
unfoldable pub clear_pointers : ℕ → (ℕ → Option ℕ) → ℕ → Option ℕ
clear_pointers zero components = components
clear_pointers (suc n) components = write (clear_pointers n components) n none

unfoldable pub clear_components : Session → Session
unfolding clear_pointers
clear_components s = record s {
  components = clear_pointers max_components s.components;
  mask = no_bits;
}

-- The part of close up to the clearing of the components, on a session that was open.
unfoldable pub release : Host → State → State
release host st =
    let closing = with_session st (record st.session { closed = true; provider_subs = [] }) in
    let unsubscribed = close_subs host st.session.provider_subs closing in
    let tasks = unsubscribed.session.pending_tasks in
    let idle =
      cancel_tasks tasks
        (with_session unsubscribed (record unsubscribed.session { pending_tasks = [] })) in
    let detached = detach_all host (collect_detach host idle max_components 0) idle in
    with_session detached (clear_components detached.session)

-- Exec, which does nothing on a closed session.
abbrev pub exec : (State → State) → State → State
exec f st = if st.session.closed then st else f st

abbrev pub disconnect_if : Host → Bool → State → State
disconnect_if host has_handle st = if has_handle then exec host.disconnect st else st

-- The manager may be nil.
abbrev pub tell_manager : Host → State → State
tell_manager host st = if st.usable then host.remove_session st else st

unfoldable pub close : Host → State → State
unfolding release
close host st =
    if st.session.closed
    then st
    else tell_manager host (disconnect_if host host.has_handle (release host st))
