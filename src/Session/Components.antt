-- ===== src/Session/Components.antt =====
-- component.go: Add, Remove, Get, Has and GetOrAdd, and session.go: removeComponentByID.
use pecs.Prelude.{ℕ, Bool, false, not, Option, none, some, List, if◌then◌else◌}
use pecs.Registry.{Registration, registered, limit_exceeded, register, get_id, get_type, write}
use pecs.Session.{
  State, Host, Call, returned, panicked, add_component_unsafe, remove_component_unsafe,
  has_component_unsafe, get_component_unsafe, with_session, announce_attach, announce_detach,
}

-- The bytes at `p` are copied to `old`.
abbrev pub overwrite : ℕ → ℕ → State → State
overwrite old p st = record st { memory = write st.memory old (st.memory p) }

-- Add, once the type has its identifier.
unfoldable pub add_at : Host → ℕ → ℕ → ℕ → State → State
add_at host t p id st = elim (get_component_unsafe st.session id) [
  | some old ↦ overwrite old p st
  | none ↦
      announce_attach host t (some p)
        (with_session st (add_component_unsafe st.session id (some p)))
]

abbrev pub add_registered : Host → ℕ → ℕ → State → Registration → Call Unit
add_registered host t p st (registered id r) =
    returned tt (add_at host t p id (record st { registry = r }))
add_registered host t p st (limit_exceeded r) = panicked (record st { registry = r })

-- `Add[T](s, component)`, where `t` is the type T and `name` its name.
unfoldable pub add : Host → ℕ → List ℕ → Option ℕ → State → Call Unit
add host t name component st = if not st.usable then returned tt st else elim component [
  | none ↦ returned tt st
  | some p ↦ add_registered host t p st (register st.registry t name)
]

unfoldable pub remove : Host → ℕ → State → State
remove host t st = if not st.usable then st else elim (get_id st.registry t) [
  | none ↦ st
  | some id ↦ elim (get_component_unsafe st.session id) [
    | none ↦ st
    | some p ↦ announce_detach host t p (with_session st (remove_component_unsafe st.session id))
  ]
]

unfoldable pub get : ℕ → State → Option ℕ
get t st =
    if not st.usable
    then none
    else elim (get_id st.registry t) [ none ↦ none | some id ↦ get_component_unsafe st.session id ]

unfoldable pub has_component : ℕ → State → Bool
has_component t st =
    if not st.usable
    then false
    else elim (get_id st.registry t) [ none ↦ false | some id ↦ has_component_unsafe st.session id ]

-- GetOrAdd, once the type has its identifier: the two reads see the same state, as one step.
unfoldable pub get_or_add_at : Host → ℕ → Option ℕ → ℕ → State → Call (Option ℕ)
get_or_add_at host t default id st = elim (get_component_unsafe st.session id) [
  | some ptr ↦ returned (some ptr) st
  | none ↦ returned default (
      announce_attach host t default (with_session st (add_component_unsafe st.session id default)))
]

abbrev pub get_or_add_registered : Host → ℕ → Option ℕ → State → Registration → Call (Option ℕ)
get_or_add_registered host t default st (registered id r) =
    get_or_add_at host t default id (record st { registry = r })
get_or_add_registered host t default st (limit_exceeded r) = panicked (record st { registry = r })

unfoldable pub get_or_add : Host → ℕ → List ℕ → Option ℕ → State → Call (Option ℕ)
get_or_add host t name default st =
    if not st.usable
    then returned none st
    else get_or_add_registered host t default st (register st.registry t name)

unfoldable pub remove_component_by_id : Host → ℕ → State → State
remove_component_by_id host id st = elim (get_component_unsafe st.session id) [
  | none ↦ st
  | some p ↦
      let cleared = with_session st (remove_component_unsafe st.session id) in
      elim (get_type st.registry id) [ none ↦ cleared | some t ↦ announce_detach host t p cleared ]
]
