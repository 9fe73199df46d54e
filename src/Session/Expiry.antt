-- ===== src/Session/Expiry.antt =====
-- component.go: AddUntil, AddFor, ExpiresAt and Expired, and session.go: processExpirations.
-- A time is a number of nanoseconds since 1970; the zero time is `none`.
use pecs.Prelude.{
  ℕ, ◌+◌, ◌*◌, ◌/◌, Bool, false, not, Option, none, some, List, [], ◌∷◌, if◌then◌else◌, ltb, leb,
}
use pecs.Prelude.Assoc.{lookup, insert}
use pecs.Registry.{Registration, registered, limit_exceeded, register, get_id}
use pecs.Session.{State, Host, Call, returned, panicked, with_session}
use pecs.Session.Components.{add, remove_component_by_id}

-- `t.UnixMilli()` and `time.UnixMilli(ms)`
abbrev pub unix_milli : ℕ → ℕ
unix_milli at = at / 1000000

abbrev pub from_milli : ℕ → ℕ
from_milli ms = ms * 1000000

abbrev pub expire : ℕ → ℕ → State → State
expire id ms st =
    with_session st (record st.session { expirations = insert id ms st.session.expirations })

-- What follows the call of Add: a panic of it is passed on.
abbrev pub then_expire : ℕ → ℕ → Call Unit → Call Unit
then_expire id ms (returned u st) = returned u (expire id ms st)
then_expire id ms (panicked st) = panicked st

abbrev pub add_until_registered :
    Host → ℕ → List ℕ → Option ℕ → ℕ → State → Registration → Call Unit
add_until_registered host t name component at st (registered id r) =
    then_expire id (unix_milli at) (add host t name component (record st { registry = r }))
add_until_registered host t name component at st (limit_exceeded r) =
    panicked (record st { registry = r })

unfoldable pub add_until : Host → ℕ → List ℕ → Option ℕ → ℕ → State → Call Unit
add_until host t name component at st = if not st.usable then returned tt st else elim component [
  | none ↦ returned tt st
  | some p ↦ add_until_registered host t name (some p) at st (register st.registry t name)
]

unfoldable pub add_for : Host → ℕ → List ℕ → Option ℕ → ℕ → ℕ → State → Call Unit
add_for host t name component duration now st = add_until host t name component (now + duration) st

unfoldable pub expires_at : ℕ → State → Option ℕ
expires_at t st = if not st.usable then none else elim (get_id st.registry t) [
  | none ↦ none
  | some id ↦ elim (lookup id st.session.expirations) [
    | none ↦ none
    | some ms ↦ some (from_milli ms)
  ]
]

unfoldable pub expired : ℕ → ℕ → State → Bool
expired t now st = elim (expires_at t st) [ none ↦ false | some at ↦ ltb at now ]

-- The identifiers whose time has come, in the order in which the map is ranged over.
unfoldable pub due_ids : ℕ → List (ℕ × ℕ) → List ℕ
due_ids now [] = []
due_ids now ((id, ms) ∷ m) = if leb ms now then id ∷ due_ids now m else due_ids now m

-- The map after the deletions.
unfoldable pub not_due : ℕ → List (ℕ × ℕ) → List (ℕ × ℕ)
not_due now [] = []
not_due now ((id, ms) ∷ m) = if leb ms now then not_due now m else (id, ms) ∷ not_due now m

unfoldable pub remove_ids : Host → List ℕ → State → State
remove_ids host [] st = st
remove_ids host (id ∷ ids) st = remove_ids host ids (remove_component_by_id host id st)

unfoldable pub process_expirations : Host → ℕ → State → State
process_expirations host now_ms st = elim st.session.expirations [
  | [] ↦ st
  | e ∷ m ↦
      remove_ids host (due_ids now_ms (e ∷ m))
        (with_session st (record st.session { expirations = not_due now_ms (e ∷ m) }))
]
