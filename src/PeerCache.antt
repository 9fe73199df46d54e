-- ===== src/PeerCache.antt =====
-- cache.go: peerCache, the data of players on other servers.
-- A player, a component type, a provider and a subscription are numbers, the empty player identifier
-- is `none`, and a time is in milliseconds since 1970. Each call is one step, in which the stores and
-- the subscriptions of the providers' goroutines come in an order that is not known.
pub mod Batches
pub mod Resolved
pub mod Kept
mod Tests
use pecs.Prelude.{
  ℕ, zero, suc, ◌+◌, Bool, true, false, not, ◌&&◌, ◌||◌, Option, none, some, List, [], ◌∷◌, ◌++◌,
  ◌==◌, if◌then◌else◌, ltb, leb,
}
use pecs.Prelude.Assoc.{lookup, insert, delete}

pub data Status : Type 0 where
  pending ready error closing : Status

-- peerCacheEntry; `is_open` says that updateCh is not closed.
pub record Entry : Type 0 where
  pub components : List (ℕ × ℕ)
  pub last_accessed_at : ℕ
  pub fetched_at : ℕ
  pub status : Status
  pub error_at : ℕ
  pub subscriptions : List ℕ
  pub is_open : Bool

pub record PeerCache : Type 0 where
  pub entries : List (ℕ × Entry)
  pub provider_index : List (ℕ × List ℕ)
  pub providers : List ℕ

-- A component that a provider returns: its type and the pointer, or nil.
abbrev pub Fetched : Type 0
Fetched = List (Option (ℕ × ℕ))

-- The providers, which are the user's: an error is `none`. And the orders in which goroutines that run
-- at once store what they fetched, and append their subscriptions.
pub record Remote : Type 0 where
  pub player_components : ℕ → List ℕ
  pub fetch_player : ℕ → ℕ → Option Fetched
  pub fetch_players : ℕ → List ℕ → Option (List (ℕ × Fetched))
  pub subscribe_player : ℕ → ℕ → Option ℕ
  pub stored : Fetched → Fetched
  pub appended : List ℕ → List ℕ

abbrev pub cache_grace_period_ms : ℕ
cache_grace_period_ms = 30000

abbrev pub cache_retry_delay_ms : ℕ
cache_retry_delay_ms = 5000

-- A key that is missing has no providers.
unfoldable pub get_providers : ℕ → List (ℕ × List ℕ) → List ℕ
unfolding lookup
get_providers t index = elim (lookup t index) [ none ↦ [] | some ps ↦ ps ]

-- The provider added to each of its component types.
unfoldable pub index_types : ℕ → List ℕ → List (ℕ × List ℕ) → List (ℕ × List ℕ)
unfolding get_providers insert
index_types p [] index = index
index_types p (t ∷ ts) index = index_types p ts (insert t (get_providers t index ++ p ∷ []) index)

unfoldable pub register_provider : Remote → ℕ → PeerCache → PeerCache
unfolding index_types
register_provider remote p c = record c {
  providers = c.providers ++ p ∷ [];
  provider_index = index_types p (remote.player_components p) c.provider_index;
}

abbrev pub new_entry : Entry
new_entry = record {
  components = [];
  last_accessed_at = 0;
  fetched_at = 0;
  status = pending;
  error_at = 0;
  subscriptions = [];
  is_open = true;
}

-- getOrCreateEntry; a new entry is stored with the step that follows.
unfoldable pub get_or_create_entry : ℕ → PeerCache → Entry
unfolding lookup
get_or_create_entry id c = elim (lookup id c.entries) [ none ↦ new_entry | some e ↦ e ]

-- The components stored by their types, those that are nil passed over.
unfoldable pub store_components : Fetched → List (ℕ × ℕ) → List (ℕ × ℕ)
unfolding insert
store_components [] components = components
store_components (none ∷ fetched) components = store_components fetched components
store_components (some (t, p) ∷ fetched) components =
    store_components fetched (insert t p components)

abbrev pub has_any : Fetched → Bool
has_any [] = false
has_any (none ∷ fetched) = has_any fetched
has_any (some x ∷ fetched) = true

abbrev pub with_subscription : Option ℕ → Entry → Entry
with_subscription none e = e
with_subscription (some sub) e = record e { subscriptions = e.subscriptions ++ sub ∷ [] }

-- What a provider's goroutine fetches, and the subscription that it makes then.
abbrev pub fetched_from : Option Fetched → Fetched
fetched_from none = []
fetched_from (some fetched) = fetched

abbrev pub subscribed_to : Option Fetched → Option ℕ → List ℕ
subscribed_to none sub = []
subscribed_to (some fetched) none = []
subscribed_to (some fetched) (some sub) = sub ∷ []

-- Of all providers.
unfoldable pub fetched_by : Remote → ℕ → List ℕ → Fetched
fetched_by remote id [] = []
fetched_by remote id (p ∷ ps) = fetched_from (remote.fetch_player p id) ++ fetched_by remote id ps

unfoldable pub subscribed_by : Remote → ℕ → List ℕ → List ℕ
subscribed_by remote id [] = []
subscribed_by remote id (p ∷ ps) =
    subscribed_to (remote.fetch_player p id) (remote.subscribe_player p id)
    ++ subscribed_by remote id ps

-- The entry when all goroutines are done, with whether there was a component.
unfoldable pub fetch_from_all : Remote → ℕ → List ℕ → Entry → Entry × Bool
unfolding store_components fetched_by subscribed_by
fetch_from_all remote id ps e =
    let fetched = remote.stored (fetched_by remote id ps) in
    (
      record e {
        components = store_components fetched e.components;
        subscriptions = e.subscriptions ++ remote.appended (subscribed_by remote id ps);
      },
      has_any fetched,
    )

abbrev pub finish_fetch : ℕ → Entry × Bool → Entry
finish_fetch now (e, true) = record e { fetched_at = now; status = ready }
finish_fetch now (e, false) = record e { fetched_at = now; error_at = now; status = error }

unfoldable pub fetch_and_subscribe : Remote → ℕ → ℕ → List ℕ → Entry → Entry
unfolding fetch_from_all
fetch_and_subscribe remote now id [] e = record e { error_at = now; status = error }
fetch_and_subscribe remote now id (p ∷ ps) e =
    finish_fetch now (fetch_from_all remote id (p ∷ ps) e)

-- An entry in error is pending again once the delay has passed.
unfoldable pub retry : ℕ → Status → Entry → Entry
retry now error e =
    if ltb (e.error_at + cache_retry_delay_ms) now then record e { status = pending } else e
retry now _ e = e

abbrev pub fetch_pending : Remote → ℕ → ℕ → List ℕ → Status → Entry → Entry
fetch_pending remote now id ps pending e = fetch_and_subscribe remote now id ps e
fetch_pending remote now id ps _ e = e

-- The component of an entry that is ready; finding it counts as an access.
unfoldable pub read_component : ℕ → ℕ → Status → Entry → Option ℕ × Entry
unfolding lookup
read_component now t ready e = elim (lookup t e.components) [
  | none ↦ (none, e)
  | some p ↦ (some p, record e { last_accessed_at = now })
]
read_component now t _ e = (none, e)

-- What resolve does to the entry.
unfoldable pub resolve_entry : Remote → ℕ → ℕ → ℕ → List ℕ → Entry → Option ℕ × Entry
unfolding retry fetch_and_subscribe read_component
resolve_entry remote now id t ps e =
    let tried = retry now e.status e in
    let done = fetch_pending remote now id ps tried.status tried in
    read_component now t done.status done

unfoldable pub resolve : Remote → ℕ → Option ℕ → ℕ → PeerCache → Option ℕ × PeerCache
unfolding resolve_entry get_or_create_entry get_providers
resolve remote now none t c = (none, c)
resolve remote now (some id) t c =
    let (result, e) =
      resolve_entry remote now id t (get_providers t c.provider_index) (get_or_create_entry id c) in
    (result, record c { entries = insert id e c.entries })

-- One turn of processUpdates: a component that a provider changed, or removed.
unfoldable pub apply_update : ℕ → ℕ → Option ℕ → Entry → Entry
unfolding insert delete
apply_update now t none e = record e { components = delete t e.components; fetched_at = now }
apply_update now t (some p) e = record e { components = insert t p e.components; fetched_at = now }

unfoldable pub process_update : ℕ → ℕ → Option ℕ → Status → Entry → Entry
unfolding apply_update
process_update now t p closing e = e
process_update now t p _ e = apply_update now t p e

-- close; the subscriptions that it closes are those of the entry before.
unfoldable pub close_entry : Status → Entry → Entry
close_entry closing e = e
close_entry _ e = record e { status = closing; subscriptions = []; is_open = false }

abbrev pub last_access : Entry → ℕ
last_access e = if e.last_accessed_at == 0 then e.fetched_at else e.last_accessed_at

unfoldable pub is_stale : ℕ → Entry → Bool
is_stale now e = ltb (last_access e + cache_grace_period_ms) now

-- cleanup; the entries that it deletes are closed.
unfoldable pub keep_fresh : ℕ → List (ℕ × Entry) → List (ℕ × Entry)
unfolding is_stale
keep_fresh now [] = []
keep_fresh now ((id, e) ∷ entries) =
    let rest = keep_fresh now entries in if is_stale now e then rest else (id, e) ∷ rest

unfoldable pub cleanup : ℕ → PeerCache → PeerCache
unfolding keep_fresh
cleanup now c = record c { entries = keep_fresh now c.entries }

unfoldable pub close_all : List (ℕ × Entry) → List (ℕ × Entry)
unfolding close_entry
close_all [] = []
close_all ((id, e) ∷ entries) = (id, close_entry e.status e) ∷ close_all entries

unfoldable pub stop : PeerCache → PeerCache
unfolding close_all
stop c = record c { entries = close_all c.entries }
