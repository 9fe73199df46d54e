-- ===== src/PeerCache/Batches.antt =====
-- cache.go: resolveMany and batchFetch of peerCache.
use pecs.Prelude.{
  ℕ, ◌+◌, Bool, true, false, Option, none, some, List, [], ◌∷◌, map, contains, set, if◌then◌else◌,
  ◌||◌,
}
use pecs.Prelude.Assoc.{lookup, insert}
use pecs.PeerCache.{
  Status, pending, ready, error, Entry, PeerCache, Fetched, Remote, get_providers,
  get_or_create_entry, store_components, with_subscription, read_component,
}
use pecs.PeerCache.Resolved.{latest}

-- The results in the order of the identifiers, or a goroutine that waits for a mutex of its own.
pub data Many : Type 0 where
  resolved : List (Option ℕ) → PeerCache → Many
  deadlocked : Many

-- What the first pass finds of an entry: its component, and whether it is to be fetched.
abbrev pub look : ℕ → ℕ → Status → Entry → (Option ℕ × Entry) × Bool
look now t ready e = (read_component now t ready e, false)
look now t pending e = ((none, e), true)
look now t _ e = ((none, e), false)

abbrev pub to_fetch_if : Bool → ℕ → ℕ → List (ℕ × ℕ) → List (ℕ × ℕ)
to_fetch_if false id i rest = rest
to_fetch_if true id i rest = (id, i) ∷ rest

-- The first pass, from an index on: the results, the identifiers to fetch with their indices, and the
-- cache.
unfoldable pub first_pass :
    ℕ → ℕ → List (Option ℕ) → ℕ → PeerCache → List (Option ℕ) × List (ℕ × ℕ) × PeerCache
unfolding get_or_create_entry read_component insert
first_pass now t [] i c = ([], [], c)
first_pass now t (none ∷ ids) i c =
    let (results, fetches, c') = first_pass now t ids (i + 1) c in (none ∷ results, fetches, c')
first_pass now t (some id ∷ ids) i c =
    let e = get_or_create_entry id c in
    let ((result, e'), fetch) = look now t e.status e in
    let (results, fetches, c') =
      first_pass now t ids (i + 1) (record c { entries = insert id e' c.entries }) in
    (result ∷ results, to_fetch_if fetch id i fetches, c')

abbrev pub or_kept : Option ℕ → ℕ → List (Option ℕ) → List (Option ℕ)
or_kept none i results = results
or_kept (some p) i results = set results i (some p)

-- The entry of a player after a batch, by what the provider returned for the player.
abbrev pub filled : Remote → ℕ → ℕ → ℕ → Option Fetched → Entry → Entry
filled remote now p id none e = record e { error_at = now; status = error }
filled remote now p id (some []) e = record e { error_at = now; status = error }
filled remote now p id (some (x ∷ fetched)) e =
    with_subscription (remote.subscribe_player p id) (record e {
      components = store_components (x ∷ fetched) e.components;
      fetched_at = now;
      status = ready;
    })

abbrev pub batch_result : ℕ → Option Fetched → Option ℕ
batch_result t none = none
batch_result t (some fetched) = latest t fetched

-- An entry that is not pending any more is passed over.
abbrev pub fill_one :
    Remote
    → ℕ
    → ℕ
    → ℕ
    → ℕ
    → ℕ
    → Option Fetched
    → Status
    → List (Option ℕ)
    → PeerCache
    → List (Option ℕ) × PeerCache
fill_one remote now t p id i fetched pending results c = (
  or_kept (batch_result t fetched) i results,
  record c {
    entries = insert id (filled remote now p id fetched (get_or_create_entry id c)) c.entries;
  },
)
fill_one remote now t p id i fetched _ results c = (results, c)

unfoldable pub fill_all :
    Remote
    → ℕ
    → ℕ
    → ℕ
    → List (ℕ × Fetched)
    → List (ℕ × ℕ)
    → List (Option ℕ)
    → PeerCache
    → List (Option ℕ) × PeerCache
unfolding get_or_create_entry store_components lookup insert
fill_all remote now t p fetched [] results c = (results, c)
fill_all remote now t p fetched ((id, i) ∷ fetches) results c =
    let (results', c') =
      fill_one remote now t p id i (lookup id fetched) (get_or_create_entry id c).status results
        c in
    fill_all remote now t p fetched fetches results' c'

-- The first provider that returns no error.
unfoldable pub fetch_from_first :
    Remote → ℕ → ℕ → List (ℕ × ℕ) → List ℕ → List (Option ℕ) → PeerCache → Many
unfolding fill_all
fetch_from_first remote now t fetches [] results c = resolved results c
fetch_from_first remote now t fetches (p ∷ ps) results c =
    elim (remote.fetch_players p (map (λ f. f.0) fetches)) [
      | none ↦ fetch_from_first remote now t fetches ps results c
      | some fetched ↦
          let (results', c') = fill_all remote now t p fetched fetches results c in
          resolved results' c'
    ]

abbrev pub repeats : List ℕ → Bool
repeats [] = false
repeats (x ∷ xs) = contains xs x || repeats xs

-- The entries are locked one after the other; one that stands twice is never got.
unfoldable pub batch_fetch :
    Remote → ℕ → ℕ → List (ℕ × ℕ) → List ℕ → List (Option ℕ) → PeerCache → Many
unfolding fetch_from_first
batch_fetch remote now t fetches [] results c = resolved results c
batch_fetch remote now t fetches (p ∷ ps) results c =
    if repeats (map (λ f. f.0) fetches)
    then deadlocked
    else fetch_from_first remote now t fetches (p ∷ ps) results c

-- Nothing to fetch, and no provider is asked.
abbrev pub fetch_missing :
    Remote → ℕ → ℕ → List (ℕ × ℕ) → List ℕ → List (Option ℕ) → PeerCache → Many
fetch_missing remote now t [] ps results c = resolved results c
fetch_missing remote now t (f ∷ fetches) ps results c =
    batch_fetch remote now t (f ∷ fetches) ps results c

unfoldable pub resolve_many : Remote → ℕ → ℕ → List (Option ℕ) → PeerCache → Many
unfolding first_pass batch_fetch get_providers
resolve_many remote now t ids c =
    let (results, fetches, c') = first_pass now t ids 0 c in
    fetch_missing remote now t fetches (get_providers t c.provider_index) results c'
