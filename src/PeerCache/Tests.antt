-- ===== src/PeerCache/Tests.antt =====
-- cache.go with one provider of two component types.
use pecs.Prelude.{ℕ, ◌≡◌, refl, ◌+◌, Bool, true, false, none, some, [], ◌∷◌}
use pecs.Prelude.Assoc.{lookup, insert}
use mathlib.Core.List.Perm
use pecs.PeerCache.{Remote, PeerCache, resolve, get_providers, get_or_create_entry, read_component}
use pecs.PeerCache.Batches.{Many, deadlocked, resolve_many, first_pass, batch_fetch}
use pecs.PeerCache.Resolved.{IsFetched, resolve_new}

-- The provider 1 returns a component of the type 40 for every player, and 2 one of the type 41.
abbrev remote : Remote
remote = record {
  player_components = λ p. (39 + p) ∷ [];
  fetch_player = λ p id. some (some (39 + p, 100 + p) ∷ none ∷ []);
  fetch_players = λ p ids. none;
  subscribe_player = λ p id. some p;
  stored = λ l. l;
  appended = λ l. l;
}

abbrev cache : PeerCache
cache = record {
  entries = [];
  provider_index = (40, 1 ∷ []) ∷ (41, 2 ∷ []) ∷ [];
  providers = 1 ∷ 2 ∷ [];
}

resolve_new_example :
    ((p : ℕ)
      → (resolve remote 1000 (some 7) 40 cache).0 ≡ some p
      → IsFetched remote 7 40 p (1 ∷ []))
    × ((resolve remote 1000 (some 7) 40 cache).0 ≡ none
        → (p : ℕ) → ¬ IsFetched remote 7 40 p (1 ∷ []))
unfolding lookup get_providers
resolve_new_example = resolve_new remote 7 1000 40 cache (λ l. Perm.rfl) refl

-- A player who stands twice in a batch, without an entry.
abbrev is_deadlocked : Many → Bool
is_deadlocked deadlocked = true
is_deadlocked _ = false

twice_deadlocks : is_deadlocked (resolve_many remote 1000 40 (some 7 ∷ some 7 ∷ []) cache) ≡ true
unfolding resolve_many first_pass batch_fetch lookup insert get_or_create_entry get_providers
    read_component
twice_deadlocks = refl
