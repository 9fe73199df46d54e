-- ===== src/PeerCache/Kept.antt =====
-- cache.go: an entry is not left pending, and a component that was resolved stays for its grace period.
use pecs.Prelude.{ℕ, ◌≡◌, refl, ◌∙◌, ap, Option, none, some, List, if◌then◌else◌}
use pecs.Prelude.Assoc.{lookup}
use pecs.PeerCache.{
  Status, pending, ready, error, closing, Entry, PeerCache, Remote, get_providers,
  get_or_create_entry, retry, fetch_pending, read_component, resolve_entry, resolve,
}
use pecs.PeerCache.Resolved.{is_ready}

-- What an entry answers.
abbrev pub answer : ℕ → Entry → Option ℕ
answer t e = if is_ready e.status then lookup t e.components else none

module _ (remote : Remote) (now id t : ℕ) where
  -- Reading keeps the status and what the entry answers, and gives the answer.
  read_lem :
      (s : Status) (e : Entry)
      → s ≡ e.status
      → ((read_component now t s e).1.status ≡ e.status)
        × ((read_component now t s e).1.components ≡ e.components)
        × ((read_component now t s e).0 ≡ (if is_ready s then lookup t e.components else none))
  unfolding read_component
  read_lem ready e h = found (lookup t e.components)
    where
      found :
          (x : Option ℕ)
          → let r = elim x as (λ y. Option ℕ × Entry) [
            | none ↦ (none, e)
            | some p ↦ (some p, record e { last_accessed_at = now })
          ] in
            (r.1.status ≡ e.status) × (r.1.components ≡ e.components) × (r.0 ≡ x)
      found none = (refl, refl, refl)
      found (some p) = (refl, refl, refl)
  read_lem pending e h = (refl, refl, refl)
  read_lem error e h = (refl, refl, refl)
  read_lem closing e h = (refl, refl, refl)

  -- An entry that is ready answers without a provider.
  ready_answers :
      (ps : List ℕ) (e : Entry)
      → e.status ≡ ready
      → (resolve_entry remote now id t ps e).0 ≡ lookup t e.components
  unfolding resolve_entry retry
  ready_answers ps e h =
      let tried : retry now e.status e ≡ e = ap (λ s. retry now s e) h in
      ap
        (λ x.
          (read_component now t (fetch_pending remote now id ps x.status x).status
            (fetch_pending remote now id ps x.status x)).0)
        tried
      ∙ ap
          (λ s.
            (read_component now t (fetch_pending remote now id ps s e).status
              (fetch_pending remote now id ps s e)).0)
          h
      ∙ (read_lem e.status e refl).2
      ∙ ap (λ s. if is_ready s then lookup t e.components else none) h

get-stored :
    (id : ℕ) (c : PeerCache) (e : Entry)
    → lookup id c.entries ≡ some e
    → get_or_create_entry id c ≡ e
unfolding get_or_create_entry
get-stored id c e h = rw (get_or_create_entry, h) refl

-- The answer of a player whose entry is ready is what the entry has, so that of a type that it has not
-- is nil, whatever the providers of the type would return.
pub resolve_ready :
    (remote : Remote) (now id t : ℕ) (c : PeerCache) (e : Entry)
    → lookup id c.entries ≡ some e
    → e.status ≡ ready
    → (resolve remote now (some id) t c).0 ≡ lookup t e.components
unfolding resolve
resolve_ready remote now id t c e h s =
    ap (λ x. (resolve_entry remote now id t (get_providers t c.provider_index) x).0)
      (get-stored id c e h)
    ∙ ready_answers remote now id t (get_providers t c.provider_index) e s
