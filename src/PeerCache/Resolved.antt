-- ===== src/PeerCache/Resolved.antt =====
-- cache.go: what resolve returns, and how long it keeps to it.
use mathlib.Core.Bool.{true≢false}
use mathlib.Core.Option.{none-ne-some, some-injective}
use mathlib.Core.List.{
  Mem, mem-cons, mem-cons_self, mem-cons_of_mem, Mem-prop, not-mem-nil, mem-append, mem-append_left,
  mem-append_right, Perm,
}
use mathlib.Core.List.Perm
use mathlib.Core.Logic.{◌∨₁◌, ∥∥₁_elim}
use mathlib.Core.Logic.Or
use mathlib.Core.HLevel.{⊥_prop}
use pecs.Prelude.{
  ℕ, ◌≡◌, refl, sym, ◌∙◌, ap, Bool, true, false, Option, none, some, List, [], ◌∷◌, ◌==◌, ◌⊎◌, inl,
  inr, Bool-cases, ◌↔◌, if◌then◌else◌, arith,
}
use pecs.Prelude.Assoc.{lookup, insert, lookup-insert}
use pecs.PeerCache.{
  Status, pending, ready, Entry, PeerCache, Fetched, Remote, get_providers, new_entry,
  get_or_create_entry, store_components, has_any, fetched_from, fetched_by, fetch_from_all,
  finish_fetch, fetch_and_subscribe, retry, read_component, resolve_entry, resolve,
}

abbrev pub is_pending : Status → Bool
is_pending pending = true
is_pending _ = false

abbrev pub is_ready : Status → Bool
is_ready ready = true
is_ready _ = false

-- The later of two answers, if there is one.
abbrev pub later : Option ℕ → Option ℕ → Option ℕ
later none x = x
later (some p) x = some p

-- The last component of the type that a provider returns.
abbrev pub latest : ℕ → Fetched → Option ℕ
latest t [] = none
latest t (none ∷ fetched) = latest t fetched
latest t (some (u, p) ∷ fetched) = later (latest t fetched) (if u == t then some p else none)

later_later : (x y z : Option ℕ) → later x (later y z) ≡ later (later x y) z
later_later none y z = refl
later_later (some p) y z = refl

lookup-store_components :
    (t : ℕ) (fetched : Fetched) (m : List (ℕ × ℕ))
    → lookup t (store_components fetched m) ≡ later (latest t fetched) (lookup t m)
unfolding store_components
lookup-store_components t [] m = refl
lookup-store_components t (none ∷ fetched) m = lookup-store_components t fetched m
lookup-store_components t (some (u, p) ∷ fetched) m =
    lookup-store_components t fetched (insert u p m)
    ∙ ap (later (latest t fetched)) (lookup-insert u t p m ∙ chosen (u == t))
    ∙ later_later (latest t fetched) (if u == t then some p else none) (lookup t m)
  where
    chosen :
        (b : Bool)
        → (if b then some p else lookup t m) ≡ later (if b then some p else none) (lookup t m)
    chosen true = refl
    chosen false = refl

-- Without any component there is none of the type.
latest-none : (t : ℕ) (fetched : Fetched) → has_any fetched ≡ false → latest t fetched ≡ none
latest-none t [] h = refl
latest-none t (none ∷ fetched) h = latest-none t fetched h
latest-none t (some x ∷ fetched) h = absurd (true≢false h)

-- The last component of a type is one of that type.
latest-some : (t p : ℕ) (fetched : Fetched) → latest t fetched ≡ some p → Mem (some (t, p)) fetched
latest-some t p [] h = absurd (none-ne-some p h)
latest-some t p (none ∷ fetched) h = mem-cons_of_mem none (latest-some t p fetched h)
latest-some t p (some (u, q) ∷ fetched) h =
    of_rest (latest t fetched) refl h (λ k. latest-some t p fetched k)
  where
    of_rest :
        (x : Option ℕ)
        → latest t fetched ≡ x
        → later x (if u == t then some q else none) ≡ some p
        → (latest t fetched ≡ some p → Mem (some (t, p)) fetched)
        → Mem (some (t, p)) (some (u, q) ∷ fetched)
    of_rest (some y) e k rec = mem-cons_of_mem (some (u, q)) (rec (e ∙ k))
    of_rest none e k rec = elim (Bool-cases (u == t)) [
      | inl s ↦
          let same : u ≡ t = ground (arith, s) in
          let it : q ≡ p = some-injective q p (rw s at k) in rw (same, it) mem-cons_self
      | inr s ↦ absurd (none-ne-some p (rw s at k))
    ]

-- A component of the type has a last one.
latest-is_some :
    (t p : ℕ) (fetched : Fetched) → Mem (some (t, p)) fetched → ¬ (latest t fetched ≡ none)
latest-is_some t p [] m e = not-mem-nil m
latest-is_some t p (none ∷ fetched) m e =
    Or.elim ⊥_prop (mem-cons.0 m) (λ same. none-ne-some (t, p) (sym same))
      (λ rest. latest-is_some t p fetched rest e)
latest-is_some t p (some (u, q) ∷ fetched) m e =
    Or.elim ⊥_prop (mem-cons.0 m)
      (λ same. here (ap (λ x. x.0) (some-injective (t, p) (u, q) same)) e)
      (λ rest. latest-is_some t p fetched rest (there (latest t fetched) e))
  where
    there : (x : Option ℕ) → later x (if u == t then some q else none) ≡ none → x ≡ none
    there none k = refl
    there (some y) k = k

    here : t ≡ u → ¬ (later (latest t fetched) (if u == t then some q else none) ≡ none)
    here s k =
        let is_same : (u == t) ≡ true = ground (arith, s) in
        none-ne-some q (sym (rw (there (latest t fetched) k, is_same) at k))

module _ (remote : Remote) (id : ℕ) where
  -- A component that one of the providers returns for the player.
  abbrev pub IsFetched : ℕ → ℕ → List ℕ → Type 0
  IsFetched t p [] = ⊥
  IsFetched t p (q ∷ ps) =
      ∥ (
        (fetched : Fetched) × (remote.fetch_player q id ≡ some fetched)
        × Mem (some (t, p)) fetched) ∥₁
      ∨₁ IsFetched t p ps

  fetched_by-IsFetched :
      (t p : ℕ) (ps : List ℕ) → Mem (some (t, p)) (fetched_by remote id ps) ↔ IsFetched t p ps
  unfolding fetched_by
  fetched_by-IsFetched t p [] = (not-mem-nil, λ b. absurd b)
  fetched_by-IsFetched t p (q ∷ ps) =
      let (f, g) = fetched_by-IsFetched t p ps in
      (
        λ m. Or.imp (split (remote.fetch_player q id) refl) f (mem-append.0 m),
        λ s.
            Or.elim Mem-prop s
              (λ a.
                ∥∥₁_elim a Mem-prop (λ b.
                  mem-append_left {s = fetched_from (remote.fetch_player q id)} _ (rw b.1 b.2)))
              (λ b. mem-append_right (fetched_from (remote.fetch_player q id)) (g b)),
      )
    where
      split :
          (x : Option Fetched)
          → remote.fetch_player q id ≡ x
          → Mem (some (t, p)) (fetched_from x)
          → ∥ (
              (fetched : Fetched) × (remote.fetch_player q id ≡ some fetched)
              × Mem (some (t, p)) fetched) ∥₁
      split none e m = absurd (not-mem-nil m)
      split (some fetched) e m = ∣ (fetched, e, m) ∣₁

  later-none : (x : Option ℕ) → later x none ≡ x
  later-none none = refl
  later-none (some p) = refl

  -- What a fetch into a new entry answers.
  answer_new :
      (now t : ℕ) (ps : List ℕ)
      → let e = fetch_and_subscribe remote now id ps new_entry in
        ((read_component now t e.status e).0 ≡ latest t (remote.stored (fetched_by remote id ps)))
        ⊎ ((ps ≡ []) × ((read_component now t e.status e).0 ≡ none))
  unfolding fetch_and_subscribe read_component fetch_from_all
  answer_new now t [] = inr (refl, refl)
  answer_new now t (p ∷ ps) = inl (finished (has_any fetched) refl)
    where
      fetched : Fetched
      fetched = remote.stored (fetched_by remote id (p ∷ ps))

      filled : Entry
      filled = (fetch_from_all remote id (p ∷ ps) new_entry).0

      found :
          (x : Option ℕ) (e : Entry)
          → (elim x as (λ y. Option ℕ × Entry) [
            | none ↦ (none, e)
            | some q ↦ (some q, record e { last_accessed_at = now })
          ]).0
            ≡ x
      found none e = refl
      found (some q) e = refl

      finished :
          (b : Bool)
          → has_any fetched ≡ b
          → (read_component now t
              (finish_fetch now (filled, b)).status
              (finish_fetch now (filled, b))).0
            ≡ latest t fetched
      finished true h =
          found (lookup t filled.components) _
          ∙ lookup-store_components t fetched []
          ∙ later-none (latest t fetched)
      finished false h = sym (latest-none t fetched h)

  -- For a player without an entry, and whatever the order in which the goroutines of the providers of
  -- the type store what they fetched, resolve returns a component of the type that one of these providers
  -- returns for the player, and nil only if none of them returns one.
  pub resolve_new :
      (now t : ℕ) (c : PeerCache)
      → ((l : Fetched) → Perm (remote.stored l) l)
      → lookup id c.entries ≡ none
      → let ps = get_providers t c.provider_index in
        ((p : ℕ) → (resolve remote now (some id) t c).0 ≡ some p → IsFetched t p ps)
        × ((resolve remote now (some id) t c).0 ≡ none → (p : ℕ) → ¬ IsFetched t p ps)
  unfolding resolve resolve_entry retry get_or_create_entry
  resolve_new now t c order h = answered (answer_new now t ps)
    where
      ps : List ℕ
      ps = get_providers t c.provider_index

      result : Option ℕ
      result = (resolve_entry remote now id t ps new_entry).0

      same : (resolve remote now (some id) t c).0 ≡ result
      same =
          let e : get_or_create_entry id c ≡ new_entry = rw (get_or_create_entry, h) refl in
          ap (λ x. (resolve_entry remote now id t ps x).0) e

      answered :
          (result ≡ latest t (remote.stored (fetched_by remote id ps)))
            ⊎ ((ps ≡ []) × (result ≡ none))
          → ((p : ℕ) → (resolve remote now (some id) t c).0 ≡ some p → IsFetched t p ps)
            × ((resolve remote now (some id) t c).0 ≡ none → (p : ℕ) → ¬ IsFetched t p ps)
      answered (inl a) = (
        λ p e.
            (fetched_by-IsFetched t p ps).0
              (Perm.subset (order _) _ (latest-some t p _ (sym a ∙ sym same ∙ e))),
        λ e p f.
            latest-is_some t p _
              (Perm.subset (Perm.symm (order _)) _ ((fetched_by-IsFetched t p ps).1 f))
              (sym a ∙ sym same ∙ e),
      )
      answered (inr (e, n)) =
          (λ p k. absurd (none-ne-some p (sym n ∙ sym same ∙ k)), λ k p f. rw e at f)
