-- ===== src/Session/Default.antt =====
-- component.go: GetOrAdd, with a default that is given and with nil, where the code that is called
-- back leaves the components alone.
use pecs.Prelude.{
  ℕ, ◌≡◌, ◌≢◌, refl, sym, ◌∙◌, ap, subst, inl, inr, true, Option-cases, guard_passed, Option, none,
  some, List, arith,
}
use pecs.Bitmask.{has}
use pecs.Bitmask.Digits.{has-set}
use pecs.Registry.{Registration, registered, limit_exceeded, get_id, max_components}
use pecs.Registry.Laws.{Outcome, register-Outcome}
use pecs.Session.{
  State, Host, Call, returned, panicked, get_component_unsafe, has_component_unsafe,
  add_component_unsafe, with_session, announce_attach,
}
use pecs.Session.Components.{get, has_component, get_or_add, get_or_add_at, get_or_add_registered}
use pecs.Session.Roundtrip.{
  IsQuiet, announce_attach-Same, IsTyped, get_before, get_known, get_unknown, others, still-IsTyped,
  attached_lem,
}

-- What GetOrAdd returns and leaves, for a default at `p`.
abbrev pub Provided : State → ℕ → ℕ → Call (Option ℕ) → Type 0
Provided st t p (returned found st') =
    (get t st' ≡ found)
    × (get t st ≡ none → found ≡ some p)
    × ((old : ℕ) → get t st ≡ some old → found ≡ some old)
    × ((u : ℕ) → u ≢ t → get u st' ≡ get u st)
    × (st'.memory ≡ st.memory)
    × IsTyped st'
Provided st t p (panicked st') =
    (st.registry.next_id ≡ max_components) × (get t st ≡ none) × (st'.session ≡ st.session)

-- What GetOrAdd with a nil default does to a component that is missing: Has finds it and Get does not.
abbrev pub Hollow : State → ℕ → Call (Option ℕ) → Type 0
Hollow st t (returned found st') =
    (found ≡ none) × (get t st' ≡ none) × (has_component t st' ≡ true)
Hollow st t (panicked st') = st.registry.next_id ≡ max_components

has_known :
    (st : State) (t id : ℕ)
    → st.usable ≡ true
    → get_id st.registry t ≡ some id
    → has_component t st ≡ has st.session.mask id
unfolding has_component has_component_unsafe
has_known st t id e f = rw (has_component, e, f) refl

module _ (host : Host) (q : IsQuiet host) (st : State) (t : ℕ) where
  provided :
      (p : ℕ) (reg : Registration)
      → st.usable ≡ true
      → IsTyped st
      → Outcome st.registry t reg
      → Provided st t p (get_or_add_registered host t (some p) st reg)
  unfolding get_or_add_at get_component_unsafe
  provided p (limit_exceeded r) e v o = (o.0, get_unknown st t o.1, refl)
  provided p (registered id r) e v o =
      let before = get_before host q st t id r e v o in
      elim (Option-cases (st.session.components id)) [
        | inr (old, c) ↦
            rw (get_or_add_registered, get_or_add_at, c)
              (
                get_known _ t id e o.1 ∙ c,
                (λ g. absurd cc),
                (λ x g. cc),
                others host q st t _ id refl o.0 o.1 o.3 (λ i n. refl),
                refl,
                still-IsTyped host q st t _ id v o (λ i n. refl),
              )
        | inl c ↦
            let stored =
              with_session (record st { registry = r })
                (add_component_unsafe st.session id (some p)) in
            let same = announce_attach-Same host q t (some p) stored in
            let a =
              attached_lem host q st t p id _ e v
                (subst (λ r'. Outcome st.registry t (registered id r')) (sym same.same_registry) o)
                c same.same_usable same.same_memory same.same_session in
            rw (get_or_add_registered, get_or_add_at, c)
              (
                a.0.1 ∙ ap some (a.0.4 (before ∙ c)).0,
                (λ g. refl),
                (λ x g. absurd cc),
                a.1,
                same.same_memory,
                a.2,
              )
      ]

  -- On a usable session, whose registry is before its limit and which has components only at allocated
  -- identifiers, GetOrAdd of a default that is not nil returns the component that is there, or else adds
  -- the default and returns it; Get finds what it returns, and of every other type what it found before.
  -- At the limit it panics. Hooks and handlers leave the components alone.
  pub get_or_add_lem :
      (name : List ℕ) (p : ℕ)
      → st.usable ≡ true
      → IsTyped st
      → Provided st t p (get_or_add host t name (some p) st)
  unfolding get_or_add
  get_or_add_lem name p e v =
      subst (Provided st t p) (sym (guard_passed st.usable (returned none st) _ e))
        (provided p _ e v (register-Outcome st.registry t name v.registry_order))

  hollow :
      (reg : Registration)
      → st.usable ≡ true
      → IsTyped st
      → get t st ≡ none
      → Outcome st.registry t reg
      → Hollow st t (get_or_add_registered host t none st reg)
  unfolding get_or_add_at get_component_unsafe add_component_unsafe has_component
      has_component_unsafe
  hollow (limit_exceeded r) e v g o = o.0
  hollow (registered id r) e v g o =
      let c = sym (get_before host q st t id r e v o) ∙ g in
      let stored =
        with_session (record st { registry = r }) (add_component_unsafe st.session id none) in
      let same = announce_attach-Same host q t none stored in
      let known = ap (λ s. get_id s t) same.same_registry ∙ o.1 in
      rw (get_or_add_registered, get_or_add_at, c)
        (
          refl,
          get_known _ t id (same.same_usable ∙ e) known
              ∙ (ap (λ s. s.components id) same.same_session ∙ ground arith),
          has_known (announce_attach host t none stored) t id (same.same_usable ∙ e) known
              ∙ (ap (λ s. has s.mask id) same.same_session
                  ∙ (has-set st.session.mask id id (omega (arith, o.2)) (omega (arith, o.2))
                      ∙ ground arith)),
        )

  -- On a usable session, whose registry is before its limit and which has components only at allocated
  -- identifiers, GetOrAdd with a nil default, of a component that is missing, sets the digit of the mask
  -- and stores nil: Has then finds the component and Get does not. At the limit it panics. Hooks and
  -- handlers leave the components alone.
  pub get_or_add_nil :
      (name : List ℕ)
      → st.usable ≡ true
      → IsTyped st
      → get t st ≡ none
      → Hollow st t (get_or_add host t name none st)
  unfolding get_or_add
  get_or_add_nil name e v g =
      subst (Hollow st t) (sym (guard_passed st.usable (returned none st) _ e))
        (hollow _ e v g (register-Outcome st.registry t name v.registry_order))
