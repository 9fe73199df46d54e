-- ===== src/Session/Roundtrip.antt =====
-- component.go: what Get finds after Add, Remove and GetOrAdd, where the code that is called back
-- leaves the components alone.
use pecs.Prelude.{
  ℕ, ◌≤◌, ◌≡◌, refl, sym, ◌∙◌, ap, subst, ◌≢◌, inl, inr, true, false, Bool-cases, Option-cases,
  guard_passed, guard_met, Option, none, some, List, arith,
}
use pecs.Registry.{
  ComponentRegistry, Registration, registered, limit_exceeded, register, get_id, max_components,
}
use pecs.Registry.Laws.{IsRegistry, Outcome, register-Outcome, get_id_injective}
use pecs.Session.{
  State, Host, Call, returned, panicked, get_component_unsafe, add_component_unsafe,
  remove_component_unsafe, with_session, announce_attach, announce_detach,
}
use pecs.Session.Components.{get, add, add_at, add_registered, remove}

-- All of a state but the flags of its tasks.
pub record Same (st st' : State) : Type 0 where
  pub same_usable : st'.usable ≡ st.usable
  pub same_registry : st'.registry ≡ st.registry
  pub same_session : st'.session ≡ st.session
  pub same_memory : st'.memory ≡ st.memory

pub Same-trans : {a b c : State} → Same a b → Same b c → Same a c
Same-trans p q = record {
  same_usable = q.same_usable ∙ p.same_usable;
  same_registry = q.same_registry ∙ p.same_registry;
  same_session = q.same_session ∙ p.same_session;
  same_memory = q.same_memory ∙ p.same_memory;
}

-- Hooks and handlers that leave components, registry and memory as they are.
pub record IsQuiet (host : Host) : Type 0 where
  pub attaches : (t : ℕ) (p : Option ℕ) (st : State) → Same st (host.attach t p st)
  pub detaches : (t p : ℕ) (st : State) → Same st (host.detach t p st)
  pub emits_attach : (t : ℕ) (st : State) → Same st (host.emit_attach t st)
  pub emits_detach : (t : ℕ) (st : State) → Same st (host.emit_detach t st)

module _ (host : Host) (q : IsQuiet host) where
  pub announce_attach-Same :
      (t : ℕ) (p : Option ℕ) (st : State) → Same st (announce_attach host t p st)
  announce_attach-Same t p st = elim (Bool-cases (host.attachable t)) [
    | inl e ↦ rw (announce_attach, e) (Same-trans (q.attaches t p st) (q.emits_attach t _))
    | inr e ↦ rw (announce_attach, e) (q.emits_attach t st)
  ]

  pub announce_detach-Same : (t p : ℕ) (st : State) → Same st (announce_detach host t p st)
  announce_detach-Same t p st = elim (Bool-cases (host.detachable t)) [
    | inl e ↦ rw (announce_detach, e) (Same-trans (q.detaches t p st) (q.emits_detach t _))
    | inr e ↦ rw (announce_detach, e) (q.emits_detach t st)
  ]

pub get_known :
    (st : State) (t id : ℕ)
    → st.usable ≡ true
    → get_id st.registry t ≡ some id
    → get t st ≡ st.session.components id
unfolding get get_component_unsafe
get_known st t id e f = rw (get, e, f) refl

pub get_unusable : (st : State) (t : ℕ) → st.usable ≡ false → get t st ≡ none
unfolding get
get_unusable st t e = rw (get, e) refl

pub get_unknown : (st : State) (t : ℕ) → get_id st.registry t ≡ none → get t st ≡ none
unfolding get
get_unknown st t f = elim (Bool-cases st.usable) [
  | inl e ↦ rw (get, e, f) refl
  | inr e ↦ get_unusable st t e
]

-- A type is found as before where its identifier is the same and the array differs elsewhere only.
pub get_kept :
    (st st' : State) (u id : ℕ)
    → st'.usable ≡ st.usable
    → get_id st'.registry u ≡ get_id st.registry u
    → get_id st.registry u ≢ some id
    → ((i : ℕ) → i ≢ id → st'.session.components i ≡ st.session.components i)
    → get u st' ≡ get u st
get_kept st st' u id e f n c = elim (Bool-cases st.usable) [
  | inr g ↦ get_unusable st' u (e ∙ g) ∙ sym (get_unusable st u g)
  | inl g ↦ elim (Option-cases (get_id st.registry u)) [
    | inl k ↦ get_unknown st' u (f ∙ k) ∙ sym (get_unknown st u k)
    | inr (i, k) ↦
        get_known st' u i (e ∙ g) (f ∙ k)
        ∙ (c i (λ same. n (k ∙ ap some same)) ∙ sym (get_known st u i g k))
  ]
]

-- A registry before its limit, and components only at identifiers that it has allocated.
pub record IsTyped (st : State) : Type 0 where
  pub registry_order : IsRegistry st.registry
  pub beyond : (i : ℕ) → st.registry.next_id ≤ i → st.session.components i ≡ none

-- What Add leaves: Get finds the bytes of the component, at the old pointer where there was one,
-- and of every other type what it found before. At the limit it panics, and adds nothing.
abbrev pub Added : State → ℕ → ℕ → Call Unit → Type 0
Added st t p (returned _ st') =
    ((ptr : ℕ) × (get t st' ≡ some ptr)
      × (st'.memory ptr ≡ st.memory p)
      × ((old : ℕ) → get t st ≡ some old → ptr ≡ old)
      × (get t st ≡ none → (ptr ≡ p) × (st'.memory ≡ st.memory)))
    × ((u : ℕ) → u ≢ t → get u st' ≡ get u st)
    × IsTyped st'
Added st t p (panicked st') =
    (st.registry.next_id ≡ max_components) × (get t st ≡ none) × (st'.session ≡ st.session)

-- What Remove leaves: nothing of the type, and of the others what was there.
abbrev pub Removed : State → ℕ → State → Type 0
Removed st t st' = (get t st' ≡ none) × ((u : ℕ) → u ≢ t → get u st' ≡ get u st) × IsTyped st'

module _ (host : Host) (q : IsQuiet host) (st : State) (t : ℕ) where
  -- The other types, once `t` has its identifier.
  pub others :
      (st' : State) (id : ℕ)
      → st'.usable ≡ st.usable
      → IsRegistry st'.registry
      → get_id st'.registry t ≡ some id
      → ((u : ℕ) → u ≢ t → get_id st'.registry u ≡ get_id st.registry u)
      → ((i : ℕ) → i ≢ id → st'.session.components i ≡ st.session.components i)
      → (u : ℕ) → u ≢ t
      → get u st' ≡ get u st
  others st' id e v f o c u n =
      get_kept st st' u id e (o u n)
        (λ same. n (get_id_injective st'.registry u t id v (o u n ∙ same) f)) c

  -- What Get finds is what the array holds at the identifier of the type, new or not.
  pub get_before :
      (id : ℕ) (r : ComponentRegistry)
      → st.usable ≡ true
      → IsTyped st
      → Outcome st.registry t (registered id r)
      → get t st ≡ st.session.components id
  get_before id r e v o = elim (Option-cases (get_id st.registry t)) [
    | inr (i, k) ↦ rw ((o.4 i k).0) (get_known st t i e k)
    | inl k ↦ get_unknown st t k ∙ sym (v.beyond id (unallocated k))
  ]
    where
      unallocated : get_id st.registry t ≡ none → st.registry.next_id ≤ id
      unallocated k = let new = (o.5 k).0 in omega arith

  -- The session after a registration is typed, and so it is with one more component at `id`.
  pub still-IsTyped :
      (st' : State) (id : ℕ)
      → IsTyped st
      → Outcome st.registry t (registered id st'.registry)
      → ((i : ℕ) → i ≢ id → st'.session.components i ≡ st.session.components i)
      → IsTyped st'
  unfolding get_id
  still-IsTyped st' id v o c = record {
    registry_order = o.0;
    beyond = λ i above. elim (Option-cases (get_id st.registry t)) [
      | inr (j, k) ↦
          let same_counter = ap (λ r. r.next_id) (o.4 j k).1 in
          let below = v.registry_order.below t j k in
          let same = (o.4 j k).0 in c i (λ e. omega arith) ∙ v.beyond i (omega arith)
      | inl k ↦
          let next = (o.5 k).1 in
          let same = (o.5 k).0 in c i (λ e. omega arith) ∙ v.beyond i (omega arith)
    ];
  }

  pub attached_lem :
      (p id : ℕ) (st' : State)
      → st.usable ≡ true
      → IsTyped st
      → Outcome st.registry t (registered id st'.registry)
      → st.session.components id ≡ none
      → st'.usable ≡ st.usable
      → st'.memory ≡ st.memory
      → st'.session ≡ add_component_unsafe st.session id (some p)
      → Added st t p (returned tt st')
  unfolding add_component_unsafe
  attached_lem p id st' e v o c same_usable same_memory same_session =
      let before = get_before id st'.registry e v o in
      let at_id : st'.session.components id ≡ some p =
        ap (λ s. s.components id) same_session ∙ ground arith in
      let kept : (i : ℕ) → i ≢ id → st'.session.components i ≡ st.session.components i =
        λ i n. ap (λ s. s.components i) same_session ∙ ground arith in
      (
        (
          p,
          get_known st' t id (same_usable ∙ e) o.1 ∙ at_id,
          ap (λ m. m p) same_memory,
          (λ x g. absurd cc),
          λ g. (refl, same_memory),
        ),
        others st' id same_usable o.0 o.1 o.3 kept,
        still-IsTyped st' id v o kept,
      )

  add_registered_lem :
      (p : ℕ) (reg : Registration)
      → st.usable ≡ true
      → IsTyped st
      → Outcome st.registry t reg
      → Added st t p (add_registered host t p st reg)
  unfolding add_at get_component_unsafe add_component_unsafe
  add_registered_lem p (limit_exceeded r) e v o = (o.0, get_unknown st t o.1, refl)
  add_registered_lem p (registered id r) e v o = elim (Option-cases (st.session.components id)) [
    | inr (old, c) ↦
        let before = get_before id r e v o in
        rw (add_at, c)
          (
            (old, get_known _ t id e o.1 ∙ c, ground arith, (λ x g. ground arith), λ g. absurd cc),
            others _ id refl o.0 o.1 o.3 (λ i n. refl),
            still-IsTyped _ id v o (λ i n. refl),
          )
    | inl c ↦
        let stored =
          with_session (record st { registry = r }) (add_component_unsafe st.session id (some p)) in
        let same = announce_attach-Same host q t (some p) stored in
        rw (add_at, c)
          (attached_lem p id _ e v
            (subst (λ r'. Outcome st.registry t (registered id r')) (sym same.same_registry) o) c
            same.same_usable same.same_memory same.same_session)
  ]

  -- Add of a component on a session that is usable, whose registry is before its limit and which has
  -- components only at allocated identifiers; hooks and handlers leave the components alone.
  pub add_lem :
      (name : List ℕ) (p : ℕ)
      → st.usable ≡ true
      → IsTyped st
      → Added st t p (add host t name (some p) st)
  unfolding add
  add_lem name p e v =
      subst (Added st t p)
        (sym (
          guard_passed st.usable (returned tt st)
            (add_registered host t p st (register st.registry t name)) e))
        (add_registered_lem p _ e v (register-Outcome st.registry t name v.registry_order))

  pub removed_lem :
      (id : ℕ) (st' : State)
      → st.usable ≡ true
      → IsTyped st
      → get_id st.registry t ≡ some id
      → st'.usable ≡ st.usable
      → st'.registry ≡ st.registry
      → st'.session ≡ remove_component_unsafe st.session id
      → Removed st t st'
  unfolding remove_component_unsafe
  removed_lem id st' e v k same_usable same_registry same_session =
      let known = ap (λ r. get_id r t) same_registry ∙ k in
      let ordered = subst IsRegistry (sym same_registry) v.registry_order in
      let kept : (i : ℕ) → i ≢ id → st'.session.components i ≡ st.session.components i =
        λ i n. ap (λ s. s.components i) same_session ∙ ground arith in
      (
        get_known st' t id (same_usable ∙ e) known
            ∙ (ap (λ s. s.components id) same_session ∙ ground arith),
        others st' id same_usable ordered known (λ u n. ap (λ r. get_id r u) same_registry) kept,
        record {
          registry_order = ordered;
          beyond = λ i above.
              ap (λ s. s.components i) same_session
              ∙ ground (arith, v.beyond i (subst (λ r. r.next_id ≤ i) same_registry above));
        },
      )

  -- Remove, where the registry is before its limit, components are only at allocated identifiers, and
  -- hooks and handlers leave the components alone: Get finds nothing of the type and what it found
  -- before of the others.
  pub remove_lem : IsTyped st → Removed st t (remove host t st)
  unfolding remove get_component_unsafe
  remove_lem v = elim (Bool-cases st.usable) [
    | inr e ↦
        subst (Removed st t) (sym (guard_met st.usable _ _ e))
          (get_unusable st t e, (λ u n. refl), v)
    | inl e ↦
        subst (Removed st t) (sym (guard_passed st.usable _ _ e))
          (elim (Option-cases (get_id st.registry t)) [
            | inl k ↦ rw k (get_unknown st t k, (λ u n. refl), v)
            | inr (id, k) ↦ elim (Option-cases (st.session.components id)) [
              | inl c ↦ rw (k, c) (get_known st t id e k ∙ c, (λ u n. refl), v)
              | inr (p, c) ↦
                  let same =
                    announce_detach-Same host q t p
                      (with_session st (remove_component_unsafe st.session id)) in
                  rw (k, c)
                    (removed_lem id _ e v k same.same_usable same.same_registry same.same_session)
            ]
          ])
  ]
