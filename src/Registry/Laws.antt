-- ===== src/Registry/Laws.antt =====
-- component.go: what `register` keeps and returns.
use pecs.Prelude.{
  ℕ, ◌+◌, ◌≤◌, ◌<◌, ◌≡◌, refl, ap, sym, ◌∙◌, ◌≢◌, inl, inr, true, false, Bool-cases, Option-cases,
  none, some, List, arith, leb, ◌==◌, if◌then◌else◌,
}
use pecs.Prelude.Assoc.{lookup, insert, lookup-insert}
use pecs.Registry.{
  ComponentRegistry, Registration, registered, limit_exceeded, register, store_type, get_id,
  counted, allocated, max_components, new_component_registry, write,
}

-- Before the counter has passed the limit: identifiers are below the counter, no two types share
-- one, and the array of types is the inverse of the map.
pub record IsRegistry (r : ComponentRegistry) : Type 0 where
  pub within : r.next_id ≤ max_components
  pub below : (t id : ℕ) → lookup t r.types ≡ some id → id < r.next_id
  pub inverse : (t id : ℕ) → lookup t r.types ≡ some id → r.types_arr id ≡ some t
  pub known : (t id : ℕ) → r.types_arr id ≡ some t → lookup t r.types ≡ some id

pub new-IsRegistry : IsRegistry new_component_registry
unfolding new_component_registry lookup
new-IsRegistry = record {
  within = omega arith;
  below = λ t id e. cc;
  inverse = λ t id e. cc;
  known = λ t id e. cc;
}

-- No two types share an identifier.
pub get_id_injective :
    (r : ComponentRegistry) (t u id : ℕ)
    → IsRegistry r
    → get_id r t ≡ some id
    → get_id r u ≡ some id
    → t ≡ u
unfolding get_id
get_id_injective r t u id v p q = ground (arith, v.inverse t id p, v.inverse u id q)

-- What a registration leaves: the type has the identifier that it returns, a type that had one
-- keeps it, and the registry is in order. A new type takes the next identifier. At the limit it
-- panics.
abbrev pub Outcome : ComponentRegistry → ℕ → Registration → Type 0
Outcome r t (registered id r') =
    IsRegistry r'
    × (get_id r' t ≡ some id)
    × (id < max_components)
    × ((u : ℕ) → u ≢ t → get_id r' u ≡ get_id r u)
    × ((i : ℕ) → get_id r t ≡ some i → (id ≡ i) × (r' ≡ r))
    × (get_id r t ≡ none → (id ≡ r.next_id) × (r'.next_id ≡ r.next_id + 1))
Outcome r t (limit_exceeded r') = (r.next_id ≡ max_components) × (get_id r t ≡ none)

-- The registry with one more type.
abbrev grown : ComponentRegistry → ℕ → List ℕ → ComponentRegistry
grown r t name = record {
  types = insert t r.next_id r.types;
  names = write r.names r.next_id name;
  types_arr = write r.types_arr r.next_id (some t);
  next_id = r.next_id + 1;
}

-- The branch of a type that is not registered yet.
pub register_miss :
    (r : ComponentRegistry) (t : ℕ) (name : List ℕ)
    → lookup t r.types ≡ none
    → register r t name ≡ (
        if leb max_components (allocated r.next_id)
        then limit_exceeded (counted r)
        else (let (id, r') = store_type (counted r) t name (allocated r.next_id) in
            registered id r'))
unfolding register
register_miss r t name e = rw (e, register)

module _ (r : ComponentRegistry) (t : ℕ) (name : List ℕ) (v : IsRegistry r) where
  register_known : (id : ℕ) → lookup t r.types ≡ some id → register r t name ≡ registered id r
  unfolding register
  register_known id e = rw (e, register)

  register_full :
      lookup t r.types ≡ none
      → r.next_id ≡ max_components
      → register r t name ≡ limit_exceeded (counted r)
  register_full e f =
      let full : leb max_components (allocated r.next_id) ≡ true = rw f in
      register_miss r t name e ∙ rw full

  counted_lem : r.next_id < max_components → counted r ≡ record r { next_id = r.next_id + 1 }
  unfolding counted
  counted_lem f = ap (λ n. record r { next_id = n }) (omega arith)

  store_new :
      lookup t r.types ≡ none
      → store_type (record r { next_id = r.next_id + 1 }) t name r.next_id
        ≡ (r.next_id, grown r t name)
  unfolding store_type
  store_new e = rw (e, store_type)

  register_new :
      lookup t r.types ≡ none
      → r.next_id < max_components
      → register r t name ≡ registered r.next_id (grown r t name)
  register_new e f =
      let same : allocated r.next_id ≡ r.next_id = omega arith in
      let room : leb max_components r.next_id ≡ false = ground arith in
      register_miss r t name e ∙ rw (same, room, counted_lem f, store_new e)

  grown-IsRegistry :
      lookup t r.types ≡ none → r.next_id < max_components → IsRegistry (grown r t name)
  grown-IsRegistry e f = record {
    within = omega arith;
    below = λ u id p. ground (arith, lookup-insert t u r.next_id r.types, v.below u id);
    inverse =
        λ u id p. ground (arith, lookup-insert t u r.next_id r.types, v.below u id, v.inverse u id);
    known =
        λ u id p. ground (arith, lookup-insert t u r.next_id r.types, v.known u id, v.known t id);
  }

  -- Registration returns one identifier for a type, and another for every other type, until the
  -- limit is met.
  pub register-Outcome : Outcome r t (register r t name)
  unfolding get_id
  register-Outcome = elim (Option-cases (lookup t r.types)) [
    | inr (id, e) ↦ rw (register_known id e) (
      v,
      e,
      omega (arith, v.below t id e, v.within),
      (λ u n. refl),
      (λ i p. (ground arith, refl)),
      λ p. absurd cc,
    )
    | inl e ↦ elim (Bool-cases (r.next_id == 255)) [
      | inl full ↦ rw (register_full e (ground arith)) (ground arith, e)
      | inr room ↦
          let f : r.next_id < max_components = ground (arith, v.within) in
          rw (register_new e f) (
            grown-IsRegistry e f,
            ground (arith, lookup-insert t t r.next_id r.types),
            f,
            (λ u n. ground (arith, lookup-insert t u r.next_id r.types)),
            (λ i p. absurd (ground arith)),
            λ p. (refl, refl),
          )
    ]
  ]

abbrev limit_registry : Registration → ComponentRegistry
limit_registry (registered id r) = r
limit_registry (limit_exceeded r) = r

registered-ne : {id : ℕ} {r r' : ComponentRegistry} → registered id r ≡ limit_exceeded r' → ⊥
registered-ne e = cc

module _ (r : ComponentRegistry) (t : ℕ) (name : List ℕ) where
  -- Past the limit the identifier 0 is allocated once more.
  wrapped :
      r.next_id ≡ max_components
      → lookup t r.types ≡ none
      → register (counted r) t name ≡ registered 0 (store_type (counted (counted r)) t name 0).1
  unfolding counted store_type
  wrapped full new =
      let zero_id : allocated (counted r).next_id ≡ 0 = omega arith in
      register_miss (counted r) t name new
      ∙ (ap
            (λ i.
              if leb max_components i
              then limit_exceeded (counted (counted r))
              else (let (id, r') = store_type (counted (counted r)) t name i in registered id r'))
            zero_id
          ∙ rw (new, store_type))

  stored_new :
      lookup t r.types ≡ none
      → lookup t (store_type (counted (counted r)) t name 0).1.types ≡ some 0
  unfolding store_type counted
  stored_new new = rw (new, store_type) (ground (arith, lookup-insert t t 0 r.types))

  stored_old :
      (u : ℕ)
      → lookup t r.types ≡ none
      → lookup u r.types ≡ some 0
      → lookup u (store_type (counted (counted r)) t name 0).1.types ≡ some 0
  unfolding store_type counted
  stored_old u new old = rw (new, store_type) (ground (arith, lookup-insert t u 0 r.types))

-- Once the limit has been met and the panic recovered, the uint8 wraps: the next new type gets the
-- identifier 0, which the first type has too.
pub register_after_limit :
    (r r' : ComponentRegistry) (s t u : ℕ) (name name' : List ℕ)
    → IsRegistry r
    → register r s name ≡ limit_exceeded r'
    → get_id r t ≡ none
    → get_id r u ≡ some 0
    → (r'' : ComponentRegistry) × (register r' t name' ≡ registered 0 r'')
      × (get_id r'' t ≡ some 0)
      × (get_id r'' u ≡ some 0)
unfolding get_id
register_after_limit r r' s t u name name' v e new old = elim (Option-cases (lookup s r.types)) [
  | inr (id, known) ↦ absurd (registered-ne (sym (register_known r s name v id known) ∙ e))
  | inl miss ↦ elim (Bool-cases (r.next_id == 255)) [
    | inr room ↦
        absurd (registered-ne (sym (register_new r s name v miss (ground (arith, v.within))) ∙ e))
    | inl full ↦
        let at_limit : r.next_id ≡ max_components = ground arith in
        let after : counted r ≡ r' =
          ap limit_registry (sym (register_full r s name v miss at_limit) ∙ e) in
        (
          (store_type (counted (counted r)) t name' 0).1,
          rw (← after) (wrapped r t name' at_limit new),
          stored_new r t name' new,
          stored_old r t name' u new old,
        )
  ]
]
