-- ===== src/Registry/Race.antt =====
-- component.go: `register` called by goroutines that interleave. Between the allocation of an
-- identifier and LoadOrStore a goroutine holds its type and identifier in flight.
use pecs.Prelude.{ℕ, ◌≤◌, ◌<◌, ◌≡◌, refl, Option, none, some, List, arith, inl, inr, Option-cases}
use pecs.Prelude.Assoc.{lookup, lookup-insert}
use pecs.Registry.{
  ComponentRegistry, store_type, counted, allocated, max_components, write, get_id,
  new_component_registry,
}
use pecs.Registry.Laws.{IsRegistry, new-IsRegistry, get_id_injective}

pub record Race : Type 0 where
  pub registry : ComponentRegistry
  pub in_flight : ℕ → Option (ℕ × ℕ)

-- Goroutine `g` misses the map and allocates, below the limit; or it stores what it allocated, and
-- takes the identifier of another goroutine that was first.
pub data RaceStep (s : Race) : Race → Type 0 where
  allocates :
      (g t : ℕ)
      → s.in_flight g ≡ none
      → lookup t s.registry.types ≡ none
      → s.registry.next_id < max_components
      → RaceStep s (record {
        registry = counted s.registry;
        in_flight = write s.in_flight g (some (t, allocated s.registry.next_id));
      })
  stores :
      (g t id : ℕ) (name : List ℕ)
      → s.in_flight g ≡ some (t, id)
      → RaceStep s (record {
        registry = (store_type s.registry t name id).1;
        in_flight = write s.in_flight g none;
      })

pub data Raced (s : Race) : Race → Type 0 where
  here : Raced s s
  next : {t u : Race} → Raced s t → RaceStep t u → Raced s u

-- An identifier in flight is below the counter, not in use, and of one goroutine only.
pub record IsRace (s : Race) : Type 0 where
  pub registry_order : IsRegistry s.registry
  pub unused_above : (i : ℕ) → s.registry.next_id ≤ i → s.registry.types_arr i ≡ none
  pub flight_below : (g t id : ℕ) → s.in_flight g ≡ some (t, id) → id < s.registry.next_id
  pub flight_unused : (g t id : ℕ) → s.in_flight g ≡ some (t, id) → s.registry.types_arr id ≡ none
  pub flight_own :
      (g h t u id : ℕ) → s.in_flight g ≡ some (t, id) → s.in_flight h ≡ some (u, id) → g ≡ h

allocates-IsRace :
    (s : Race) (g t : ℕ)
    → IsRace s
    → s.registry.next_id < max_components
    → IsRace (record {
      registry = counted s.registry;
      in_flight = write s.in_flight g (some (t, allocated s.registry.next_id));
    })
unfolding counted
allocates-IsRace s g t v room =
    let same : allocated s.registry.next_id ≡ s.registry.next_id = omega arith in
    let old = v.registry_order in
    rw same (record {
      registry_order = record {
        within = omega arith;
        below = λ u id p. omega (arith, old.below u id p);
        inverse = old.inverse;
        known = old.known;
      };
      unused_above = λ i h. v.unused_above i (omega arith);
      flight_below = λ h u id p. ground (arith, v.flight_below h u id);
      flight_unused = λ h u id p. ground (arith, v.flight_unused h u id, v.unused_above id);
      flight_own = λ h k u w id p q.
          ground (arith, v.flight_own h k u w id, v.flight_below h u id, v.flight_below k w id);
    })

stores-IsRace :
    (s : Race) (g t id : ℕ) (name : List ℕ)
    → IsRace s
    → s.in_flight g ≡ some (t, id)
    → IsRace (record {
      registry = (store_type s.registry t name id).1;
      in_flight = write s.in_flight g none;
    })
unfolding store_type
stores-IsRace s g t id name v e = elim (Option-cases (lookup t s.registry.types)) [
  | inr (old_id, first) ↦
      rw (first, store_type)
        (record {
          registry_order = v.registry_order;
          unused_above = v.unused_above;
          flight_below = λ h u i p. ground (arith, v.flight_below h u i);
          flight_unused = λ h u i p. ground (arith, v.flight_unused h u i);
          flight_own = λ h k u w i p q. ground (arith, v.flight_own h k u w i);
        })
  | inl new ↦
      let old = v.registry_order in
      let below_id = v.flight_below g t id e in
      rw (new, store_type)
        (record {
          registry_order = record {
            within = old.within;
            below = λ u i p. ground (arith, lookup-insert t u id s.registry.types, old.below u i);
            inverse = λ u i p. ground (
              arith,
              lookup-insert t u id s.registry.types,
              old.inverse u i,
              v.flight_unused g t id e,
            );
            known = λ u i p.
                ground (arith, lookup-insert t u id s.registry.types, old.known u i, old.known t i);
          };
          unused_above = λ i h. ground (arith, v.unused_above i);
          flight_below = λ h u i p. ground (arith, v.flight_below h u i);
          flight_unused = λ h u i p. ground (arith, v.flight_unused h u i, v.flight_own g h t u i);
          flight_own = λ h k u w i p q. ground (arith, v.flight_own h k u w i);
        })
]

Raced-IsRace : {s r : Race} → IsRace s → Raced s r → IsRace r
Raced-IsRace v here = v
Raced-IsRace v (next run (allocates g t idle miss room)) =
    allocates-IsRace _ g t (Raced-IsRace v run) room
Raced-IsRace v (next run (stores g t id name e)) =
    stores-IsRace _ g t id name (Raced-IsRace v run) e

RaceStep-get_id :
    {s r : Race} (t id : ℕ)
    → RaceStep s r
    → get_id s.registry t ≡ some id
    → get_id r.registry t ≡ some id
unfolding get_id counted store_type
RaceStep-get_id t id (allocates g u idle miss room) e = e
RaceStep-get_id {s = s} t id (stores g u new_id name f) e =
    ground (arith, lookup-insert u t new_id s.registry.types)

-- However registrations interleave below the limit, no two types share an identifier, and a type
-- keeps the identifier that it has.
pub Raced-get_id :
    {s r : Race}
    → IsRace s
    → Raced s r
    → ((t u id : ℕ) → get_id r.registry t ≡ some id → get_id r.registry u ≡ some id → t ≡ u)
      × ((t id : ℕ) → get_id s.registry t ≡ some id → get_id r.registry t ≡ some id)
Raced-get_id v run =
    (λ t u id p q. get_id_injective _ t u id (Raced-IsRace v run).registry_order p q, kept run)
  where
    kept :
        {s r : Race}
        → Raced s r
        → (t id : ℕ) → get_id s.registry t ≡ some id
        → get_id r.registry t ≡ some id
    kept here t id e = e
    kept (next run step) t id e = RaceStep-get_id t id step (kept run t id e)

-- A new registry, with nothing in flight.
pub new-IsRace : IsRace (record { registry = new_component_registry; in_flight = λ g. none })
unfolding new_component_registry
new-IsRace = record {
  registry_order = new-IsRegistry;
  unused_above = λ i h. refl;
  flight_below = λ g t id e. cc;
  flight_unused = λ g t id e. cc;
  flight_own = λ g h t u id e. cc;
}
