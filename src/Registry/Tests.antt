-- ===== src/Registry/Tests.antt =====
-- component.go: registrations run on small registries.
use pecs.Prelude.{ℕ, ◌≡◌, refl, none, some, [], ◌∷◌, arith}
use pecs.Prelude.Assoc.{lookup, insert}
use pecs.Registry.{
  ComponentRegistry, registered, register, store_type, get_id, counted, new_component_registry,
  write,
}
use pecs.Registry.Laws.{
  IsRegistry, Outcome, register-Outcome, get_id_injective, register_after_limit,
}
use pecs.Registry.Race.{Race, Raced, here, next, allocates, new-IsRace, Raced-get_id}

-- The type 40 with the identifier 0 and the type 41 with 1.
abbrev two_types : ComponentRegistry
two_types = record {
  types = (40, 0) ∷ (41, 1) ∷ [];
  names = λ id. [];
  types_arr = write (write (λ id. none) 0 (some 40)) 1 (some 41);
  next_id = 2;
}

two_types-IsRegistry : IsRegistry two_types
unfolding lookup
two_types-IsRegistry = record {
  within = omega arith;
  below = λ t id e. ground arith;
  inverse = λ t id e. ground arith;
  known = λ t id e. ground arith;
}

-- The type 40 with the identifier 0, and a counter at the limit.
abbrev full_registry : ComponentRegistry
full_registry = record {
  types = (40, 0) ∷ [];
  names = λ id. [];
  types_arr = write (λ id. none) 0 (some 40);
  next_id = 255;
}

full_registry-IsRegistry : IsRegistry full_registry
unfolding lookup
full_registry-IsRegistry = record {
  within = omega arith;
  below = λ t id e. ground arith;
  inverse = λ t id e. ground arith;
  known = λ t id e. ground arith;
}

register-Outcome_example : Outcome two_types 50 (register two_types 50 [])
register-Outcome_example = register-Outcome two_types 50 [] two_types-IsRegistry

register_runs : (r : ComponentRegistry) × (register two_types 50 [] ≡ registered 2 r)
unfolding register store_type lookup insert counted
register_runs = (_, refl)

get_id_injective_example : ◌≡◌ {A = ℕ} 41 41
unfolding get_id lookup
get_id_injective_example = get_id_injective two_types 41 41 1 two_types-IsRegistry refl refl

register_after_limit_example :
    (r : ComponentRegistry) × (register (counted full_registry) 42 [] ≡ registered 0 r)
    × (get_id r 42 ≡ some 0)
    × (get_id r 40 ≡ some 0)
unfolding get_id lookup register
register_after_limit_example =
    register_after_limit full_registry (counted full_registry) 41 42 40 [] []
      full_registry-IsRegistry refl refl refl

abbrev fresh : Race
fresh = record { registry = new_component_registry; in_flight = λ g. none }

-- Goroutines 1 and 2 allocate for the type 40, and goroutine 2 stores first.
twice_allocated : (r : Race) × Raced fresh r
unfolding new_component_registry counted lookup
twice_allocated = (
  _,
  next (next here (allocates 1 40 refl refl (omega arith)))
      (allocates 2 40 refl refl (omega arith)),
)

Raced-get_id_example :
    ((t u id : ℕ)
      → get_id twice_allocated.0.registry t ≡ some id
      → get_id twice_allocated.0.registry u ≡ some id
      → t ≡ u)
    × ((t id : ℕ)
        → get_id fresh.registry t ≡ some id
        → get_id twice_allocated.0.registry t ≡ some id)
Raced-get_id_example = Raced-get_id new-IsRace twice_allocated.1
