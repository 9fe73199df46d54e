-- ===== src/Registry.antt =====
-- component.go: componentRegistry, the component types of a manager and their identifiers.
-- A reflect.Type is known by its identity, a number; `name` stands for `t.Name()`, its bytes.
-- Each call is one step here; Registry/Race splits the registration where goroutines interleave.
pub mod Laws
pub mod Race
mod Tests
use pecs.Prelude.{
  ℕ, zero, suc, ◌+◌, ◌-◌, ◌%◌, ◌^◌, Bool, true, false, Option, none, some, List, [], ◌∷◌, leb, ◌==◌,
  if◌then◌else◌,
}
use pecs.Prelude.Assoc.{lookup, insert}

-- The const MaxComponents.
abbrev pub max_components : ℕ
max_components = 255

-- `types` is the sync.Map from types to identifiers; `types_arr` holds nil, `none`, at first.
pub record ComponentRegistry : Type 0 where
  pub types : List (ℕ × ℕ)
  pub names : ℕ → List ℕ
  pub types_arr : ℕ → Option ℕ
  pub next_id : ℕ

unfoldable pub new_component_registry : ComponentRegistry
new_component_registry = record {
  types = [];
  names = λ id. [];
  types_arr = λ id. none;
  next_id = 0;
}

abbrev pub write {ℓ} : {A : Type ℓ} → (ℕ → A) → ℕ → A → ℕ → A
write f i v j = if i == j then v else f j

-- `r.nextID.Add(1) - 1` on a uint32, converted to the uint8 ComponentID.
abbrev pub allocated : ℕ → ℕ
allocated next = ((next + 1) % 2 ^ 32 + 2 ^ 32 - 1) % 2 ^ 32 % 256

-- The result of a registration: an identifier, or the panic at the limit. Both leave a registry,
-- since a panic that is recovered keeps the counter.
pub data Registration : Type 0 where
  registered : ℕ → ComponentRegistry → Registration
  limit_exceeded : ComponentRegistry → Registration

unfoldable pub counted : ComponentRegistry → ComponentRegistry
counted r = record r { next_id = (r.next_id + 1) % 2 ^ 32 }

-- LoadOrStore and the writes to the arrays, once an identifier is allocated.
unfoldable pub store_type : ComponentRegistry → ℕ → List ℕ → ℕ → ℕ × ComponentRegistry
store_type r t name new_id = elim (lookup t r.types) [
  | some actual ↦ (actual, r)
  | none ↦ (
    new_id,
    record r {
      types = insert t new_id r.types;
      names = write r.names new_id name;
      types_arr = write r.types_arr new_id (some t);
    },
  )
]

unfoldable pub register : ComponentRegistry → ℕ → List ℕ → Registration
unfolding store_type counted
register r t name = elim (lookup t r.types) [
  | some id ↦ registered id r
  | none ↦
      let new_id = allocated r.next_id in
      if leb max_components new_id
      then limit_exceeded (counted r)
      else (let (id, r') = store_type (counted r) t name new_id in registered id r')
]

unfoldable pub get_id : ComponentRegistry → ℕ → Option ℕ
get_id r t = lookup t r.types

unfoldable pub get_name : ComponentRegistry → ℕ → List ℕ
get_name r id = r.names id

unfoldable pub get_type : ComponentRegistry → ℕ → Option ℕ
get_type r id = r.types_arr id

unfoldable pub count_types : ComponentRegistry → ℕ
count_types r = r.next_id
