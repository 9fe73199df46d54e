-- ===== src/Access.antt =====
-- meta.go: AccessMeta, what a system reads and writes, and the conflict test of the scheduler.
-- A reflect.Type is known by its identity, a number. A Go map used as a set is the list of its
-- keys, and `none` is the nil map.
pub mod Laws
mod Tests
use pecs.Prelude.{
  ℕ, Bool, true, false, ◌||◌, Option, none, some, List, [], ◌∷◌, ◌++◌, contains, any, if◌then◌else◌,
}

pub record AccessMeta : Type 0 where
  pub reads : List ℕ
  pub writes : List ℕ
  pub res_reads : List ℕ
  pub res_writes : List ℕ
  pub reads_set : Option (List ℕ)
  pub writes_set : Option (List ℕ)
  pub res_reads_set : Option (List ℕ)
  pub res_writes_set : Option (List ℕ)

-- `m[t] = struct{}{}`
unfoldable pub add_key : ℕ → List ℕ → List ℕ
add_key t m = if contains m t then m else m ++ t ∷ []

unfoldable pub add_keys : List ℕ → List ℕ → List ℕ
unfolding add_key
add_keys [] m = m
add_keys (t ∷ src) m = add_keys src (add_key t m)

-- The closure `build` of PrepareSets.
unfoldable pub build_set : List ℕ → Option (List ℕ)
unfolding add_keys
build_set [] = none
build_set (t ∷ src) = some (add_keys (t ∷ src) [])

unfoldable pub prepare_sets : AccessMeta → AccessMeta
unfolding build_set
prepare_sets a = record a {
  reads_set = build_set a.reads;
  writes_set = build_set a.writes;
  res_reads_set = build_set a.res_reads;
  res_writes_set = build_set a.res_writes;
}

-- Membership by the set if there is one, and by the slice if not.
unfoldable pub is_in : Option (List ℕ) → List ℕ → ℕ → Bool
is_in none slice t = contains slice t
is_in (some keys) slice t = contains keys t

-- One half of Conflicts, for components or for resources: each loop returns at its first hit.
unfoldable pub overlaps :
    List ℕ → List ℕ → Option (List ℕ) → List ℕ → Option (List ℕ) → List ℕ → Bool
unfolding is_in
overlaps reads writes other_reads_set other_reads other_writes_set other_writes =
    any (is_in other_reads_set other_reads) writes
    || (any (is_in other_writes_set other_writes) writes
        || any (is_in other_writes_set other_writes) reads)

unfoldable pub conflicts : AccessMeta → AccessMeta → Bool
unfolding overlaps
conflicts a other =
    overlaps a.reads a.writes other.reads_set other.reads other.writes_set other.writes
    || overlaps a.res_reads a.res_writes other.res_reads_set other.res_reads other.res_writes_set
        other.res_writes
