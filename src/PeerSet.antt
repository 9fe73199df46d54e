-- ===== src/PeerSet.antt =====
-- peer.go: PeerSet, a slice of identifiers behind an atomic pointer.
-- An identifier is a number. A slice that is published is not written again: Add and Remove build a
-- new one and publish it by CompareAndSwap, or start over. `memory` holds the slice at each address,
-- and `next` is an address that is not in use; an address in use is not given again.
pub mod Updates
mod Tests
use pecs.Prelude.{
  ℕ, zero, suc, ◌+◌, ◌≡◌, ◌≢◌, Bool, true, false, Option, none, some, List, [], ◌∷◌, ◌++◌, ◌==◌,
  contains, if◌then◌else◌, length,
}
use pecs.Registry.{write}

pub record PeerSet : Type 0 where
  pub ids : Option ℕ
  pub memory : ℕ → List ℕ
  pub next : ℕ

abbrev pub read : PeerSet → Option ℕ → Option (List ℕ)
read ps none = none
read ps (some a) = some (ps.memory a)

-- What Load sees: no slice, `none`, or the slice.
abbrev pub contents : PeerSet → Option (List ℕ)
contents ps = read ps ps.ids

-- A new slice is made and its address published.
abbrev pub publish : List ℕ → PeerSet → PeerSet
publish l ps = record { ids = some ps.next; memory = write ps.memory ps.next l; next = ps.next + 1 }

unfoldable pub set_ids : List ℕ → PeerSet → PeerSet
set_ids player_ids ps = publish player_ids ps

unfoldable pub clear_ids : PeerSet → PeerSet
clear_ids ps = record ps { ids = none }

unfoldable pub copy_ids : PeerSet → List ℕ
copy_ids ps = elim (contents ps) [ none ↦ [] | some l ↦ l ]

unfoldable pub count_ids : PeerSet → ℕ
count_ids ps = elim (contents ps) [ none ↦ 0 | some l ↦ length l ]

-- The slice without the first occurrence.
unfoldable pub drop_first : ℕ → List ℕ → List ℕ
drop_first id [] = []
drop_first id (x ∷ xs) = let rest = drop_first id xs in if x == id then xs else x ∷ rest

pub data Update : Type 0 where
  adding removing : ℕ → Update

-- The slice that a turn of Add or Remove builds from what it loaded, or `none` where it returns.
unfoldable pub built : Update → Option (List ℕ) → Option (List ℕ)
unfolding drop_first
built (adding id) none = some (id ∷ [])
built (adding id) (some old) = if contains old id then none else some (old ++ id ∷ [])
built (removing id) none = none
built (removing id) (some old) = if contains old id then some (drop_first id old) else none

-- A goroutine between Load and CompareAndSwap.
pub record Turn : Type 0 where
  pub update : Update
  pub old : Option ℕ
  pub new : List ℕ

-- The set and the turn of each goroutine.
pub record Race : Type 0 where
  pub set : PeerSet
  pub turns : ℕ → Option Turn

-- A goroutine loads and builds; it publishes if the pointer is the one it loaded, and else drops
-- the turn, to load again. A goroutine that finds nothing to do returns, which no step shows. Set and
-- Clear are not among the steps.
pub data Step (r : Race) : List Update → Race → Type 0 where
  loads :
      (g : ℕ) (u : Update) (l : List ℕ)
      → r.turns g ≡ none
      → built u (contents r.set) ≡ some l
      → Step r [] (record r {
        turns = write r.turns g (some (record { update = u; old = r.set.ids; new = l }));
      })
  swaps :
      (g : ℕ) (t : Turn)
      → r.turns g ≡ some t
      → r.set.ids ≡ t.old
      → Step r (t.update ∷ []) (record { set = publish t.new r.set; turns = write r.turns g none })
  fails :
      (g : ℕ) (t : Turn)
      → r.turns g ≡ some t
      → r.set.ids ≢ t.old
      → Step r [] (record r { turns = write r.turns g none })
