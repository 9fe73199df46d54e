-- ===== src/Sessions/Worlds.antt =====
-- manager.go: the index of sessions by world.
use pecs.Prelude.{
  ℕ, ◌+◌, ◌≡◌, ◌∙◌, ap, Bool, false, Option, none, some, List, [], ◌∷◌, arith, ◌==◌, if◌then◌else◌,
  Option-cases, inl, inr, contains, count, count-append, contains_iff_count,
}
use pecs.Prelude.Assoc.{lookup, insert, lookup-insert, lookup-delete}
use pecs.Relation.{without}
use pecs.Relation.Laws.{count-without}
use pecs.Sessions.{members, join, enter_world, leave_world, store_or_drop}

abbrev pub is_at : Option ℕ → ℕ → Bool
is_at none w = false
is_at (some v) w = v == w

-- The set of each world holds the sessions placed there, each once.
pub record Houses (placed : ℕ → Option ℕ) (m : List (ℕ × List ℕ)) : Type 0 where
  pub housed : (w s : ℕ) → count s (members m w) ≡ (if is_at (placed s) w then 1 else 0)

-- The placing with one session elsewhere.
abbrev pub place : (ℕ → Option ℕ) → ℕ → Option ℕ → ℕ → Option ℕ
place placed s world u = if u == s then world else placed u

members-insert :
    (w v : ℕ) (l : List ℕ) (m : List (ℕ × List ℕ))
    → members (insert w l m) v ≡ (if w == v then l else members m v)
members-insert w v l m = ground (arith, lookup-insert w v l m)

members-store_or_drop :
    (w v : ℕ) (l : List ℕ) (m : List (ℕ × List ℕ))
    → members (store_or_drop w l m) v ≡ (if w == v then l else members m v)
members-store_or_drop w v [] m = ground (arith, lookup-delete w v m)
members-store_or_drop w v (x ∷ l) m = ground (arith, lookup-insert w v (x ∷ l) m)

count-join :
    (s u : ℕ) (l : List ℕ) → count s l ≡ 0 → count u (join s l) ≡ count u l + count u (s ∷ [])
count-join s u l e =
    let new : contains l s ≡ false = ground (arith, contains_iff_count s l) in
    rw (join, new) (count-append u l (s ∷ []))

-- A session that is placed nowhere enters a world.
pub enter_world-Houses :
    (placed : ℕ → Option ℕ) (m : List (ℕ × List ℕ)) (world : Option ℕ) (s : ℕ)
    → Houses placed m
    → placed s ≡ none
    → Houses (place placed s world) (enter_world world s m)
unfolding enter_world
enter_world-Houses placed m none s v e = record { housed = λ w u. ground (arith, v.housed w u, e) }
enter_world-Houses placed m (some x) s v e = record {
  housed = λ w u.
      let absent : count s (members m x) ≡ 0 = ground (arith, v.housed x s, e) in
      ap (count u) (members-insert x w (join s (members m x)) m)
      ∙ ground (arith, count-join s u (members m x) absent, v.housed w u, v.housed x u);
}

-- A session leaves the world in which it is placed, if it is in one.
pub leave_world-Houses :
    (placed : ℕ → Option ℕ) (m : List (ℕ × List ℕ)) (world : Option ℕ) (s : ℕ)
    → Houses placed m
    → placed s ≡ world
    → Houses (place placed s none) (leave_world world s m)
unfolding leave_world
leave_world-Houses placed m none s v e = record { housed = λ w u. ground (arith, v.housed w u, e) }
leave_world-Houses placed m (some x) s v e = elim (Option-cases (lookup x m)) [
  | inl k ↦
      rw (leave_world, k)
        (record { housed = λ w u. ground (arith, v.housed w u, v.housed x s, k, e) })
  | inr (l, k) ↦
      rw (leave_world, k)
        (record {
          housed = λ w u.
              ap (count u) (members-store_or_drop x w (without s l) m)
              ∙ ground (arith, count-without s u l, v.housed w u, v.housed x u, k, e);
        })
]
