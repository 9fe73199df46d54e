-- ===== src/Sessions/Index.antt =====
-- manager.go: one index of sessions by a key of their identity.
use pecs.Prelude.{ℕ, ◌≡◌, ◌≢◌, Bool, true, not, ◌&&◌, ◌||◌, some, List, arith, ◌==◌}
use pecs.Prelude.Assoc.{lookup, insert, delete, lookup-insert, lookup-delete}

-- The index finds exactly the sessions of a set, each under its key.
pub record Indexes (key : ℕ → ℕ) (joined : ℕ → Bool) (m : List (ℕ × ℕ)) : Type 0 where
  pub finds : (s : ℕ) → joined s ≡ true → lookup (key s) m ≡ some s
  pub found : (k s : ℕ) → lookup k m ≡ some s → (joined s ≡ true) × (key s ≡ k)

-- No other session of the set has the key of `s`.
abbrev pub Unshared : (ℕ → ℕ) → (ℕ → Bool) → ℕ → Type 0
Unshared key joined s = (u : ℕ) → joined u ≡ true → u ≢ s → key u ≢ key s

pub insert-Indexes :
    (key : ℕ → ℕ) (joined : ℕ → Bool) (m : List (ℕ × ℕ)) (s : ℕ)
    → Indexes key joined m
    → Unshared key joined s
    → Indexes key (λ u. u == s || joined u) (insert (key s) s m)
insert-Indexes key joined m s v n = record {
  finds = λ u j. ground (arith, lookup-insert (key s) (key u) s m, v.finds u, n u);
  found = λ k u e. ground (arith, lookup-insert (key s) k s m, v.found k u);
}

pub delete-Indexes :
    (key : ℕ → ℕ) (joined : ℕ → Bool) (m : List (ℕ × ℕ)) (s : ℕ)
    → Indexes key joined m
    → Unshared key joined s
    → Indexes key (λ u. not (u == s) && joined u) (delete (key s) m)
delete-Indexes key joined m s v n = record {
  finds = λ u j. ground (arith, lookup-delete (key s) (key u) m, v.finds u, n u);
  found = λ k u e. ground (arith, lookup-delete (key s) k m, v.found k u);
}
