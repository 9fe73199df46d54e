-- ===== src/Sessions/Laws.antt =====
-- manager.go: what the indexes find after sessions have joined, moved and left.
use pecs.Prelude.{
  ℕ, ◌≡◌, refl, sym, ◌∙◌, Bool, false, not, ◌&&◌, ◌||◌, Option, none, List, arith, ◌==◌, Bool-cases,
  inl, inr,
}
use pecs.Prelude.Assoc.{lookup}
use pecs.Sessions.{Identity, Manager, new_manager, add_session, move_session, drop_session}
use pecs.Sessions.Index.{Indexes, Unshared, insert-Indexes, delete-Indexes}
use pecs.Sessions.Worlds.{Houses, place, enter_world-Houses, leave_world-Houses}

abbrev pub with_xuid : (ℕ → Identity) → (ℕ → Bool) → ℕ → Bool
with_xuid ids joined s = joined s && not ((ids s).xuid == 0)

-- The sessions that have joined are indexed, and each stands in the set of the world it is placed in.
pub record Keeps (ids : ℕ → Identity) (joined : ℕ → Bool) (placed : ℕ → Option ℕ) (m : Manager)
    : Type 0 where
  pub by_handle : Indexes (λ s. (ids s).handle) joined m.sessions
  pub by_uuid : Indexes (λ s. (ids s).uuid) joined m.sessions_by_uuid
  pub by_name : Indexes (λ s. (ids s).name) joined m.sessions_by_name
  pub by_xuid : Indexes (λ s. (ids s).xuid) (with_xuid ids joined) m.sessions_by_xuid
  pub by_world : Houses placed m.sessions_by_world

-- No other session that has joined has the handle, UUID, name or XUID of `s`.
pub record IsDistinct (ids : ℕ → Identity) (joined : ℕ → Bool) (s : ℕ) : Type 0 where
  pub own_handle : Unshared (λ u. (ids u).handle) joined s
  pub own_uuid : Unshared (λ u. (ids u).uuid) joined s
  pub own_name : Unshared (λ u. (ids u).name) joined s
  pub own_xuid : Unshared (λ u. (ids u).xuid) (with_xuid ids joined) s

abbrev pub with_session : (ℕ → Bool) → ℕ → ℕ → Bool
with_session joined s u = u == s || joined u

abbrev pub without_session : (ℕ → Bool) → ℕ → ℕ → Bool
without_session joined s u = not (u == s) && joined u

-- An index of a set that is the same session by session.
same-Indexes :
    {key : ℕ → ℕ} {joined others : ℕ → Bool} {m : List (ℕ × ℕ)}
    → ((u : ℕ) → others u ≡ joined u)
    → Indexes key joined m
    → Indexes key others m
same-Indexes e v = record {
  finds = λ s j. v.finds s (sym (e s) ∙ j);
  found = λ k s f. let (j, h) = v.found k s f in (e s ∙ j, h);
}

pub new_manager-Keeps : (ids : ℕ → Identity) → Keeps ids (λ s. false) (λ s. none) new_manager
unfolding new_manager lookup
new_manager-Keeps ids = record {
  by_handle = record { finds = λ s j. absurd cc; found = λ k s e. absurd cc };
  by_uuid = record { finds = λ s j. absurd cc; found = λ k s e. absurd cc };
  by_name = record { finds = λ s j. absurd cc; found = λ k s e. absurd cc };
  by_xuid = record { finds = λ s j. absurd cc; found = λ k s e. absurd cc };
  by_world = record { housed = λ w s. refl };
}

module _ (ids : ℕ → Identity) (joined : ℕ → Bool) (placed : ℕ → Option ℕ) (m : Manager)
    (s : ℕ) where
  pub add_session-Keeps :
      (world : Option ℕ)
      → Keeps ids joined placed m
      → IsDistinct ids joined s
      → placed s ≡ none
      → Keeps ids (with_session joined s) (place placed s world) (add_session ids world s m)
  unfolding add_session
  add_session-Keeps world v d e = record {
    by_handle = insert-Indexes _ joined m.sessions s v.by_handle d.own_handle;
    by_uuid = insert-Indexes _ joined m.sessions_by_uuid s v.by_uuid d.own_uuid;
    by_name = insert-Indexes _ joined m.sessions_by_name s v.by_name d.own_name;
    by_xuid = elim (Bool-cases ((ids s).xuid == 0)) [
      | inl empty ↦ rw empty (same-Indexes (λ u. ground arith) v.by_xuid)
      | inr given ↦ rw given (
          same-Indexes (λ u. ground arith)
            (insert-Indexes _ (with_xuid ids joined) m.sessions_by_xuid s v.by_xuid d.own_xuid))
    ];
    by_world = enter_world-Houses placed m.sessions_by_world world s v.by_world e;
  }

  pub drop_session-Keeps :
      Keeps ids joined placed m
      → IsDistinct ids joined s
      → Keeps ids (without_session joined s) (place placed s none) (drop_session ids (placed s) s m)
  unfolding drop_session
  drop_session-Keeps v d = record {
    by_handle = delete-Indexes _ joined m.sessions s v.by_handle d.own_handle;
    by_uuid = delete-Indexes _ joined m.sessions_by_uuid s v.by_uuid d.own_uuid;
    by_name = delete-Indexes _ joined m.sessions_by_name s v.by_name d.own_name;
    by_xuid = elim (Bool-cases ((ids s).xuid == 0)) [
      | inl empty ↦ rw empty (same-Indexes (λ u. ground arith) v.by_xuid)
      | inr given ↦ rw given (
          same-Indexes (λ u. ground arith)
            (delete-Indexes _ (with_xuid ids joined) m.sessions_by_xuid s v.by_xuid d.own_xuid))
    ];
    by_world = leave_world-Houses placed m.sessions_by_world (placed s) s v.by_world refl;
  }

  pub move_session-Keeps :
      (to : Option ℕ)
      → Keeps ids joined placed m
      → Keeps ids joined (place placed s to) (move_session s (placed s) to m)
  unfolding move_session
  move_session-Keeps to v = record {
    by_handle = v.by_handle;
    by_uuid = v.by_uuid;
    by_name = v.by_name;
    by_xuid = v.by_xuid;
    by_world =
        let left = leave_world-Houses placed m.sessions_by_world (placed s) s v.by_world refl in
        let entered = enter_world-Houses (place placed s none) _ to s left (ground arith) in
        record { housed = λ w u. entered.housed w u ∙ ground arith };
  }
