-- ===== src/Sessions/Histories.antt =====
-- manager.go: lookups after any sequence of joins, moves and leaves.
use pecs.Prelude.{
  ℕ, ◌≡◌, ◌≢◌, ◌∙◌, ap, Bool, true, false, Option, none, some, List, [], ◌∷◌, arith, if◌then◌else◌,
  count,
}
use pecs.Prelude.Assoc.{insert, lookup-insert, lookup-delete}
use pecs.Sessions.{
  Identity, Manager, new_manager, add_session, move_session, drop_session, get_session_by_handle,
  get_session_by_uuid, get_session_by_name, get_session_by_xuid, get_session_by_id,
  all_sessions_in_world, open_members, members,
}
use pecs.Sessions.Worlds.{place, is_at}
use pecs.Sessions.Laws.{
  Keeps, IsDistinct, with_session, without_session, new_manager-Keeps, add_session-Keeps,
  drop_session-Keeps, move_session-Keeps,
}

-- The managers that calls reach, with the sessions that have joined and the worlds they are in. A
-- session joins that is in no set, and it and one that leaves share no handle, UUID, name or XUID
-- with another; a move and a leave name the world in which the session is placed.
pub data Managed (ids : ℕ → Identity) : (ℕ → Bool) → (ℕ → Option ℕ) → Manager → Type 0 where
  fresh : Managed ids (λ s. false) (λ s. none) new_manager
  joins :
      {joined : ℕ → Bool} {placed : ℕ → Option ℕ} {m : Manager} (s : ℕ) (world : Option ℕ)
      → Managed ids joined placed m
      → IsDistinct ids joined s
      → placed s ≡ none
      → Managed ids (with_session joined s) (place placed s world) (add_session ids world s m)
  moves :
      {joined : ℕ → Bool} {placed : ℕ → Option ℕ} {m : Manager} (s : ℕ) (to : Option ℕ)
      → Managed ids joined placed m
      → Managed ids joined (place placed s to) (move_session s (placed s) to m)
  leaves :
      {joined : ℕ → Bool} {placed : ℕ → Option ℕ} {m : Manager} (s : ℕ)
      → Managed ids joined placed m
      → IsDistinct ids joined s
      → Managed ids
          (without_session joined s)
          (place placed s none)
          (drop_session ids (placed s) s m)

Managed-Keeps :
    {ids : ℕ → Identity} {joined : ℕ → Bool} {placed : ℕ → Option ℕ} {m : Manager}
    → Managed ids joined placed m
    → Keeps ids joined placed m
Managed-Keeps {ids = ids} fresh = new_manager-Keeps ids
Managed-Keeps (joins s world run d e) = add_session-Keeps _ _ _ _ s world (Managed-Keeps run) d e
Managed-Keeps (moves s to run) = move_session-Keeps _ _ _ _ s to (Managed-Keeps run)
Managed-Keeps (leaves s run d) = drop_session-Keeps _ _ _ _ s (Managed-Keeps run) d

count-open_members :
    (closed : ℕ → Bool) (s : ℕ) (l : List ℕ)
    → count s (open_members closed l) ≡ (if closed s then 0 else count s l)
count-open_members closed s [] = ground arith
count-open_members closed s (x ∷ l) = ground (arith, count-open_members closed s l)

-- What the lookups find of one session.
abbrev pub Findable : (ℕ → Identity) → (ℕ → Bool) → (ℕ → Option ℕ) → Manager → ℕ → Type 0
Findable ids joined placed m s =
    (joined s ≡ true
      → (get_session_by_handle (ids s).handle m ≡ some s)
        × (get_session_by_uuid (ids s).uuid m ≡ some s)
        × (get_session_by_name (ids s).name m ≡ some s)
        × ((ids s).xuid ≢ 0 → get_session_by_id (ids s).xuid m ≡ some s))
    × ((k : ℕ) → get_session_by_handle k m ≡ some s → joined s ≡ true)
    × ((k : ℕ) → get_session_by_uuid k m ≡ some s → joined s ≡ true)
    × ((k : ℕ) → get_session_by_name k m ≡ some s → joined s ≡ true)
    × ((k : ℕ) → get_session_by_xuid k m ≡ some s → joined s ≡ true)
    × ((w : ℕ) (closed : ℕ → Bool)
        → count s (all_sessions_in_world closed (some w) m)
          ≡ (if closed s then 0 else if is_at (placed s) w then 1 else 0))

-- After any joins, moves and leaves of sessions that share no key, the lookups by handle, UUID, name
-- and XUID find exactly the sessions that have joined and not left, and AllSessionsInWorld returns a
-- session once for the world it is placed in, unless it is closed, and for no other.
pub Managed-Findable :
    {ids : ℕ → Identity} {joined : ℕ → Bool} {placed : ℕ → Option ℕ} {m : Manager} (s : ℕ)
    → Managed ids joined placed m
    → Findable ids joined placed m s
unfolding get_session_by_handle get_session_by_uuid get_session_by_name get_session_by_xuid
    get_session_by_id all_sessions_in_world
Managed-Findable {ids = ids} {m = m} s run =
    let v = Managed-Keeps run in
    (
      (λ j. (
        v.by_handle.finds s j,
        v.by_uuid.finds s j,
        v.by_name.finds s j,
        λ n. ground (arith, v.by_xuid.finds s),
      )),
      (λ k e. (v.by_handle.found k s e).0),
      (λ k e. (v.by_uuid.found k s e).0),
      (λ k e. (v.by_name.found k s e).0),
      (λ k e. let (j, h) = v.by_xuid.found k s e in ground arith),
      λ w closed.
          count-open_members closed s (members m.sessions_by_world w)
          ∙ ap (λ n. if closed s then 0 else n) (v.by_world.housed w s),
    )

-- When two sessions of one name have joined and the second leaves, the first, which has another
-- handle, is found by its handle and not by its name.
pub shared_name-lost :
    (ids : ℕ → Identity) (m : Manager) (u s : ℕ) (v w : Option ℕ)
    → (ids u).name ≡ (ids s).name
    → (ids u).handle ≢ (ids s).handle
    → let left = drop_session ids w s (add_session ids w s (add_session ids v u m)) in
      (get_session_by_handle (ids u).handle left ≡ some u)
      × (get_session_by_name (ids u).name left ≡ none)
unfolding get_session_by_handle get_session_by_name drop_session add_session
shared_name-lost ids m u s v w n h = (
  ground (
    arith,
    lookup-delete (ids s).handle (ids u).handle
        (insert (ids s).handle s (insert (ids u).handle u m.sessions)),
    lookup-insert (ids s).handle (ids u).handle s (insert (ids u).handle u m.sessions),
    lookup-insert (ids u).handle (ids u).handle u m.sessions,
  ),
  ground (
    arith,
    lookup-delete (ids s).name (ids u).name
        (insert (ids s).name s (insert (ids u).name u m.sessions_by_name)),
  ),
)
