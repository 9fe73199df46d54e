-- ===== src/Sessions.antt =====
-- manager.go: the indexes of a manager over its sessions.
-- A session is a number, and so are a handle, a UUID, a world and a string; the empty string is 0.
-- What a session never changes is its identity. Each call is one step, though the source locks one
-- index after the other.
pub mod Index
pub mod Worlds
pub mod Histories
pub mod Laws
mod Tests
use pecs.Prelude.{
  ℕ, zero, suc, ◌+◌, Bool, true, false, not, ◌&&◌, Option, none, some, List, [], ◌∷◌, ◌++◌, ◌==◌,
  if◌then◌else◌, contains, length,
}
use pecs.Prelude.Assoc.{lookup, insert, delete}
use pecs.Relation.{without, Field, clear_session_relations}
use pecs.Registry.{max_components}
use pecs.Session.{State}

pub record Identity : Type 0 where
  pub handle : ℕ
  pub uuid : ℕ
  pub name : ℕ
  pub xuid : ℕ
  pub is_fake : Bool
  pub fake_id : ℕ

pub record Manager : Type 0 where
  pub sessions : List (ℕ × ℕ)
  pub sessions_by_uuid : List (ℕ × ℕ)
  pub sessions_by_name : List (ℕ × ℕ)
  pub sessions_by_xuid : List (ℕ × ℕ)
  pub sessions_by_fake_id : List (ℕ × ℕ)
  pub sessions_by_world : List (ℕ × List ℕ)

unfoldable pub new_manager : Manager
new_manager = record {
  sessions = [];
  sessions_by_uuid = [];
  sessions_by_name = [];
  sessions_by_xuid = [];
  sessions_by_fake_id = [];
  sessions_by_world = [];
}

-- `m.sessionsByWorld[w]`, where nil and empty are alike.
abbrev pub members : List (ℕ × List ℕ) → ℕ → List ℕ
members m w = elim (lookup w m) [ none ↦ [] | some l ↦ l ]

abbrev pub join : ℕ → List ℕ → List ℕ
join s l = if contains l s then l else l ++ s ∷ []

-- The session joins the set of a world, which is made if it is not there; nil is `none`.
unfoldable pub enter_world : Option ℕ → ℕ → List (ℕ × List ℕ) → List (ℕ × List ℕ)
enter_world none s m = m
enter_world (some w) s m = insert w (join s (members m w)) m

abbrev pub store_or_drop : ℕ → List ℕ → List (ℕ × List ℕ) → List (ℕ × List ℕ)
store_or_drop w l m = if length l == 0 then delete w m else insert w l m

-- The session leaves the set of a world, which is deleted if it is empty then.
unfoldable pub leave_world : Option ℕ → ℕ → List (ℕ × List ℕ) → List (ℕ × List ℕ)
leave_world none s m = m
leave_world (some w) s m = elim (lookup w m) [ none ↦ m | some l ↦ store_or_drop w (without s l) m ]

-- addSession, with the cached world of the session.
unfoldable pub add_session : (ℕ → Identity) → Option ℕ → ℕ → Manager → Manager
add_session ids world s m = record m {
  sessions = insert (ids s).handle s m.sessions;
  sessions_by_uuid = insert (ids s).uuid s m.sessions_by_uuid;
  sessions_by_name = insert (ids s).name s m.sessions_by_name;
  sessions_by_xuid =
      if (ids s).xuid == 0 then m.sessions_by_xuid else insert (ids s).xuid s m.sessions_by_xuid;
  sessions_by_world = enter_world world s m.sessions_by_world;
}

unfoldable pub move_session : ℕ → Option ℕ → Option ℕ → Manager → Manager
move_session s from to m = record m {
  sessions_by_world = enter_world to s (leave_world from s m.sessions_by_world);
}

-- removeSession up to the clearing of relations.
unfoldable pub drop_session : (ℕ → Identity) → Option ℕ → ℕ → Manager → Manager
drop_session ids world s m = record m {
  sessions = delete (ids s).handle m.sessions;
  sessions_by_uuid = delete (ids s).uuid m.sessions_by_uuid;
  sessions_by_name = delete (ids s).name m.sessions_by_name;
  sessions_by_xuid =
      if (ids s).xuid == 0 then m.sessions_by_xuid else delete (ids s).xuid m.sessions_by_xuid;
  sessions_by_fake_id =
      if (ids s).is_fake && not ((ids s).fake_id == 0)
      then delete (ids s).fake_id m.sessions_by_fake_id
      else m.sessions_by_fake_id;
  sessions_by_world = leave_world world s m.sessions_by_world;
}

-- The fields of the components of each session, by address.
abbrev pub Fields : Type 0
Fields = ℕ → ℕ → List Field

-- clearAllRelationsTo, over the sessions of the index by handle.
unfoldable pub clear_all_relations_to : List (ℕ × ℕ) → (ℕ → State) → ℕ → Fields → Fields
clear_all_relations_to [] w s fields = fields
clear_all_relations_to ((h, u) ∷ rest) w s fields =
    clear_all_relations_to rest w s (λ v.
      if v == u then clear_session_relations max_components 0 (w u) s (fields u) else fields v)

unfoldable pub remove_session :
    (ℕ → Identity) → (ℕ → State) → Option ℕ → ℕ → Manager → Fields → Manager × Fields
unfolding drop_session
remove_session ids w world s m fields =
    let m' = drop_session ids world s m in (m', clear_all_relations_to m'.sessions w s fields)

unfoldable pub get_session_by_handle : ℕ → Manager → Option ℕ
get_session_by_handle h m = lookup h m.sessions

unfoldable pub get_session_by_uuid : ℕ → Manager → Option ℕ
get_session_by_uuid id m = lookup id m.sessions_by_uuid

unfoldable pub get_session_by_name : ℕ → Manager → Option ℕ
get_session_by_name name m = lookup name m.sessions_by_name

unfoldable pub get_session_by_xuid : ℕ → Manager → Option ℕ
get_session_by_xuid xuid m = lookup xuid m.sessions_by_xuid

unfoldable pub get_session_by_id : ℕ → Manager → Option ℕ
get_session_by_id id m = if id == 0 then none else elim (get_session_by_xuid id m) [
  | some s ↦ some s
  | none ↦ lookup id m.sessions_by_fake_id
]

abbrev pub open_values : (ℕ → Bool) → List (ℕ × ℕ) → List ℕ
open_values closed [] = []
open_values closed ((h, s) ∷ m) =
    if closed s then open_values closed m else s ∷ open_values closed m

unfoldable pub all_sessions : (ℕ → Bool) → Manager → List ℕ
all_sessions closed m = open_values closed m.sessions

abbrev pub open_members : (ℕ → Bool) → List ℕ → List ℕ
open_members closed [] = []
open_members closed (s ∷ l) = if closed s then open_members closed l else s ∷ open_members closed l

unfoldable pub all_sessions_in_world : (ℕ → Bool) → Option ℕ → Manager → List ℕ
all_sessions_in_world closed none m = []
all_sessions_in_world closed (some w) m = open_members closed (members m.sessions_by_world w)

unfoldable pub session_count : Manager → ℕ
session_count m = length m.sessions
