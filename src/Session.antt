-- ===== src/Session.antt =====
-- session.go and component.go: a player's session, its components and what it calls back.
-- A pointer is an address and the bytes of a component are the number in memory there. A type is
-- known by its identity, as in Registry. Each call is one step: the mutexes s.mu and s.expirationMu
-- are held for as long as it touches what they guard, and no hook runs under them.
pub mod Components
pub mod Expiry
pub mod Closing
pub mod Laws
pub mod Running
pub mod Roundtrip
pub mod Deadlines
pub mod Renewal
pub mod Default
pub mod Shutdown
pub mod History
mod Tests
use pecs.Prelude.{
  ℕ, zero, suc, Bool, true, false, not, ◌&&◌, Option, none, some, List, if◌then◌else◌, ◌==◌,
}
use pecs.Bitmask.{Bitmask, set, clear, has, contains_all, contains_any}
use pecs.Registry.{ComponentRegistry, write}

-- `components` holds nil, `none`, where no component is; `expirations` is a map from identifiers to
-- Unix milliseconds. The identity of the player and the cached world are left out.
pub record Session : Type 0 where
  pub mask : Bitmask
  pub components : ℕ → Option ℕ
  pub expirations : List (ℕ × ℕ)
  pub closed : Bool
  pub pending_tasks : List ℕ
  pub provider_subs : List (Option ℕ)

-- What a call sees: the registry of the manager, one session, the bytes at each address, and the
-- flag `cancelled` of each task. `usable` says that neither the session nor its manager is nil.
pub record State : Type 0 where
  pub usable : Bool
  pub registry : ComponentRegistry
  pub session : Session
  pub memory : ℕ → ℕ
  pub cancelled : ℕ → Bool

-- The code that a session calls back: which types implement Attachable and Detachable, their
-- methods, the handlers that Emit reaches, and what a session that closes tells its subscriptions,
-- the player's connection, if the session has a handle, and the manager. All may do what they like to
-- the state.
pub record Host : Type 0 where
  pub attachable : ℕ → Bool
  pub detachable : ℕ → Bool
  pub attach : ℕ → Option ℕ → State → State
  pub detach : ℕ → ℕ → State → State
  pub emit_attach : ℕ → State → State
  pub emit_detach : ℕ → State → State
  pub close_sub : ℕ → State → State
  pub has_handle : Bool
  pub disconnect : State → State
  pub remove_session : State → State

-- A call returns, or panics at the limit of component types; both leave a state.
pub data Call (A : Type 0) : Type 0 where
  returned : A → State → Call A
  panicked : State → Call A

abbrev pub left : {A : Type 0} → Call A → State
left (returned a st) = st
left (panicked st) = st

unfoldable pub get_component_unsafe : Session → ℕ → Option ℕ
get_component_unsafe s id = s.components id

unfoldable pub has_component_unsafe : Session → ℕ → Bool
has_component_unsafe s id = has s.mask id

unfoldable pub add_component_unsafe : Session → ℕ → Option ℕ → Session
add_component_unsafe s id ptr = record s {
  components = write s.components id ptr;
  mask = set s.mask id;
}

-- The session without the component; the pointer that is returned is `get_component_unsafe`.
unfoldable pub remove_component_unsafe : Session → ℕ → Session
remove_component_unsafe s id = record s {
  components = write s.components id none;
  mask = clear s.mask id;
}

-- The masks of a SystemMeta.
pub record Filter : Type 0 where
  pub require_mask : Bitmask
  pub exclude_mask : Bitmask

unfoldable pub can_run_unsafe : Session → Filter → Bool
can_run_unsafe s meta =
    if not (contains_all s.mask meta.require_mask)
    then false
    else if contains_any s.mask meta.exclude_mask
    then false
    else true

abbrev pub with_session : State → Session → State
with_session st s = record st { session = s }

-- Attach, where it is implemented, then the event.
abbrev pub announce_attach : Host → ℕ → Option ℕ → State → State
announce_attach host t p st =
    host.emit_attach t (if host.attachable t then host.attach t p st else st)

-- Detach, where it is implemented, then the event.
abbrev pub announce_detach : Host → ℕ → ℕ → State → State
announce_detach host t p st =
    host.emit_detach t (if host.detachable t then host.detach t p st else st)
