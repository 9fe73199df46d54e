-- ===== src/Session/Tests.antt =====
-- session.go and component.go: the theorems at a session with one component, and runs.
use pecs.Prelude.{if◌then◌else◌, ℕ, ◌≡◌, ◌↔◌, refl, true, false, none, some, [], ◌∷◌, arith}
use pecs.Prelude.Assoc.{lookup, insert}
use pecs.Bitmask.{no_bits, has}
use pecs.Registry.{register, store_type, get_id, counted, write}
use pecs.Session.{
  State, Host, returned, left, can_run_unsafe, Filter, get_component_unsafe, add_component_unsafe,
}
use pecs.Session.Components.{add, add_at, remove, get, has_component, get_or_add}
use pecs.Session.Expiry.{process_expirations, expires_at, add_until}
use pecs.Session.Closing.{close}
use pecs.Session.Laws.{add-InOrder, InOrder, IsHost, is_present}
use pecs.Session.Running.{AllPresent, AllAbsent}
use pecs.Session.History.{here, next, added_until, no_bits-absent, Lived-agrees}
use pecs.Session.Roundtrip.{Same, IsQuiet, IsTyped, Added, Removed, add_lem, remove_lem}
use pecs.Session.Default.{Provided, Hollow, get_or_add_lem, get_or_add_nil}
use pecs.Session.Deadlines.{IsMap, Processed, process_expirations_lem}
use pecs.Session.Renewal.{renewed-removed}
use pecs.Session.Shutdown.{IsFinal, IsGone, close_lem}

-- Hooks and handlers that do nothing, of types that all implement them.
abbrev silent : Host
silent = record {
  attachable = λ t. true;
  detachable = λ t. true;
  attach = λ t p st. st;
  detach = λ t p st. st;
  emit_attach = λ t st. st;
  emit_detach = λ t st. st;
  close_sub = λ x st. st;
  has_handle = true;
  disconnect = λ st. st;
  remove_session = λ st. st;
}

silent-IsHost : IsHost silent
silent-IsHost = record {
  attaches = λ t p st v. v;
  detaches = λ t p st v. v;
  emits_attach = λ t st v. v;
  emits_detach = λ t st v. v;
  closes_sub = λ x st v. v;
  disconnects = λ st v. v;
  removes_session = λ st v. v;
}

Same-refl : {st : State} → Same st st
Same-refl = record {
  same_usable = refl;
  same_registry = refl;
  same_session = refl;
  same_memory = refl;
}

silent-IsQuiet : IsQuiet silent
silent-IsQuiet = record {
  attaches = λ t p st. Same-refl;
  detaches = λ t p st. Same-refl;
  emits_attach = λ t st. Same-refl;
  emits_detach = λ t st. Same-refl;
}

-- The type 40 has the identifier 0 and its component the address 7; it expires at 5000 ms.
abbrev one_component : State
one_component = record {
  usable = true;
  registry = record {
    types = (40, 0) ∷ [];
    names = λ id. [];
    types_arr = write (λ id. none) 0 (some 40);
    next_id = 1;
  };
  session = record {
    mask = record { w0 = 1; w1 = 0; w2 = 0; w3 = 0 };
    components = write (λ id. none) 0 (some 7);
    expirations = (0, 5000) ∷ [];
    closed = false;
    pending_tasks = 3 ∷ [];
    provider_subs = [];
  };
  memory = λ a. a;
  cancelled = λ task. false;
}

one_component-IsTyped : IsTyped one_component
unfolding lookup
one_component-IsTyped = record {
  registry_order = record {
    within = omega arith;
    below = λ t id e. ground arith;
    inverse = λ t id e. ground arith;
    known = λ t id e. ground arith;
  };
  beyond = λ i above. ground arith;
}

one_component-IsMap : IsMap one_component.session.expirations
unfolding lookup
one_component-IsMap = (refl, tt)

add_lem_example : Added one_component 41 9 (add silent 41 [] (some 9) one_component)
add_lem_example = add_lem silent silent-IsQuiet one_component 41 [] 9 refl one_component-IsTyped

add_runs : get 41 (left (add silent 41 [] (some 9) one_component)) ≡ some 9
unfolding add add_at register store_type lookup insert counted get get_id get_component_unsafe
    add_component_unsafe
add_runs = refl

remove_lem_example : Removed one_component 40 (remove silent 40 one_component)
remove_lem_example = remove_lem silent silent-IsQuiet one_component 40 one_component-IsTyped

get_or_add_lem_example :
    Provided one_component 40 9 (get_or_add silent 40 [] (some 9) one_component)
get_or_add_lem_example =
    get_or_add_lem silent silent-IsQuiet one_component 40 [] 9 refl one_component-IsTyped

get_or_add_nil_example : Hollow one_component 41 (get_or_add silent 41 [] none one_component)
unfolding get get_id lookup
get_or_add_nil_example =
    get_or_add_nil silent silent-IsQuiet one_component 41 [] refl one_component-IsTyped refl

process_expirations_lem_example :
    Processed 6000 one_component (process_expirations silent 6000 one_component) 0
process_expirations_lem_example =
    process_expirations_lem silent silent-IsQuiet 6000 one_component one_component-IsMap 0

renewed-removed_example :
    (st' : State) × (add silent 40 [] (some 8) (remove silent 40 one_component) ≡ returned tt st')
    × (expires_at 40 st' ≡ some 5000000000)
    × (get 40 (process_expirations silent 5000 st') ≡ none)
unfolding expires_at get_id lookup
renewed-removed_example =
    renewed-removed silent one_component 40 5000 5000000000 8 [] silent-IsQuiet one_component-IsMap
      refl (omega arith)

silent-IsFinal : IsFinal silent
silent-IsFinal = record {
  sub_closed = λ x st e. e;
  sub_tasks = λ x st. refl;
  detach_closed = λ t p st e. e;
  detach_cancelled = λ t p st task e. e;
}

-- A session without components.
abbrev bare : State
bare = record one_component {
  session = record one_component.session {
    mask = no_bits;
    components = λ id. none;
    expirations = [];
  };
}

bare-InOrder : InOrder bare
unfolding has lookup
bare-InOrder = record {
  session_order = record { dated = tt; agree = no_bits-absent; within = λ id f. refl };
  ids_fit = record { fit = λ t id e. ground arith };
}

abbrev seen : Filter
seen = record {
  require_mask = record { w0 = 1; w1 = 0; w2 = 0; w3 = 0 };
  exclude_mask = record { w0 = 2; w1 = 0; w2 = 0; w3 = 0 };
}

abbrev buffed : State
buffed = left (add_until silent 40 [] (some 7) 5000000000 bare)

-- A session with a pending task and a component.
abbrev waiting : State
waiting = record bare { session = record bare.session { pending_tasks = 3 ∷ [] } }

waiting-InOrder : InOrder waiting
waiting-InOrder = record {
  session_order = record {
    dated = tt;
    agree = bare-InOrder.session_order.agree;
    within = λ id f. refl;
  };
  ids_fit = bare-InOrder.ids_fit;
}

abbrev busy : State
busy = left (add silent 40 [] (some 7) waiting)

close_lem_example :
    (busy.session.closed ≡ true → close silent busy ≡ busy)
    × (busy.session.closed ≡ false
        → (st' : State) × IsGone busy.session.pending_tasks st'
          × (close silent busy ≡ (if st'.usable then st' else st')))
close_lem_example =
    close_lem silent silent-IsFinal silent-IsHost busy
      (add-InOrder silent silent-IsHost 40 [] (some 7) waiting waiting-InOrder)

Lived-agrees_example :
    ((t : ℕ) → has_component t buffed ≡ is_present (get t buffed))
    × ((can_run_unsafe buffed.session seen ≡ true) ↔ (
        AllPresent buffed.session seen.require_mask × AllAbsent buffed.session seen.exclude_mask))
Lived-agrees_example =
    Lived-agrees seen silent-IsHost bare-InOrder (next here (added_until 40 [] (some 7) 5000000000))
      (omega arith) (omega arith)
