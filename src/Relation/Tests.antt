-- ===== src/Relation/Tests.antt =====
-- relation.go: the theorems at three sessions, the second of them closed.
use pecs.Prelude.{refl, ℕ, ◌≡◌, true, false, none, some, List, [], ◌∷◌, map, arith, ◌==◌}
use pecs.Prelude.Assoc.{lookup}
use pecs.Bitmask.{no_bits}
use pecs.Session.Laws.{InOrder}
use pecs.Session.History.{no_bits-absent}
use pecs.Registry.{write}
use pecs.Relation.{
  World, resolve_relation, valid_relation, Field, relation, relation_set, clear_relations_to,
}
use pecs.Relation.Laws.{
  Resolved, resolve_relation_lem, SetResolved, resolve_targets_lem, clear_relations_to_lem, refers,
}

abbrev three_sessions : World
three_sessions s = record {
  usable = true;
  registry = record {
    types = (40, 0) ∷ [];
    names = λ id. [];
    types_arr = write (λ id. none) 0 (some 40);
    next_id = 1;
  };
  session = record {
    mask = no_bits;
    components = λ id. none;
    expirations = [];
    closed = s == 2;
    pending_tasks = [];
    provider_subs = [];
  };
  memory = λ a. a;
  cancelled = λ task. false;
}

three_sessions-InOrder : (s : ℕ) → InOrder (three_sessions s)
unfolding lookup
three_sessions-InOrder s = record {
  session_order = record { dated = tt; agree = no_bits-absent; within = λ id f. refl };
  ids_fit = record { fit = λ t id e. ground arith };
}

resolve_relation_lem_example :
    Resolved three_sessions 40
      (record { target = some 2 })
      (resolve_relation three_sessions 40 (record { target = some 2 })).0
      (valid_relation three_sessions 40 (record { target = some 2 })).0
resolve_relation_lem_example =
    resolve_relation_lem three_sessions 40 (record { target = some 2 }) three_sessions-InOrder

resolve_targets_lem_example : SetResolved three_sessions 40 (record { targets = 1 ∷ 2 ∷ 3 ∷ [] })
resolve_targets_lem_example =
    resolve_targets_lem three_sessions 40 (record { targets = 1 ∷ 2 ∷ 3 ∷ [] })

abbrev two_fields : List Field
two_fields =
    relation (record { target = some 2 }) ∷ relation_set (record { targets = 1 ∷ 2 ∷ [] }) ∷ []

clear_relations_to_lem_example :
    map (refers 2) (clear_relations_to 2 two_fields) ≡ false ∷ false ∷ []
clear_relations_to_lem_example = clear_relations_to_lem 2 2 two_fields
