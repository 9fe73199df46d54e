-- ===== src/Session/Laws.antt =====
-- session.go and component.go: the mask and the array of components agree, whatever is called.
use pecs.Prelude.{
  ℕ, ◌<◌, ◌≤◌, ◌≡◌, inl, inr, Bool, true, false, not, Bool-cases, Option-cases, either_branch,
  Option, none, some, List, All, arith, leb,
}
use pecs.Prelude.Assoc.{lookup, lookup-insert}
use pecs.Bitmask.{has}
use pecs.Bitmask.Digits.{has-set, has-clear}
use pecs.Registry.{
  ComponentRegistry, Registration, registered, limit_exceeded, register, store_type, get_id,
  counted, allocated, max_components, get_type,
}
use pecs.Registry.Laws.{register_miss}
use pecs.Session.{
  Session, State, Host, returned, left, add_component_unsafe, remove_component_unsafe,
  get_component_unsafe, with_session, announce_attach, announce_detach,
}
use pecs.Session.Components.{
  add, add_at, add_registered, remove, get_or_add, get_or_add_at, get_or_add_registered,
  remove_component_by_id,
}

abbrev pub is_present : Option ℕ → Bool
is_present none = false
is_present (some p) = true

-- A component's digit is set exactly where its pointer is not nil, the array has max_components
-- pointers, and only a ComponentID below that has a time of expiration.
pub record IsSession (s : Session) : Type 0 where
  pub dated : All (λ e. e.0 < 255) s.expirations
  pub agree : (id : ℕ) → id < 256 → has s.mask id ≡ is_present (s.components id)
  pub within : (id : ℕ) → 255 ≤ id → s.components id ≡ none

-- The identifiers of a registry are below its limit. This holds after a panic too.
pub record IdsFit (r : ComponentRegistry) : Type 0 where
  pub fit : (t id : ℕ) → lookup t r.types ≡ some id → id < 255

pub record InOrder (st : State) : Type 0 where
  pub session_order : IsSession st.session
  pub ids_fit : IdsFit st.registry

-- The code that is called back keeps the order, as it does when it calls what this file is about.
pub record IsHost (host : Host) : Type 0 where
  pub attaches : (t : ℕ) (p : Option ℕ) (st : State) → InOrder st → InOrder (host.attach t p st)
  pub detaches : (t p : ℕ) (st : State) → InOrder st → InOrder (host.detach t p st)
  pub emits_attach : (t : ℕ) (st : State) → InOrder st → InOrder (host.emit_attach t st)
  pub emits_detach : (t : ℕ) (st : State) → InOrder st → InOrder (host.emit_detach t st)
  pub closes_sub : (x : ℕ) (st : State) → InOrder st → InOrder (host.close_sub x st)
  pub disconnects : (st : State) → InOrder st → InOrder (host.disconnect st)
  pub removes_session : (st : State) → InOrder st → InOrder (host.remove_session st)

pub add_component_unsafe-IsSession :
    (s : Session) (id p : ℕ)
    → id < 255
    → IsSession s
    → IsSession (add_component_unsafe s id (some p))
unfolding add_component_unsafe
add_component_unsafe-IsSession s id p f v = record {
  dated = v.dated;
  agree = λ i g. ground (arith, has-set s.mask id i (omega (arith, f)) g, v.agree i g);
  within = λ i g. ground (arith, v.within i g, f, g);
}

pub remove_component_unsafe-IsSession :
    (s : Session) (id : ℕ) → id < 255 → IsSession s → IsSession (remove_component_unsafe s id)
unfolding remove_component_unsafe
remove_component_unsafe-IsSession s id f v = record {
  dated = v.dated;
  agree = λ i g. ground (arith, has-clear s.mask id i (omega (arith, f)) g, v.agree i g);
  within = λ i g. ground (arith, v.within i g, f, g);
}

-- What a registration leaves in either case.
abbrev pub Fitting : Registration → Type 0
Fitting (registered id r) = IdsFit r × (id < 255)
Fitting (limit_exceeded r) = IdsFit r

pub register-Fitting :
    (r : ComponentRegistry) (t : ℕ) (name : List ℕ) → IdsFit r → Fitting (register r t name)
unfolding register counted store_type
register-Fitting r t name v = elim (Option-cases (lookup t r.types)) [
  | inr (id, e) ↦ rw (e, register) (v, v.fit t id e)
  | inl e ↦ elim (Bool-cases (leb max_components (allocated r.next_id))) [
    | inl full ↦ rw (register_miss r t name e, full) (record { fit = v.fit })
    | inr room ↦
        let below : allocated r.next_id < 255 = ground (arith, room) in
        rw (register_miss r t name e, room, e, store_type)
          (
            record {
              fit = λ u id p.
                  ground (arith, lookup-insert t u (allocated r.next_id) r.types, v.fit u id);
            },
            below,
          )
  ]
]

module _ (host : Host) (h : IsHost host) where
  announce_attach-InOrder :
      (t : ℕ) (p : Option ℕ) (st : State) → InOrder st → InOrder (announce_attach host t p st)
  announce_attach-InOrder t p st v = elim (Bool-cases (host.attachable t)) [
    | inl e ↦ rw (announce_attach, e) (h.emits_attach t _ (h.attaches t p st v))
    | inr e ↦ rw (announce_attach, e) (h.emits_attach t _ v)
  ]

  announce_detach-InOrder :
      (t p : ℕ) (st : State) → InOrder st → InOrder (announce_detach host t p st)
  announce_detach-InOrder t p st v = elim (Bool-cases (host.detachable t)) [
    | inl e ↦ rw (announce_detach, e) (h.emits_detach t _ (h.detaches t p st v))
    | inr e ↦ rw (announce_detach, e) (h.emits_detach t _ v)
  ]

  add_at-InOrder :
      (t p id : ℕ) (st : State) → id < 255 → InOrder st → InOrder (add_at host t p id st)
  unfolding add_at get_component_unsafe
  add_at-InOrder t p id st f v = elim (Option-cases (st.session.components id)) [
    | inr (old, e) ↦
        rw (e, add_at) (record { session_order = v.session_order; ids_fit = v.ids_fit })
    | inl e ↦
        rw (e, add_at)
          (announce_attach-InOrder t (some p) _ (record {
            session_order = add_component_unsafe-IsSession st.session id p f v.session_order;
            ids_fit = v.ids_fit;
          }))
  ]

  add_registered-InOrder :
      (t p : ℕ) (st : State) (reg : Registration)
      → InOrder st
      → Fitting reg
      → InOrder (left (add_registered host t p st reg))
  add_registered-InOrder t p st (registered id r) v f =
      add_at-InOrder t p id _ f.1 (record { session_order = v.session_order; ids_fit = f.0 })
  add_registered-InOrder t p st (limit_exceeded r) v f = record {
    session_order = v.session_order;
    ids_fit = f;
  }

  pub add-InOrder :
      (t : ℕ) (name : List ℕ) (component : Option ℕ) (st : State)
      → InOrder st
      → InOrder (left (add host t name component st))
  unfolding add
  add-InOrder t name none st v =
      either_branch (λ c. InOrder (left c)) (not st.usable) {x = returned tt st}
        {y = returned tt st} v v
  add-InOrder t name (some p) st v =
      either_branch (λ c. InOrder (left c)) (not st.usable) {x = returned tt st}
        {y = add_registered host t p st (register st.registry t name)} v
        (add_registered-InOrder t p st _ v (register-Fitting st.registry t name v.ids_fit))

  pub remove_component_by_id-InOrder :
      (id : ℕ) (st : State) → id < 255 → InOrder st → InOrder (remove_component_by_id host id st)
  unfolding remove_component_by_id get_component_unsafe get_type
  remove_component_by_id-InOrder id st f v = elim (Option-cases (st.session.components id)) [
    | inl e ↦ rw (e, remove_component_by_id) v
    | inr (p, e) ↦
        let cleared : InOrder (with_session st (remove_component_unsafe st.session id)) = record {
          session_order = remove_component_unsafe-IsSession st.session id f v.session_order;
          ids_fit = v.ids_fit;
        } in
        elim (Option-cases (st.registry.types_arr id)) [
          | inl g ↦ rw (e, remove_component_by_id, g) cleared
          | inr (t, g) ↦ rw (e, remove_component_by_id, g) (announce_detach-InOrder t p _ cleared)
        ]
  ]

  pub remove-InOrder : (t : ℕ) (st : State) → InOrder st → InOrder (remove host t st)
  unfolding remove get_component_unsafe get_id
  remove-InOrder t st v = either_branch InOrder (not st.usable) v removed
    where
      removed : InOrder (elim (get_id st.registry t) [
        | none ↦ st
        | some id ↦ elim (get_component_unsafe st.session id) [
          | none ↦ st
          | some p ↦
              announce_detach host t p (with_session st (remove_component_unsafe st.session id))
        ]
      ])
      removed = elim (Option-cases (lookup t st.registry.types)) [
        | inl g ↦ rw g v
        | inr (id, g) ↦ elim (Option-cases (st.session.components id)) [
          | inl n ↦ rw (g, n) v
          | inr (p, n) ↦
              rw (g, n)
                (announce_detach-InOrder t p _ (record {
                  session_order =
                      remove_component_unsafe-IsSession st.session id (v.ids_fit.fit t id g)
                        v.session_order;
                  ids_fit = v.ids_fit;
                }))
        ]
      ]

  get_or_add_registered-InOrder :
      (t p : ℕ) (st : State) (reg : Registration)
      → InOrder st
      → Fitting reg
      → InOrder (left (get_or_add_registered host t (some p) st reg))
  unfolding get_or_add_at get_component_unsafe
  get_or_add_registered-InOrder t p st (registered id r) v f =
      elim (Option-cases (st.session.components id)) [
        | inr (old, e) ↦
            rw (get_or_add_registered, e, get_or_add_at)
              (record { session_order = v.session_order; ids_fit = f.0 })
        | inl e ↦
            rw (get_or_add_registered, e, get_or_add_at)
              (announce_attach-InOrder t (some p) _ (record {
                session_order = add_component_unsafe-IsSession st.session id p f.1 v.session_order;
                ids_fit = f.0;
              }))
      ]
  get_or_add_registered-InOrder t p st (limit_exceeded r) v f = record {
    session_order = v.session_order;
    ids_fit = f;
  }

  pub get_or_add-InOrder :
      (t : ℕ) (name : List ℕ) (p : ℕ) (st : State)
      → InOrder st
      → InOrder (left (get_or_add host t name (some p) st))
  unfolding get_or_add
  get_or_add-InOrder t name p st v =
      either_branch (λ c. InOrder (left c)) (not st.usable) {x = returned none st}
        {y = get_or_add_registered host t (some p) st (register st.registry t name)} v
        (get_or_add_registered-InOrder t p st _ v (register-Fitting st.registry t name v.ids_fit))
