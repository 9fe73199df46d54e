-- ===== src/Session/Running.antt =====
-- session.go: canRun, and component.go: Has, on a session whose mask agrees with its components.
use pecs.Prelude.{
  ℕ, ◌<◌, ◌≡◌, refl, sym, ◌∙◌, ◌↔◌, inl, inr, true, false, Bool-cases, Option-cases, arith,
}
use pecs.Prelude.Assoc.{lookup}
use pecs.Bitmask.{Bitmask, has, contains_all, contains_any, IsMask}
use pecs.Bitmask.Containment.{contains_all_iff, contains_any_iff}
use pecs.Registry.{get_id}
use pecs.Session.{
  Session, State, has_component_unsafe, get_component_unsafe, can_run_unsafe, Filter,
}
use pecs.Session.Components.{get, has_component}
use pecs.Session.Laws.{IsSession, InOrder, is_present}

-- Every index of the mask has a component, and no index of it.
abbrev pub AllPresent : Session → Bitmask → Type 0
AllPresent s m = (id : ℕ) → id < 256 → has m id ≡ true → is_present (s.components id) ≡ true

abbrev pub AllAbsent : Session → Bitmask → Type 0
AllAbsent s m = (id : ℕ) → id < 256 → has m id ≡ true → is_present (s.components id) ≡ false

contains_all_present :
    (s : Session) (m : Bitmask)
    → IsSession s
    → IsMask m
    → (contains_all s.mask m ≡ true) ↔ AllPresent s m
contains_all_present s m v w = (
  λ e id f own. sym (v.agree id f) ∙ (contains_all_iff s.mask m w).0 e id f own,
  λ c. (contains_all_iff s.mask m w).1 (λ id f own. v.agree id f ∙ c id f own),
)

contains_any_absent :
    (s : Session) (m : Bitmask)
    → IsSession s
    → IsMask m
    → (contains_any s.mask m ≡ false) ↔ AllAbsent s m
contains_any_absent s m v w = (
  λ e id f own. elim (Bool-cases (is_present (s.components id))) [
    | inr absent ↦ absent
    | inl present ↦
        let shared = (contains_any_iff s.mask m w).1 (id, f, v.agree id f ∙ present, own) in cc
  ],
  λ c. elim (Bool-cases (contains_any s.mask m)) [
    | inr e ↦ e
    | inl e ↦
        let (id, f, held, own) = (contains_any_iff s.mask m w).0 e in
        let here = v.agree id f in let gone = c id f own in cc
  ],
)

-- canRun lets a system run exactly if every required component is there and no excluded one.
pub can_run_unsafe_iff :
    (s : Session) (meta : Filter)
    → IsSession s
    → IsMask meta.require_mask
    → IsMask meta.exclude_mask
    → (can_run_unsafe s meta ≡ true)
      ↔ (AllPresent s meta.require_mask × AllAbsent s meta.exclude_mask)
unfolding can_run_unsafe
can_run_unsafe_iff s meta v m n = (
  λ e. (
    (contains_all_present s _ v m).0 (ground arith),
    (contains_any_absent s _ v n).0 (ground arith),
  ),
  λ c.
      let req = (contains_all_present s _ v m).1 c.0 in
      let exc = (contains_any_absent s _ v n).1 c.1 in rw (req, exc) refl,
)

-- Has says whether Get finds a pointer.
pub has_component_present :
    (t : ℕ) (st : State) → InOrder st → has_component t st ≡ is_present (get t st)
unfolding has_component get get_id get_component_unsafe has_component_unsafe
has_component_present t st v = elim (Bool-cases st.usable) [
  | inr e ↦ rw (has_component, get, e) refl
  | inl e ↦ elim (Option-cases (lookup t st.registry.types)) [
    | inl g ↦ rw (has_component, get, e, g) refl
    | inr (id, g) ↦
        let below : id < 256 = omega (arith, v.ids_fit.fit t id g) in
        rw (has_component, get, e, g) (v.session_order.agree id below)
  ]
]
