-- ===== src/Session/Deadlines.antt =====
-- component.go and session.go: expirations, where the code that is called back leaves the
-- components alone.
use pecs.Prelude.{
  ℕ, ◌*◌, ◌<◌, ◌≤◌, ◌≡◌, refl, ◌∙◌, ap, subst, inl, inr, Bool, true, false, Bool-cases,
  Option-cases, Option, none, some, List, [], ◌∷◌, arith, leb, ◌==◌, if◌then◌else◌, contains,
}
use pecs.Prelude.Assoc.{lookup}
use pecs.Registry.{get_id, get_type}
use pecs.Session.{State, Host, get_component_unsafe, remove_component_unsafe, with_session}
use pecs.Session.Components.{get, remove_component_by_id}
use pecs.Session.Expiry.{
  due_ids, not_due, remove_ids, process_expirations, expires_at, expired, unix_milli,
}
use pecs.Session.Roundtrip.{IsQuiet, announce_detach-Same, get_known}

-- A Go map: no key stands twice.
abbrev pub IsMap : List (ℕ × ℕ) → Type 0
IsMap [] = Unit
IsMap ((k, v) ∷ m) = (lookup k m ≡ none) × IsMap m

abbrev pub is_due : ℕ → Option ℕ → Bool
is_due now none = false
is_due now (some ms) = leb ms now

unmapped_due_ids :
    (now i : ℕ) (m : List (ℕ × ℕ)) → lookup i m ≡ none → contains (due_ids now m) i ≡ false
unfolding due_ids lookup
unmapped_due_ids now i [] e = refl
unmapped_due_ids now i ((j, ms) ∷ m) e = ground (arith, unmapped_due_ids now i m)

contains-due_ids :
    (now i : ℕ) (m : List (ℕ × ℕ)) → IsMap m → contains (due_ids now m) i ≡ is_due now (lookup i m)
unfolding due_ids lookup
contains-due_ids now i [] v = refl
contains-due_ids now i ((j, ms) ∷ m) v =
    ground (arith, contains-due_ids now i m v.1, unmapped_due_ids now j m v.0)

unmapped_not_due :
    (now i : ℕ) (m : List (ℕ × ℕ)) → lookup i m ≡ none → lookup i (not_due now m) ≡ none
unfolding not_due lookup
unmapped_not_due now i [] e = refl
unmapped_not_due now i ((j, ms) ∷ m) e = ground (arith, unmapped_not_due now i m)

lookup-not_due :
    (now i : ℕ) (m : List (ℕ × ℕ))
    → IsMap m
    → lookup i (not_due now m) ≡ (if is_due now (lookup i m) then none else lookup i m)
unfolding not_due lookup
lookup-not_due now i [] v = refl
lookup-not_due now i ((j, ms) ∷ m) v =
    ground (arith, lookup-not_due now i m v.1, unmapped_not_due now j m v.0)

-- The registry and the expirations are as before, and the components that `gone` names are not there.
pub record Cleared (st : State) (gone : ℕ → Bool) (st' : State) : Type 0 where
  pub same_usable : st'.usable ≡ st.usable
  pub same_registry : st'.registry ≡ st.registry
  pub same_expirations : st'.session.expirations ≡ st.session.expirations
  pub rest : (i : ℕ) → st'.session.components i ≡ (if gone i then none else st.session.components i)

-- What processExpirations leaves at one identifier, and of the rest of the state.
abbrev pub Processed : ℕ → State → State → ℕ → Type 0
Processed now st st' i =
    (st'.session.components i
      ≡ (if is_due now (lookup i st.session.expirations) then none else st.session.components i))
    × (lookup i st'.session.expirations ≡ (
        if is_due now (lookup i st.session.expirations)
        then none
        else lookup i st.session.expirations))
    × (st'.registry ≡ st.registry)
    × (st'.usable ≡ st.usable)

pub expires_at_cases :
    (t at : ℕ) (st : State)
    → expires_at t st ≡ some at
    → (id ms : ℕ) × (st.usable ≡ true)
      × (get_id st.registry t ≡ some id)
      × (lookup id st.session.expirations ≡ some ms)
      × (at ≡ ms * 1000000)
unfolding expires_at
expires_at_cases t at st e = elim (Bool-cases st.usable) [
  | inr g ↦ absurd (ground arith)
  | inl g ↦ elim (Option-cases (get_id st.registry t)) [
    | inl k ↦ absurd (ground arith)
    | inr (id, k) ↦ elim (Option-cases (lookup id st.session.expirations)) [
      | inl d ↦ absurd (ground arith)
      | inr (ms, d) ↦ (id, ms, g, k, d, ground arith)
    ]
  ]
]

expired_cases :
    (t now : ℕ) (st : State)
    → expired t now st ≡ true
    → (at : ℕ) × (expires_at t st ≡ some at) × (at < now)
unfolding expired
expired_cases t now st e = elim (Option-cases (expires_at t st)) [
  | inl n ↦ absurd (ground arith)
  | inr (at, f) ↦ (at, f, ground arith)
]

module _ (host : Host) (q : IsQuiet host) where
  by_id-Cleared :
      (id : ℕ) (st : State) → Cleared st (λ i. id == i) (remove_component_by_id host id st)
  unfolding remove_component_by_id get_component_unsafe remove_component_unsafe
  by_id-Cleared id st = elim (Option-cases (st.session.components id)) [
    | inl c ↦
        rw (remove_component_by_id, c)
          (record {
            same_usable = refl;
            same_registry = refl;
            same_expirations = refl;
            rest = λ i. ground arith;
          })
    | inr (p, c) ↦
        let cleared = with_session st (remove_component_unsafe st.session id) in
        elim (Option-cases (get_type st.registry id)) [
          | inl g ↦
              rw (remove_component_by_id, c, g)
                (record {
                  same_usable = refl;
                  same_registry = refl;
                  same_expirations = refl;
                  rest = λ i. refl;
                })
          | inr (t, g) ↦
              let same = announce_detach-Same host q t p cleared in
              rw (remove_component_by_id, c, g)
                (record {
                  same_usable = same.same_usable;
                  same_registry = same.same_registry;
                  same_expirations = ap (λ s. s.expirations) same.same_session;
                  rest = λ i. ap (λ s. s.components i) same.same_session;
                })
        ]
  ]

  remove_ids-Cleared :
      (ids : List ℕ) (st : State) → Cleared st (contains ids) (remove_ids host ids st)
  unfolding remove_ids
  remove_ids-Cleared [] st = record {
    same_usable = refl;
    same_registry = refl;
    same_expirations = refl;
    rest = λ i. refl;
  }
  remove_ids-Cleared (id ∷ ids) st =
      let one = by_id-Cleared id st in
      let more = remove_ids-Cleared ids (remove_component_by_id host id st) in
      record {
        same_usable = more.same_usable ∙ one.same_usable;
        same_registry = more.same_registry ∙ one.same_registry;
        same_expirations = more.same_expirations ∙ one.same_expirations;
        rest = λ i. more.rest i ∙ ground (arith, one.rest i);
      }

  swept :
      (now i : ℕ) (st : State)
      → IsMap st.session.expirations
      → Processed now st
          (remove_ids host (due_ids now st.session.expirations) (
            with_session st
              (record st.session { expirations = not_due now st.session.expirations })))
          i
  swept now i st v =
      let m = st.session.expirations in
      let kept = with_session st (record st.session { expirations = not_due now m }) in
      let c = remove_ids-Cleared (due_ids now m) kept in
      (
        c.rest i
            ∙ ap (λ b. if b then none else st.session.components i) (contains-due_ids now i m v),
        ap (lookup i) c.same_expirations ∙ lookup-not_due now i m v,
        c.same_registry,
        c.same_usable,
      )

  -- processExpirations removes exactly the components whose time has come, together with their
  -- expirations, and leaves the other components and expirations, where hooks and handlers leave
  -- them alone.
  pub process_expirations_lem :
      (now : ℕ) (st : State)
      → IsMap st.session.expirations
      → (i : ℕ) → Processed now st (process_expirations host now st) i
  unfolding process_expirations due_ids not_due lookup
  process_expirations_lem now st v i = checked st.session.expirations refl
    where
      checked :
          (m : List (ℕ × ℕ))
          → st.session.expirations ≡ m
          → Processed now st
              (elim m [
                | [] ↦ st
                | e ∷ l ↦
                    remove_ids host
                      (due_ids now (e ∷ l))
                      (with_session st (record st.session { expirations = not_due now (e ∷ l) }))
              ])
              i
      checked [] e = (ground (arith, e), ground (arith, e), refl, refl)
      checked (x ∷ m) e =
          subst
            (λ l.
              Processed now st
                (remove_ids host (due_ids now l)
                  (with_session st (record st.session { expirations = not_due now l })))
                i)
            e (swept now i st v)

  pub expires_at-removed :
      (t now at : ℕ) (st : State)
      → IsMap st.session.expirations
      → expires_at t st ≡ some at
      → unix_milli at ≤ now
      → get t (process_expirations host now st) ≡ none
  expires_at-removed t now at st v e due =
      let (id, ms, usable, known, dated, exact) = expires_at_cases t at st e in
      let p = process_expirations_lem now st v id in
      let at_now : is_due now (lookup id st.session.expirations) ≡ true = rw dated (ground arith) in
      get_known (process_expirations host now st) t id (p.3 ∙ usable)
        (ap (λ r. get_id r t) p.2 ∙ known)
      ∙ (p.0 ∙ rw at_now refl)

  -- A component that Expired reports is removed by processExpirations at that time, in milliseconds.
  pub expired-removed :
      (t now : ℕ) (st : State)
      → IsMap st.session.expirations
      → expired t now st ≡ true
      → get t (process_expirations host (unix_milli now) st) ≡ none
  expired-removed t now st v e =
      let (at, f, before) = expired_cases t now st e in
      expires_at-removed t (unix_milli now) at st v f (omega arith)
