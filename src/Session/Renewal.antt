-- ===== src/Session/Renewal.antt =====
-- component.go: a component that is removed and added again while its expiration is pending, where
-- the code that is called back leaves the components alone.
use pecs.Prelude.{
  ℕ, ◌≤◌, ◌≡◌, refl, sym, ◌∙◌, ap, subst, inl, inr, Bool, true, not, Option-cases, either_branch,
  guard_passed, Option, none, some, List, if◌then◌else◌,
}
use pecs.Prelude.Assoc.{lookup}
use pecs.Registry.{ComponentRegistry, registered, register, get_id}
use pecs.Session.{
  State, Host, returned, get_component_unsafe, remove_component_unsafe, add_component_unsafe,
  with_session,
}
use pecs.Session.Components.{get, add, add_at, add_registered, remove}
use pecs.Session.Expiry.{process_expirations, expires_at, unix_milli, from_milli}
use pecs.Session.Roundtrip.{IsQuiet, announce_attach-Same, announce_detach-Same}
use pecs.Session.{announce_detach}
use pecs.Session.Deadlines.{IsMap, expires_at-removed, expires_at_cases}

-- What a deadline depends on is as before.
record Dated (st st' : State) : Type 0 where
  same_usable : st'.usable ≡ st.usable
  same_registry : st'.registry ≡ st.registry
  same_expirations : st'.session.expirations ≡ st.session.expirations

Dated-refl : {st : State} → Dated st st
Dated-refl = record { same_usable = refl; same_registry = refl; same_expirations = refl }

-- A deadline, of the parts of a state that it depends on.
unfoldable deadline : ℕ → Bool → ComponentRegistry → List (ℕ × ℕ) → Option ℕ
deadline t usable r m = if not usable then none else elim (get_id r t) [
  | none ↦ none
  | some id ↦ elim (lookup id m) [ none ↦ none | some ms ↦ some (from_milli ms) ]
]

expires_at_parts :
    (t : ℕ) (st : State) → expires_at t st ≡ deadline t st.usable st.registry st.session.expirations
unfolding expires_at deadline
expires_at_parts t st = refl

expires_at-Dated : (t : ℕ) (st st' : State) → Dated st st' → expires_at t st' ≡ expires_at t st
expires_at-Dated t st st' d =
    rw
      (
        expires_at_parts t st,
        expires_at_parts t st',
        d.same_usable,
        d.same_registry,
        d.same_expirations,
      )
      refl

module _ (host : Host) (q : IsQuiet host) (st : State) (t : ℕ) where
  remove-Dated : Dated st (remove host t st)
  unfolding remove get_component_unsafe remove_component_unsafe
  remove-Dated = either_branch (Dated st) (not st.usable) Dated-refl removed
    where
      removed : Dated st (elim (get_id st.registry t) [
        | none ↦ st
        | some id ↦ elim (get_component_unsafe st.session id) [
          | none ↦ st
          | some p ↦
              announce_detach host t p (with_session st (remove_component_unsafe st.session id))
        ]
      ])
      removed = elim (Option-cases (get_id st.registry t)) [
        | inl k ↦ rw k Dated-refl
        | inr (id, k) ↦ elim (Option-cases (st.session.components id)) [
          | inl c ↦ rw (k, c) Dated-refl
          | inr (p, c) ↦
              let same =
                announce_detach-Same host q t p
                  (with_session st (remove_component_unsafe st.session id)) in
              rw (k, c)
                (record {
                  same_usable = same.same_usable;
                  same_registry = same.same_registry;
                  same_expirations = ap (λ s. s.expirations) same.same_session;
                })
        ]
      ]

  add_at-Dated : (p id : ℕ) → Dated st (add_at host t p id st)
  unfolding add_at get_component_unsafe add_component_unsafe
  add_at-Dated p id = elim (Option-cases (st.session.components id)) [
    | inr (old, c) ↦
        rw (add_at, c)
          (record { same_usable = refl; same_registry = refl; same_expirations = refl })
    | inl c ↦
        let same =
          announce_attach-Same host q t (some p)
            (with_session st (add_component_unsafe st.session id (some p))) in
        rw (add_at, c)
          (record {
            same_usable = same.same_usable;
            same_registry = same.same_registry;
            same_expirations = ap (λ s. s.expirations) same.same_session;
          })
  ]

  -- Add of a type that is known.
  add-known :
      (name : List ℕ) (p id : ℕ)
      → st.usable ≡ true
      → get_id st.registry t ≡ some id
      → add host t name (some p) st ≡ returned tt (add_at host t p id st)
  unfolding add register get_id
  add-known name p id e k =
      let found : register st.registry t name ≡ registered id st.registry = rw (register, k) refl in
      guard_passed st.usable (returned tt st) _ e ∙ ap (add_registered host t p st) found

-- A deadline of AddUntil outlives Remove: when the component is added again with Add, without an
-- expiration, processExpirations removes it at the old deadline, where hooks and handlers leave the
-- components alone.
pub renewed-removed :
    (host : Host) (st : State) (t now at p : ℕ) (name : List ℕ)
    → IsQuiet host
    → IsMap st.session.expirations
    → expires_at t st ≡ some at
    → unix_milli at ≤ now
    → (st' : State) × (add host t name (some p) (remove host t st) ≡ returned tt st')
      × (expires_at t st' ≡ some at)
      × (get t (process_expirations host now st') ≡ none)
renewed-removed host st t now at p name q v e due =
    let (id, ms, usable, known, dated, exact) = expires_at_cases t at st e in
    let gone = remove host t st in
    let d = remove-Dated host q st t in
    let back = add_at host t p id gone in
    let f = add_at-Dated host q gone t p id in
    let pending : expires_at t back ≡ some at =
      expires_at-Dated t gone back f ∙ (expires_at-Dated t st gone d ∙ e) in
    (
      back,
      add-known host q gone t name p id (d.same_usable ∙ usable)
          (ap (λ r. get_id r t) d.same_registry ∙ known),
      pending,
      expires_at-removed host q t now at back
          (subst IsMap (sym (f.same_expirations ∙ d.same_expirations)) v) pending due,
    )
