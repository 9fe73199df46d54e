-- ===== src/Session/History.antt =====
-- session.go and component.go: what holds after any sequence of calls on a session.
use pecs.Prelude.{
  ℕ, zero, suc, ◌<◌, ◌≡◌, refl, ◌∙◌, sym, ap, ltb, if◌then◌else◌, ◌↔◌, true, false, not,
  either_branch, Option, none, some, List, [], ◌∷◌, All, arith, leb, ◌==◌,
}
use pecs.Prelude.Assoc.{insert}
use pecs.Bitmask.{has, no_bits, IsMask, is_zero}
use pecs.Bitmask.Containment.{is_zero_iff}
use pecs.Session.Running.{AllPresent, AllAbsent, has_component_present, can_run_unsafe_iff}
use pecs.Registry.{Registration, registered, limit_exceeded, register, max_components}
use pecs.Session.{
  Session, State, Host, Call, returned, panicked, left, with_session, can_run_unsafe, Filter,
}
use pecs.Session.Components.{add, remove, get, has_component, get_or_add}
use pecs.Session.Expiry.{
  add_until, add_until_registered, then_expire, expire, unix_milli, due_ids, not_due, remove_ids,
  process_expirations,
}
use pecs.Session.Closing.{
  add_task, remove_task, close, release, close_subs, cancel_tasks, detach_all, clear_components,
  clear_pointers, exec, tell_manager, disconnect_if, collect_detach,
}
use pecs.Session.Laws.{
  IsHost, IsSession, InOrder, Fitting, register-Fitting, add-InOrder, remove-InOrder,
  get_or_add-InOrder, remove_component_by_id-InOrder, is_present,
}

All-insert :
    (id ms : ℕ) (m : List (ℕ × ℕ))
    → id < 255
    → All (λ e. e.0 < 255) m
    → All (λ e. e.0 < 255) (insert id ms m)
unfolding insert
All-insert id ms [] f v = (f, tt)
All-insert id ms ((j, w) ∷ m) f v =
    either_branch (All (λ e. e.0 < 255)) (j == id) (f, v.1) (v.0, All-insert id ms m f v.1)

All-due_ids :
    (now : ℕ) (m : List (ℕ × ℕ)) → All (λ e. e.0 < 255) m → All (λ id. id < 255) (due_ids now m)
unfolding due_ids
All-due_ids now [] v = tt
All-due_ids now ((id, ms) ∷ m) v =
    either_branch (All (λ id. id < 255)) (leb ms now) (v.0, All-due_ids now m v.1)
      (All-due_ids now m v.1)

All-not_due :
    (now : ℕ) (m : List (ℕ × ℕ)) → All (λ e. e.0 < 255) m → All (λ e. e.0 < 255) (not_due now m)
unfolding not_due
All-not_due now [] v = tt
All-not_due now ((id, ms) ∷ m) v =
    either_branch (All (λ e. e.0 < 255)) (leb ms now) (All-not_due now m v.1)
      (v.0, All-not_due now m v.1)

pub no_bits-absent : (id : ℕ) → id < 256 → has no_bits id ≡ false
unfolding is_zero
no_bits-absent id f = (is_zero_iff no_bits (omega arith)).0 refl id f

-- The loop of close clears its part of the array, and leaves the rest.
pub clear_pointers_lem :
    (n : ℕ) (c : ℕ → Option ℕ) (id : ℕ) → clear_pointers n c id ≡ (if ltb id n then none else c id)
unfolding clear_pointers
clear_pointers_lem zero c id = ground arith
clear_pointers_lem (suc n) c id = ground (arith, clear_pointers_lem n c id)

-- After it there is no component.
pub all_cleared : (s : Session) → IsSession s → (id : ℕ) → (clear_components s).components id ≡ none
unfolding clear_components
all_cleared s v id = ground (arith, clear_pointers_lem max_components s.components id, v.within id)

module _ (host : Host) (h : IsHost host) where
  expire-InOrder : (id ms : ℕ) (st : State) → id < 255 → InOrder st → InOrder (expire id ms st)
  expire-InOrder id ms st f v = record {
    session_order = record {
      dated = All-insert id ms st.session.expirations f v.session_order.dated;
      agree = v.session_order.agree;
      within = v.session_order.within;
    };
    ids_fit = v.ids_fit;
  }

  then_expire-InOrder :
      (id ms : ℕ) (c : Call Unit)
      → id < 255
      → InOrder (left c)
      → InOrder (left (then_expire id ms c))
  then_expire-InOrder id ms (returned u st) f v = expire-InOrder id ms st f v
  then_expire-InOrder id ms (panicked st) f v = v

  add_until_registered-InOrder :
      (t : ℕ) (name : List ℕ) (component : Option ℕ) (at : ℕ) (st : State) (reg : Registration)
      → InOrder st
      → Fitting reg
      → InOrder (left (add_until_registered host t name component at st reg))
  add_until_registered-InOrder t name component at st (registered id r) v f =
      let known = record st { registry = r } in
      then_expire-InOrder id (unix_milli at) (add host t name component known) f.1 (
        add-InOrder host h t name component known
          (record { session_order = v.session_order; ids_fit = f.0 }))
  add_until_registered-InOrder t name component at st (limit_exceeded r) v f = record {
    session_order = v.session_order;
    ids_fit = f;
  }

  add_until-InOrder :
      (t : ℕ) (name : List ℕ) (component : Option ℕ) (at : ℕ) (st : State)
      → InOrder st
      → InOrder (left (add_until host t name component at st))
  unfolding add_until
  add_until-InOrder t name none at st v =
      either_branch (λ c. InOrder (left c)) (not st.usable) {x = returned tt st}
        {y = returned tt st} v v
  add_until-InOrder t name (some p) at st v =
      either_branch (λ c. InOrder (left c)) (not st.usable) {x = returned tt st}
        {y = add_until_registered host t name (some p) at st (register st.registry t name)} v
        (add_until_registered-InOrder t name (some p) at st _ v
          (register-Fitting st.registry t name v.ids_fit))

  remove_ids-InOrder :
      (ids : List ℕ) (st : State)
      → All (λ id. id < 255) ids
      → InOrder st
      → InOrder (remove_ids host ids st)
  unfolding remove_ids
  remove_ids-InOrder [] st f v = v
  remove_ids-InOrder (id ∷ ids) st f v =
      remove_ids-InOrder ids _ f.1 (remove_component_by_id-InOrder host h id st f.0 v)

  process_expirations-InOrder :
      (now : ℕ) (st : State) → InOrder st → InOrder (process_expirations host now st)
  unfolding process_expirations
  process_expirations-InOrder now st v = checked st.session.expirations v.session_order.dated
    where
      checked :
          (m : List (ℕ × ℕ))
          → All (λ e. e.0 < 255) m
          → InOrder (elim m [
            | [] ↦ st
            | e ∷ l ↦
                remove_ids host
                  (due_ids now (e ∷ l))
                  (with_session st (record st.session { expirations = not_due now (e ∷ l) }))
          ])
      checked [] f = v
      checked (e ∷ l) f = remove_ids-InOrder _ _ (All-due_ids now (e ∷ l) f) (record {
        session_order = record {
          dated = All-not_due now (e ∷ l) f;
          agree = v.session_order.agree;
          within = v.session_order.within;
        };
        ids_fit = v.ids_fit;
      })

  close_subs-InOrder :
      (subs : List (Option ℕ)) (st : State) → InOrder st → InOrder (close_subs host subs st)
  unfolding close_subs
  close_subs-InOrder [] st v = v
  close_subs-InOrder (none ∷ subs) st v = close_subs-InOrder subs st v
  close_subs-InOrder (some x ∷ subs) st v = close_subs-InOrder subs _ (h.closes_sub x st v)

  cancel_tasks-InOrder :
      (tasks : List ℕ) (st : State) → InOrder st → InOrder (cancel_tasks tasks st)
  unfolding cancel_tasks
  cancel_tasks-InOrder [] st v = v
  cancel_tasks-InOrder (task ∷ tasks) st v =
      cancel_tasks-InOrder tasks _ (record { session_order = v.session_order; ids_fit = v.ids_fit })

  detach_all-InOrder :
      (found : List (ℕ × ℕ)) (st : State) → InOrder st → InOrder (detach_all host found st)
  unfolding detach_all
  detach_all-InOrder [] st v = v
  detach_all-InOrder ((t, p) ∷ found) st v = detach_all-InOrder found _ (h.detaches t p st v)

  clear_components-IsSession : (s : Session) → IsSession s → IsSession (clear_components s)
  unfolding clear_components
  clear_components-IsSession s v = record {
    dated = v.dated;
    agree = λ id f. no_bits-absent id f ∙ sym (ap is_present (all_cleared s v id));
    within = λ id f. all_cleared s v id;
  }

  -- The state in which close clears the components.
  pub before_clear-InOrder :
      (st : State)
      → InOrder st
      → let closing = with_session st (record st.session { closed = true; provider_subs = [] }) in
        let unsubscribed = close_subs host st.session.provider_subs closing in
        let idle =
          cancel_tasks unsubscribed.session.pending_tasks
            (with_session unsubscribed (record unsubscribed.session { pending_tasks = [] })) in
        InOrder (detach_all host (collect_detach host idle max_components 0) idle)
  before_clear-InOrder st v =
      let closing = with_session st (record st.session { closed = true; provider_subs = [] }) in
      let unsubscribed = close_subs host st.session.provider_subs closing in
      let w = close_subs-InOrder st.session.provider_subs closing (record {
        session_order = record {
          dated = v.session_order.dated;
          agree = v.session_order.agree;
          within = v.session_order.within;
        };
        ids_fit = v.ids_fit;
      }) in
      let idle =
        cancel_tasks unsubscribed.session.pending_tasks
          (with_session unsubscribed (record unsubscribed.session { pending_tasks = [] })) in
      let x =
        cancel_tasks-InOrder unsubscribed.session.pending_tasks
          (with_session unsubscribed (record unsubscribed.session { pending_tasks = [] }))
          (record {
            session_order = record {
              dated = w.session_order.dated;
              agree = w.session_order.agree;
              within = w.session_order.within;
            };
            ids_fit = w.ids_fit;
          }) in
      detach_all-InOrder (collect_detach host idle max_components 0) idle x

  release-InOrder : (st : State) → InOrder st → InOrder (release host st)
  unfolding release
  release-InOrder st v =
      let y = before_clear-InOrder st v in
      record { session_order = clear_components-IsSession _ y.session_order; ids_fit = y.ids_fit }

  close-InOrder : (st : State) → InOrder st → InOrder (close host st)
  unfolding close
  close-InOrder st v =
      either_branch InOrder st.session.closed v (told_last (release host st) (release-InOrder st v))
    where
      told_last :
          (x : State)
          → InOrder x
          → InOrder (tell_manager host (disconnect_if host host.has_handle x))
      told_last x y =
          let z =
            either_branch InOrder host.has_handle {x = exec host.disconnect x} {y = x}
              (either_branch InOrder x.session.closed y (h.disconnects x y)) y in
          let d = disconnect_if host host.has_handle x in
          either_branch InOrder d.usable (h.removes_session d z) z

-- One call on the session, whether it returns or panics. GetOrAdd is given a default that is not nil.
pub data Called (host : Host) (st : State) : State → Type 0 where
  added :
      (t : ℕ) (name : List ℕ) (component : Option ℕ)
      → Called host st (left (add host t name component st))
  added_until :
      (t : ℕ) (name : List ℕ) (component : Option ℕ) (at : ℕ)
      → Called host st (left (add_until host t name component at st))
  removed : (t : ℕ) → Called host st (remove host t st)
  got_or_added :
      (t : ℕ) (name : List ℕ) (p : ℕ) → Called host st (left (get_or_add host t name (some p) st))
  processed : (now : ℕ) → Called host st (process_expirations host now st)
  task_added : (task : ℕ) → Called host st (with_session st (add_task task st.session))
  task_removed : (task : ℕ) → Called host st (with_session st (remove_task task st.session))
  was_closed : Called host st (close host st)

pub data Lived (host : Host) (st : State) : State → Type 0 where
  here : Lived host st st
  next : {t u : State} → Lived host st t → Called host t u → Lived host st u

Called-InOrder :
    {host : Host} {st u : State} → IsHost host → InOrder st → Called host st u → InOrder u
unfolding add_task remove_task
Called-InOrder {host} {st} h v (added t name component) = add-InOrder host h t name component st v
Called-InOrder {host} {st} h v (added_until t name component at) =
    add_until-InOrder host h t name component at st v
Called-InOrder {host} {st} h v (removed t) = remove-InOrder host h t st v
Called-InOrder {host} {st} h v (got_or_added t name p) = get_or_add-InOrder host h t name p st v
Called-InOrder {host} {st} h v (processed now) = process_expirations-InOrder host h now st v
Called-InOrder {host} {st} h v (task_added task) = record {
  session_order = record {
    dated = v.session_order.dated;
    agree = v.session_order.agree;
    within = v.session_order.within;
  };
  ids_fit = v.ids_fit;
}
Called-InOrder {host} {st} h v (task_removed task) = record {
  session_order = record {
    dated = v.session_order.dated;
    agree = v.session_order.agree;
    within = v.session_order.within;
  };
  ids_fit = v.ids_fit;
}
Called-InOrder {host} {st} h v was_closed = close-InOrder host h st v

pub Lived-InOrder :
    {host : Host} {st u : State} → IsHost host → InOrder st → Lived host st u → InOrder u
Lived-InOrder h v here = v
Lived-InOrder h v (next run call) = Called-InOrder h (Lived-InOrder h v run) call

-- After any calls on a session whose mask agrees with its components, which are below the limit of
-- types, hooks included, Has says of each type whether Get finds a pointer,
-- and canRun lets a system run exactly if every required component is there and no excluded one.
pub Lived-agrees :
    {host : Host} {st u : State} (meta : Filter)
    → IsHost host
    → InOrder st
    → Lived host st u
    → IsMask meta.require_mask
    → IsMask meta.exclude_mask
    → ((t : ℕ) → has_component t u ≡ is_present (get t u))
      × ((can_run_unsafe u.session meta ≡ true)
          ↔ (AllPresent u.session meta.require_mask × AllAbsent u.session meta.exclude_mask))
Lived-agrees {u = u} meta h v run m n =
    let w = Lived-InOrder h v run in
    (λ t. has_component_present t u w, can_run_unsafe_iff u.session meta w.session_order m n)
