-- ===== src/Sessions/Tests.antt =====
-- manager.go: the theorems at a manager with two sessions.
use pecs.Prelude.{ℕ, ◌≡◌, refl, Bool, false, ◌||◌, Option, none, some, arith, ◌==◌, if◌then◌else◌}
use pecs.Sessions.{
  Identity, Manager, new_manager, add_session, move_session, drop_session, get_session_by_handle,
  get_session_by_name,
}
use pecs.Sessions.Laws.{IsDistinct}
use pecs.Sessions.Histories.{
  Managed, fresh, joins, moves, Findable, Managed-Findable, shared_name-lost,
}

-- Session `s` has its own handle, UUID and name, and no XUID.
abbrev numbered : ℕ → Identity
numbered s = record { handle = s; uuid = s; name = s; xuid = 0; is_fake = false; fake_id = 0 }

numbered-IsDistinct : (joined : ℕ → Bool) (s : ℕ) → IsDistinct numbered joined s
numbered-IsDistinct joined s = record {
  own_handle = λ u j n. n;
  own_uuid = λ u j n. n;
  own_name = λ u j n. n;
  own_xuid = λ u j n. ground arith;
}

-- Sessions 1 and 2 join world 5, session 1 moves to world 6, and session 2 leaves.
abbrev joined_both : Manager
joined_both = add_session numbered (some 5) 2 (add_session numbered (some 5) 1 new_manager)

abbrev both : ℕ → Bool
both u = u == 2 || (u == 1 || false)

abbrev both_placed : ℕ → Option ℕ
both_placed u = if u == 2 then some 5 else if u == 1 then some 5 else none

joined-Managed : Managed numbered both both_placed joined_both
joined-Managed =
    joins 2 (some 5) (joins 1 (some 5) fresh (numbered-IsDistinct _ 1) refl)
      (numbered-IsDistinct _ 2) refl

abbrev moved_placed : ℕ → Option ℕ
moved_placed u = if u == 1 then some 6 else both_placed u

moved-Managed : Managed numbered both moved_placed (move_session 1 (some 5) (some 6) joined_both)
moved-Managed = moves 1 (some 6) joined-Managed

Managed-Findable_example :
    Findable numbered both moved_placed (move_session 1 (some 5) (some 6) joined_both) 1
Managed-Findable_example = Managed-Findable 1 moved-Managed

-- All sessions have the name 3.
abbrev namesakes : ℕ → Identity
namesakes s = record { handle = s; uuid = s; name = 3; xuid = 0; is_fake = false; fake_id = 0 }

shared_name-lost_example :
    let left =
      drop_session namesakes none 2
        (add_session namesakes none 2 (add_session namesakes none 1 new_manager)) in
    (get_session_by_handle 1 left ≡ some 1) × (get_session_by_name 3 left ≡ none)
shared_name-lost_example =
    shared_name-lost namesakes new_manager 1 2 none none refl (λ e. ground arith)
