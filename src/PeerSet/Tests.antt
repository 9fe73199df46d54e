-- ===== src/PeerSet/Tests.antt =====
-- peer.go: two goroutines that add to an empty set.
use pecs.Prelude.{◌≡◌, refl, none, [], ◌∷◌}
use pecs.PeerSet.{contents, built, adding, Race, loads, swaps, fails, Turn}
use pecs.PeerSet.Updates.{Run, here, next, IsRace, Run-apply_all, apply_all}

abbrev empty_race : Race
empty_race = record { set = record { ids = none; memory = λ a. []; next = 0 }; turns = λ g. none }

empty_race-IsRace : IsRace empty_race
empty_race-IsRace = record {
  used = λ a p. absurd cc;
  old_used = λ g t a p q. absurd cc;
  from_old = λ g t p. absurd cc;
}

abbrev first_turn : Turn
first_turn = record { update = adding 7; old = none; new = 7 ∷ [] }

abbrev second_turn : Turn
second_turn = record { update = adding 8; old = none; new = 8 ∷ [] }

-- Both load the nil pointer; the first publishes, and the second fails.
contended : (r : Race) × Run empty_race (adding 7 ∷ []) r
unfolding built
contended = (
  _,
  next
      (next
        (next (next here (loads 1 (adding 7) (7 ∷ []) refl refl))
          (loads 2 (adding 8) (8 ∷ []) refl refl))
        (swaps 1 first_turn refl refl))
      (fails 2 second_turn refl (λ e. cc)),
)

Run-apply_all_example : contents contended.0.set ≡ apply_all (adding 7 ∷ []) none
Run-apply_all_example = Run-apply_all empty_race-IsRace contended.1
