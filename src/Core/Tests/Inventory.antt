-- ===== src/Core/Tests/Inventory.antt =====
-- Tests of the inventory.
use gomud.Base.{ℕ, ◌+◌, true, false, [], ◌∷◌, ◌≡◌, refl, ◌⊎◌, arith}
use gomud.Core.Data.{Ref, ActorInventory}
use gomud.Core.Monad.{ok, err, subcontainer_full}
use gomud.Core.Refs.{contains, remove}
use gomud.Core.Inventory.{
  Subcontainer, name_of, objects_in, add_object, remove_object, check_move_object, move_object,
  subcontainer_for, contains_object, subcontainer_named,
}
use gomud.Core.Inventory.Limits.{
  IsWithinLimits, add_object-IsWithinLimits, move_object-IsWithinLimits,
}
use gomud.Core.Inventory.Contents.{
  held, add_object-held, remove_object-held, move_object-held, subcontainer_for-objects_in,
}
use gomud.Core.Tests.{pockets}

-- The size of each object, and an inventory with one object in its hands.
abbrev sizes : Ref → ℕ
sizes o = 16

abbrev holding : ActorInventory
holding = record pockets { hands = 5 ∷ [] }

abbrev wearing : ActorInventory
wearing = record pockets { hands = []; belt = 5 ∷ [] }

added : add_object sizes pockets 5 "any" ≡ ok holding
unfolding add_object subcontainer_named
added = refl

refused_when_full :
    add_object sizes (record pockets { body = 5 ∷ [] }) 6 "body" ≡ err subcontainer_full
unfolding add_object subcontainer_named
refused_when_full = refl

moved : move_object holding 5 "hands" "belt" ≡ (wearing, true)
unfolding move_object subcontainer_named remove contains
moved = refl

may_move : check_move_object sizes holding 5 "hands" "belt" ≡ ok tt
unfolding check_move_object subcontainer_named contains
may_move = refl

pockets-IsWithinLimits : IsWithinLimits sizes pockets
pockets-IsWithinLimits = ground arith

holding-IsWithinLimits : IsWithinLimits sizes holding
holding-IsWithinLimits = ground arith

add_object-IsWithinLimits_example : IsWithinLimits sizes holding
add_object-IsWithinLimits_example =
    add_object-IsWithinLimits sizes pockets 5 pockets-IsWithinLimits "any" added

move_object-IsWithinLimits_example :
    IsWithinLimits sizes (move_object holding 5 "hands" "belt").0
    × ((move_object holding 5 "hands" "belt").1 ≡ true)
move_object-IsWithinLimits_example =
    move_object-IsWithinLimits sizes holding 5 holding-IsWithinLimits "hands" "belt" may_move

add_object-held_example : held holding 5 ≡ held pockets 5 + 1
add_object-held_example = add_object-held sizes pockets 5 "any" added 5

remove_object-held_example : held (remove_object holding 5) 5 ≡ 0
remove_object-held_example = remove_object-held holding 5 (omega arith) 5

move_object-held_example : held (move_object holding 5 "hands" "belt").0 5 ≡ held holding 5
move_object-held_example = move_object-held sizes holding 5 "hands" "belt" may_move 5

subcontainer_for-objects_in_example :
    ((contains_object holding 5 ≡ false) × (subcontainer_for holding 5 ≡ ""))
    ⊎ ((sub : Subcontainer) × (subcontainer_for holding 5 ≡ name_of sub)
        × (contains (objects_in holding sub) 5 ≡ true))
subcontainer_for-objects_in_example = subcontainer_for-objects_in holding 5
