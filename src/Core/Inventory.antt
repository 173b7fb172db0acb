-- ===== src/Core/Inventory.antt =====
-- core/actorinventory.go. `slots r` is what `InventorySlots` returns for the object at `r`.
pub mod Limits
pub mod Contents
use gomud.Base.{
  ℕ, suc, ◌+◌, ◌*◌, Bool, true, false, Option, none, some, List, [], ◌∷◌, ◌++◌, String, ltb, leb,
  str_eq, if◌then◌else◌, length,
}
use gomud.Core.Data.{Ref, ActorInventory, ActorInventoryConstraints}
use gomud.Core.Refs.{contains, remove}
use gomud.Core.Monad.{
  Result, ok, err, unknown_subcontainer, subcontainer_full, item_too_large,
  not_in_source_subcontainer, object_does_not_fit, no_room_for_item,
}

abbrev pub default_subcontainer : String
default_subcontainer = "any"

-- The four cases of the switches on a subcontainer's name.
pub data Subcontainer : Type 0 where
  back belt body hands : Subcontainer

abbrev pub name_of : Subcontainer → String
name_of back = "back"
name_of belt = "belt"
name_of body = "body"
name_of hands = "hands"

unfoldable pub subcontainer_named : String → Option Subcontainer
subcontainer_named s =
    if str_eq s "back"
    then some back
    else if str_eq s "belt"
    then some belt
    else if str_eq s "body"
    then some body
    else if str_eq s "hands"
    then some hands
    else none

-- DefaultHumanInventoryConstraints: sizes are powers of four.
unfoldable pub default_human_constraints : ActorInventoryConstraints
default_human_constraints = record {
  back_slots = 1 * 64;
  back_max_items = 2;
  belt_slots = 2 * 16;
  belt_max_items = 4;
  body_slots = 1 * 64;
  body_max_items = 1;
  hand_slots = 1 * 64;
  hand_max_items = 2;
}

unfoldable pub capacity : ActorInventory → ℕ
capacity ai =
    ai.constraints.back_slots + ai.constraints.belt_slots + ai.constraints.body_slots
    + ai.constraints.hand_slots

-- CapacityBySubcontainer, its two results apart.
abbrev pub slots_of : ActorInventory → Subcontainer → ℕ
slots_of ai back = ai.constraints.back_slots
slots_of ai belt = ai.constraints.belt_slots
slots_of ai body = ai.constraints.body_slots
slots_of ai hands = ai.constraints.hand_slots

abbrev pub max_items_of : ActorInventory → Subcontainer → ℕ
max_items_of ai back = ai.constraints.back_max_items
max_items_of ai belt = ai.constraints.belt_max_items
max_items_of ai body = ai.constraints.body_max_items
max_items_of ai hands = ai.constraints.hand_max_items

-- ObjectsBySubcontainer
abbrev pub objects_in : ActorInventory → Subcontainer → List Ref
objects_in ai back = ai.back
objects_in ai belt = ai.belt
objects_in ai body = ai.body
objects_in ai hands = ai.hands

abbrev with_objects : ActorInventory → Subcontainer → List Ref → ActorInventory
with_objects ai back l = record ai { back = l }
with_objects ai belt l = record ai { belt = l }
with_objects ai body l = record ai { body = l }
with_objects ai hands l = record ai { hands = l }

unfoldable pub contains_object : ActorInventory → Ref → Bool
contains_object ai o =
    if contains ai.back o
    then true
    else if contains ai.belt o
    then true
    else if contains ai.body o
    then true
    else if contains ai.hands o
    then true
    else false

unfoldable pub subcontainer_for : ActorInventory → Ref → String
subcontainer_for ai o =
    if contains ai.back o
    then "back"
    else if contains ai.belt o
    then "belt"
    else if contains ai.body o
    then "body"
    else if contains ai.hands o
    then "hands"
    else ""

unfoldable pub inventory_objects : ActorInventory → List Ref
inventory_objects ai = ai.back ++ ai.belt ++ ai.body ++ ai.hands

-- `for _, o := range subObjs { slotsTaken += o.InventorySlots() }`
abbrev pub slots_taken : (Ref → ℕ) → List Ref → ℕ
slots_taken slots [] = 0
slots_taken slots (o ∷ os) = slots o + slots_taken slots os

add_to : (Ref → ℕ) → ActorInventory → Ref → Option Subcontainer → Result ActorInventory
add_to slots ai o none = err unknown_subcontainer
add_to slots ai o (some sub) =
    if leb (max_items_of ai sub) (length (objects_in ai sub))
    then err subcontainer_full
    else if ltb (slots_of ai sub) (slots_taken slots (objects_in ai sub) + slots o)
    then err item_too_large
    else ok (with_objects ai sub (objects_in ai sub ++ o ∷ []))

-- Where addObject puts an object: into the hands, if no place is named.
abbrev pub add_target : String → String
add_target sub = if str_eq sub default_subcontainer then "hands" else sub

unfoldable pub add_object : (Ref → ℕ) → ActorInventory → Ref → String → Result ActorInventory
unfolding add_to
add_object slots ai o sub = add_to slots ai o (subcontainer_named (add_target sub))

unfoldable pub remove_object : ActorInventory → Ref → ActorInventory
remove_object ai o = record ai {
  back = remove ai.back o;
  belt = remove ai.belt o;
  body = remove ai.body o;
  hands = remove ai.hands o;
}

check_move :
    (Ref → ℕ) → ActorInventory → Ref → Option Subcontainer → Option Subcontainer → Result (Unit {0})
check_move slots ai o none dst = err unknown_subcontainer
check_move slots ai o (some src) none = err unknown_subcontainer
check_move slots ai o (some src) (some dst) =
    if contains (objects_in ai src) o
    then (if ltb (slots_of ai dst) (slots_taken slots (objects_in ai dst) + slots o)
        then err object_does_not_fit
        else if ltb (max_items_of ai dst) (length (objects_in ai dst) + 1)
        then err no_room_for_item
        else ok tt)
    else err not_in_source_subcontainer

unfoldable pub check_move_object :
    (Ref → ℕ) → ActorInventory → Ref → String → String → Result (Unit {0})
unfolding check_move
check_move_object slots ai o src_sub dst_sub =
    check_move slots ai o (subcontainer_named src_sub) (subcontainer_named dst_sub)

-- An unknown destination is an error after the object has left its source.
move_between :
    ActorInventory → Ref → Option Subcontainer → Option Subcontainer → ActorInventory × Bool
move_between ai o none dst = (ai, false)
move_between ai o (some src) none = (with_objects ai src (remove (objects_in ai src) o), false)
move_between ai o (some src) (some dst) =
    let taken = with_objects ai src (remove (objects_in ai src) o) in
    (with_objects taken dst (objects_in taken dst ++ o ∷ []), true)

-- moveObjectToSubcontainer: the inventory after the call, and whether it returned no error.
unfoldable pub move_object : ActorInventory → Ref → String → String → ActorInventory × Bool
unfolding move_between
move_object ai o src_sub dst_sub =
    move_between ai o (subcontainer_named src_sub) (subcontainer_named dst_sub)
