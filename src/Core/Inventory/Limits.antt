-- ===== src/Core/Inventory/Limits.antt =====
-- The limits on number and size in addObject and checkMoveObjectToSubcontainer of
-- core/actorinventory.go.
use gomud.Base.{
  ℕ, ◌+◌, ◌≤◌, ◌<◌, subst, true, Option, none, some, List, [], ◌∷◌, ◌++◌, String, length,
  length-append, ◌≡◌, refl, arith,
}
use gomud.Core.Data.{Ref, ActorInventory}
use gomud.Core.Refs.{remove}
use gomud.Core.Refs.Laws.{remove-cons, remove-nil, length-remove-le}
use gomud.Core.Monad.{ok}
use gomud.Core.Inventory.{
  Subcontainer, back, belt, body, hands, slots_of, max_items_of, objects_in, with_objects,
  slots_taken, add_to, add_object, add_target, remove_object, check_move, check_move_object,
  move_between, move_object, subcontainer_named,
}

-- One subcontainer holds no more items, and no larger ones, than its constraints allow.
abbrev pub Fits : (Ref → ℕ) → ActorInventory → Subcontainer → Type 0
Fits slots ai sub =
    (length (objects_in ai sub) ≤ max_items_of ai sub)
    × (slots_taken slots (objects_in ai sub) ≤ slots_of ai sub)

pub record IsWithinLimits (slots : Ref → ℕ) (ai : ActorInventory) : Type 0 where
  pub back_fits : Fits slots ai back
  pub belt_fits : Fits slots ai belt
  pub body_fits : Fits slots ai body
  pub hands_fits : Fits slots ai hands

pub slots_taken-append :
    (slots : Ref → ℕ) (xs ys : List Ref)
    → slots_taken slots (xs ++ ys) ≡ slots_taken slots xs + slots_taken slots ys
slots_taken-append slots [] ys = omega arith
slots_taken-append slots (x ∷ xs) ys = omega (arith, slots_taken-append slots xs ys)

pub slots_taken-remove_le :
    (slots : Ref → ℕ) (xs : List Ref) (o : Ref)
    → slots_taken slots (remove xs o) ≤ slots_taken slots xs
slots_taken-remove_le slots [] o = rw (remove-nil o) (omega arith)
slots_taken-remove_le slots (x ∷ xs) o =
    ground (arith, remove-cons x xs o, slots_taken-remove_le slots xs o)

-- An object goes into a subcontainer that has room for it.
put_into-IsWithinLimits :
    (slots : Ref → ℕ) (ai : ActorInventory) (o : Ref) (sub : Subcontainer)
    → IsWithinLimits slots ai
    → length (objects_in ai sub) < max_items_of ai sub
    → slots_taken slots (objects_in ai sub) + slots o ≤ slots_of ai sub
    → IsWithinLimits slots (with_objects ai sub (objects_in ai sub ++ o ∷ []))
put_into-IsWithinLimits slots ai o sub v room size = ground (
  arith,
  length-append {0} (objects_in ai sub) (o ∷ []),
  slots_taken-append slots (objects_in ai sub) (o ∷ []),
)

-- What is taken out of one subcontainer leaves no other fuller.
taken_le :
    (slots : Ref → ℕ) (ai : ActorInventory) (o : Ref) (src dst : Subcontainer)
    → let taken = with_objects ai src (remove (objects_in ai src) o) in
      (length (objects_in taken dst) ≤ length (objects_in ai dst))
      × (slots_taken slots (objects_in taken dst) ≤ slots_taken slots (objects_in ai dst))
      × (max_items_of taken dst ≡ max_items_of ai dst)
      × (slots_of taken dst ≡ slots_of ai dst)
taken_le slots ai o src dst = ground (
  arith,
  length-remove-le (objects_in ai src) o,
  slots_taken-remove_le slots (objects_in ai src) o,
)

module _ (slots : Ref → ℕ) (ai : ActorInventory) (o : Ref) (v : IsWithinLimits slots ai) where
  add_to-IsWithinLimits :
      (sub : Option Subcontainer) {bi : ActorInventory}
      → add_to slots ai o sub ≡ ok bi
      → IsWithinLimits slots bi
  unfolding add_to
  add_to-IsWithinLimits none e = ground arith
  add_to-IsWithinLimits (some sub) {bi} e =
      subst (IsWithinLimits slots) (ground arith)
        (put_into-IsWithinLimits slots ai o sub v (ground arith) (ground arith))

  -- addObject, if it succeeds, keeps every subcontainer within its limits on number and size.
  pub add_object-IsWithinLimits :
      (sub : String) {bi : ActorInventory}
      → add_object slots ai o sub ≡ ok bi
      → IsWithinLimits slots bi
  unfolding add_object
  add_object-IsWithinLimits sub e = add_to-IsWithinLimits (subcontainer_named (add_target sub)) e

  remove_object-IsWithinLimits : IsWithinLimits slots (remove_object ai o)
  unfolding remove_object
  remove_object-IsWithinLimits = omega (
    arith,
    length-remove-le ai.back o,
    length-remove-le ai.belt o,
    length-remove-le ai.body o,
    length-remove-le ai.hands o,
    slots_taken-remove_le slots ai.back o,
    slots_taken-remove_le slots ai.belt o,
    slots_taken-remove_le slots ai.body o,
    slots_taken-remove_le slots ai.hands o,
  )

  take_from-IsWithinLimits :
      (src : Subcontainer)
      → IsWithinLimits slots (with_objects ai src (remove (objects_in ai src) o))
  take_from-IsWithinLimits src = record {
    back_fits = ground (arith, v.back_fits, taken_le slots ai o src back);
    belt_fits = ground (arith, v.belt_fits, taken_le slots ai o src belt);
    body_fits = ground (arith, v.body_fits, taken_le slots ai o src body);
    hands_fits = ground (arith, v.hands_fits, taken_le slots ai o src hands);
  }

  move_between-IsWithinLimits :
      (src dst : Option Subcontainer)
      → check_move slots ai o src dst ≡ ok tt
      → IsWithinLimits slots (move_between ai o src dst).0 × ((move_between ai o src dst).1 ≡ true)
  unfolding move_between check_move
  move_between-IsWithinLimits none dst e = cc
  move_between-IsWithinLimits (some src) none e = cc
  move_between-IsWithinLimits (some src) (some dst) e = (
    put_into-IsWithinLimits slots _ o dst (take_from-IsWithinLimits src)
        (ground (arith, taken_le slots ai o src dst)) (ground (arith, taken_le slots ai o src dst)),
    refl,
  )

  -- A move inside an inventory that passes the check succeeds, and keeps every subcontainer within its limits.
  pub move_object-IsWithinLimits :
      (src dst : String)
      → check_move_object slots ai o src dst ≡ ok tt
      → IsWithinLimits slots (move_object ai o src dst).0 × ((move_object ai o src dst).1 ≡ true)
  unfolding move_object check_move_object
  move_object-IsWithinLimits src dst e =
      move_between-IsWithinLimits (subcontainer_named src) (subcontainer_named dst) e
