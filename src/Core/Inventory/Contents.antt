-- ===== src/Core/Inventory/Contents.antt =====
-- The objects of an inventory (core/actorinventory.go), counted over all four subcontainers.
use gomud.Base.{
  ℕ, ◌+◌, ◌≤◌, true, false, Option, none, some, [], ◌∷◌, ◌++◌, String, ◌==◌, if◌then◌else◌, ◌≡◌,
  refl, arith, Bool-cases, inl, inr, ◌⊎◌,
}
use gomud.Core.Data.{Ref, ActorInventory}
use gomud.Core.Refs.{contains, remove}
use gomud.Core.Refs.Laws.{count, count-append, count-remove_balance, contains-count}
use gomud.Core.Monad.{ok}
use gomud.Core.Inventory.{
  Subcontainer, back, belt, body, hands, name_of, objects_in, with_objects, add_to, add_object,
  add_target, remove_object, check_move, check_move_object, move_between, move_object,
  subcontainer_named, inventory_objects, contains_object, subcontainer_for,
}

-- How often a pointer stands in an inventory.
abbrev pub held : ActorInventory → Ref → ℕ
held ai r = count r ai.back + count r ai.belt + count r ai.body + count r ai.hands

pub count-inventory_objects :
    (ai : ActorInventory) (r : Ref) → count r (inventory_objects ai) ≡ held ai r
unfolding inventory_objects
count-inventory_objects ai r = omega (
  arith,
  count-append r ai.back (ai.belt ++ ai.body ++ ai.hands),
  count-append r (ai.back ++ ai.belt ++ ai.body) ai.hands,
  count-append r (ai.back ++ ai.belt) ai.body,
  count-append r ai.back ai.belt,
)

pub contains_object-held :
    (ai : ActorInventory) (r : Ref)
    → contains_object ai r ≡ (if held ai r == 0 then false else true)
unfolding contains_object
contains_object-held ai r = ground (
  arith,
  contains-count ai.back r,
  contains-count ai.belt r,
  contains-count ai.body r,
  contains-count ai.hands r,
)

add_to-held :
    (slots : Ref → ℕ) (ai : ActorInventory) (o : Ref) (sub : Option Subcontainer)
    {bi : ActorInventory}
    → add_to slots ai o sub ≡ ok bi
    → (r : Ref) → held bi r ≡ held ai r + (if o == r then 1 else 0)
unfolding add_to
add_to-held slots ai o none e r = ground arith
add_to-held slots ai o (some sub) e r = ground (arith, count-append r (objects_in ai sub) (o ∷ []))

-- addObject, if it succeeds, puts exactly the one object in, once more than before.
pub add_object-held :
    (slots : Ref → ℕ) (ai : ActorInventory) (o : Ref) (sub : String) {bi : ActorInventory}
    → add_object slots ai o sub ≡ ok bi
    → (r : Ref) → held bi r ≡ held ai r + (if o == r then 1 else 0)
unfolding add_object
add_object-held slots ai o sub e r =
    add_to-held slots ai o (subcontainer_named (add_target sub)) e r

-- removeObject takes an object that is held at most once out, and leaves the others as they were.
pub remove_object-held :
    (ai : ActorInventory) (o : Ref)
    → held ai o ≤ 1
    → (r : Ref) → held (remove_object ai o) r ≡ (if o == r then 0 else held ai r)
unfolding remove_object
remove_object-held ai o h r = ground (
  arith,
  count-remove_balance ai.back o r,
  count-remove_balance ai.belt o r,
  count-remove_balance ai.body o r,
  count-remove_balance ai.hands o r,
  contains-count ai.back o,
  contains-count ai.belt o,
  contains-count ai.body o,
  contains-count ai.hands o,
)

move_between-held :
    (slots : Ref → ℕ) (ai : ActorInventory) (o : Ref) (src dst : Option Subcontainer)
    → check_move slots ai o src dst ≡ ok tt
    → (r : Ref) → held (move_between ai o src dst).0 r ≡ held ai r
unfolding move_between check_move
move_between-held slots ai o none dst e r = cc
move_between-held slots ai o (some src) none e r = cc
move_between-held slots ai o (some src) (some dst) e r =
    let taken = with_objects ai src (remove (objects_in ai src) o) in
    ground (
      arith,
      count-remove_balance (objects_in ai src) o r,
      count-append r (objects_in taken dst) (o ∷ []),
    )

-- A move that passes the check neither loses nor duplicates an object.
pub move_object-held :
    (slots : Ref → ℕ) (ai : ActorInventory) (o : Ref) (src dst : String)
    → check_move_object slots ai o src dst ≡ ok tt
    → (r : Ref) → held (move_object ai o src dst).0 r ≡ held ai r
unfolding move_object check_move_object
move_object-held slots ai o src dst e r =
    move_between-held slots ai o (subcontainer_named src) (subcontainer_named dst) e r

pub subcontainer_named-name_of : (sub : Subcontainer) → subcontainer_named (name_of sub) ≡ some sub
unfolding subcontainer_named
subcontainer_named-name_of back = refl
subcontainer_named-name_of belt = refl
subcontainer_named-name_of body = refl
subcontainer_named-name_of hands = refl

-- SubcontainerFor names a subcontainer that holds the object, or the object is in none and the name
-- is empty.
pub subcontainer_for-objects_in :
    (ai : ActorInventory) (o : Ref)
    → ((contains_object ai o ≡ false) × (subcontainer_for ai o ≡ ""))
      ⊎ ((sub : Subcontainer) × (subcontainer_for ai o ≡ name_of sub)
          × (contains (objects_in ai sub) o ≡ true))
unfolding subcontainer_for contains_object
subcontainer_for-objects_in ai o = elim (Bool-cases (contains ai.back o)) [
  | inl p ↦ inr (back, rw p, p)
  | inr p ↦ elim (Bool-cases (contains ai.belt o)) [
    | inl q ↦ inr (belt, rw (p, q), q)
    | inr q ↦ elim (Bool-cases (contains ai.body o)) [
      | inl s ↦ inr (body, rw (p, q, s), s)
      | inr s ↦ elim (Bool-cases (contains ai.hands o)) [
        | inl t ↦ inr (hands, rw (p, q, s, t), t)
        | inr t ↦ inl (rw (p, q, s, t), rw (p, q, s, t))
      ]
    ]
  ]
]
