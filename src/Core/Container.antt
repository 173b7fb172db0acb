-- ===== src/Core/Container.antt =====
-- core/container.go: the interface Container and its three implementations, in core/location.go,
-- core/actor.go and core/object.go. `none` is a panic: a nil pointer was used, or the recursion
-- through nested objects overflowed the stack.
use gomud.Base.{
  ℕ, zero, suc, Bool, Option, none, some, List, [], ◌∷◌, ◌++◌, String, str_eq, if◌then◌else◌,
}
use gomud.Core.Data.{
  Ref, Uuid, ActorInventory, Container, location_container, actor_container, object_container,
}
use gomud.Core.Refs.{contains, remove}
use gomud.Core.Inventory.{
  default_subcontainer, add_object, remove_object, contains_object, subcontainer_for, capacity,
  inventory_objects, check_move_object, move_object,
}
use gomud.Core.Monad.{
  Result, ok, err, M, Outcome, returns, fails, panics, object_already_present, no_subcontainers,
  unknown_subcontainer,
}
use gomud.Core.Body.{Body, write_location, write_actor, write_object}

-- InventorySlots of the object at an address.
abbrev pub slots_at : Body → Ref → ℕ
slots_at b r = (b.objects r).inventory_slots

unfoldable pub container_id : Body → Container → Option Uuid
container_id b (location_container (some l)) = some (b.locations l).id
container_id b (actor_container (some a)) = some (b.actors a).id
container_id b (object_container (some o)) = some (b.objects o).id
container_id b _ = none

-- `Location()`: a location returns its receiver, which it does not use.
unfoldable pub container_location : ℕ → Body → Container → Option (Option Ref)
container_location zero b c = none
container_location (suc k) b (location_container l) = some l
container_location (suc k) b (actor_container (some a)) = some (b.actors a).location
container_location (suc k) b (object_container (some o)) =
    container_location k b (b.objects o).container
container_location (suc k) b _ = none

-- The observers of the actors in a location, then its own.
actors_observers : Body → List Ref → List Ref
actors_observers b [] = []
actors_observers b (a ∷ rest) = (b.actors a).observers ++ actors_observers b rest

unfoldable pub location_observers : Body → Ref → List Ref
unfolding actors_observers
location_observers b l = actors_observers b (b.locations l).actors ++ (b.locations l).observers

unfoldable pub container_observers : ℕ → Body → Container → Option (List Ref)
unfolding location_observers
container_observers zero b c = none
container_observers (suc k) b (location_container (some l)) = some (location_observers b l)
container_observers (suc k) b (actor_container (some a)) = some (b.actors a).observers
container_observers (suc k) b (object_container (some o)) =
    container_observers k b (b.objects o).container
container_observers (suc k) b _ = none

unfoldable pub container_objects : Body → Container → Option (List Ref)
container_objects b (location_container (some l)) = some (b.locations l).objects
container_objects b (actor_container (some a)) = some (inventory_objects (b.actors a).inventory)
container_objects b (object_container (some o)) = some (b.objects o).contained_objects
container_objects b _ = none

-- `locationObjectCapacity = math.MaxInt16`; a location's method does not use its receiver.
unfoldable pub container_capacity : Body → Container → Option ℕ
container_capacity b (location_container l) = some 32767
container_capacity b (actor_container (some a)) = some (capacity (b.actors a).inventory)
container_capacity b (object_container (some o)) = some (b.objects o).container_capacity
container_capacity b _ = none

unfoldable pub container_contains : Body → Container → Ref → Option Bool
container_contains b (location_container (some l)) o = some (contains (b.locations l).objects o)
container_contains b (actor_container (some a)) o = some (contains_object (b.actors a).inventory o)
container_contains b (object_container (some p)) o =
    some (contains (b.objects p).contained_objects o)
container_contains b _ o = none

unfoldable pub container_subcontainer_for : Body → Container → Ref → Option String
container_subcontainer_for b (location_container l) o = some default_subcontainer
container_subcontainer_for b (actor_container (some a)) o =
    some (subcontainer_for (b.actors a).inventory o)
container_subcontainer_for b (object_container p) o = some default_subcontainer
container_subcontainer_for b _ o = none

abbrev pub with_inventory : Body → Ref → Result ActorInventory → Outcome Body (Unit {0})
with_inventory b a (ok ai) = returns tt (write_actor a (record (b.actors a) { inventory = ai }) b)
with_inventory b a (err e) = fails e b

-- addObject
unfoldable pub container_add : Container → Ref → String → M Body (Unit {0})
container_add (location_container (some l)) o sub b =
    if contains (b.locations l).objects o
    then fails object_already_present b
    else returns tt (
        write_location l (record (b.locations l) { objects = (b.locations l).objects ++ o ∷ [] }) b)
container_add (actor_container (some a)) o sub b =
    with_inventory b a (add_object (slots_at b) (b.actors a).inventory o sub)
container_add (object_container (some p)) o sub b =
    if contains (b.objects p).contained_objects o
    then fails object_already_present b
    else returns tt (
        write_object p
          (record (b.objects p) { contained_objects = (b.objects p).contained_objects ++ o ∷ [] })
          b)
container_add _ o sub b = panics

-- removeObject
unfoldable pub container_remove : Container → Ref → M Body (Unit {0})
container_remove (location_container (some l)) o b =
    returns tt
      (write_location l (record (b.locations l) { objects = remove (b.locations l).objects o }) b)
container_remove (actor_container (some a)) o b =
    returns tt
      (write_actor a (record (b.actors a) { inventory = remove_object (b.actors a).inventory o }) b)
container_remove (object_container (some p)) o b = returns tt (
    write_object p
      (record (b.objects p) { contained_objects = remove (b.objects p).contained_objects o }) b)
container_remove _ o b = panics

-- checkMoveObjectToSubcontainer: only an actor has subcontainers.
unfoldable pub container_check_move : Container → Ref → String → String → M Body (Unit {0})
container_check_move (location_container l) o old_sub new_sub b = fails no_subcontainers b
container_check_move (actor_container (some a)) o old_sub new_sub b =
    elim (check_move_object (slots_at b) (b.actors a).inventory o old_sub new_sub) [
      | ok u ↦ returns tt b
      | err e ↦ fails e b
    ]
container_check_move (object_container p) o old_sub new_sub b = fails no_subcontainers b
container_check_move _ o old_sub new_sub b = panics

-- moveObjectToSubcontainer; an actor's inventory is changed even if the call fails.
unfoldable pub container_move : Container → Ref → String → String → M Body (Unit {0})
container_move (location_container l) o old_sub new_sub b =
    if str_eq new_sub default_subcontainer then returns tt b else fails no_subcontainers b
container_move (actor_container (some a)) o old_sub new_sub b =
    let moved = move_object (b.actors a).inventory o old_sub new_sub in
    let c = write_actor a (record (b.actors a) { inventory = moved.0 }) b in
    if moved.1 then returns tt c else fails unknown_subcontainer c
container_move (object_container p) o old_sub new_sub b =
    if str_eq new_sub default_subcontainer then returns tt b else fails no_subcontainers b
container_move _ o old_sub new_sub b = panics
