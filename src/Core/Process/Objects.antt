-- ===== src/Core/Process/Objects.antt =====
-- processObject*Command of core/zone.go.
use gomud.Base.{
  Bool, true, Option, none, some, List, String, lookup, not, leb, ◌&&◌, ◌==◌, if◌then◌else◌, length,
}
use gomud.Core.Data.{
  Ref, Uuid, Container, nil_container, location_container, actor_container, object_container,
  nil_uuid,
}
use gomud.Core.Inventory.{default_subcontainer}
use gomud.Core.Monad.{
  M, ◌>>=◌, ◌>>◌, guard, some_or, deref, duplicate_object, no_container, unknown_object,
  same_container as same_container_error, not_in_from_container, different_locations,
  would_overflow, unknown_from_container, unknown_to_container, not_to_or_from_actor,
  stealing_not_allowed, object_in_other_zone, not_same_location,
}
use gomud.Core.Body.{Body}
use gomud.Core.Container.{
  container_id, container_contains, container_location, container_objects, container_capacity,
  container_check_move,
}
use gomud.Core.Event.{
  Event, ContainerIds, ObjectAddToZone, ObjectAdminRelocate, object_add_to_zone, object_move,
  object_move_subcontainer, object_admin_relocate, object_remove_from_zone,
}
use gomud.Core.Command.{ObjectMoveCommand, ObjectMoveSubcontainerCommand}
use gomud.Core.Apply.Objects.{resolve, is_found}
use gomud.Core.Apply.{Value}
use gomud.Core.Zone.{State, on_body}
use gomud.Core.Process.Common.{single, body, is_some, same, same_container}

unfoldable pub process_object_add : ObjectAddToZone → M State (Value × List Event)
unfolding resolve
process_object_add e = do
  b ← body
  guard (not (is_some (lookup e.object_id b.objects_by_id))) duplicate_object
  guard (is_found (resolve e.container_ids b)) no_container
  single (object_add_to_zone e)

-- The switches on the type of a container: its identifier, if the zone has it.
unfoldable pub known_ids : Body → Container → Option ContainerIds
known_ids b (location_container (some l)) =
    if is_some (lookup (b.locations l).id b.locations_by_id)
    then some
        (record { location_id = (b.locations l).id; actor_id = nil_uuid; object_id = nil_uuid })
    else none
known_ids b (actor_container (some a)) =
    if is_some (lookup (b.actors a).id b.actors_by_id)
    then some (record { location_id = nil_uuid; actor_id = (b.actors a).id; object_id = nil_uuid })
    else none
known_ids b (object_container (some o)) =
    if is_some (lookup (b.objects o).id b.objects_by_id)
    then some (record { location_id = nil_uuid; actor_id = nil_uuid; object_id = (b.objects o).id })
    else none
known_ids b _ = none

abbrev actor_id_of : Body → Option Ref → Uuid
actor_id_of b none = nil_uuid
actor_id_of b (some a) = (b.actors a).id

-- The capacity that is compared is that of the container the object leaves.
unfoldable pub process_object_move : ObjectMoveCommand → M State (Value × List Event)
unfolding known_ids
process_object_move c = do
  b ← body
  guard
      (is_some (lookup (b.objects c.obj).id b.objects_by_id)
        && same (b.objects c.obj).zone (some b.self))
      object_in_other_zone
  guard (not (same_container c.from_container c.to_container)) same_container_error
  held ← deref (container_contains b c.from_container c.obj)
  guard held not_in_from_container
  from_loc ← deref (container_location b.stack b c.from_container)
  to_loc ← deref (container_location b.stack b c.to_container)
  guard (same from_loc to_loc) different_locations
  inside ← deref (container_objects b c.from_container)
  room ← deref (container_capacity b c.from_container)
  guard (not (leb room (length inside))) would_overflow
  let actor_id = actor_id_of b c.actor
  _from_id ← deref (container_id b c.from_container)
  from_ids ← some_or (known_ids b c.from_container) unknown_from_container
  _to_id ← deref (container_id b c.to_container)
  to_ids ← some_or (known_ids b c.to_container) unknown_to_container
  guard (not (from_ids.actor_id == nil_uuid && to_ids.actor_id == nil_uuid)) not_to_or_from_actor
  guard
      (not (
        not (from_ids.actor_id == nil_uuid)
        && not (to_ids.actor_id == nil_uuid)
        && to_ids.actor_id == actor_id))
      stealing_not_allowed
  single (
      object_move (record {
        object_id = (b.objects c.obj).id;
        actor_id = actor_id;
        from_ids = from_ids;
        to_ids = to_ids;
        to_subcontainer = default_subcontainer;
      }))

unfoldable pub process_object_move_subcontainer :
    ObjectMoveSubcontainerCommand → M State (Value × List Event)
process_object_move_subcontainer c = do
  b ← body
  guard (same (b.objects c.obj).zone (some b.self)) object_in_other_zone
  loc ← deref (container_location b.stack b (b.objects c.obj).container)
  guard (same (b.actors c.actor).location loc) not_same_location
  on_body
      (container_check_move (b.objects c.obj).container c.obj c.from_subcontainer c.to_subcontainer)
  single (
      object_move_subcontainer (record {
        object_id = (b.objects c.obj).id;
        from_subcontainer = c.from_subcontainer;
        to_subcontainer = c.to_subcontainer;
        actor_id = (b.actors c.actor).id;
      }))

-- With no identifier set, `found` keeps the value of the test before.
abbrev relocate_found : Container → Bool
relocate_found nil_container = true
relocate_found c = is_found c

unfoldable pub process_object_admin_relocate : ObjectAdminRelocate → M State (Value × List Event)
unfolding resolve
process_object_admin_relocate e = do
  b ← body
  guard (is_some (lookup e.object_id b.objects_by_id)) unknown_object
  guard (relocate_found (resolve e.to_ids b)) no_container
  single (object_admin_relocate e)

unfoldable pub process_object_remove : String → Uuid → M State (Value × List Event)
process_object_remove name id = do
  b ← body
  guard (is_some (lookup id b.objects_by_id)) unknown_object
  single (object_remove_from_zone name id)
