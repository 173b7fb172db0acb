-- ===== src/Core/Process/Actors.antt =====
-- processActor*Command of core/zone.go, but for the death.
use gomud.Base.{
  Bool, true, false, Option, none, some, List, [], ◌∷◌, ◌++◌, String, lookup, not, ◌&&◌,
  if◌then◌else◌,
}
use gomud.Core.Data.{
  Ref, Uuid, Container, location_container, actor_container, object_container, nil_container,
  nil_uuid,
}
use gomud.Core.Inventory.{default_subcontainer, subcontainer_for}
use gomud.Core.Monad.{
  returns, panics, M, ◌>>=◌, ◌>>◌, and_then, pure, guard, some_or, deref, unknown_starting_location,
  duplicate_actor, unknown_from_location, unknown_to_location, no_exit_to_destination,
  unknown_actor, unknown_location, actor_not_in_zone,
}
use gomud.Core.Body.{Body, actor_add_observer}
use gomud.Core.Event.{
  Event, Payload, ActorMove, ActorAdminRelocate, ActorAddToZone, ContainerIds, actor_move,
  actor_admin_relocate, actor_add_to_zone, actor_remove_from_zone, actor_speak, actor_migrate_in,
  actor_migrate_out, object_migrate_in, object_migrate_out,
}
use gomud.Core.Command.{MigrateCommand}
use gomud.Core.Apply.{Value, nothing, actor_value}
use gomud.Core.Zone.{State, submit, submit_all}
use gomud.Core.Process.Common.{single, body, is_some, same, object_container_tuples}

unfoldable pub process_actor_add : ActorAddToZone → M State (Value × List Event)
process_actor_add e = do
  b ← body
  guard (is_some (lookup e.starting_location_id b.locations_by_id)) unknown_starting_location
  guard (not (is_some (lookup e.actor_id b.actors_by_id))) duplicate_actor
  single (actor_add_to_zone e)

-- The loop that looks for an exit to a location.
unfoldable pub has_exit_to : Body → List Ref → Ref → Bool
has_exit_to b [] to = false
has_exit_to b (x ∷ xs) to =
    if same (b.exits x).destination (some to) then true else has_exit_to b xs to

unfoldable pub process_actor_move : ActorMove → M State (Value × List Event)
process_actor_move e = do
  b ← body
  from ← some_or (lookup e.from_location_id b.locations_by_id) unknown_from_location
  to ← some_or (lookup e.to_location_id b.locations_by_id) unknown_to_location
  guard (has_exit_to b (b.locations from).out_exits to) no_exit_to_destination
  guard (is_some (lookup e.actor_id b.actors_by_id)) unknown_actor
  single (actor_move e)

unfoldable pub process_actor_admin_relocate : ActorAdminRelocate → M State (Value × List Event)
process_actor_admin_relocate e = do
  b ← body
  guard (is_some (lookup e.actor_id b.actors_by_id)) unknown_actor
  guard (is_some (lookup e.to_location_id b.locations_by_id)) unknown_location
  single (actor_admin_relocate e)

unfoldable pub process_actor_remove : Uuid → M State (Value × List Event)
process_actor_remove id = do
  b ← body
  guard (is_some (lookup id b.actors_by_id)) unknown_actor
  single (actor_remove_from_zone id)

-- `!found || actor.Zone() != z`
abbrev pub is_here : Ref → Body → Bool
is_here a b =
    is_some (lookup (b.actors a).id b.actors_by_id) && same (b.actors a).zone (some b.self)

unfoldable pub process_actor_speak : Ref → String → M State (Value × List Event)
process_actor_speak a speech = do
  b ← body
  guard (is_here a b) actor_not_in_zone
  single (
      actor_speak
        (record { actor_name = (b.actors a).name; actor_id = (b.actors a).id; speech = speech }))

-- The identifiers of an ObjectMigrateInEvent, and the subcontainer, by the type of the container.
abbrev migration_target : Body → Ref → Ref → Container → Option (ContainerIds × String)
migration_target b actor o (location_container (some l)) = some (
  record { location_id = (b.locations l).id; actor_id = nil_uuid; object_id = nil_uuid },
  default_subcontainer,
)
migration_target b actor o (actor_container (some a)) = some (
  record { location_id = nil_uuid; actor_id = (b.actors a).id; object_id = nil_uuid },
  subcontainer_for (b.actors actor).inventory o,
)
migration_target b actor o (object_container (some p)) = some (
  record { location_id = nil_uuid; actor_id = nil_uuid; object_id = (b.objects p).id },
  default_subcontainer,
)
migration_target b actor o nil_container =
    some (record { location_id = nil_uuid; actor_id = nil_uuid; object_id = nil_uuid }, "")
migration_target b actor o _ = none

-- One round of the loop over the migrating objects, which reads them from the zone they leave.
unfoldable pub migrate_in_object : Ref → Uuid → Ref × Container → M State Event
migrate_in_object actor from_zone (o, c) = do
  b ← body
  target ← deref (migration_target b actor o c)
  let obj = b.objects o
  r ← submit (
      object_migrate_in (record {
        object_id = obj.id;
        name = obj.name;
        description = obj.description;
        keywords = obj.keywords;
        from_zone_id = from_zone;
        container_ids = target.0;
        subcontainer = target.1;
        capacity = obj.container_capacity;
      }))
  pure r.1

unfoldable pub migrate_in_objects : Ref → Uuid → List (Ref × Container) → M State (List Event)
unfolding migrate_in_object
migrate_in_objects actor from_zone [] s = returns [] s
migrate_in_objects actor from_zone (t ∷ ts) s =
    let rest = migrate_in_objects actor from_zone ts in
    and_then (migrate_in_object actor from_zone t s)
      λ e u. and_then (rest u) λ es v. returns (e ∷ es) v

unfoldable pub add_observers : Ref → List Ref → Body → Body
add_observers a [] b = b
add_observers a (o ∷ os) b = add_observers a os (actor_add_observer a o b)

abbrev pub add_observers_to : Value → List Ref → M State (Unit {0})
add_observers_to (actor_value a) os s = returns tt (record s { body = add_observers a os s.body })
add_observers_to _ os s = panics

unfoldable pub process_actor_migrate_in : MigrateCommand → List Ref → M State (Value × List Event)
unfolding migrate_in_objects add_observers
process_actor_migrate_in c observers = do
  b ← body
  from_zone ← deref (b.locations c.from).zone
  let actor = b.actors c.actor
  r ← submit (
      actor_migrate_in (record {
        actor_id = actor.id;
        name = actor.name;
        brain_type = actor.brain_type;
        from_loc_id = (b.locations c.from).id;
        from_zone_id = b.zone_ids from_zone;
        to_loc_id = (b.locations c.to).id;
        attributes = actor.attributes;
        inventory_constraints = actor.inventory.constraints;
      }))
  add_observers_to r.0 observers
  d ← body
  tuples ← deref (object_container_tuples d.stack d (actor_container (some c.actor)))
  es ← migrate_in_objects c.actor (b.zone_ids from_zone) tuples
  pure (r.0, r.1 ∷ es)

abbrev pub migrate_out_payloads : Body → Uuid → List (Ref × Container) → List Payload
migrate_out_payloads b to_zone [] = []
migrate_out_payloads b to_zone ((o, c) ∷ ts) =
    object_migrate_out (b.objects o).name (b.objects o).id to_zone
    ∷ migrate_out_payloads b to_zone ts

unfoldable pub process_actor_migrate_out : MigrateCommand → M State (Value × List Event)
process_actor_migrate_out c = do
  b ← body
  tuples ← deref (object_container_tuples b.stack b (actor_container (some c.actor)))
  to_zone ← deref (b.locations c.to).zone
  es ← submit_all (
      migrate_out_payloads b (b.zone_ids to_zone) tuples
      ++ actor_migrate_out (record {
        actor_id = (b.actors c.actor).id;
        from_loc_id = (b.locations c.from).id;
        to_loc_id = (b.locations c.to).id;
        to_zone_id = b.zone_ids to_zone;
      })
        ∷ [])
  pure (nothing, es)
