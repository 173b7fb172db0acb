-- ===== src/Store/Structs.antt =====
-- store/domainconverter.go: the structs of all event types, and the switches over the types.
use gomud.Base.{ℕ, Option, none, some}
use gomud.Core.Event.{
  Payload, actor_move, actor_admin_relocate, actor_add_to_zone, actor_remove_from_zone, actor_death,
  actor_migrate_in, actor_migrate_out, actor_speak, location_add_to_zone, location_remove_from_zone,
  location_update, exit_add_to_zone, exit_update, exit_remove_from_zone, object_add_to_zone,
  object_remove_from_zone, object_move, object_move_subcontainer, object_admin_relocate,
  object_migrate_in, object_migrate_out, zone_set_default_location, combat_melee_damage,
  combat_dodge,
}
use gomud.Store.Header.{EventHeader, DomainEvent, header_from_domain_event}
use gomud.Store.Actors.{
  ActorMoveEvent, actor_move_from_domain, actor_move_to_domain, ActorAdminRelocateEvent,
  actor_admin_relocate_from_domain, actor_admin_relocate_to_domain, ActorAddToZoneEvent,
  actor_add_to_zone_from_domain, actor_add_to_zone_to_domain, ActorRemoveFromZoneEvent,
  actor_remove_from_zone_from_domain, actor_remove_from_zone_to_domain, ActorDeathEvent,
  actor_death_from_domain, actor_death_to_domain, ActorMigrateInEvent, actor_migrate_in_from_domain,
  actor_migrate_in_to_domain, ActorMigrateOutEvent, actor_migrate_out_from_domain,
  actor_migrate_out_to_domain, ActorSpeakEvent, actor_speak_from_domain, actor_speak_to_domain,
}
use gomud.Store.Locations.{
  LocationAddToZoneEvent, location_add_to_zone_from_domain, location_add_to_zone_to_domain,
  LocationRemoveFromZoneEvent, location_remove_from_zone_from_domain,
  location_remove_from_zone_to_domain, LocationUpdateEvent, location_update_from_domain,
  location_update_to_domain, ZoneSetDefaultLocationEvent, zone_set_default_location_from_domain,
  zone_set_default_location_to_domain,
}
use gomud.Store.Exits.{
  ExitAddToZoneEvent, exit_add_to_zone_from_domain, exit_add_to_zone_to_domain, ExitUpdateEvent,
  exit_update_from_domain, exit_update_to_domain, ExitRemoveFromZoneEvent,
  exit_remove_from_zone_from_domain, exit_remove_from_zone_to_domain,
}
use gomud.Store.Objects.{
  ObjectAddToZoneEvent, object_add_to_zone_from_domain, object_add_to_zone_to_domain,
  ObjectRemoveFromZoneEvent, object_remove_from_zone_from_domain, object_remove_from_zone_to_domain,
  ObjectMoveEvent, object_move_from_domain, object_move_to_domain, ObjectMoveSubcontainerEvent,
  object_move_subcontainer_from_domain, object_move_subcontainer_to_domain,
  ObjectAdminRelocateEvent, object_admin_relocate_from_domain, object_admin_relocate_to_domain,
  ObjectMigrateInEvent, object_migrate_in_from_domain, object_migrate_in_to_domain,
  ObjectMigrateOutEvent, object_migrate_out_from_domain, object_migrate_out_to_domain,
}
use gomud.Store.Combat.{
  CombatMeleeDamageEvent, combat_melee_damage_from_domain, combat_melee_damage_to_domain,
}

-- A struct behind the interfaces FromDomainer and ToDomainer.
pub data Stored : Type 0 where
  actor_move_event : ActorMoveEvent → Stored
  actor_admin_relocate_event : ActorAdminRelocateEvent → Stored
  actor_add_to_zone_event : ActorAddToZoneEvent → Stored
  actor_remove_from_zone_event : ActorRemoveFromZoneEvent → Stored
  actor_death_event : ActorDeathEvent → Stored
  actor_migrate_in_event : ActorMigrateInEvent → Stored
  actor_migrate_out_event : ActorMigrateOutEvent → Stored
  actor_speak_event : ActorSpeakEvent → Stored
  location_add_to_zone_event : LocationAddToZoneEvent → Stored
  location_remove_from_zone_event : LocationRemoveFromZoneEvent → Stored
  location_update_event : LocationUpdateEvent → Stored
  exit_add_to_zone_event : ExitAddToZoneEvent → Stored
  exit_update_event : ExitUpdateEvent → Stored
  exit_remove_from_zone_event : ExitRemoveFromZoneEvent → Stored
  object_add_to_zone_event : ObjectAddToZoneEvent → Stored
  object_remove_from_zone_event : ObjectRemoveFromZoneEvent → Stored
  object_move_event : ObjectMoveEvent → Stored
  object_move_subcontainer_event : ObjectMoveSubcontainerEvent → Stored
  object_admin_relocate_event : ObjectAdminRelocateEvent → Stored
  object_migrate_in_event : ObjectMigrateInEvent → Stored
  object_migrate_out_event : ObjectMigrateOutEvent → Stored
  zone_set_default_location_event : ZoneSetDefaultLocationEvent → Stored
  combat_melee_damage_event : CombatMeleeDamageEvent → Stored

-- The EventType constants, and `Type()` of a core event.
unfoldable pub event_type : Payload → ℕ
event_type (actor_move _) = 0
event_type (actor_admin_relocate _) = 1
event_type (actor_add_to_zone _) = 2
event_type (actor_remove_from_zone _) = 3
event_type (actor_death _) = 4
event_type (actor_migrate_in _) = 5
event_type (actor_migrate_out _) = 6
event_type (actor_speak _) = 7
event_type (location_add_to_zone _) = 8
event_type (location_remove_from_zone _) = 9
event_type (location_update _) = 10
event_type (exit_add_to_zone _) = 11
event_type (exit_update _) = 12
event_type (exit_remove_from_zone _) = 13
event_type (object_add_to_zone _) = 14
event_type (object_remove_from_zone _ _) = 15
event_type (object_move _) = 16
event_type (object_move_subcontainer _) = 17
event_type (object_admin_relocate _) = 18
event_type (object_migrate_in _) = 19
event_type (object_migrate_out _ _ _) = 20
event_type (zone_set_default_location _) = 21
event_type (combat_melee_damage _) = 22
event_type (combat_dodge _) = 23

-- The type under which a struct is written.
unfoldable pub stored_type : Stored → ℕ
stored_type (actor_move_event _) = 0
stored_type (actor_admin_relocate_event _) = 1
stored_type (actor_add_to_zone_event _) = 2
stored_type (actor_remove_from_zone_event _) = 3
stored_type (actor_death_event _) = 4
stored_type (actor_migrate_in_event _) = 5
stored_type (actor_migrate_out_event _) = 6
stored_type (actor_speak_event _) = 7
stored_type (location_add_to_zone_event _) = 8
stored_type (location_remove_from_zone_event _) = 9
stored_type (location_update_event _) = 10
stored_type (exit_add_to_zone_event _) = 11
stored_type (exit_update_event _) = 12
stored_type (exit_remove_from_zone_event _) = 13
stored_type (object_add_to_zone_event _) = 14
stored_type (object_remove_from_zone_event _) = 15
stored_type (object_move_event _) = 16
stored_type (object_move_subcontainer_event _) = 17
stored_type (object_admin_relocate_event _) = 18
stored_type (object_migrate_in_event _) = 19
stored_type (object_migrate_out_event _) = 20
stored_type (zone_set_default_location_event _) = 21
stored_type (combat_melee_damage_event _) = 22

-- The switch of writeEvent with FromDomain: a dodge is an unhandled event type.
unfoldable pub payload_from_domain : EventHeader → Payload → Option Stored
unfolding actor_move_from_domain actor_admin_relocate_from_domain actor_add_to_zone_from_domain
    actor_remove_from_zone_from_domain actor_death_from_domain actor_migrate_in_from_domain
    actor_migrate_out_from_domain actor_speak_from_domain location_add_to_zone_from_domain
    location_remove_from_zone_from_domain location_update_from_domain exit_add_to_zone_from_domain
    exit_update_from_domain exit_remove_from_zone_from_domain object_add_to_zone_from_domain
    object_remove_from_zone_from_domain object_move_from_domain object_move_subcontainer_from_domain
    object_admin_relocate_from_domain object_migrate_in_from_domain object_migrate_out_from_domain
    zone_set_default_location_from_domain combat_melee_damage_from_domain
payload_from_domain h (actor_move e) = some (actor_move_event (actor_move_from_domain h e))
payload_from_domain h (actor_admin_relocate e) =
    some (actor_admin_relocate_event (actor_admin_relocate_from_domain h e))
payload_from_domain h (actor_add_to_zone e) =
    some (actor_add_to_zone_event (actor_add_to_zone_from_domain h e))
payload_from_domain h (actor_remove_from_zone id) =
    some (actor_remove_from_zone_event (actor_remove_from_zone_from_domain h id))
payload_from_domain h (actor_death e) = some (actor_death_event (actor_death_from_domain h e))
payload_from_domain h (actor_migrate_in e) =
    some (actor_migrate_in_event (actor_migrate_in_from_domain h e))
payload_from_domain h (actor_migrate_out e) =
    some (actor_migrate_out_event (actor_migrate_out_from_domain h e))
payload_from_domain h (actor_speak e) = some (actor_speak_event (actor_speak_from_domain h e))
payload_from_domain h (location_add_to_zone e) =
    some (location_add_to_zone_event (location_add_to_zone_from_domain h e))
payload_from_domain h (location_remove_from_zone id) =
    some (location_remove_from_zone_event (location_remove_from_zone_from_domain h id))
payload_from_domain h (location_update e) =
    some (location_update_event (location_update_from_domain h e))
payload_from_domain h (exit_add_to_zone e) =
    some (exit_add_to_zone_event (exit_add_to_zone_from_domain h e))
payload_from_domain h (exit_update e) = some (exit_update_event (exit_update_from_domain h e))
payload_from_domain h (exit_remove_from_zone id) =
    some (exit_remove_from_zone_event (exit_remove_from_zone_from_domain h id))
payload_from_domain h (object_add_to_zone e) =
    some (object_add_to_zone_event (object_add_to_zone_from_domain h e))
payload_from_domain h (object_remove_from_zone name object_id) =
    some (object_remove_from_zone_event (object_remove_from_zone_from_domain h name object_id))
payload_from_domain h (object_move e) = some (object_move_event (object_move_from_domain h e))
payload_from_domain h (object_move_subcontainer e) =
    some (object_move_subcontainer_event (object_move_subcontainer_from_domain h e))
payload_from_domain h (object_admin_relocate e) =
    some (object_admin_relocate_event (object_admin_relocate_from_domain h e))
payload_from_domain h (object_migrate_in e) =
    some (object_migrate_in_event (object_migrate_in_from_domain h e))
payload_from_domain h (object_migrate_out name object_id to_zone_id) =
    some (object_migrate_out_event (object_migrate_out_from_domain h name object_id to_zone_id))
payload_from_domain h (zone_set_default_location id) =
    some (zone_set_default_location_event (zone_set_default_location_from_domain h id))
payload_from_domain h (combat_melee_damage e) =
    some (combat_melee_damage_event (combat_melee_damage_from_domain h e))
payload_from_domain h (combat_dodge e) = none

unfoldable pub from_domain : DomainEvent → Option Stored
unfolding payload_from_domain
from_domain e = payload_from_domain (header_from_domain_event (event_type e.payload) e) e.payload

-- `ToDomain()`
unfoldable pub to_domain : Stored → DomainEvent
to_domain (actor_move_event r) = actor_move_to_domain r
to_domain (actor_admin_relocate_event r) = actor_admin_relocate_to_domain r
to_domain (actor_add_to_zone_event r) = actor_add_to_zone_to_domain r
to_domain (actor_remove_from_zone_event r) = actor_remove_from_zone_to_domain r
to_domain (actor_death_event r) = actor_death_to_domain r
to_domain (actor_migrate_in_event r) = actor_migrate_in_to_domain r
to_domain (actor_migrate_out_event r) = actor_migrate_out_to_domain r
to_domain (actor_speak_event r) = actor_speak_to_domain r
to_domain (location_add_to_zone_event r) = location_add_to_zone_to_domain r
to_domain (location_remove_from_zone_event r) = location_remove_from_zone_to_domain r
to_domain (location_update_event r) = location_update_to_domain r
to_domain (exit_add_to_zone_event r) = exit_add_to_zone_to_domain r
to_domain (exit_update_event r) = exit_update_to_domain r
to_domain (exit_remove_from_zone_event r) = exit_remove_from_zone_to_domain r
to_domain (object_add_to_zone_event r) = object_add_to_zone_to_domain r
to_domain (object_remove_from_zone_event r) = object_remove_from_zone_to_domain r
to_domain (object_move_event r) = object_move_to_domain r
to_domain (object_move_subcontainer_event r) = object_move_subcontainer_to_domain r
to_domain (object_admin_relocate_event r) = object_admin_relocate_to_domain r
to_domain (object_migrate_in_event r) = object_migrate_in_to_domain r
to_domain (object_migrate_out_event r) = object_migrate_out_to_domain r
to_domain (zone_set_default_location_event r) = zone_set_default_location_to_domain r
to_domain (combat_melee_damage_event r) = combat_melee_damage_to_domain r

-- `Header()`
unfoldable pub header_of : Stored → EventHeader
header_of (actor_move_event r) = r.header
header_of (actor_admin_relocate_event r) = r.header
header_of (actor_add_to_zone_event r) = r.header
header_of (actor_remove_from_zone_event r) = r.header
header_of (actor_death_event r) = r.header
header_of (actor_migrate_in_event r) = r.header
header_of (actor_migrate_out_event r) = r.header
header_of (actor_speak_event r) = r.header
header_of (location_add_to_zone_event r) = r.header
header_of (location_remove_from_zone_event r) = r.header
header_of (location_update_event r) = r.header
header_of (exit_add_to_zone_event r) = r.header
header_of (exit_update_event r) = r.header
header_of (exit_remove_from_zone_event r) = r.header
header_of (object_add_to_zone_event r) = r.header
header_of (object_remove_from_zone_event r) = r.header
header_of (object_move_event r) = r.header
header_of (object_move_subcontainer_event r) = r.header
header_of (object_admin_relocate_event r) = r.header
header_of (object_migrate_in_event r) = r.header
header_of (object_migrate_out_event r) = r.header
header_of (zone_set_default_location_event r) = r.header
header_of (combat_melee_damage_event r) = r.header

-- `SetHeader(h)`
unfoldable pub set_header : EventHeader → Stored → Stored
set_header h (actor_move_event r) = actor_move_event (record r { header = h })
set_header h (actor_admin_relocate_event r) = actor_admin_relocate_event (record r { header = h })
set_header h (actor_add_to_zone_event r) = actor_add_to_zone_event (record r { header = h })
set_header h (actor_remove_from_zone_event r) =
    actor_remove_from_zone_event (record r { header = h })
set_header h (actor_death_event r) = actor_death_event (record r { header = h })
set_header h (actor_migrate_in_event r) = actor_migrate_in_event (record r { header = h })
set_header h (actor_migrate_out_event r) = actor_migrate_out_event (record r { header = h })
set_header h (actor_speak_event r) = actor_speak_event (record r { header = h })
set_header h (location_add_to_zone_event r) = location_add_to_zone_event (record r { header = h })
set_header h (location_remove_from_zone_event r) =
    location_remove_from_zone_event (record r { header = h })
set_header h (location_update_event r) = location_update_event (record r { header = h })
set_header h (exit_add_to_zone_event r) = exit_add_to_zone_event (record r { header = h })
set_header h (exit_update_event r) = exit_update_event (record r { header = h })
set_header h (exit_remove_from_zone_event r) = exit_remove_from_zone_event (record r { header = h })
set_header h (object_add_to_zone_event r) = object_add_to_zone_event (record r { header = h })
set_header h (object_remove_from_zone_event r) =
    object_remove_from_zone_event (record r { header = h })
set_header h (object_move_event r) = object_move_event (record r { header = h })
set_header h (object_move_subcontainer_event r) =
    object_move_subcontainer_event (record r { header = h })
set_header h (object_admin_relocate_event r) = object_admin_relocate_event (record r { header = h })
set_header h (object_migrate_in_event r) = object_migrate_in_event (record r { header = h })
set_header h (object_migrate_out_event r) = object_migrate_out_event (record r { header = h })
set_header h (zone_set_default_location_event r) =
    zone_set_default_location_event (record r { header = h })
set_header h (combat_melee_damage_event r) = combat_melee_damage_event (record r { header = h })
