-- ===== src/Store/Actors.antt =====
-- store/actor.go: the structs that are written for the events about actors, and FromDomain and
-- ToDomain of each. The skills, which are floats, are no field of the model.
use gomud.Base.{String}
use gomud.Core.Data.{ActorInventoryConstraints, AttributeSet, Uuid}
use gomud.Core.Event.{
  ActorAddToZone, ActorAdminRelocate, ActorDeath, ActorMigrateIn, ActorMigrateOut, ActorMove,
  ActorSpeak, actor_move, actor_admin_relocate, actor_add_to_zone, actor_remove_from_zone,
  actor_death, actor_migrate_in, actor_migrate_out, actor_speak,
}
use gomud.Store.Header.{EventHeader, DomainEvent, new_event}

pub record ActorMoveEvent : Type 0 where
  pub header : EventHeader
  pub from_location_id : Uuid
  pub to_location_id : Uuid
  pub actor_id : Uuid

unfoldable pub actor_move_from_domain : EventHeader → ActorMove → ActorMoveEvent
actor_move_from_domain h e = record {
  header = h;
  from_location_id = e.from_location_id;
  to_location_id = e.to_location_id;
  actor_id = e.actor_id;
}

unfoldable pub actor_move_to_domain : ActorMoveEvent → DomainEvent
actor_move_to_domain r = new_event r.header (
    actor_move (record {
      from_location_id = r.from_location_id;
      to_location_id = r.to_location_id;
      actor_id = r.actor_id;
    }))

pub record ActorAdminRelocateEvent : Type 0 where
  pub header : EventHeader
  pub actor_id : Uuid
  pub to_location_id : Uuid

unfoldable pub actor_admin_relocate_from_domain :
    EventHeader → ActorAdminRelocate → ActorAdminRelocateEvent
actor_admin_relocate_from_domain h e = record {
  header = h;
  actor_id = e.actor_id;
  to_location_id = e.to_location_id;
}

unfoldable pub actor_admin_relocate_to_domain : ActorAdminRelocateEvent → DomainEvent
actor_admin_relocate_to_domain r =
    new_event r.header
      (actor_admin_relocate (record { actor_id = r.actor_id; to_location_id = r.to_location_id }))

pub record ActorAddToZoneEvent : Type 0 where
  pub header : EventHeader
  pub actor_id : Uuid
  pub starting_location_id : Uuid
  pub name : String
  pub brain_type : String
  pub attributes : AttributeSet
  pub inventory_constraints : ActorInventoryConstraints

unfoldable pub actor_add_to_zone_from_domain : EventHeader → ActorAddToZone → ActorAddToZoneEvent
actor_add_to_zone_from_domain h e = record {
  header = h;
  actor_id = e.actor_id;
  starting_location_id = e.starting_location_id;
  name = e.name;
  brain_type = e.brain_type;
  attributes = e.attributes;
  inventory_constraints = e.inventory_constraints;
}

unfoldable pub actor_add_to_zone_to_domain : ActorAddToZoneEvent → DomainEvent
actor_add_to_zone_to_domain r = new_event r.header (
    actor_add_to_zone (record {
      actor_id = r.actor_id;
      starting_location_id = r.starting_location_id;
      name = r.name;
      brain_type = r.brain_type;
      attributes = r.attributes;
      inventory_constraints = r.inventory_constraints;
    }))

pub record ActorRemoveFromZoneEvent : Type 0 where
  pub header : EventHeader
  pub actor_id : Uuid

unfoldable pub actor_remove_from_zone_from_domain : EventHeader → Uuid → ActorRemoveFromZoneEvent
actor_remove_from_zone_from_domain h id = record { header = h; actor_id = id }

unfoldable pub actor_remove_from_zone_to_domain : ActorRemoveFromZoneEvent → DomainEvent
actor_remove_from_zone_to_domain r = new_event r.header (actor_remove_from_zone r.actor_id)

pub record ActorDeathEvent : Type 0 where
  pub header : EventHeader
  pub actor_name : String
  pub actor_id : Uuid

unfoldable pub actor_death_from_domain : EventHeader → ActorDeath → ActorDeathEvent
actor_death_from_domain h e = record {
  header = h;
  actor_name = e.actor_name;
  actor_id = e.actor_id;
}

unfoldable pub actor_death_to_domain : ActorDeathEvent → DomainEvent
actor_death_to_domain r =
    new_event r.header (actor_death (record { actor_name = r.actor_name; actor_id = r.actor_id }))

pub record ActorMigrateInEvent : Type 0 where
  pub header : EventHeader
  pub actor_id : Uuid
  pub name : String
  pub brain_type : String
  pub from_loc_id : Uuid
  pub from_zone_id : Uuid
  pub to_loc_id : Uuid
  pub attributes : AttributeSet
  pub inventory_constraints : ActorInventoryConstraints

unfoldable pub actor_migrate_in_from_domain : EventHeader → ActorMigrateIn → ActorMigrateInEvent
actor_migrate_in_from_domain h e = record {
  header = h;
  actor_id = e.actor_id;
  name = e.name;
  brain_type = e.brain_type;
  from_loc_id = e.from_loc_id;
  from_zone_id = e.from_zone_id;
  to_loc_id = e.to_loc_id;
  attributes = e.attributes;
  inventory_constraints = e.inventory_constraints;
}

unfoldable pub actor_migrate_in_to_domain : ActorMigrateInEvent → DomainEvent
actor_migrate_in_to_domain r = new_event r.header (
    actor_migrate_in (record {
      actor_id = r.actor_id;
      name = r.name;
      brain_type = r.brain_type;
      from_loc_id = r.from_loc_id;
      from_zone_id = r.from_zone_id;
      to_loc_id = r.to_loc_id;
      attributes = r.attributes;
      inventory_constraints = r.inventory_constraints;
    }))

pub record ActorMigrateOutEvent : Type 0 where
  pub header : EventHeader
  pub actor_id : Uuid
  pub from_loc_id : Uuid
  pub to_loc_id : Uuid
  pub to_zone_id : Uuid

unfoldable pub actor_migrate_out_from_domain : EventHeader → ActorMigrateOut → ActorMigrateOutEvent
actor_migrate_out_from_domain h e = record {
  header = h;
  actor_id = e.actor_id;
  from_loc_id = e.from_loc_id;
  to_loc_id = e.to_loc_id;
  to_zone_id = e.to_zone_id;
}

unfoldable pub actor_migrate_out_to_domain : ActorMigrateOutEvent → DomainEvent
actor_migrate_out_to_domain r = new_event r.header (
    actor_migrate_out (record {
      actor_id = r.actor_id;
      from_loc_id = r.from_loc_id;
      to_loc_id = r.to_loc_id;
      to_zone_id = r.to_zone_id;
    }))

pub record ActorSpeakEvent : Type 0 where
  pub header : EventHeader
  pub actor_id : Uuid
  pub actor_name : String
  pub speech : String

unfoldable pub actor_speak_from_domain : EventHeader → ActorSpeak → ActorSpeakEvent
actor_speak_from_domain h e = record {
  header = h;
  actor_id = e.actor_id;
  actor_name = e.actor_name;
  speech = e.speech;
}

unfoldable pub actor_speak_to_domain : ActorSpeakEvent → DomainEvent
actor_speak_to_domain r =
    new_event r.header
      (actor_speak (record { actor_id = r.actor_id; actor_name = r.actor_name; speech = r.speech }))
