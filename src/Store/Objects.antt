-- ===== src/Store/Objects.antt =====
-- store/object.go: the structs that are written for the events about objects, and FromDomain and
-- ToDomain of each. The attributes of objects, which are floats, are no field of the model.
use gomud.Base.{List, String, ℕ}
use gomud.Core.Data.{Uuid}
use gomud.Core.Event.{
  ObjectAddToZone, ObjectAdminRelocate, ObjectMigrateIn, ObjectMove, ObjectMoveSubcontainer,
  object_add_to_zone, object_remove_from_zone, object_move, object_move_subcontainer,
  object_admin_relocate, object_migrate_in, object_migrate_out,
}
use gomud.Store.Header.{EventHeader, DomainEvent, new_event}

pub record ObjectAddToZoneEvent : Type 0 where
  pub header : EventHeader
  pub object_id : Uuid
  pub name : String
  pub description : String
  pub keywords : List String
  pub location_container_id : Uuid
  pub actor_container_id : Uuid
  pub object_container_id : Uuid
  pub subcontainer : String
  pub capacity : ℕ

unfoldable pub object_add_to_zone_from_domain : EventHeader → ObjectAddToZone → ObjectAddToZoneEvent
object_add_to_zone_from_domain h e = record {
  header = h;
  object_id = e.object_id;
  name = e.name;
  description = e.description;
  keywords = e.keywords;
  location_container_id = e.container_ids.location_id;
  actor_container_id = e.container_ids.actor_id;
  object_container_id = e.container_ids.object_id;
  subcontainer = e.subcontainer;
  capacity = e.capacity;
}

unfoldable pub object_add_to_zone_to_domain : ObjectAddToZoneEvent → DomainEvent
object_add_to_zone_to_domain r = new_event r.header (
    object_add_to_zone (record {
      object_id = r.object_id;
      name = r.name;
      description = r.description;
      keywords = r.keywords;
      container_ids = record {
        location_id = r.location_container_id;
        actor_id = r.actor_container_id;
        object_id = r.object_container_id;
      };
      subcontainer = r.subcontainer;
      capacity = r.capacity;
    }))

pub record ObjectRemoveFromZoneEvent : Type 0 where
  pub header : EventHeader
  pub object_id : Uuid
  pub name : String

unfoldable pub object_remove_from_zone_from_domain :
    EventHeader → String → Uuid → ObjectRemoveFromZoneEvent
object_remove_from_zone_from_domain h name object_id = record {
  header = h;
  object_id = object_id;
  name = name;
}

unfoldable pub object_remove_from_zone_to_domain : ObjectRemoveFromZoneEvent → DomainEvent
object_remove_from_zone_to_domain r =
    new_event r.header (object_remove_from_zone r.name r.object_id)

pub record ObjectMoveEvent : Type 0 where
  pub header : EventHeader
  pub object_id : Uuid
  pub actor_id : Uuid
  pub from_location_container_id : Uuid
  pub from_actor_container_id : Uuid
  pub from_object_container_id : Uuid
  pub to_location_container_id : Uuid
  pub to_actor_container_id : Uuid
  pub to_object_container_id : Uuid
  pub to_subcontainer : String

unfoldable pub object_move_from_domain : EventHeader → ObjectMove → ObjectMoveEvent
object_move_from_domain h e = record {
  header = h;
  object_id = e.object_id;
  actor_id = e.actor_id;
  from_location_container_id = e.from_ids.location_id;
  from_actor_container_id = e.from_ids.actor_id;
  from_object_container_id = e.from_ids.object_id;
  to_location_container_id = e.to_ids.location_id;
  to_actor_container_id = e.to_ids.actor_id;
  to_object_container_id = e.to_ids.object_id;
  to_subcontainer = e.to_subcontainer;
}

unfoldable pub object_move_to_domain : ObjectMoveEvent → DomainEvent
object_move_to_domain r = new_event r.header (
    object_move (record {
      object_id = r.object_id;
      actor_id = r.actor_id;
      from_ids = record {
        location_id = r.from_location_container_id;
        actor_id = r.from_actor_container_id;
        object_id = r.from_object_container_id;
      };
      to_ids = record {
        location_id = r.to_location_container_id;
        actor_id = r.to_actor_container_id;
        object_id = r.to_object_container_id;
      };
      to_subcontainer = r.to_subcontainer;
    }))

pub record ObjectMoveSubcontainerEvent : Type 0 where
  pub header : EventHeader
  pub object_id : Uuid
  pub from_subcontainer : String
  pub to_subcontainer : String
  pub actor_id : Uuid

unfoldable pub object_move_subcontainer_from_domain :
    EventHeader → ObjectMoveSubcontainer → ObjectMoveSubcontainerEvent
object_move_subcontainer_from_domain h e = record {
  header = h;
  object_id = e.object_id;
  from_subcontainer = e.from_subcontainer;
  to_subcontainer = e.to_subcontainer;
  actor_id = e.actor_id;
}

unfoldable pub object_move_subcontainer_to_domain : ObjectMoveSubcontainerEvent → DomainEvent
object_move_subcontainer_to_domain r = new_event r.header (
    object_move_subcontainer (record {
      object_id = r.object_id;
      from_subcontainer = r.from_subcontainer;
      to_subcontainer = r.to_subcontainer;
      actor_id = r.actor_id;
    }))

pub record ObjectAdminRelocateEvent : Type 0 where
  pub header : EventHeader
  pub object_id : Uuid
  pub to_location_container_id : Uuid
  pub to_actor_container_id : Uuid
  pub to_object_container_id : Uuid
  pub to_subcontainer : String

unfoldable pub object_admin_relocate_from_domain :
    EventHeader → ObjectAdminRelocate → ObjectAdminRelocateEvent
object_admin_relocate_from_domain h e = record {
  header = h;
  object_id = e.object_id;
  to_location_container_id = e.to_ids.location_id;
  to_actor_container_id = e.to_ids.actor_id;
  to_object_container_id = e.to_ids.object_id;
  to_subcontainer = e.to_subcontainer;
}

unfoldable pub object_admin_relocate_to_domain : ObjectAdminRelocateEvent → DomainEvent
object_admin_relocate_to_domain r = new_event r.header (
    object_admin_relocate (record {
      object_id = r.object_id;
      to_ids = record {
        location_id = r.to_location_container_id;
        actor_id = r.to_actor_container_id;
        object_id = r.to_object_container_id;
      };
      to_subcontainer = r.to_subcontainer;
    }))

pub record ObjectMigrateInEvent : Type 0 where
  pub header : EventHeader
  pub object_id : Uuid
  pub name : String
  pub description : String
  pub keywords : List String
  pub from_zone_id : Uuid
  pub location_container_id : Uuid
  pub actor_container_id : Uuid
  pub object_container_id : Uuid
  pub subcontainer : String
  pub capacity : ℕ

unfoldable pub object_migrate_in_from_domain : EventHeader → ObjectMigrateIn → ObjectMigrateInEvent
object_migrate_in_from_domain h e = record {
  header = h;
  object_id = e.object_id;
  name = e.name;
  description = e.description;
  keywords = e.keywords;
  from_zone_id = e.from_zone_id;
  location_container_id = e.container_ids.location_id;
  actor_container_id = e.container_ids.actor_id;
  object_container_id = e.container_ids.object_id;
  subcontainer = e.subcontainer;
  capacity = e.capacity;
}

unfoldable pub object_migrate_in_to_domain : ObjectMigrateInEvent → DomainEvent
object_migrate_in_to_domain r = new_event r.header (
    object_migrate_in (record {
      object_id = r.object_id;
      name = r.name;
      description = r.description;
      keywords = r.keywords;
      from_zone_id = r.from_zone_id;
      container_ids = record {
        location_id = r.location_container_id;
        actor_id = r.actor_container_id;
        object_id = r.object_container_id;
      };
      subcontainer = r.subcontainer;
      capacity = r.capacity;
    }))

pub record ObjectMigrateOutEvent : Type 0 where
  pub header : EventHeader
  pub object_id : Uuid
  pub name : String
  pub to_zone_id : Uuid

unfoldable pub object_migrate_out_from_domain :
    EventHeader → String → Uuid → Uuid → ObjectMigrateOutEvent
object_migrate_out_from_domain h name object_id to_zone_id = record {
  header = h;
  object_id = object_id;
  name = name;
  to_zone_id = to_zone_id;
}

unfoldable pub object_migrate_out_to_domain : ObjectMigrateOutEvent → DomainEvent
object_migrate_out_to_domain r =
    new_event r.header (object_migrate_out r.name r.object_id r.to_zone_id)
