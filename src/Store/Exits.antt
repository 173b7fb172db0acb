-- ===== src/Store/Exits.antt =====
-- store/exit.go: the structs that are written for the events about exits, and FromDomain and
-- ToDomain of each.
use gomud.Base.{String}
use gomud.Core.Data.{Uuid}
use gomud.Core.Event.{ExitText, exit_add_to_zone, exit_update, exit_remove_from_zone}
use gomud.Store.Header.{EventHeader, DomainEvent, new_event}

pub record ExitAddToZoneEvent : Type 0 where
  pub header : EventHeader
  pub description : String
  pub direction : String
  pub exit_id : Uuid
  pub source_location_id : Uuid
  pub dest_location_id : Uuid
  pub dest_zone_id : Uuid

unfoldable pub exit_add_to_zone_from_domain : EventHeader → ExitText → ExitAddToZoneEvent
exit_add_to_zone_from_domain h e = record {
  header = h;
  description = e.description;
  direction = e.direction;
  exit_id = e.exit_id;
  source_location_id = e.source_location_id;
  dest_location_id = e.dest_location_id;
  dest_zone_id = e.dest_zone_id;
}

unfoldable pub exit_add_to_zone_to_domain : ExitAddToZoneEvent → DomainEvent
exit_add_to_zone_to_domain r = new_event r.header (
    exit_add_to_zone (record {
      description = r.description;
      direction = r.direction;
      exit_id = r.exit_id;
      source_location_id = r.source_location_id;
      dest_location_id = r.dest_location_id;
      dest_zone_id = r.dest_zone_id;
    }))

pub record ExitUpdateEvent : Type 0 where
  pub header : EventHeader
  pub description : String
  pub direction : String
  pub exit_id : Uuid
  pub source_location_id : Uuid
  pub dest_location_id : Uuid
  pub dest_zone_id : Uuid

unfoldable pub exit_update_from_domain : EventHeader → ExitText → ExitUpdateEvent
exit_update_from_domain h e = record {
  header = h;
  description = e.description;
  direction = e.direction;
  exit_id = e.exit_id;
  source_location_id = e.source_location_id;
  dest_location_id = e.dest_location_id;
  dest_zone_id = e.dest_zone_id;
}

unfoldable pub exit_update_to_domain : ExitUpdateEvent → DomainEvent
exit_update_to_domain r = new_event r.header (
    exit_update (record {
      description = r.description;
      direction = r.direction;
      exit_id = r.exit_id;
      source_location_id = r.source_location_id;
      dest_location_id = r.dest_location_id;
      dest_zone_id = r.dest_zone_id;
    }))

pub record ExitRemoveFromZoneEvent : Type 0 where
  pub header : EventHeader
  pub exit_id : Uuid

unfoldable pub exit_remove_from_zone_from_domain : EventHeader → Uuid → ExitRemoveFromZoneEvent
exit_remove_from_zone_from_domain h id = record { header = h; exit_id = id }

unfoldable pub exit_remove_from_zone_to_domain : ExitRemoveFromZoneEvent → DomainEvent
exit_remove_from_zone_to_domain r = new_event r.header (exit_remove_from_zone r.exit_id)
