-- ===== src/Store/Locations.antt =====
-- store/location.go and store/zone.go: the structs that are written for the events about locations,
-- and FromDomain and ToDomain of each.
use gomud.Base.{String}
use gomud.Core.Data.{Uuid}
use gomud.Core.Event.{
  LocationText, location_add_to_zone, location_remove_from_zone, location_update,
  zone_set_default_location,
}
use gomud.Store.Header.{EventHeader, DomainEvent, new_event}

pub record LocationAddToZoneEvent : Type 0 where
  pub header : EventHeader
  pub location_id : Uuid
  pub short_desc : String
  pub desc : String

unfoldable pub location_add_to_zone_from_domain :
    EventHeader → LocationText → LocationAddToZoneEvent
location_add_to_zone_from_domain h e = record {
  header = h;
  location_id = e.location_id;
  short_desc = e.short_desc;
  desc = e.desc;
}

unfoldable pub location_add_to_zone_to_domain : LocationAddToZoneEvent → DomainEvent
location_add_to_zone_to_domain r = new_event r.header (
    location_add_to_zone
      (record { location_id = r.location_id; short_desc = r.short_desc; desc = r.desc }))

pub record LocationRemoveFromZoneEvent : Type 0 where
  pub header : EventHeader
  pub location_id : Uuid

unfoldable pub location_remove_from_zone_from_domain :
    EventHeader → Uuid → LocationRemoveFromZoneEvent
location_remove_from_zone_from_domain h id = record { header = h; location_id = id }

unfoldable pub location_remove_from_zone_to_domain : LocationRemoveFromZoneEvent → DomainEvent
location_remove_from_zone_to_domain r = new_event r.header (location_remove_from_zone r.location_id)

pub record LocationUpdateEvent : Type 0 where
  pub header : EventHeader
  pub location_id : Uuid
  pub short_desc : String
  pub desc : String

unfoldable pub location_update_from_domain : EventHeader → LocationText → LocationUpdateEvent
location_update_from_domain h e = record {
  header = h;
  location_id = e.location_id;
  short_desc = e.short_desc;
  desc = e.desc;
}

unfoldable pub location_update_to_domain : LocationUpdateEvent → DomainEvent
location_update_to_domain r = new_event r.header (
    location_update
      (record { location_id = r.location_id; short_desc = r.short_desc; desc = r.desc }))

pub record ZoneSetDefaultLocationEvent : Type 0 where
  pub header : EventHeader
  pub location_id : Uuid

unfoldable pub zone_set_default_location_from_domain :
    EventHeader → Uuid → ZoneSetDefaultLocationEvent
zone_set_default_location_from_domain h id = record { header = h; location_id = id }

unfoldable pub zone_set_default_location_to_domain : ZoneSetDefaultLocationEvent → DomainEvent
zone_set_default_location_to_domain r = new_event r.header (zone_set_default_location r.location_id)
