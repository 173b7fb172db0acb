-- ===== src/Store/Conversions.antt =====
-- FromDomain and ToDomain of store/, one after the other, for all event types.
use gomud.Base.{true, ltb, some, ◌≡◌, refl, subst}
use gomud.Core.Event.{
  Payload, combat_melee_damage, combat_dodge, actor_move, actor_admin_relocate, actor_add_to_zone,
  actor_remove_from_zone, actor_death, actor_migrate_in, actor_migrate_out, actor_speak,
  location_add_to_zone, location_remove_from_zone, location_update, zone_set_default_location,
  exit_add_to_zone, exit_update, exit_remove_from_zone, object_add_to_zone, object_remove_from_zone,
  object_move, object_move_subcontainer, object_admin_relocate, object_migrate_in,
  object_migrate_out,
}
use gomud.Store.Header.{EventHeader, DomainEvent, header_from_domain_event, new_event}
use gomud.Store.Structs.{
  Stored, event_type, stored_type, payload_from_domain, from_domain, to_domain, header_of,
  set_header,
}
use gomud.Store.Actors.{
  actor_move_from_domain, actor_move_to_domain, actor_admin_relocate_from_domain,
  actor_admin_relocate_to_domain, actor_add_to_zone_from_domain, actor_add_to_zone_to_domain,
  actor_remove_from_zone_from_domain, actor_remove_from_zone_to_domain, actor_death_from_domain,
  actor_death_to_domain, actor_migrate_in_from_domain, actor_migrate_in_to_domain,
  actor_migrate_out_from_domain, actor_migrate_out_to_domain, actor_speak_from_domain,
  actor_speak_to_domain,
}
use gomud.Store.Locations.{
  location_add_to_zone_from_domain, location_add_to_zone_to_domain,
  location_remove_from_zone_from_domain, location_remove_from_zone_to_domain,
  location_update_from_domain, location_update_to_domain, zone_set_default_location_from_domain,
  zone_set_default_location_to_domain,
}
use gomud.Store.Exits.{
  exit_add_to_zone_from_domain, exit_add_to_zone_to_domain, exit_update_from_domain,
  exit_update_to_domain, exit_remove_from_zone_from_domain, exit_remove_from_zone_to_domain,
}
use gomud.Store.Objects.{
  object_add_to_zone_from_domain, object_add_to_zone_to_domain, object_remove_from_zone_from_domain,
  object_remove_from_zone_to_domain, object_move_from_domain, object_move_to_domain,
  object_move_subcontainer_from_domain, object_move_subcontainer_to_domain,
  object_admin_relocate_from_domain, object_admin_relocate_to_domain, object_migrate_in_from_domain,
  object_migrate_in_to_domain, object_migrate_out_from_domain, object_migrate_out_to_domain,
}
use gomud.Store.Combat.{combat_melee_damage_from_domain, combat_melee_damage_to_domain}

-- What the store keeps of an event: the damage of a melee loses the names of the fighters, and its
-- focus damage becomes the stamina damage.
abbrev pub recalled : Payload → Payload
recalled (combat_melee_damage e) =
    combat_melee_damage
      (record e { attacker_name = ""; target_name = ""; focus_dmg = e.stamina_dmg })
recalled p = p

abbrev pub recalled_event : DomainEvent → DomainEvent
recalled_event e = record e { payload = recalled e.payload; version = 1 }

-- The struct that is written for a payload has its type and the given header, and with another
-- header it becomes the event of that header.
pub record IsStoredAs (h : EventHeader) (p : Payload) (r : Stored) : Type 0 where
  pub typed : stored_type r ≡ event_type p
  pub listed : ltb (event_type p) 23 ≡ true
  pub headed : header_of r ≡ h
  pub returned : (g : EventHeader) → to_domain (set_header g r) ≡ new_event g (recalled p)
  pub reset : (f g : EventHeader) → set_header g (set_header f r) ≡ set_header g r

some_inside : {A : Type 0} {x y : A} → some x ≡ some y → x ≡ y
some_inside h = cc

payload_IsStoredAs :
    (h : EventHeader) (p : Payload) {r : Stored}
    → payload_from_domain h p ≡ some r
    → IsStoredAs h p r
unfolding payload_from_domain stored_type event_type header_of to_domain set_header new_event
    actor_move_from_domain actor_admin_relocate_from_domain actor_add_to_zone_from_domain
    actor_remove_from_zone_from_domain actor_death_from_domain actor_migrate_in_from_domain
    actor_migrate_out_from_domain actor_speak_from_domain location_add_to_zone_from_domain
    location_remove_from_zone_from_domain location_update_from_domain
    zone_set_default_location_from_domain exit_add_to_zone_from_domain exit_update_from_domain
    exit_remove_from_zone_from_domain object_add_to_zone_from_domain
    object_remove_from_zone_from_domain object_move_from_domain object_move_subcontainer_from_domain
    object_admin_relocate_from_domain object_migrate_in_from_domain object_migrate_out_from_domain
    combat_melee_damage_from_domain actor_move_to_domain actor_admin_relocate_to_domain
    actor_add_to_zone_to_domain actor_remove_from_zone_to_domain actor_death_to_domain
    actor_migrate_in_to_domain actor_migrate_out_to_domain actor_speak_to_domain
    location_add_to_zone_to_domain location_remove_from_zone_to_domain location_update_to_domain
    zone_set_default_location_to_domain exit_add_to_zone_to_domain exit_update_to_domain
    exit_remove_from_zone_to_domain object_add_to_zone_to_domain object_remove_from_zone_to_domain
    object_move_to_domain object_move_subcontainer_to_domain object_admin_relocate_to_domain
    object_migrate_in_to_domain object_migrate_out_to_domain combat_melee_damage_to_domain
payload_IsStoredAs h (actor_move e) q =
    subst (IsStoredAs h (actor_move e)) (some_inside q) (record {
      typed = refl;
      listed = refl;
      headed = refl;
      returned = λ g. refl;
      reset = λ f g. refl;
    })
payload_IsStoredAs h (actor_admin_relocate e) q =
    subst (IsStoredAs h (actor_admin_relocate e)) (some_inside q) (record {
      typed = refl;
      listed = refl;
      headed = refl;
      returned = λ g. refl;
      reset = λ f g. refl;
    })
payload_IsStoredAs h (actor_add_to_zone e) q =
    subst (IsStoredAs h (actor_add_to_zone e)) (some_inside q) (record {
      typed = refl;
      listed = refl;
      headed = refl;
      returned = λ g. refl;
      reset = λ f g. refl;
    })
payload_IsStoredAs h (actor_remove_from_zone e) q =
    subst (IsStoredAs h (actor_remove_from_zone e)) (some_inside q) (record {
      typed = refl;
      listed = refl;
      headed = refl;
      returned = λ g. refl;
      reset = λ f g. refl;
    })
payload_IsStoredAs h (actor_death e) q =
    subst (IsStoredAs h (actor_death e)) (some_inside q) (record {
      typed = refl;
      listed = refl;
      headed = refl;
      returned = λ g. refl;
      reset = λ f g. refl;
    })
payload_IsStoredAs h (actor_migrate_in e) q =
    subst (IsStoredAs h (actor_migrate_in e)) (some_inside q) (record {
      typed = refl;
      listed = refl;
      headed = refl;
      returned = λ g. refl;
      reset = λ f g. refl;
    })
payload_IsStoredAs h (actor_migrate_out e) q =
    subst (IsStoredAs h (actor_migrate_out e)) (some_inside q) (record {
      typed = refl;
      listed = refl;
      headed = refl;
      returned = λ g. refl;
      reset = λ f g. refl;
    })
payload_IsStoredAs h (actor_speak e) q =
    subst (IsStoredAs h (actor_speak e)) (some_inside q) (record {
      typed = refl;
      listed = refl;
      headed = refl;
      returned = λ g. refl;
      reset = λ f g. refl;
    })
payload_IsStoredAs h (location_add_to_zone e) q =
    subst (IsStoredAs h (location_add_to_zone e)) (some_inside q) (record {
      typed = refl;
      listed = refl;
      headed = refl;
      returned = λ g. refl;
      reset = λ f g. refl;
    })
payload_IsStoredAs h (location_remove_from_zone e) q =
    subst (IsStoredAs h (location_remove_from_zone e)) (some_inside q) (record {
      typed = refl;
      listed = refl;
      headed = refl;
      returned = λ g. refl;
      reset = λ f g. refl;
    })
payload_IsStoredAs h (location_update e) q =
    subst (IsStoredAs h (location_update e)) (some_inside q) (record {
      typed = refl;
      listed = refl;
      headed = refl;
      returned = λ g. refl;
      reset = λ f g. refl;
    })
payload_IsStoredAs h (zone_set_default_location e) q =
    subst (IsStoredAs h (zone_set_default_location e)) (some_inside q) (record {
      typed = refl;
      listed = refl;
      headed = refl;
      returned = λ g. refl;
      reset = λ f g. refl;
    })
payload_IsStoredAs h (exit_add_to_zone e) q =
    subst (IsStoredAs h (exit_add_to_zone e)) (some_inside q) (record {
      typed = refl;
      listed = refl;
      headed = refl;
      returned = λ g. refl;
      reset = λ f g. refl;
    })
payload_IsStoredAs h (exit_update e) q =
    subst (IsStoredAs h (exit_update e)) (some_inside q) (record {
      typed = refl;
      listed = refl;
      headed = refl;
      returned = λ g. refl;
      reset = λ f g. refl;
    })
payload_IsStoredAs h (exit_remove_from_zone e) q =
    subst (IsStoredAs h (exit_remove_from_zone e)) (some_inside q) (record {
      typed = refl;
      listed = refl;
      headed = refl;
      returned = λ g. refl;
      reset = λ f g. refl;
    })
payload_IsStoredAs h (object_add_to_zone e) q =
    subst (IsStoredAs h (object_add_to_zone e)) (some_inside q) (record {
      typed = refl;
      listed = refl;
      headed = refl;
      returned = λ g. refl;
      reset = λ f g. refl;
    })
payload_IsStoredAs h (object_remove_from_zone name id) q =
    subst (IsStoredAs h (object_remove_from_zone name id)) (some_inside q) (record {
      typed = refl;
      listed = refl;
      headed = refl;
      returned = λ g. refl;
      reset = λ f g. refl;
    })
payload_IsStoredAs h (object_move e) q =
    subst (IsStoredAs h (object_move e)) (some_inside q) (record {
      typed = refl;
      listed = refl;
      headed = refl;
      returned = λ g. refl;
      reset = λ f g. refl;
    })
payload_IsStoredAs h (object_move_subcontainer e) q =
    subst (IsStoredAs h (object_move_subcontainer e)) (some_inside q) (record {
      typed = refl;
      listed = refl;
      headed = refl;
      returned = λ g. refl;
      reset = λ f g. refl;
    })
payload_IsStoredAs h (object_admin_relocate e) q =
    subst (IsStoredAs h (object_admin_relocate e)) (some_inside q) (record {
      typed = refl;
      listed = refl;
      headed = refl;
      returned = λ g. refl;
      reset = λ f g. refl;
    })
payload_IsStoredAs h (object_migrate_in e) q =
    subst (IsStoredAs h (object_migrate_in e)) (some_inside q) (record {
      typed = refl;
      listed = refl;
      headed = refl;
      returned = λ g. refl;
      reset = λ f g. refl;
    })
payload_IsStoredAs h (object_migrate_out name id to) q =
    subst (IsStoredAs h (object_migrate_out name id to)) (some_inside q) (record {
      typed = refl;
      listed = refl;
      headed = refl;
      returned = λ g. refl;
      reset = λ f g. refl;
    })
payload_IsStoredAs h (combat_melee_damage e) q =
    subst (IsStoredAs h (combat_melee_damage e)) (some_inside q) (record {
      typed = refl;
      listed = refl;
      headed = refl;
      returned = λ g. refl;
      reset = λ f g. refl;
    })
payload_IsStoredAs h (combat_dodge e) q = cc

-- The struct that FromDomain makes of an event has the event's type and header, and with another
-- header ToDomain makes of it the event of that header; a melee's damage loses the names, and its
-- focus damage becomes the stamina damage.
pub from_domain-IsStoredAs :
    (e : DomainEvent) {r : Stored}
    → from_domain e ≡ some r
    → IsStoredAs (header_from_domain_event (event_type e.payload) e) e.payload r
unfolding from_domain
from_domain-IsStoredAs e q =
    payload_IsStoredAs (header_from_domain_event (event_type e.payload) e) e.payload q
