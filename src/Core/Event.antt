-- ===== src/Core/Event.antt =====
-- core/event.go and the event structs beside it. Of the header the zone reads the sequence number
-- and the flag that exempts a dodge from being persisted; the time, the version and the
-- aggregate's identifier only travel to the store.
use gomud.Base.{ℕ, Bool, true, false, List, String, ℤ}
use gomud.Core.Data.{Uuid, AttributeSet, ActorInventoryConstraints}

pub record ActorMove : Type 0 where
  pub from_location_id : Uuid
  pub to_location_id : Uuid
  pub actor_id : Uuid

pub record ActorAdminRelocate : Type 0 where
  pub actor_id : Uuid
  pub to_location_id : Uuid

pub record ActorAddToZone : Type 0 where
  pub actor_id : Uuid
  pub name : String
  pub brain_type : String
  pub starting_location_id : Uuid
  pub attributes : AttributeSet
  pub inventory_constraints : ActorInventoryConstraints

pub record ActorMigrateIn : Type 0 where
  pub actor_id : Uuid
  pub name : String
  pub brain_type : String
  pub from_loc_id : Uuid
  pub from_zone_id : Uuid
  pub to_loc_id : Uuid
  pub attributes : AttributeSet
  pub inventory_constraints : ActorInventoryConstraints

pub record ActorMigrateOut : Type 0 where
  pub actor_id : Uuid
  pub from_loc_id : Uuid
  pub to_loc_id : Uuid
  pub to_zone_id : Uuid

pub record ActorSpeak : Type 0 where
  pub actor_name : String
  pub actor_id : Uuid
  pub speech : String

pub record ActorDeath : Type 0 where
  pub actor_name : String
  pub actor_id : Uuid

-- LocationAddToZoneEvent and LocationUpdateEvent have the same fields.
pub record LocationText : Type 0 where
  pub location_id : Uuid
  pub short_desc : String
  pub desc : String

-- ExitAddToZoneEvent and ExitUpdateEvent have the same fields.
pub record ExitText : Type 0 where
  pub exit_id : Uuid
  pub description : String
  pub direction : String
  pub source_location_id : Uuid
  pub dest_zone_id : Uuid
  pub dest_location_id : Uuid

-- The three identifiers of which an event sets one, by the type of the container.
pub record ContainerIds : Type 0 where
  pub location_id : Uuid
  pub actor_id : Uuid
  pub object_id : Uuid

pub record ObjectAddToZone : Type 0 where
  pub object_id : Uuid
  pub name : String
  pub description : String
  pub keywords : List String
  pub container_ids : ContainerIds
  pub subcontainer : String
  pub capacity : ℕ

pub record ObjectMigrateIn : Type 0 where
  pub object_id : Uuid
  pub name : String
  pub description : String
  pub keywords : List String
  pub from_zone_id : Uuid
  pub container_ids : ContainerIds
  pub subcontainer : String
  pub capacity : ℕ

pub record ObjectMove : Type 0 where
  pub object_id : Uuid
  pub actor_id : Uuid
  pub from_ids : ContainerIds
  pub to_ids : ContainerIds
  pub to_subcontainer : String

pub record ObjectMoveSubcontainer : Type 0 where
  pub object_id : Uuid
  pub from_subcontainer : String
  pub to_subcontainer : String
  pub actor_id : Uuid

pub record ObjectAdminRelocate : Type 0 where
  pub object_id : Uuid
  pub to_ids : ContainerIds
  pub to_subcontainer : String

pub record CombatMeleeDamage : Type 0 where
  pub damage_type : String
  pub attacker_id : Uuid
  pub target_id : Uuid
  pub attacker_name : String
  pub target_name : String
  pub physical_dmg : ℤ
  pub stamina_dmg : ℤ
  pub focus_dmg : ℤ

pub record CombatDodge : Type 0 where
  pub damage_type : String
  pub attacker_name : String
  pub target_name : String
  pub attacker_id : Uuid
  pub target_id : Uuid

-- One constructor for each EventType constant.
pub data Payload : Type 0 where
  actor_move : ActorMove → Payload
  actor_admin_relocate : ActorAdminRelocate → Payload
  actor_add_to_zone : ActorAddToZone → Payload
  actor_remove_from_zone : Uuid → Payload
  actor_death : ActorDeath → Payload
  actor_migrate_in : ActorMigrateIn → Payload
  actor_migrate_out : ActorMigrateOut → Payload
  actor_speak : ActorSpeak → Payload
  location_add_to_zone : LocationText → Payload
  location_remove_from_zone : Uuid → Payload
  location_update : LocationText → Payload
  exit_add_to_zone : ExitText → Payload
  exit_update : ExitText → Payload
  exit_remove_from_zone : Uuid → Payload
  object_add_to_zone : ObjectAddToZone → Payload
  object_remove_from_zone : String → Uuid → Payload
  object_move : ObjectMove → Payload
  object_move_subcontainer : ObjectMoveSubcontainer → Payload
  object_admin_relocate : ObjectAdminRelocate → Payload
  object_migrate_in : ObjectMigrateIn → Payload
  object_migrate_out : String → Uuid → Uuid → Payload
  zone_set_default_location : Uuid → Payload
  combat_melee_damage : CombatMeleeDamage → Payload
  combat_dodge : CombatDodge → Payload

pub record Event : Type 0 where
  pub sequence_num : ℕ
  pub payload : Payload

abbrev pub payload_should_persist : Payload → Bool
payload_should_persist (combat_dodge e) = false
payload_should_persist _ = true

abbrev pub should_persist : Event → Bool
should_persist e = payload_should_persist e.payload
