-- ===== src/Core/Apply.antt =====
-- Event application of core/zone.go: the functions that carry out one event on the zone's memory
-- and name the observers to be told, and the switch over the event types.
pub mod Actors
pub mod Locations
pub mod Objects
pub mod ExitTargets
pub mod NilContainers
use gomud.Base.{ℕ, List, [], Option, none, some}
use gomud.Core.Data.{Ref}
use gomud.Core.Monad.{Outcome, returns, fails, panics, M, ◌>>=◌, ◌>>◌, and_then, pure}
use gomud.Core.Body.{Body}
use gomud.Core.Event.{
  Payload, actor_move, actor_admin_relocate, actor_add_to_zone, actor_remove_from_zone, actor_death,
  actor_migrate_in, actor_migrate_out, actor_speak, location_add_to_zone, location_remove_from_zone,
  location_update, exit_add_to_zone, exit_update, exit_remove_from_zone, object_add_to_zone,
  object_remove_from_zone, object_move, object_move_subcontainer, object_admin_relocate,
  object_migrate_in, object_migrate_out, zone_set_default_location, combat_melee_damage,
  combat_dodge,
}
use Actors.{
  apply_actor_add, apply_actor_move, apply_actor_admin_relocate, apply_actor_remove,
  apply_actor_migrate_in, apply_actor_migrate_out, apply_actor_death, apply_actor_speak,
  apply_combat_dodge, apply_combat_melee_damage,
}
use Locations.{
  apply_location_add, apply_location_update, apply_location_remove, apply_exit_add,
  apply_exit_update, apply_exit_remove, apply_set_default_location,
}
use Objects.{
  apply_object_add, apply_object_move, apply_object_move_subcontainer, apply_object_admin_relocate,
  apply_object_remove, apply_object_migrate_in, apply_object_migrate_out,
}

-- What an event creates: `out` of applyEvent, nil or a pointer.
pub data Value : Type 0 where
  nothing : Value
  actor_value location_value exit_value object_value : Ref → Value

abbrev pub told : M Body (List Ref) → M Body (Value × List Ref)
told m b = and_then (m b) (λ l c. returns (nothing, l) c)

abbrev pub quiet : M Body (Unit {0}) → M Body (Value × List Ref)
quiet m b = and_then (m b) (λ _ c. returns (nothing, []) c)

abbrev pub made : (Ref → Value) → M Body (Ref × List Ref) → M Body (Value × List Ref)
made v m b = and_then (m b) (λ r c. returns (v r.0, r.1) c)

abbrev pub made_quietly : (Ref → Value) → M Body Ref → M Body (Value × List Ref)
made_quietly v m b = and_then (m b) (λ r c. returns (v r, []) c)

-- The switch of applyEvent.
unfoldable pub apply_payload : Payload → M Body (Value × List Ref)
apply_payload (actor_move e) = told (apply_actor_move e)
apply_payload (actor_admin_relocate e) = told (apply_actor_admin_relocate e)
apply_payload (actor_add_to_zone e) = made actor_value (apply_actor_add e)
apply_payload (actor_remove_from_zone e) = told (apply_actor_remove e)
apply_payload (actor_death e) = told (apply_actor_death e)
apply_payload (actor_migrate_in e) = made actor_value (apply_actor_migrate_in e)
apply_payload (actor_migrate_out e) = told (apply_actor_migrate_out e)
apply_payload (actor_speak e) = told (apply_actor_speak e)
apply_payload (location_add_to_zone e) = made_quietly location_value (apply_location_add e)
apply_payload (location_remove_from_zone e) = quiet (apply_location_remove e)
apply_payload (location_update e) = quiet (apply_location_update e)
apply_payload (exit_add_to_zone e) = made_quietly exit_value (apply_exit_add e)
apply_payload (exit_update e) = quiet (apply_exit_update e)
apply_payload (exit_remove_from_zone e) = quiet (apply_exit_remove e)
apply_payload (object_add_to_zone e) = made object_value (apply_object_add e)
apply_payload (object_remove_from_zone name id) = told (apply_object_remove id)
apply_payload (object_move e) = told (apply_object_move e)
apply_payload (object_move_subcontainer e) = told (apply_object_move_subcontainer e)
apply_payload (object_admin_relocate e) = told (apply_object_admin_relocate e)
apply_payload (object_migrate_in e) = quiet (apply_object_migrate_in e)
apply_payload (object_migrate_out name id zone) = quiet (apply_object_migrate_out id)
apply_payload (zone_set_default_location e) = quiet (apply_set_default_location e)
apply_payload (combat_melee_damage e) = told (apply_combat_melee_damage e)
apply_payload (combat_dodge e) = told (apply_combat_dodge e)
