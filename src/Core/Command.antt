-- ===== src/Core/Command.antt =====
-- core/command.go and the command structs beside the events. A command that wraps an event is that
-- event's payload: its header is filled in by the handler.
use gomud.Base.{List, String, Option, ℤ}
use gomud.Core.Data.{Ref, Uuid, Container}
use gomud.Core.Event.{
  ActorMove, ActorAdminRelocate, ActorAddToZone, LocationText, ExitText, ObjectAddToZone,
  ObjectAdminRelocate,
}

-- The outcome of the dice of doSlash and doBite, computed there in floating point: the target
-- dodges, or takes physical, stamina and focus damage.
pub data Roll : Type 0 where
  dodged : Roll
  hit : ℤ → ℤ → ℤ → Roll

pub record ObjectMoveCommand : Type 0 where
  pub obj : Ref
  pub actor : Option Ref
  pub from_container : Container
  pub to_container : Container

pub record ObjectMoveSubcontainerCommand : Type 0 where
  pub obj : Ref
  pub from_subcontainer : String
  pub to_subcontainer : String
  pub actor : Ref

pub record MigrateCommand : Type 0 where
  pub actor : Ref
  pub from : Ref
  pub to : Ref

pub record CombatMeleeCommand : Type 0 where
  pub attacker : Ref
  pub target : Ref
  pub damage_type : String
  pub roll : Roll

-- One constructor for each CommandType constant.
pub data Command : Type 0 where
  actor_add_command : ActorAddToZone → Command
  actor_move_command : ActorMove → Command
  actor_admin_relocate_command : ActorAdminRelocate → Command
  actor_remove_command : Uuid → Command
  actor_death_command : Ref → Command
  actor_migrate_in_command : MigrateCommand → List Ref → Command
  actor_migrate_out_command : MigrateCommand → Command
  actor_speak_command : Ref → String → Command
  location_add_command : LocationText → Command
  location_update_command : LocationText → Command
  location_remove_command : Uuid → Command
  exit_add_command : ExitText → Command
  exit_update_command : ExitText → Command
  exit_remove_command : Uuid → Command
  object_add_command : ObjectAddToZone → Command
  object_move_command : ObjectMoveCommand → Command
  object_move_subcontainer_command : ObjectMoveSubcontainerCommand → Command
  object_admin_relocate_command : ObjectAdminRelocate → Command
  object_remove_command : String → Uuid → Command
  set_default_location_command : Uuid → Command
  combat_melee_command : CombatMeleeCommand → Command
