-- ===== src/Core/Process/Dispatch.antt =====
-- The switch of processCommand in core/zone.go.
use gomud.Base.{List}
use gomud.Core.Monad.{M}
use gomud.Core.Zone.{State, persisting}
use gomud.Core.Apply.{Value}
use gomud.Core.Event.{Event}
use gomud.Core.Command.{
  Command, actor_add_command, actor_move_command, actor_admin_relocate_command,
  actor_remove_command, actor_death_command, actor_migrate_in_command, actor_migrate_out_command,
  actor_speak_command, location_add_command, location_update_command, location_remove_command,
  exit_add_command, exit_update_command, exit_remove_command, object_add_command,
  object_move_command, object_move_subcontainer_command, object_admin_relocate_command,
  object_remove_command, set_default_location_command, combat_melee_command,
}
use gomud.Core.Process.Actors.{
  process_actor_add, process_actor_move, process_actor_admin_relocate, process_actor_remove,
  process_actor_speak, process_actor_migrate_in, process_actor_migrate_out,
}
use gomud.Core.Process.Locations.{
  process_location_add, process_location_update, process_location_remove, process_exit_add,
  process_exit_update, process_exit_remove, process_set_default_location,
}
use gomud.Core.Process.Objects.{
  process_object_add, process_object_move, process_object_move_subcontainer,
  process_object_admin_relocate, process_object_remove,
}
use gomud.Core.Process.Deaths.{process_actor_death, process_combat_melee}

-- The handler of each command.
unfoldable pub handle : Command → M State (Value × List Event)
handle (actor_add_command c) = process_actor_add c
handle (actor_move_command c) = process_actor_move c
handle (actor_admin_relocate_command c) = process_actor_admin_relocate c
handle (actor_remove_command c) = process_actor_remove c
handle (actor_death_command c) = process_actor_death c
handle (actor_migrate_in_command c os) = process_actor_migrate_in c os
handle (actor_migrate_out_command c) = process_actor_migrate_out c
handle (actor_speak_command a speech) = process_actor_speak a speech
handle (location_add_command c) = process_location_add c
handle (location_update_command c) = process_location_update c
handle (location_remove_command c) = process_location_remove c
handle (exit_add_command c) = process_exit_add c
handle (exit_update_command c) = process_exit_update c
handle (exit_remove_command c) = process_exit_remove c
handle (object_add_command c) = process_object_add c
handle (object_move_command c) = process_object_move c
handle (object_move_subcontainer_command c) = process_object_move_subcontainer c
handle (object_admin_relocate_command c) = process_object_admin_relocate c
handle (object_remove_command name id) = process_object_remove name id
handle (set_default_location_command c) = process_set_default_location c
handle (combat_melee_command c) = process_combat_melee c

unfoldable pub process_command : Command → M State Value
unfolding handle
process_command c = persisting (handle c)
