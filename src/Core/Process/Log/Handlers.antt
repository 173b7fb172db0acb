-- ===== src/Core/Process/Log/Handlers.antt =====
-- The handlers of core/zone.go, one after the other.
use gomud.Base.{String, Bool, true, false, List, [], ◌∷◌, ◌++◌, ◌≡◌, refl, All}
use gomud.Core.Data.{Ref, Uuid, Container}
use gomud.Core.Monad.{returns, and_then}
use gomud.Core.Body.{Body}
use gomud.Core.Event.{
  Event, Payload, payload_should_persist, actor_migrate_out, ActorAddToZone, ActorMove,
  ActorAdminRelocate, ActorMigrateOut, LocationText, ExitText, ObjectAddToZone, ObjectAdminRelocate,
}
use gomud.Core.Command.{
  Command, actor_add_command, actor_move_command, actor_admin_relocate_command,
  actor_remove_command, actor_death_command, actor_migrate_in_command, actor_migrate_out_command,
  actor_speak_command, location_add_command, location_update_command, location_remove_command,
  exit_add_command, exit_update_command, exit_remove_command, object_add_command,
  object_move_command, object_move_subcontainer_command, object_admin_relocate_command,
  object_remove_command, set_default_location_command, combat_melee_command, MigrateCommand,
  ObjectMoveCommand, ObjectMoveSubcontainerCommand,
}
use gomud.Core.Apply.{Value, nothing}
use gomud.Core.Zone.{State, submit_all}
use gomud.Core.Process.Actors.{
  process_actor_add, process_actor_move, process_actor_admin_relocate, process_actor_remove,
  process_actor_speak, process_actor_migrate_out, migrate_out_payloads,
}
use gomud.Core.Process.Locations.{
  process_location_add, process_location_update, process_exit_add, process_exit_update,
  process_exit_remove, process_set_default_location,
}
use gomud.Core.Process.Objects.{
  process_object_add, process_object_move, process_object_move_subcontainer,
  process_object_admin_relocate, process_object_remove,
}
use gomud.Core.Process.Dispatch.{handle}
use gomud.Core.Process.Log.{
  Recorded, single-Recorded, guard-Recorded, some_or-Recorded, deref-Recorded, Checks-Recorded,
  check_prior-Checks, container_check_move-Checks, submit_list-Recorded,
}

ruleset recording = (
  guard-Recorded, some_or-Recorded, deref-Recorded, single-Recorded, Checks-Recorded,
  check_prior-Checks, container_check_move-Checks,
)

actor_add-Recorded : (s : State) (c : ActorAddToZone) → Recorded s (process_actor_add c s)
unfolding process_actor_add
actor_add-Recorded s c = search recording

actor_move-Recorded : (s : State) (c : ActorMove) → Recorded s (process_actor_move c s)
unfolding process_actor_move
actor_move-Recorded s c = search recording

actor_admin_relocate-Recorded :
    (s : State) (c : ActorAdminRelocate) → Recorded s (process_actor_admin_relocate c s)
unfolding process_actor_admin_relocate
actor_admin_relocate-Recorded s c = search recording

actor_remove-Recorded : (s : State) (id : Uuid) → Recorded s (process_actor_remove id s)
unfolding process_actor_remove
actor_remove-Recorded s id = search recording

actor_speak-Recorded :
    (s : State) (a : Ref) (speech : String) → Recorded s (process_actor_speak a speech s)
unfolding process_actor_speak
actor_speak-Recorded s a speech = search recording

location_add-Recorded : (s : State) (c : LocationText) → Recorded s (process_location_add c s)
unfolding process_location_add
location_add-Recorded s c = search recording

location_update-Recorded : (s : State) (c : LocationText) → Recorded s (process_location_update c s)
unfolding process_location_update
location_update-Recorded s c = search recording

exit_add-Recorded : (s : State) (c : ExitText) → Recorded s (process_exit_add c s)
unfolding process_exit_add
exit_add-Recorded s c = search recording depth 8

exit_update-Recorded : (s : State) (c : ExitText) → Recorded s (process_exit_update c s)
unfolding process_exit_update
exit_update-Recorded s c = search recording depth 10

exit_remove-Recorded : (s : State) (id : Uuid) → Recorded s (process_exit_remove id s)
unfolding process_exit_remove
exit_remove-Recorded s id = search recording

set_default-Recorded : (s : State) (id : Uuid) → Recorded s (process_set_default_location id s)
unfolding process_set_default_location
set_default-Recorded s id = search recording

object_add-Recorded : (s : State) (c : ObjectAddToZone) → Recorded s (process_object_add c s)
unfolding process_object_add
object_add-Recorded s c = search recording

object_move-Recorded : (s : State) (c : ObjectMoveCommand) → Recorded s (process_object_move c s)
unfolding process_object_move
object_move-Recorded s c = search recording depth 20

object_move_subcontainer-Recorded :
    (s : State) (c : ObjectMoveSubcontainerCommand)
    → Recorded s (process_object_move_subcontainer c s)
unfolding process_object_move_subcontainer
object_move_subcontainer-Recorded s c = search recording depth 10

object_admin_relocate-Recorded :
    (s : State) (c : ObjectAdminRelocate) → Recorded s (process_object_admin_relocate c s)
unfolding process_object_admin_relocate
object_admin_relocate-Recorded s c = search recording

object_remove-Recorded :
    (s : State) (name : String) (id : Uuid) → Recorded s (process_object_remove name id s)
unfolding process_object_remove
object_remove-Recorded s name id = search recording

outs_persist :
    (b : Body) (zone : Uuid) (e : ActorMigrateOut) (ts : List (Ref × Container))
    → All
        (λ p. payload_should_persist p ≡ true)
        (migrate_out_payloads b zone ts ++ actor_migrate_out e ∷ [])
outs_persist b zone e [] = (refl, tt)
outs_persist b zone e ((o, c) ∷ ts) = (refl, outs_persist b zone e ts)

submit_all-Recorded :
    (s : State) (ps : List Payload)
    → All (λ p. payload_should_persist p ≡ true) ps
    → Recorded s
        (and_then {B = Value × List Event} (submit_all ps s) (λ es t. returns (nothing, es) t))
submit_all-Recorded s ps h = submit_list-Recorded s ps h (submit_all ps s) refl

actor_migrate_out-Recorded :
    (s : State) (c : MigrateCommand) → Recorded s (process_actor_migrate_out c s)
unfolding process_actor_migrate_out
actor_migrate_out-Recorded s c = search (deref-Recorded, submit_all-Recorded, outs_persist)

-- The commands whose handlers do nothing beside applying the events that they return.
abbrev pub records_itself : Command → Bool
records_itself (actor_death_command a) = false
records_itself (actor_migrate_in_command c os) = false
records_itself (location_remove_command id) = false
records_itself (combat_melee_command c) = false
records_itself _ = true

pub handle-Recorded : (s : State) (c : Command) → records_itself c ≡ true → Recorded s (handle c s)
unfolding handle
handle-Recorded s (actor_add_command c) h = actor_add-Recorded s c
handle-Recorded s (actor_move_command c) h = actor_move-Recorded s c
handle-Recorded s (actor_admin_relocate_command c) h = actor_admin_relocate-Recorded s c
handle-Recorded s (actor_remove_command id) h = actor_remove-Recorded s id
handle-Recorded s (actor_migrate_out_command c) h = actor_migrate_out-Recorded s c
handle-Recorded s (actor_speak_command a speech) h = actor_speak-Recorded s a speech
handle-Recorded s (location_add_command c) h = location_add-Recorded s c
handle-Recorded s (location_update_command c) h = location_update-Recorded s c
handle-Recorded s (exit_add_command c) h = exit_add-Recorded s c
handle-Recorded s (exit_update_command c) h = exit_update-Recorded s c
handle-Recorded s (exit_remove_command id) h = exit_remove-Recorded s id
handle-Recorded s (object_add_command c) h = object_add-Recorded s c
handle-Recorded s (object_move_command c) h = object_move-Recorded s c
handle-Recorded s (object_move_subcontainer_command c) h = object_move_subcontainer-Recorded s c
handle-Recorded s (object_admin_relocate_command c) h = object_admin_relocate-Recorded s c
handle-Recorded s (object_remove_command name id) h = object_remove-Recorded s name id
handle-Recorded s (set_default_location_command id) h = set_default-Recorded s id
handle-Recorded s (actor_death_command a) h = cc
handle-Recorded s (actor_migrate_in_command c os) h = cc
handle-Recorded s (location_remove_command id) h = cc
handle-Recorded s (combat_melee_command c) h = cc
