-- ===== src/Core/Places/Commands/Handlers.antt =====
-- The other handlers of core/zone.go, one after the other.
use gomud.Base.{List, [], ◌∷◌, ◌++◌, String, refl}
use gomud.Core.Data.{Ref, Uuid, Container, Exit}
use gomud.Core.Monad.{Outcome}
use gomud.Core.Body.{Body}
use gomud.Core.Event.{
  ActorAddToZone, ActorAdminRelocate, LocationText, ExitText, ObjectAddToZone, ObjectAdminRelocate,
  ActorMigrateOut, actor_migrate_out,
}
use gomud.Core.Command.{MigrateCommand, ObjectMoveCommand, ObjectMoveSubcontainerCommand}
use gomud.Core.Zone.{State}
use gomud.Core.Process.Actors.{
  process_actor_add, process_actor_admin_relocate, process_actor_remove, process_actor_speak,
  process_actor_migrate_out, migrate_out_payloads,
}
use gomud.Core.Process.Locations.{
  process_location_add, process_location_update, process_location_remove, process_exit_add,
  process_exit_update, process_exit_remove, process_set_default_location, check_prior, drop_exit,
  rehome_actor, rehome_object,
}
use gomud.Core.Process.Objects.{
  process_object_add, process_object_move, process_object_move_subcontainer,
  process_object_admin_relocate, process_object_remove,
}
use gomud.Core.Places.{IsPlaced}
use gomud.Core.Places.Commands.{
  Placed, returned, failed, panicked, AllStill, and_then-Placed, some_or-Placed, deref-Placed,
  guard-Placed, submit-Placed, submit_all-Placed, for_each-Placed,
}
use gomud.Core.Process.Log.{Checks, passed, refused, crashed, container_check_move-Checks}

ruleset placing = (
  and_then-Placed, some_or-Placed, deref-Placed, guard-Placed, submit-Placed, submit_all-Placed,
  returned,
)

pub actor_add-Placed :
    (e : ActorAddToZone) (s : State) → IsPlaced s.body → Placed (process_actor_add e s)
unfolding process_actor_add
actor_add-Placed e s v = search placing depth 12

pub actor_admin_relocate-Placed :
    (e : ActorAdminRelocate) (s : State)
    → IsPlaced s.body
    → Placed (process_actor_admin_relocate e s)
unfolding process_actor_admin_relocate
actor_admin_relocate-Placed e s v = search placing depth 12

check_prior-Placed : (x : Exit) (s : State) → IsPlaced s.body → Placed (check_prior x s)
unfolding check_prior
check_prior-Placed x s v = search placing depth 12

pub exit_update-Placed :
    (e : ExitText) (s : State) → IsPlaced s.body → Placed (process_exit_update e s)
unfolding process_exit_update
exit_update-Placed e s v = search (placing, check_prior-Placed) depth 16

pub object_add-Placed :
    (e : ObjectAddToZone) (s : State) → IsPlaced s.body → Placed (process_object_add e s)
unfolding process_object_add
object_add-Placed e s v = search placing depth 12

pub object_move-Placed :
    (e : ObjectMoveCommand) (s : State) → IsPlaced s.body → Placed (process_object_move e s)
unfolding process_object_move
object_move-Placed e s v = search placing depth 24

pub actor_remove-Placed :
    (id : Uuid) (s : State) → IsPlaced s.body → Placed (process_actor_remove id s)
unfolding process_actor_remove
actor_remove-Placed id s v = search placing depth 12

pub actor_speak-Placed :
    (a : Ref) (speech : String) (s : State)
    → IsPlaced s.body
    → Placed (process_actor_speak a speech s)
unfolding process_actor_speak
actor_speak-Placed a speech s v = search placing depth 12

pub location_add-Placed :
    (e : LocationText) (s : State) → IsPlaced s.body → Placed (process_location_add e s)
unfolding process_location_add
location_add-Placed e s v = search placing depth 12

pub location_update-Placed :
    (e : LocationText) (s : State) → IsPlaced s.body → Placed (process_location_update e s)
unfolding process_location_update
location_update-Placed e s v = search placing depth 12

pub exit_add-Placed : (e : ExitText) (s : State) → IsPlaced s.body → Placed (process_exit_add e s)
unfolding process_exit_add
exit_add-Placed e s v = search placing depth 12

pub exit_remove-Placed :
    (id : Uuid) (s : State) → IsPlaced s.body → Placed (process_exit_remove id s)
unfolding process_exit_remove
exit_remove-Placed id s v = search placing depth 12

pub set_default-Placed :
    (id : Uuid) (s : State) → IsPlaced s.body → Placed (process_set_default_location id s)
unfolding process_set_default_location
set_default-Placed id s v = search placing depth 12

pub object_admin_relocate-Placed :
    (e : ObjectAdminRelocate) (s : State)
    → IsPlaced s.body
    → Placed (process_object_admin_relocate e s)
unfolding process_object_admin_relocate
object_admin_relocate-Placed e s v = search placing depth 12

pub object_remove-Placed :
    (name : String) (id : Uuid) (s : State)
    → IsPlaced s.body
    → Placed (process_object_remove name id s)
unfolding process_object_remove
object_remove-Placed name id s v = search placing depth 12

Checks-Placed : (s : State) {o : Outcome State (Unit {0})} → IsPlaced s.body → Checks s o → Placed o
Checks-Placed s v passed = returned tt s v
Checks-Placed s v (refused e) = failed e s v
Checks-Placed s v crashed = panicked

pub object_move_subcontainer-Placed :
    (e : ObjectMoveSubcontainerCommand) (s : State)
    → IsPlaced s.body
    → Placed (process_object_move_subcontainer e s)
unfolding process_object_move_subcontainer
object_move_subcontainer-Placed e s v =
    search (placing, Checks-Placed, container_check_move-Checks) depth 16

drop_exit-Placed : (x : Ref) (s : State) → IsPlaced s.body → Placed (drop_exit x s)
drop_exit-Placed x s v = exit_remove-Placed _ s v

rehome_actor-Placed : (a : Ref) (s : State) → IsPlaced s.body → Placed (rehome_actor a s)
rehome_actor-Placed a s v = search (placing, actor_admin_relocate-Placed) depth 12

rehome_object-Placed : (o : Ref) (s : State) → IsPlaced s.body → Placed (rehome_object o s)
rehome_object-Placed o s v = search (placing, object_admin_relocate-Placed) depth 12

pub location_remove-Placed :
    (id : Uuid) (s : State) → IsPlaced s.body → Placed (process_location_remove id s)
unfolding process_location_remove
location_remove-Placed id s v =
    search (placing, for_each-Placed, drop_exit-Placed, rehome_actor-Placed, rehome_object-Placed)
      depth 20

outs_still :
    (b : Body) (zone : Uuid) (e : ActorMigrateOut) (ts : List (Ref × Container))
    → AllStill (migrate_out_payloads b zone ts ++ actor_migrate_out e ∷ [])
outs_still b zone e [] = (refl, tt)
outs_still b zone e ((o, c) ∷ ts) = (refl, outs_still b zone e ts)

pub actor_migrate_out-Placed :
    (c : MigrateCommand) (s : State) → IsPlaced s.body → Placed (process_actor_migrate_out c s)
unfolding process_actor_migrate_out
actor_migrate_out-Placed c s v = search (placing, outs_still) depth 16
