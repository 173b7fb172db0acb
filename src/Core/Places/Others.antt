-- ===== src/Core/Places/Others.antt =====
-- The appliers that move no actor.
use gomud.Base.{arith}
use gomud.Core.Data.{Uuid}
use gomud.Core.Monad.{Outcome, returns, fails, panics}
use gomud.Core.Body.{Body, location_remove_exit, location_add_out_exit}
use gomud.Core.Container.{container_add, container_remove, container_move}
use gomud.Core.Event.{
  LocationText, ExitText, ObjectAddToZone, ObjectMove, ObjectMoveSubcontainer, ObjectAdminRelocate,
  ObjectMigrateIn, ActorDeath, ActorSpeak, CombatMeleeDamage, CombatDodge,
}
use gomud.Core.Apply.Actors.{
  apply_actor_death, apply_actor_speak, apply_combat_dodge, apply_combat_melee_damage,
}
use gomud.Core.Apply.Locations.{
  apply_location_update, apply_exit_add, apply_exit_update, apply_exit_remove,
}
use gomud.Core.Apply.Objects.{
  apply_object_add, apply_object_move, apply_object_move_subcontainer, apply_object_admin_relocate,
  apply_object_remove, apply_object_migrate_in, apply_object_migrate_out,
}
use gomud.Core.Places.Steps.{SamePlaces}

-- The memory after a function that began with it: also after an error, and as it was if the
-- function panics.
abbrev pub memory_after : {A : Type 0} → Body → Outcome Body A → Body
memory_after b (returns a c) = c
memory_after b (fails e c) = c
memory_after b panics = b

pub object_add-SamePlaces :
    (e : ObjectAddToZone) (b : Body) → SamePlaces b (memory_after b (apply_object_add e b))
unfolding apply_object_add container_add
object_add-SamePlaces e b = ground arith

pub exit_add-SamePlaces :
    (e : ExitText) (b : Body) → SamePlaces b (memory_after b (apply_exit_add e b))
unfolding apply_exit_add location_add_out_exit
exit_add-SamePlaces e b = ground arith

pub object_move-SamePlaces :
    (e : ObjectMove) (b : Body) → SamePlaces b (memory_after b (apply_object_move e b))
unfolding apply_object_move container_add container_remove
object_move-SamePlaces e b = ground arith

pub object_move_subcontainer-SamePlaces :
    (e : ObjectMoveSubcontainer) (b : Body)
    → SamePlaces b (memory_after b (apply_object_move_subcontainer e b))
unfolding apply_object_move_subcontainer container_move
object_move_subcontainer-SamePlaces e b = ground arith

pub object_admin_relocate-SamePlaces :
    (e : ObjectAdminRelocate) (b : Body)
    → SamePlaces b (memory_after b (apply_object_admin_relocate e b))
unfolding apply_object_admin_relocate container_add container_remove
object_admin_relocate-SamePlaces e b = ground arith

pub object_remove-SamePlaces :
    (e : Uuid) (b : Body) → SamePlaces b (memory_after b (apply_object_remove e b))
unfolding apply_object_remove container_remove
object_remove-SamePlaces e b = ground arith

pub object_migrate_in-SamePlaces :
    (e : ObjectMigrateIn) (b : Body) → SamePlaces b (memory_after b (apply_object_migrate_in e b))
unfolding apply_object_migrate_in container_add
object_migrate_in-SamePlaces e b = ground arith

pub object_migrate_out-SamePlaces :
    (e : Uuid) (b : Body) → SamePlaces b (memory_after b (apply_object_migrate_out e b))
unfolding apply_object_migrate_out container_remove
object_migrate_out-SamePlaces e b = ground arith

pub exit_update-SamePlaces :
    (e : ExitText) (b : Body) → SamePlaces b (memory_after b (apply_exit_update e b))
unfolding apply_exit_update location_add_out_exit location_remove_exit
exit_update-SamePlaces e b = ground arith

pub exit_remove-SamePlaces :
    (e : Uuid) (b : Body) → SamePlaces b (memory_after b (apply_exit_remove e b))
unfolding apply_exit_remove location_remove_exit
exit_remove-SamePlaces e b = ground arith

pub location_update-SamePlaces :
    (e : LocationText) (b : Body) → SamePlaces b (memory_after b (apply_location_update e b))
unfolding apply_location_update
location_update-SamePlaces e b = ground arith

pub actor_death-SamePlaces :
    (e : ActorDeath) (b : Body) → SamePlaces b (memory_after b (apply_actor_death e b))
unfolding apply_actor_death
actor_death-SamePlaces e b = ground arith

pub actor_speak-SamePlaces :
    (e : ActorSpeak) (b : Body) → SamePlaces b (memory_after b (apply_actor_speak e b))
unfolding apply_actor_speak
actor_speak-SamePlaces e b = ground arith

pub combat_dodge-SamePlaces :
    (e : CombatDodge) (b : Body) → SamePlaces b (memory_after b (apply_combat_dodge e b))
unfolding apply_combat_dodge
combat_dodge-SamePlaces e b = ground arith

pub combat_melee_damage-SamePlaces :
    (e : CombatMeleeDamage) (b : Body)
    → SamePlaces b (memory_after b (apply_combat_melee_damage e b))
unfolding apply_combat_melee_damage
combat_melee_damage-SamePlaces e b = ground arith
