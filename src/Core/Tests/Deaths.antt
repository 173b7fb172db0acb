-- ===== src/Core/Tests/Deaths.antt =====
-- Tests of deaths on the farm.
use gomud.Core.Refs.{contains}
use gomud.Core.Apply.Objects.{apply_object_add}
use gomud.Core.Apply.Actors.{apply_actor_death, apply_actor_remove, apply_combat_melee_damage}
use gomud.Core.Inventory.{inventory_objects}
use gomud.Core.Container.{container_add, container_objects, container_observers}
use gomud.Core.Process.Common.{object_container_tuples}
use gomud.Base.{none, List, [], ◌≡◌, refl, pos, lookup, inl, arith}
use gomud.Core.Monad.{Outcome, returns, fails, panics}
use gomud.Core.Event.{Event}
use gomud.Core.Apply.{Value, nothing, apply_payload}
use gomud.Core.Zone.{State, apply_event, submit, submit_all}
use gomud.Core.Command.{CombatMeleeCommand, hit}
use gomud.Core.Process.Deaths.{process_actor_death, process_combat_melee}
use gomud.Core.Process.Blows.{process_combat_melee-spares}
use gomud.Core.Process.Burials.{IsFatal, process_actor_death-removes, process_combat_melee-removes}
use gomud.Core.Tests.{farm_zone}

abbrev outcome_of : Outcome State (Value × List Event) → (Value × List Event) × State
outcome_of (returns r t) = (r, t)
outcome_of (fails e t) = ((nothing, []), t)
outcome_of panics = ((nothing, []), farm_zone)

abbrev burial : (Value × List Event) × State
burial = outcome_of (process_actor_death 4 farm_zone)

farmer_dies : process_actor_death 4 farm_zone ≡ returns burial.0 burial.1
unfolding process_actor_death lookup object_container_tuples container_objects inventory_objects
    submit_all submit apply_event apply_payload apply_actor_death apply_object_add container_add
    contains container_observers apply_actor_remove
farmer_dies = refl

process_actor_death-removes_example : lookup 14 burial.1.body.actors_by_id ≡ none
process_actor_death-removes_example = process_actor_death-removes 4 farm_zone farmer_dies

-- The farmer is clumsy.
abbrev own_foot : CombatMeleeCommand
own_foot = record {
  attacker = 4;
  target = 4;
  damage_type = "slash";
  roll = hit (pos 100) (pos 33) (pos 33);
}

abbrev accident : (Value × List Event) × State
accident = outcome_of (process_combat_melee own_foot farm_zone)

accident_happens : process_combat_melee own_foot farm_zone ≡ returns accident.0 accident.1
unfolding process_combat_melee object_container_tuples container_objects inventory_objects
    submit_all submit apply_event apply_payload apply_combat_melee_damage lookup apply_actor_death
    apply_object_add container_add contains container_observers apply_actor_remove
accident_happens = refl

process_combat_melee-removes_example : lookup 14 accident.1.body.actors_by_id ≡ none
process_combat_melee-removes_example =
    process_combat_melee-removes own_foot farm_zone (inl (omega arith)) accident_happens

-- A scratch.
abbrev stumble : CombatMeleeCommand
stumble = record own_foot { roll = hit (pos 1) (pos 2) (pos 3) }

abbrev scratched : (Value × List Event) × State
scratched = outcome_of (process_combat_melee stumble farm_zone)

stumble_happens : process_combat_melee stumble farm_zone ≡ returns scratched.0 scratched.1
unfolding process_combat_melee submit_all submit apply_event apply_payload apply_combat_melee_damage
    lookup
stumble_happens = refl

stumble_is_no_death : ¬ IsFatal stumble farm_zone.body stumble.roll
stumble_is_no_death h = ground arith

process_combat_melee-spares_example : scratched.1.body.actors_by_id ≡ farm_zone.body.actors_by_id
process_combat_melee-spares_example =
    process_combat_melee-spares stumble farm_zone stumble_is_no_death stumble_happens
