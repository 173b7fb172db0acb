-- ===== src/Core/Tests/Zone.antt =====
-- Tests of the zone's commands and events on the farm.
use gomud.Core.Refs.{contains}
use gomud.Core.Body.{location_add_actor, location_remove_actor, location_remove_exit}
use gomud.Core.Apply.Locations.{apply_exit_remove, apply_exit_update, apply_location_remove}
use gomud.Base.{◌<◌, none, some, List, [], ◌∷◌, ◌≡◌, ◌≢◌, refl, arith, map, delete, lookup}
use gomud.Core.Refs.Laws.{count}
use gomud.Core.Monad.{Outcome, returns, fails, panics}
use gomud.Core.Zone.{State, submit, submit_all, persisting, apply_event}
use gomud.Core.Event.{
  Event, Payload, ActorMove, ObjectMove, actor_move, ExitText, exit_update, exit_remove_from_zone,
  location_remove_from_zone,
}
use gomud.Core.Apply.Objects.{apply_object_move}
use gomud.Core.Apply.NilContainers.{apply_object_move-panics}
use gomud.Core.Apply.{Value, nothing, apply_payload}
use gomud.Core.Command.{actor_move_command}
use gomud.Core.Process.Dispatch.{process_command}
use gomud.Core.Process.Actors.{process_actor_move, has_exit_to}
use gomud.Core.Apply.Actors.{apply_actor_move}
use gomud.Core.Process.Locations.{
  process_exit_update, process_location_remove, check_prior, process_exit_remove,
}
use gomud.Core.Process.Recorded.{Records, submit_all-Records}
use gomud.Core.Process.Log.Persisted.{Logged, process_command-Logged}
use gomud.Core.Process.ExitUpdates.{exit_update_strands}
use gomud.Core.Process.LocationRemoval.{process_location_remove-forgets}
use gomud.Core.Places.{IsPlaced}
use gomud.Core.Places.Others.{memory_after}
use gomud.Core.Places.Appliers.{StartsHere}
use gomud.Core.Places.Events.{apply_payload-IsPlaced}
use gomud.Core.Places.Commands.{Placed}
use gomud.Core.Places.Commands.Runs.{
  Reaches, started, answered, process_command-Placed, Reaches-IsPlaced,
}
use gomud.Core.Places.Moves.{move_from_elsewhere}
use gomud.Core.Tests.{farm, farm_zone}

abbrev walk_north : ActorMove
walk_north = record { from_location_id = 11; to_location_id = 12; actor_id = 14 }

abbrev reached : {A : Type 0} → State → Outcome State A → State
reached s (returns a t) = t
reached s (fails e t) = t
reached s panics = s

abbrev after_walk : State
after_walk = reached farm_zone (process_command (actor_move_command walk_north) farm_zone)

walk_is_accepted :
    process_command (actor_move_command walk_north) farm_zone ≡ returns nothing after_walk
unfolding process_command persisting process_actor_move lookup has_exit_to submit apply_event
    apply_payload apply_actor_move
walk_is_accepted = refl

farm-IsPlaced : IsPlaced farm
unfolding lookup
farm-IsPlaced = record {
  listed = λ l a. ground arith;
  unplaced = λ a h. ground arith;
  unlisted = λ l h. ground arith;
  known_actors = λ k a h. ground arith;
  known_locations = λ k l h. ground arith;
  known_default = λ l h. ground arith;
}

farmer_starts_in_yard : StartsHere walk_north farm
unfolding lookup
farmer_starts_in_yard a h = ground arith

apply_payload-IsPlaced_example :
    IsPlaced (memory_after farm (apply_payload (actor_move walk_north) farm))
apply_payload-IsPlaced_example =
    apply_payload-IsPlaced (actor_move walk_north) farm farm-IsPlaced farmer_starts_in_yard

process_command-Logged_example : Logged farm_zone after_walk
process_command-Logged_example =
    process_command-Logged farm_zone (actor_move_command walk_north) refl
      ((λ _. none), refl, λ _. refl) walk_is_accepted

-- A walk and the removal of the gate, one after the other.
abbrev two_steps : List Payload
two_steps = actor_move walk_north ∷ exit_remove_from_zone 13 ∷ []

abbrev two_events : List Event
two_events =
    record { sequence_num = 7; payload = actor_move walk_north }
    ∷ record { sequence_num = 8; payload = exit_remove_from_zone 13 }
    ∷ []

abbrev after_two_steps : State
after_two_steps = reached farm_zone (submit_all two_steps farm_zone)

two_steps_apply : submit_all two_steps farm_zone ≡ returns two_events after_two_steps
unfolding submit_all submit apply_event apply_payload apply_actor_move lookup apply_exit_remove
    location_add_actor contains location_remove_actor
two_steps_apply = refl

submit_all-Records_example :
    Records farm_zone two_events after_two_steps
    × (map (λ (e : Event). e.payload) two_events ≡ two_steps)
submit_all-Records_example = submit_all-Records two_steps farm_zone two_steps_apply

-- A new description for the gate, which is to lead to the barn as before.
abbrev repaint : ExitText
repaint = record {
  exit_id = 13;
  description = "a red gate";
  direction = "north";
  source_location_id = 11;
  dest_zone_id = 0;
  dest_location_id = 12;
}

abbrev repaint_event : Event
repaint_event = record { sequence_num = 7; payload = exit_update repaint }

abbrev after_repaint : State
after_repaint = reached farm_zone (process_exit_update repaint farm_zone)

repaint_is_accepted :
    process_exit_update repaint farm_zone ≡ returns (nothing, repaint_event ∷ []) after_repaint
unfolding process_exit_update lookup check_prior submit apply_event apply_payload apply_exit_update
repaint_is_accepted = refl

gate_is_known : lookup 13 farm.exits_by_id ≡ some 3
unfolding lookup
gate_is_known = refl

gate_is_still_known : lookup 13 after_repaint.body.exits_by_id ≡ some 3
unfolding process_exit_update lookup check_prior submit apply_event apply_payload apply_exit_update
gate_is_still_known = refl

exit_update_strands_example :
    ((after_repaint.body.exits 3).destination ≡ none)
    × ((r : Value × List Event) (u : State)
        → process_exit_update repaint after_repaint ≢ returns r u)
exit_update_strands_example =
    exit_update_strands repaint repaint farm_zone (nothing, repaint_event ∷ []) after_repaint 3
      gate_is_known refl repaint_is_accepted gate_is_still_known

-- The farmer stands in the yard, and the command names the lane from the barn to the field.
abbrev jump : ActorMove
jump = record { from_location_id = 12; to_location_id = 16; actor_id = 14 }

abbrev jump_event : Event
jump_event = record { sequence_num = 7; payload = actor_move jump }

abbrev after_jump : State
after_jump = reached farm_zone (process_actor_move jump farm_zone)

jump_is_accepted : process_actor_move jump farm_zone ≡ returns (nothing, jump_event ∷ []) after_jump
unfolding process_actor_move lookup has_exit_to submit apply_event apply_payload apply_actor_move
jump_is_accepted = refl

barn_is_known : lookup 12 farm.locations_by_id ≡ some 2
unfolding lookup
barn_is_known = refl

field_is_known : lookup 16 farm.locations_by_id ≡ some 6
unfolding lookup
field_is_known = refl

farmer_is_known : lookup 14 farm.actors_by_id ≡ some 4
unfolding lookup
farmer_is_known = refl

lane_leads_out : 0 < count 7 (farm_zone.body.locations 2).out_exits
lane_leads_out = omega arith

move_from_elsewhere_example :
    (r : Value × List Event) × (t : State) × (process_actor_move jump farm_zone ≡ returns r t)
    × (count 4 (t.body.locations 1).actors ≡ 1)
    × (count 4 (t.body.locations 6).actors ≡ 1)
move_from_elsewhere_example =
    move_from_elsewhere jump farm_zone 2 6 4 1 7 farm-IsPlaced barn_is_known field_is_known
      farmer_is_known lane_leads_out refl refl (λ h. omega arith) (λ h. omega arith)

-- The field is removed, and with it the lane to it.
abbrev field_removed : Event
field_removed = record { sequence_num = 8; payload = location_remove_from_zone 16 }

abbrev after_removal : State
after_removal = reached farm_zone (process_location_remove 16 farm_zone)

removal_is_accepted :
    process_location_remove 16 farm_zone ≡ returns (nothing, field_removed ∷ []) after_removal
unfolding process_location_remove lookup process_exit_remove submit apply_event apply_payload
    apply_exit_remove location_remove_exit apply_location_remove
removal_is_accepted = refl

process_location_remove-forgets_example :
    (e : Event) × (field_removed ∷ [] ≡ e ∷ [])
    × (apply_payload e.payload farm
        ≡ returns (nothing, []) (record farm { locations_by_id = delete 16 farm.locations_by_id }))
process_location_remove-forgets_example =
    process_location_remove-forgets 16 farm_zone removal_is_accepted

process_command-Placed_example : Placed (process_command (actor_move_command walk_north) farm_zone)
process_command-Placed_example =
    process_command-Placed (actor_move_command walk_north) farm_zone farm-IsPlaced
      farmer_starts_in_yard

one_walk : Reaches farm_zone after_walk
one_walk =
    answered farm_zone after_walk (actor_move_command walk_north) nothing started
      farmer_starts_in_yard walk_is_accepted

Reaches-IsPlaced_example : IsPlaced after_walk.body
Reaches-IsPlaced_example = Reaches-IsPlaced farm_zone after_walk farm-IsPlaced one_walk

-- The lamp is to go to a location that the farm does not have.
abbrev astray : ObjectMove
astray = record {
  object_id = 15;
  actor_id = 14;
  from_ids = record { location_id = 11; actor_id = 0; object_id = 0 };
  to_ids = record { location_id = 99; actor_id = 0; object_id = 0 };
  to_subcontainer = "any";
}

lamp_is_known : lookup 15 farm.objects_by_id ≡ some 5
unfolding lookup
lamp_is_known = refl

no_such_place : lookup 99 farm.locations_by_id ≡ none
unfolding lookup
no_such_place = refl

apply_object_move-panics_example : apply_object_move astray farm ≡ panics
apply_object_move-panics_example =
    apply_object_move-panics astray farm 5 lamp_is_known (λ h. omega arith) no_such_place
