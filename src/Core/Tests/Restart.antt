-- ===== src/Core/Tests/Restart.antt =====
-- A run of the farm, and its replay.
use gomud.Core.Apply.Locations.{apply_exit_remove}
use gomud.Core.Refs.{contains}
use gomud.Core.Body.{location_add_actor, location_remove_actor}
use gomud.Core.Process.Locations.{process_exit_remove}
use gomud.Core.Apply.Actors.{apply_actor_move}
use gomud.Core.Apply.{apply_payload}
use gomud.Core.Process.Actors.{has_exit_to, process_actor_move}
use gomud.Core.Process.Dispatch.{process_command}
use gomud.Base.{List, [], ◌∷◌, none, ◌≡◌, refl, lookup}
use gomud.Core.Monad.{Outcome, returns, fails, panics}
use gomud.Core.Zone.{State, apply_event, persisting, submit}
use gomud.Core.Command.{Command, actor_move_command, exit_remove_command}
use gomud.Core.Process.Log.Persisted.{Logged}
use gomud.Core.Process.Log.Restart.{run, run-Logged}
use gomud.Core.Tests.{farm_zone}

-- The farmer walks to the barn, and the gate behind it is removed.
abbrev pub morning : List Command
morning =
    actor_move_command (record { from_location_id = 11; to_location_id = 12; actor_id = 14 })
    ∷ exit_remove_command 13
    ∷ []

abbrev pub state_after : Outcome State (Unit {0}) → State
state_after (returns v t) = t
state_after (fails e t) = t
state_after panics = farm_zone

abbrev pub noon : State
noon = state_after (run morning farm_zone)

pub morning_passes : run morning farm_zone ≡ returns tt noon
unfolding run process_command persisting process_actor_move lookup has_exit_to submit apply_event
    apply_payload apply_actor_move process_exit_remove location_add_actor contains
    location_remove_actor apply_exit_remove
morning_passes = refl

run-Logged_example : Logged farm_zone noon
run-Logged_example =
    run-Logged morning farm_zone (refl, (refl, tt)) ((λ _. none), refl, λ _. refl) morning_passes
