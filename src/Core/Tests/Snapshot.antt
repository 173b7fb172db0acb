-- ===== src/Core/Tests/Snapshot.antt =====
-- A snapshot of the farm.
use gomud.Core.Container.{container_id, container_subcontainer_for}
use gomud.Base.{ℕ, ◌<◌, some, List, [], ◌∷◌, All, ◌≡◌, refl, subst, sym, arith, ◌⊎◌, inl, inr, true}
use gomud.Core.Snapshot.{
  location_snapshot, Node, actor_node, location_node, exit_node, object_node, is_visited,
  snapshot_dependencies, snapshot_keys, ordered_objs, dfs, visit_all, actor_snapshot, exit_snapshot,
  node_snapshot, object_snapshot, snap_events,
}
use gomud.Core.Snapshot.Order.{IsDag, Ordered, ordered_objs-Ordered}
use gomud.Core.Zone.{apply_event}
use gomud.Core.Apply.{apply_payload}
use gomud.Core.Apply.Locations.{apply_location_add, new_location, apply_exit_add, new_exit}
use gomud.Core.Apply.Actors.{apply_actor_add, new_actor}
use gomud.Core.Apply.Objects.{apply_object_add, new_object, resolve}
use gomud.Core.Body.{has_direction, location_add_actor, location_add_out_exit}
use gomud.Core.Container.{container_add, container_observers, location_observers}
use gomud.Core.Refs.{contains, dedupe}
use gomud.Core.Snapshot.{location_snapshot}
use gomud.Base.{insert, lookup, length, none, Option}
use gomud.Core.Event.{Event}
use gomud.Core.Monad.{returns}
use gomud.Core.Zone.{State, replay}
use gomud.Core.Snapshot.{snapshot}
use gomud.Core.Snapshot.Defaults.{replay-snapshot}
use gomud.Core.Tests.Restart.{state_after}
use gomud.Core.Tests.{farm, farm_zone}

-- The nodes of the farm.
abbrev OnFarm : Node → Type 0
OnFarm (actor_node r) = r ≡ 4
OnFarm (exit_node r) = (r ≡ 3) ⊎ (r ≡ 7)
OnFarm _ = Unit

abbrev height : Node → ℕ
height (location_node r) = 0
height _ = 1

gate_or_lane :
    (r : ℕ)
    → OnFarm (exit_node r)
    → (deps : List Node) × (snapshot_dependencies farm (exit_node r) ≡ some deps)
      × All (λ d. OnFarm d × (height d < 1)) deps
unfolding snapshot_dependencies
gate_or_lane r (inl h) = (
  location_node 1 ∷ location_node 2 ∷ [],
  subst
      (λ k.
        snapshot_dependencies farm (exit_node k) ≡ some (location_node 1 ∷ location_node 2 ∷ []))
      (sym h) refl,
  ((tt, omega arith), ((tt, omega arith), tt)),
)
gate_or_lane r (inr h) = (
  location_node 2 ∷ location_node 6 ∷ [],
  subst
      (λ k.
        snapshot_dependencies farm (exit_node k) ≡ some (location_node 2 ∷ location_node 6 ∷ []))
      (sym h) refl,
  ((tt, omega arith), ((tt, omega arith), tt)),
)

farm-IsDag : IsDag farm OnFarm height
unfolding snapshot_dependencies
farm-IsDag = record { below = below }
  where
    below :
        (n : Node)
        → OnFarm n
        → (deps : List Node) × (snapshot_dependencies farm n ≡ some deps)
          × All (λ d. OnFarm d × (height d < height n)) deps
    below (actor_node r) h = (
      location_node 1 ∷ [],
      subst (λ k. snapshot_dependencies farm (actor_node k) ≡ some (location_node 1 ∷ [])) (sym h)
          refl,
      ((tt, omega arith), tt),
    )
    below (location_node r) h = ([], refl, tt)
    below (exit_node r) h = gate_or_lane r h
    below (object_node r) h = (location_node 1 ∷ [], refl, ((tt, omega arith), tt))

keys_first_to_last :
    ordered_objs farm (object_node 5 ∷ actor_node 4 ∷ location_node 2 ∷ [])
    ≡ some (
      location_node 1 ∷ object_node 5 ∷ actor_node 4 ∷ location_node 2 ∷ [],
      location_node 1 ∷ object_node 5 ∷ actor_node 4 ∷ location_node 2 ∷ [],
    )
unfolding ordered_objs visit_all dfs snapshot_dependencies
keys_first_to_last = refl

ordered_objs-Ordered_example :
    (order : List Node) × (ordered_objs farm (snapshot_keys farm) ≡ some (order, order))
    × Ordered farm [] order
    × All (λ n. is_visited order n ≡ true) (snapshot_keys farm)
ordered_objs-Ordered_example =
    ordered_objs-Ordered farm OnFarm height farm-IsDag (snapshot_keys farm) (
      (refl, omega arith),
      (
        (tt, omega arith),
        (
          (tt, omega arith),
          (
            (tt, omega arith),
            ((inl refl, omega arith), ((inr refl, omega arith), ((tt, omega arith), tt))),
          ),
        ),
      ),
    )

-- A zone that has nothing yet, not even a default location.
abbrev fresh_zone : State
fresh_zone = record farm_zone {
  body = record farm {
    default_location = none;
    actors_by_id = [];
    locations_by_id = [];
    exits_by_id = [];
    objects_by_id = [];
  };
}

abbrev or_no_events : Option (List Event) → List Event
or_no_events none = []
or_no_events (some es) = es

abbrev farm_events : List Event
farm_events = or_no_events (snapshot farm 9)

farm_has_snapshot : snapshot farm 9 ≡ some farm_events
unfolding snapshot ordered_objs visit_all dfs snapshot_dependencies snap_events node_snapshot
    actor_snapshot exit_snapshot object_snapshot container_subcontainer_for container_id
    location_snapshot
farm_has_snapshot = refl

abbrev loaded : State
loaded = state_after (replay farm_events fresh_zone)

loading_passes : replay farm_events fresh_zone ≡ returns tt loaded
unfolding snapshot ordered_objs visit_all dfs snapshot_dependencies snap_events node_snapshot
    actor_snapshot exit_snapshot object_snapshot location_snapshot container_subcontainer_for
    container_id replay apply_event apply_payload apply_location_add new_location apply_actor_add
    new_actor apply_exit_add new_exit apply_object_add new_object resolve has_direction
    location_add_actor location_add_out_exit container_add container_observers location_observers
    insert lookup contains dedupe
loading_passes = refl

-- Everybody and everything is there again.
everything_loaded :
    (length loaded.body.actors_by_id ≡ 1)
    × (length loaded.body.locations_by_id ≡ 3)
    × (length loaded.body.exits_by_id ≡ 2)
    × (length loaded.body.objects_by_id ≡ 1)
unfolding snapshot ordered_objs visit_all dfs snapshot_dependencies snap_events node_snapshot
    actor_snapshot exit_snapshot object_snapshot location_snapshot container_subcontainer_for
    container_id replay apply_event apply_payload apply_location_add new_location apply_actor_add
    new_actor apply_exit_add new_exit apply_object_add new_object resolve has_direction
    location_add_actor location_add_out_exit container_add container_observers location_observers
    insert lookup contains dedupe
everything_loaded = (refl, refl, refl, refl)

replay-snapshot_example : loaded.body.default_location ≡ none
replay-snapshot_example = replay-snapshot farm 9 fresh_zone farm_has_snapshot loading_passes
