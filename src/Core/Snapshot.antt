-- ===== src/Core/Snapshot.antt =====
-- The snapshots of core/zone.go and core/snapshottable.go, with `snapshot` and
-- `snapshotDependencies` of core/actor.go, core/location.go, core/exit.go and core/object.go.
pub mod Order
pub mod Keeping
pub mod Defaults
use gomud.Base.{
  ℕ, zero, suc, Bool, true, false, ◌||◌, ◌==◌, Option, none, some, List, [], ◌∷◌, ◌++◌,
  if◌then◌else◌, map,
}
use gomud.Core.Data.{
  Ref, Uuid, nil_uuid, Container, nil_container, location_container, actor_container,
  object_container, Actor, Exit, Object,
}
use gomud.Core.Body.{Body, zone_id}
use gomud.Core.Container.{container_id, container_subcontainer_for}
use gomud.Core.Event.{
  Payload, Event, ContainerIds, actor_add_to_zone, location_add_to_zone, exit_add_to_zone,
  object_add_to_zone,
}

-- A pointer behind the interface snapshottable; it is not nil.
pub data Node : Type 0 where
  actor_node : Ref → Node
  location_node : Ref → Node
  exit_node : Ref → Node
  object_node : Ref → Node

-- The keys of a map are compared by type and pointer.
abbrev pub is_same : Node → Node → Bool
is_same (actor_node a) (actor_node b) = a == b
is_same (location_node a) (location_node b) = a == b
is_same (exit_node a) (exit_node b) = a == b
is_same (object_node a) (object_node b) = a == b
is_same _ _ = false

-- `visitedMap[this]`, over the keys that are true.
abbrev pub is_visited : List Node → Node → Bool
is_visited [] n = false
is_visited (m ∷ ms) n = is_same m n || is_visited ms n

abbrev pub dependency : (Ref → Node) → Option Ref → Option (List Node)
dependency f none = none
dependency f (some r) = some (f r ∷ [])

abbrev pub container_dependency : Container → Option (List Node)
container_dependency nil_container = none
container_dependency (location_container l) = dependency location_node l
container_dependency (actor_container a) = dependency actor_node a
container_dependency (object_container o) = dependency object_node o

abbrev pub exit_dependencies : Option Ref → Option Ref → Option (List Node)
exit_dependencies none dest = none
exit_dependencies (some s) none = some (location_node s ∷ [])
exit_dependencies (some s) (some d) = some (location_node s ∷ location_node d ∷ [])

-- snapshotDependencies; none stands for a nil pointer among them, on which the visit panics.
unfoldable pub snapshot_dependencies : Body → Node → Option (List Node)
snapshot_dependencies b (actor_node a) = dependency location_node (b.actors a).location
snapshot_dependencies b (location_node l) = some []
snapshot_dependencies b (exit_node e) = exit_dependencies (b.exits e).source (b.exits e).destination
snapshot_dependencies b (object_node o) = container_dependency (b.objects o).container

-- What a visit returns, with the visited nodes after it; none is a panic.
abbrev pub Visit : Type 0
Visit = Option (List Node × List Node)

abbrev pub and_visit : Visit → (List Node → List Node → Visit) → Visit
and_visit none f = none
and_visit (some x) f = f x.0 x.1

-- The loop over the dependencies, and that over the keys of `visited`.
unfoldable pub visit_all : (Node → List Node → Visit) → List Node → List Node → Visit
visit_all visit [] visited = some ([], visited)
visit_all visit (n ∷ ns) visited = and_visit (visit n visited) λ ret then_visited.
    and_visit (visit_all visit ns then_visited) λ rest last. some (ret ++ rest, last)

abbrev pub visit_dependencies :
    (List Node → List Node → Visit) → Option (List Node) → List Node → Visit
visit_dependencies f none visited = none
visit_dependencies f (some deps) visited = f deps visited

-- dfsSnapshottableDepsOmittingVisited; a recursion that is deeper than the stack is a panic.
unfoldable pub dfs : ℕ → Body → Node → List Node → Visit
dfs zero b this visited = none
dfs (suc n) b this visited =
    let deps = visit_dependencies (visit_all (dfs n b)) (snapshot_dependencies b this) visited in
    if is_visited visited this
    then some ([], visited)
    else and_visit deps λ ret then_visited. some (ret ++ this ∷ [], then_visited ++ this ∷ [])

-- `orderedObjs`, for the keys of `visited` in the order in which the loop takes them.
unfoldable pub ordered_objs : Body → List Node → Visit
ordered_objs b keys = visit_all (dfs b.stack b) keys []

-- The keys of `visited`.
abbrev pub refs_of : (Ref → Node) → List (Uuid × Ref) → List Node
refs_of f m = map (λ e. f e.1) m

abbrev pub snapshot_keys : Body → List Node
snapshot_keys b =
    (refs_of actor_node b.actors_by_id ++ refs_of location_node b.locations_by_id)
    ++ (refs_of exit_node b.exits_by_id ++ refs_of object_node b.objects_by_id)

-- A use of what may panic.
infixl 5 ◌>>=◌
abbrev pub ◌>>=◌ : {A B : Type 0} → Option A → (A → Option B) → Option B
◌>>=◌ none f = none
◌>>=◌ (some a) f = f a

-- The identifier in the field for the container's type.
abbrev pub ids_of : Container → Uuid → ContainerIds
ids_of (location_container l) id = record {
  location_id = id;
  actor_id = nil_uuid;
  object_id = nil_uuid;
}
ids_of (actor_container a) id = record {
  location_id = nil_uuid;
  actor_id = id;
  object_id = nil_uuid;
}
ids_of (object_container o) id = record {
  location_id = nil_uuid;
  actor_id = nil_uuid;
  object_id = id;
}
ids_of nil_container id = record {
  location_id = nil_uuid;
  actor_id = nil_uuid;
  object_id = nil_uuid;
}

-- The events name the zone, whose pointer must not be nil.
unfoldable pub actor_snapshot : Body → Ref → Option Payload
actor_snapshot b r = do
  let a = b.actors r
  l ← a.location
  _zone ← a.zone
  some (
      actor_add_to_zone (record {
        actor_id = a.id;
        name = a.name;
        brain_type = a.brain_type;
        starting_location_id = (b.locations l).id;
        attributes = a.attributes;
        inventory_constraints = a.inventory.constraints;
      }))

unfoldable pub location_snapshot : Body → Ref → Option Payload
location_snapshot b r = do
  let l = b.locations r
  _zone ← l.zone
  some (
      location_add_to_zone
        (record { location_id = l.id; short_desc = l.short_description; desc = l.description }))

abbrev pub destination_id : Body → Exit → Uuid
destination_id b ex = elim ex.destination [
  | none ↦ ex.other_zone_loc_id
  | some d ↦ (b.locations d).id
]

unfoldable pub exit_snapshot : Body → Ref → Option Payload
exit_snapshot b r = do
  let ex = b.exits r
  s ← ex.source
  _zone ← ex.zone
  some (
      exit_add_to_zone (record {
        exit_id = ex.id;
        description = ex.description;
        direction = ex.direction;
        source_location_id = (b.locations s).id;
        dest_zone_id = ex.other_zone_id;
        dest_location_id = destination_id b ex;
      }))

unfoldable pub object_snapshot : Body → Ref → Option Payload
object_snapshot b r = do
  let o = b.objects r
  _zone ← o.zone
  sub ← container_subcontainer_for b o.container r
  id ← container_id b o.container
  some (
      object_add_to_zone (record {
        object_id = o.id;
        name = o.name;
        description = o.description;
        keywords = o.keywords;
        container_ids = ids_of o.container id;
        subcontainer = sub;
        capacity = o.container_capacity;
      }))

-- `snapshot` of each type, without the sequence number; none is a panic.
unfoldable pub node_snapshot : Body → Node → Option Payload
node_snapshot b (actor_node r) = actor_snapshot b r
node_snapshot b (location_node r) = location_snapshot b r
node_snapshot b (exit_node r) = exit_snapshot b r
node_snapshot b (object_node r) = object_snapshot b r

-- The loop over `orderedObjs`; every event gets the same number.
unfoldable pub snap_events : Body → ℕ → List Node → Option (List Event)
snap_events b n [] = some []
snap_events b n (x ∷ xs) =
    let rest = snap_events b n xs in
    elim (node_snapshot b x) [
      | none ↦ none
      | some p ↦ elim rest [
        | none ↦ none
        | some es ↦ some (record { sequence_num = n; payload = p } ∷ es)
      ]
    ]

abbrev pub events_of_order : Body → ℕ → Visit → Option (List Event)
events_of_order b n none = none
events_of_order b n (some x) = snap_events b n x.0

unfoldable pub snapshot : Body → ℕ → Option (List Event)
snapshot b n = events_of_order b n (ordered_objs b (snapshot_keys b))
