-- ===== src/Core/Process/Locations.antt =====
-- processLocation*Command, processExit*Command and processZoneSetDefaultLocationCommand of
-- core/zone.go.
use gomud.Base.{
  Bool, true, false, some, List, [], ◌∷◌, ◌++◌, lookup, not, ◌&&◌, ◌||◌, ◌==◌, if◌then◌else◌, Map,
}
use gomud.Core.Data.{Ref, Uuid, Exit, nil_uuid}
use gomud.Core.Monad.{
  returns, M, ◌>>=◌, ◌>>◌, and_then, guard, some_or, deref, duplicate_location, unknown_location,
  location_not_empty, duplicate_exit, unknown_source_location, direction_taken, unknown_destination,
  unknown_exit, nil_destination, no_destination_before, two_destinations_before,
  zone_ref_missing_before, location_ref_missing_before,
}
use gomud.Core.Body.{has_direction}
use gomud.Core.Event.{
  Event, LocationText, ExitText, location_add_to_zone, location_update, location_remove_from_zone,
  exit_add_to_zone, exit_update, exit_remove_from_zone, zone_set_default_location,
}
use gomud.Core.Apply.{Value}
use gomud.Core.Zone.{State}
use gomud.Core.Process.Common.{single, body, is_some, same}
use gomud.Core.Process.Actors.{process_actor_admin_relocate}
use gomud.Core.Process.Objects.{process_object_admin_relocate}

unfoldable pub process_location_add : LocationText → M State (Value × List Event)
process_location_add e = do
  b ← body
  guard (not (is_some (lookup e.location_id b.locations_by_id))) duplicate_location
  single (location_add_to_zone e)

unfoldable pub process_location_update : LocationText → M State (Value × List Event)
process_location_update e = do
  b ← body
  guard (is_some (lookup e.location_id b.locations_by_id)) unknown_location
  single (location_update e)

unfoldable pub process_exit_add : ExitText → M State (Value × List Event)
process_exit_add e = do
  b ← body
  guard (not (is_some (lookup e.exit_id b.exits_by_id))) duplicate_exit
  src ← some_or (lookup e.source_location_id b.locations_by_id) unknown_source_location
  guard (not (has_direction b.exits (b.locations src).out_exits e.direction)) direction_taken
  guard (not (e.dest_zone_id == nil_uuid) || is_some (lookup e.dest_location_id b.locations_by_id))
      unknown_destination
  single (exit_add_to_zone e)

-- The four refusals of an exit whose old destination is not consistent.
unfoldable pub check_prior : Exit → M State (Unit {0})
check_prior exit = do
  let no_zone = exit.other_zone_id == nil_uuid
  let no_loc = exit.other_zone_loc_id == nil_uuid
  guard (not (no_zone && no_loc && not (is_some exit.destination))) no_destination_before
  guard (not (not no_zone && not no_loc && is_some exit.destination)) two_destinations_before
  guard (not (no_zone && not no_loc)) zone_ref_missing_before
  guard (not (not no_zone && no_loc)) location_ref_missing_before

unfoldable pub process_exit_update : ExitText → M State (Value × List Event)
process_exit_update e = do
  b ← body
  exit ← some_or (lookup e.exit_id b.exits_by_id) unknown_exit
  guard (is_some (lookup e.source_location_id b.locations_by_id)) unknown_source_location
  guard (not (e.dest_location_id == nil_uuid)) nil_destination
  guard (not (e.dest_zone_id == nil_uuid) || is_some (lookup e.dest_location_id b.locations_by_id))
      unknown_destination
  check_prior (b.exits exit)
  single (exit_update e)

unfoldable pub process_exit_remove : Uuid → M State (Value × List Event)
process_exit_remove id = do
  b ← body
  guard (is_some (lookup id b.exits_by_id)) unknown_exit
  single (exit_remove_from_zone id)

unfoldable pub process_set_default_location : Uuid → M State (Value × List Event)
process_set_default_location id = do
  b ← body
  guard (is_some (lookup id b.locations_by_id)) unknown_location
  single (zone_set_default_location id)

-- ExitsToLocation; the order of a range over a map is not specified, and is the list's here.
unfoldable pub exits_to_location : (Ref → Exit) → Map → Ref → List Ref
exits_to_location exits [] loc = []
exits_to_location exits ((id, x) ∷ m) loc =
    if same (exits x).destination (some loc)
    then x ∷ exits_to_location exits m loc
    else exits_to_location exits m loc

-- A loop whose rounds run one sub-command each; it ends at the first error.
unfoldable pub for_each : List Ref → (Ref → M State (Value × List Event)) → M State (Unit {0})
for_each [] f s = returns tt s
for_each (r ∷ rs) f s = let rest = for_each rs f in and_then (f r s) λ _ t. rest t

abbrev is_empty : List Ref → Bool
is_empty [] = true
is_empty (x ∷ xs) = false

-- `z.defaultLocation.ID()`, where the default location may be nil.
abbrev default_location_id : M State Uuid
default_location_id s =
    and_then (deref s.body.default_location s) λ l t. returns (s.body.locations l).id t

abbrev pub drop_exit : Ref → M State (Value × List Event)
drop_exit x = do b ← body; process_exit_remove (b.exits x).id

abbrev pub rehome_actor : Ref → M State (Value × List Event)
rehome_actor a = do
  b ← body
  home ← default_location_id
  process_actor_admin_relocate (record { actor_id = (b.actors a).id; to_location_id = home })

abbrev pub rehome_object : Ref → M State (Value × List Event)
rehome_object o = do
  b ← body
  home ← default_location_id
  process_object_admin_relocate (record {
    object_id = (b.objects o).id;
    to_ids = record { location_id = home; actor_id = nil_uuid; object_id = nil_uuid };
    to_subcontainer = "";
  })

-- The events of the sub-commands are collected, but what is returned is the last event alone.
unfoldable pub process_location_remove : Uuid → M State (Value × List Event)
unfolding for_each exits_to_location
process_location_remove id = do
  b ← body
  loc ← some_or (lookup id b.locations_by_id) unknown_location
  guard
      (is_some b.default_location
        || (is_empty (b.locations loc).actors && is_empty (b.locations loc).objects))
      location_not_empty
  for_each ((b.locations loc).out_exits ++ exits_to_location b.exits b.exits_by_id loc) drop_exit
  c ← body
  for_each (c.locations loc).actors rehome_actor
  d ← body
  for_each (d.locations loc).objects rehome_object
  single (location_remove_from_zone id)
