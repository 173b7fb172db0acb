-- ===== src/Core/Body.antt =====
-- The memory that a zone's handlers read and write: the heap of the process, and the fields of the
-- Zone struct of core/zone.go but for the sequence number. With it, the methods of Location,
-- Actor, Exit and Object that write one cell (core/location.go and the others).
use gomud.Base.{
  ℕ, suc, Bool, true, false, Option, List, [], ◌∷◌, ◌++◌, String, str_eq, put, ◌==◌, if◌then◌else◌,
  Map,
}
use gomud.Core.Data.{Ref, Uuid, Location, Actor, Exit, Object, AttributeSet, Container, nil_uuid}
use gomud.Core.Refs.{contains, remove}
use gomud.Core.Monad.{Result, ok, err, exit_already_present, direction_taken, M, returns}

-- A cell that is not allocated has some content, which no pointer reaches.
pub record Body : Type 0 where
  -- the heap
  pub locations : Ref → Location
  pub actors : Ref → Actor
  pub exits : Ref → Exit
  pub objects : Ref → Object
  pub next_ref : Ref
  -- how deep a recursion of methods may go before the stack overflows
  pub stack : ℕ
  -- the identifiers that NewId will return, and how many have been drawn
  pub new_ids : ℕ → Uuid
  pub ids_drawn : ℕ
  -- the identifiers of all zones, by their addresses
  pub zone_ids : Ref → Uuid
  -- observers that have been told to leave
  pub evicted : List Ref
  -- the zone itself
  pub self : Ref
  pub default_location : Option Ref
  pub actors_by_id : Map
  pub locations_by_id : Map
  pub exits_by_id : Map
  pub objects_by_id : Map

abbrev pub zone_id : Body → Uuid
zone_id b = b.zone_ids b.self

abbrev pub write_location : Ref → Location → Body → Body
write_location r v b = record b { locations = put b.locations r v }

abbrev pub write_actor : Ref → Actor → Body → Body
write_actor r v b = record b { actors = put b.actors r v }

abbrev pub write_exit : Ref → Exit → Body → Body
write_exit r v b = record b { exits = put b.exits r v }

abbrev pub write_object : Ref → Object → Body → Body
write_object r v b = record b { objects = put b.objects r v }

-- `newID := id; if uuid.Equal(id, uuid.Nil) { newID = NewId() }`
abbrev pub id_or_new : Uuid → M Body Uuid
id_or_new id b =
    if id == nil_uuid
    then returns (b.new_ids b.ids_drawn) (record b { ids_drawn = suc b.ids_drawn })
    else returns id b

unfoldable pub location_remove_actor : Ref → Ref → Body → Body
location_remove_actor l a b =
    write_location l (record (b.locations l) { actors = remove (b.locations l).actors a }) b

unfoldable pub location_add_actor : Ref → Ref → Body → Body
location_add_actor l a b =
    if contains (b.locations l).actors a
    then b
    else write_location l (record (b.locations l) { actors = (b.locations l).actors ++ a ∷ [] }) b

unfoldable pub location_add_observer : Ref → Ref → Body → Body
location_add_observer l o b =
    write_location l (record (b.locations l) { observers = (b.locations l).observers ++ o ∷ [] }) b

unfoldable pub location_remove_observer : Ref → Ref → Body → Body
location_remove_observer l o b =
    write_location l (record (b.locations l) { observers = remove (b.locations l).observers o }) b

unfoldable pub location_remove_exit : Ref → Ref → Body → Body
location_remove_exit l x b =
    write_location l (record (b.locations l) { out_exits = remove (b.locations l).out_exits x }) b

-- The loop of addOutExit: is the direction taken by one of these exits?
unfoldable pub has_direction : (Ref → Exit) → List Ref → String → Bool
has_direction exits [] d = false
has_direction exits (x ∷ xs) d =
    if str_eq (exits x).direction d then true else has_direction exits xs d

unfoldable pub location_add_out_exit : Ref → Ref → Body → Result Body
location_add_out_exit l x b =
    if contains (b.locations l).out_exits x
    then err exit_already_present
    else if has_direction b.exits (b.locations l).out_exits (b.exits x).direction
    then err direction_taken
    else ok (
        write_location l
          (record (b.locations l) { out_exits = (b.locations l).out_exits ++ x ∷ [] }) b)

unfoldable pub actor_add_observer : Ref → Ref → Body → Body
actor_add_observer a o b =
    write_actor a (record (b.actors a) { observers = (b.actors a).observers ++ o ∷ [] }) b

unfoldable pub actor_remove_observer : Ref → Ref → Body → Body
actor_remove_observer a o b =
    write_actor a (record (b.actors a) { observers = remove (b.actors a).observers o }) b

abbrev pub set_actor_location : Ref → Option Ref → Body → Body
set_actor_location a l b = write_actor a (record (b.actors a) { location = l }) b

abbrev pub set_actor_zone : Ref → Option Ref → Body → Body
set_actor_zone a z b = write_actor a (record (b.actors a) { zone = z }) b

abbrev pub set_actor_attributes : Ref → AttributeSet → Body → Body
set_actor_attributes a v b = write_actor a (record (b.actors a) { attributes = v }) b

abbrev pub set_object_container : Ref → Container → Body → Body
set_object_container o c b = write_object o (record (b.objects o) { container = c }) b

abbrev pub set_object_zone : Ref → Option Ref → Body → Body
set_object_zone o z b = write_object o (record (b.objects o) { zone = z }) b
