-- ===== src/Core/Apply/Locations.antt =====
-- applyLocation*Event, applyExit*Event and applyZoneSetDefaultLocationEvent of core/zone.go.
use gomud.Base.{
  suc, Option, none, some, [], not, String, put, lookup, insert, delete, ◌==◌, if◌then◌else◌,
}
use gomud.Core.Data.{Ref, Uuid, Location, Exit, nil_uuid}
use gomud.Core.Monad.{
  Result, ok, err, returns, fails, M, ◌>>=◌, ◌>>◌, and_then, pure, get, modify, guard, some_or,
  deref, unknown_location, unknown_source_location, unknown_destination, unknown_exit,
  nil_destination,
}
use gomud.Core.Body.{
  Body, id_or_new, write_location, write_exit, location_remove_exit, location_add_out_exit,
}
use gomud.Core.Event.{LocationText, ExitText}

-- NewLocation and the allocation of its result.
unfoldable pub new_location : Uuid → String → String → M Body Ref
new_location id short_desc long_desc = do
  new_id ← id_or_new id
  b ← get
  let location : Location = record {
    id = new_id;
    zone = some b.self;
    short_description = short_desc;
    description = long_desc;
    actors = [];
    objects = [];
    out_exits = [];
    observers = [];
  }
  modify
      (λ c. record c { locations = put c.locations c.next_ref location; next_ref = suc c.next_ref })
  pure b.next_ref

unfoldable pub apply_location_add : LocationText → M Body Ref
unfolding new_location
apply_location_add e = do
  loc ← new_location e.location_id e.short_desc e.desc
  modify (λ b. record b { locations_by_id = insert e.location_id loc b.locations_by_id })
  pure loc

unfoldable pub apply_location_update : LocationText → M Body (Unit {0})
apply_location_update e = do
  b ← get
  loc ← some_or (lookup e.location_id b.locations_by_id) unknown_location
  modify (
      write_location loc
        (record (b.locations loc) { short_description = e.short_desc; description = e.desc }))

unfoldable pub apply_location_remove : Uuid → M Body (Unit {0})
apply_location_remove id = modify (λ b. record b { locations_by_id = delete id b.locations_by_id })

-- NewExit and the allocation of its result.
unfoldable pub new_exit : Uuid → String → String → Ref → Option Ref → Uuid → Uuid → M Body Ref
new_exit id desc direction src dest other_zone_id other_loc_id = do
  new_id ← id_or_new id
  b ← get
  let exit : Exit = record {
    id = new_id;
    description = desc;
    direction = direction;
    source = some src;
    destination = dest;
    zone = some b.self;
    other_zone_id = other_zone_id;
    other_zone_loc_id = other_loc_id;
  }
  modify (λ c. record c { exits = put c.exits c.next_ref exit; next_ref = suc c.next_ref })
  pure b.next_ref

abbrev pub lift_body : (Body → Result Body) → M Body (Unit {0})
lift_body f b = elim (f b) [ ok c ↦ returns tt c | err e ↦ fails e b ]

-- The destination inside the zone, and the identifier of one outside: one of the two is nil.
abbrev pub resolve_destination : ExitText → M Body (Option Ref × Uuid)
resolve_destination e b =
    if e.dest_zone_id == nil_uuid
    then and_then (some_or (lookup e.dest_location_id b.locations_by_id) unknown_destination b)
        (λ dest c. returns (some dest, nil_uuid) c)
    else returns (none, e.dest_location_id) b

unfoldable pub apply_exit_add : ExitText → M Body Ref
unfolding new_exit
apply_exit_add e = do
  b ← get
  src ← some_or (lookup e.source_location_id b.locations_by_id) unknown_source_location
  dest ← resolve_destination e
  exit ← new_exit e.exit_id e.description e.direction src dest.0 e.dest_zone_id dest.1
  lift_body (location_add_out_exit src exit)
  modify (λ c. record c { exits_by_id = insert (c.exits exit).id exit c.exits_by_id })
  pure exit

-- The four destination cases. `newDst` is declared in the source and never assigned, so it is nil
-- in each of them.
unfoldable pub retarget : Exit → ExitText → Exit
retarget exit e =
    if exit.other_zone_id == nil_uuid
    then (if e.dest_zone_id == nil_uuid then record exit { destination = none } else record exit {
      destination = none;
      other_zone_id = e.dest_zone_id;
      other_zone_loc_id = e.dest_location_id;
    })
    else (if e.dest_zone_id == nil_uuid
        then record exit {
          destination = none;
          other_zone_id = nil_uuid;
          other_zone_loc_id = nil_uuid;
        }
        else record exit { other_zone_id = e.dest_zone_id; other_zone_loc_id = e.dest_location_id })

-- `if newSrc != exit.Source()`: leave the old source, enter the new one.
abbrev move_exit : Ref → Ref → Ref → M Body (Unit {0})
move_exit exit old_src new_src b =
    if new_src == old_src
    then returns tt b
    else and_then
        (lift_body (location_add_out_exit new_src exit) (location_remove_exit old_src exit b))
        (λ _ c. returns tt (write_exit exit (record (c.exits exit) { source = some new_src }) c))

unfoldable pub apply_exit_update : ExitText → M Body (Unit {0})
unfolding retarget
apply_exit_update e = do
  b ← get
  exit ← some_or (lookup e.exit_id b.exits_by_id) unknown_exit
  new_src ← some_or (lookup e.source_location_id b.locations_by_id) unknown_source_location
  guard (not (e.dest_location_id == nil_uuid)) nil_destination
  _dest ← resolve_destination e
  modify (write_exit exit (retarget (b.exits exit) e))
  old_src ← deref (b.exits exit).source
  move_exit exit old_src new_src
  c ← get
  modify (
      write_exit exit
        (record (c.exits exit) { description = e.description; direction = e.direction }))

unfoldable pub apply_exit_remove : Uuid → M Body (Unit {0})
apply_exit_remove id = do
  b ← get
  exit ← some_or (lookup id b.exits_by_id) unknown_exit
  src ← deref (b.exits exit).source
  modify (location_remove_exit src exit)
  modify (λ c. record c { exits_by_id = delete id c.exits_by_id })

unfoldable pub apply_set_default_location : Uuid → M Body (Unit {0})
apply_set_default_location id = do
  b ← get
  loc ← some_or (lookup id b.locations_by_id) unknown_location
  modify (λ c. record c { default_location = some loc })
