-- ===== src/Core/Apply/Objects.antt =====
-- applyObject*Event of core/zone.go.
use gomud.Base.{
  ℕ, suc, Bool, true, false, Option, none, some, List, [], ◌++◌, not, String, put, lookup, insert,
  delete, ◌==◌, if◌then◌else◌,
}
use gomud.Core.Data.{
  Ref, Uuid, Object, Container, nil_container, location_container, actor_container,
  object_container, nil_uuid,
}
use gomud.Core.Refs.{dedupe}
use gomud.Core.Monad.{
  returns, M, ◌>>=◌, ◌>>◌, and_then, pure, get, modify, some_or, deref, guard, unknown_object,
  no_container,
}
use gomud.Core.Body.{Body, id_or_new, set_object_container, set_object_zone}
use gomud.Core.Container.{
  container_add, container_remove, container_move, container_observers, container_location,
  location_observers,
}
use gomud.Core.Event.{
  ContainerIds, ObjectAddToZone, ObjectMove, ObjectMoveSubcontainer, ObjectAdminRelocate,
  ObjectMigrateIn,
}

-- The switch on the three identifiers. A pointer from a map is converted to an interface value, so
-- a key that the map does not have gives an interface that is not nil, around a nil pointer.
unfoldable pub resolve : ContainerIds → Body → Container
resolve ids b =
    if ids.location_id == nil_uuid
    then (if ids.actor_id == nil_uuid
        then (if ids.object_id == nil_uuid
            then nil_container
            else object_container (lookup ids.object_id b.objects_by_id))
        else actor_container (lookup ids.actor_id b.actors_by_id))
    else location_container (lookup ids.location_id b.locations_by_id)

-- `c == nil`, on the interface value.
abbrev pub is_nil : Container → Bool
is_nil nil_container = true
is_nil _ = false

-- `containerFound`: the pointer in the interface is not nil.
abbrev pub is_found : Container → Bool
is_found (location_container (some l)) = true
is_found (actor_container (some a)) = true
is_found (object_container (some o)) = true
is_found _ = false

-- NewObject and the allocation of its result; inventorySlots keeps its zero value.
unfoldable pub new_object : Uuid → String → String → List String → Container → ℕ → M Body Ref
new_object id name desc keywords container capacity = do
  new_id ← id_or_new id
  b ← get
  let object : Object = record {
    id = new_id;
    name = name;
    description = desc;
    inventory_slots = 0;
    keywords = keywords;
    container = container;
    zone = some b.self;
    container_capacity = capacity;
    contained_objects = [];
  }
  modify (λ c. record c { objects = put c.objects c.next_ref object; next_ref = suc c.next_ref })
  pure b.next_ref

abbrev register_object : Ref → Body → Body
register_object o b = record b { objects_by_id = insert (b.objects o).id o b.objects_by_id }

-- `c.Observers()`
abbrev pub observers_of : Container → M Body (List Ref)
observers_of c b = deref (container_observers b.stack b c) b

abbrev pub add_if : Bool → Container → Ref → String → M Body (List Ref)
add_if true c o sub b = and_then (container_add c o sub b) (λ _ d. observers_of c d)
add_if false c o sub b = returns [] b

unfoldable pub apply_object_add : ObjectAddToZone → M Body (Ref × List Ref)
unfolding new_object resolve
apply_object_add e = do
  b ← get
  let container = resolve e.container_ids b
  obj ← new_object e.object_id e.name e.description e.keywords container e.capacity
  told ← add_if (is_found container) container obj e.subcontainer
  modify (set_object_container obj container)
  modify (register_object obj)
  pure (obj, told)

abbrev remove_if : Bool → Container → Ref → M Body (List Ref)
remove_if true c o b = and_then (container_remove c o b) (λ _ d. observers_of c d)
remove_if false c o b = returns [] b

unfoldable pub apply_object_move : ObjectMove → M Body (List Ref)
unfolding resolve
apply_object_move e = do
  b ← get
  obj ← some_or (lookup e.object_id b.objects_by_id) unknown_object
  let from = resolve e.from_ids b
  let to = resolve e.to_ids b
  first ← remove_if (not (is_nil from)) from obj
  second ← add_if (not (is_nil to)) to obj e.to_subcontainer
  modify (set_object_container obj to)
  pure (dedupe (first ++ second))

-- `obj.Location()`, where a nil location has no observers to ask for.
abbrev observers_at : Option Ref → M Body (List Ref)
observers_at loc b = and_then (deref loc b) (λ l c. returns (location_observers c l) c)

unfoldable pub apply_object_move_subcontainer : ObjectMoveSubcontainer → M Body (List Ref)
apply_object_move_subcontainer e = do
  b ← get
  obj ← some_or (lookup e.object_id b.objects_by_id) unknown_object
  container_move (b.objects obj).container obj e.from_subcontainer e.to_subcontainer
  c ← get
  first ← observers_of (c.objects obj).container
  loc ← deref (container_location c.stack c (c.objects obj).container)
  second ← observers_at loc
  pure (dedupe (first ++ second))

unfoldable pub apply_object_admin_relocate : ObjectAdminRelocate → M Body (List Ref)
unfolding resolve
apply_object_admin_relocate e = do
  b ← get
  obj ← some_or (lookup e.object_id b.objects_by_id) unknown_object
  let to = resolve e.to_ids b
  guard (not (is_nil to)) no_container
  let from = (b.objects obj).container
  first ← remove_if (not (is_nil from)) from obj
  container_add to obj e.to_subcontainer
  modify (set_object_container obj to)
  second ← observers_of to
  pure (first ++ second)

unfoldable pub apply_object_remove : Uuid → M Body (List Ref)
apply_object_remove id = do
  b ← get
  obj ← some_or (lookup id b.objects_by_id) unknown_object
  let old = (b.objects obj).container
  container_remove old obj
  modify (set_object_container obj nil_container)
  modify (set_object_zone obj none)
  modify (λ c. record c { objects_by_id = delete (c.objects obj).id c.objects_by_id })
  observers_of old

abbrev add_quietly : Bool → Container → Ref → String → M Body (Unit {0})
add_quietly true c o sub b = container_add c o sub b
add_quietly false c o sub b = returns tt b

unfoldable pub apply_object_migrate_in : ObjectMigrateIn → M Body (Unit {0})
unfolding new_object resolve
apply_object_migrate_in e = do
  b ← get
  let container = resolve e.container_ids b
  obj ← new_object e.object_id e.name e.description e.keywords container e.capacity
  add_quietly (not (is_nil container)) container obj e.subcontainer
  modify (set_object_container obj container)
  modify (register_object obj)

unfoldable pub apply_object_migrate_out : Uuid → M Body (Unit {0})
apply_object_migrate_out id = do
  b ← get
  obj ← some_or (lookup id b.objects_by_id) unknown_object
  container_remove (b.objects obj).container obj
  modify (set_object_container obj nil_container)
  modify (set_object_zone obj none)
  modify (λ c. record c { objects_by_id = delete (c.objects obj).id c.objects_by_id })
