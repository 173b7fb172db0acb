-- ===== src/Core/Places/Events.antt =====
-- applyEvent of core/zone.go and the places of the actors.
use gomud.Base.{
  ◌<◌, some, List, [], ◌≡◌, arith, lookup, lookup-insert, lookup-delete, Option-cases, inl, inr,
  ◌==◌, Bool-cases,
}
use gomud.Core.Data.{Ref, Uuid, nil_uuid}
use gomud.Core.Monad.{Outcome, returns, fails, panics, M, and_then}
use gomud.Core.Body.{Body}
use gomud.Core.Event.{
  Payload, ActorAddToZone, LocationText, actor_move, actor_admin_relocate, actor_add_to_zone,
  actor_remove_from_zone, actor_death, actor_migrate_in, actor_migrate_out, actor_speak,
  location_add_to_zone, location_remove_from_zone, location_update, exit_add_to_zone, exit_update,
  exit_remove_from_zone, object_add_to_zone, object_remove_from_zone, object_move,
  object_move_subcontainer, object_admin_relocate, object_migrate_in, object_migrate_out,
  zone_set_default_location, combat_melee_damage, combat_dodge,
}
use gomud.Core.Apply.{
  Value, nothing, actor_value, location_value, exit_value, object_value, apply_payload, told, quiet,
  made, made_quietly,
}
use gomud.Core.Apply.Actors.{
  apply_actor_add, apply_actor_admin_relocate, apply_actor_death, apply_actor_migrate_in,
  apply_actor_migrate_out, apply_actor_move, apply_actor_remove, apply_actor_speak,
  apply_combat_dodge, apply_combat_melee_damage, starting_location,
}
use gomud.Core.Apply.Locations.{
  apply_exit_add, apply_exit_remove, apply_exit_update, apply_location_add, apply_location_remove,
  apply_location_update, apply_set_default_location,
}
use gomud.Core.Apply.Objects.{
  apply_object_add, apply_object_admin_relocate, apply_object_migrate_in, apply_object_migrate_out,
  apply_object_move, apply_object_move_subcontainer, apply_object_remove,
}
use gomud.Core.Places.{IsPlaced}
use gomud.Core.Places.Steps.{SamePlaces-IsPlaced}
use gomud.Core.Places.Others.{
  memory_after, object_add-SamePlaces, object_move-SamePlaces, object_move_subcontainer-SamePlaces,
  object_admin_relocate-SamePlaces, object_remove-SamePlaces, object_migrate_in-SamePlaces,
  object_migrate_out-SamePlaces, exit_add-SamePlaces, exit_update-SamePlaces,
  exit_remove-SamePlaces, location_update-SamePlaces, actor_death-SamePlaces,
  actor_speak-SamePlaces, combat_dodge-SamePlaces, combat_melee_damage-SamePlaces,
}
use gomud.Core.Places.Appliers.{
  StartsHere, actor_move-IsPlaced, actor_admin_relocate-IsPlaced, actor_remove-IsPlaced,
  actor_migrate_out-IsPlaced, actor_migrate_in-IsPlaced, appear-IsPlaced,
}

known_start :
    (id : Uuid) (b : Body) (loc : Ref)
    → IsPlaced b
    → starting_location id b ≡ some loc
    → loc < b.next_ref
known_start id b loc v h = elim (Option-cases (lookup id b.locations_by_id)) [
  | inl e ↦ v.known_default loc (ground arith)
  | inr (l, e) ↦ v.known_locations id loc (ground arith)
]

actor_add-IsPlaced :
    (e : ActorAddToZone) (b : Body) → IsPlaced b → IsPlaced (memory_after b (apply_actor_add e b))
unfolding apply_actor_add
actor_add-IsPlaced e b v = elim (Option-cases (starting_location e.starting_location_id b)) [
  | inl n ↦ rw (n, apply_actor_add) v
  | inr (loc, n) ↦ elim (Bool-cases (e.actor_id == nil_uuid)) [
    | inl z ↦ rw (n, z, apply_actor_add) (appear-IsPlaced b _ _ v loc (known_start _ b loc v n))
    | inr z ↦ rw (n, z, apply_actor_add) (appear-IsPlaced b _ _ v loc (known_start _ b loc v n))
  ]
]

location_add-IsPlaced :
    (e : LocationText) (b : Body) → IsPlaced b → IsPlaced (memory_after b (apply_location_add e b))
unfolding apply_location_add
location_add-IsPlaced e b v = record {
  listed = λ l x. ground (arith, v.listed l x, v.unlisted b.next_ref, v.listed b.next_ref x);
  unplaced = λ x h. ground (arith, v.unplaced x);
  unlisted = λ l h. ground (arith, v.unlisted l);
  known_actors = λ k x h. ground (arith, v.known_actors k x);
  known_locations = λ k l h.
      ground
        (arith, v.known_locations k l, lookup-insert e.location_id k b.next_ref b.locations_by_id);
  known_default = λ l h. ground (arith, v.known_default l);
}

location_remove-IsPlaced :
    (id : Uuid) (b : Body) → IsPlaced b → IsPlaced (memory_after b (apply_location_remove id b))
unfolding apply_location_remove
location_remove-IsPlaced id b v = record {
  listed = v.listed;
  unplaced = v.unplaced;
  unlisted = v.unlisted;
  known_actors = v.known_actors;
  known_locations =
      λ k l h. ground (arith, v.known_locations k l, lookup-delete id k b.locations_by_id);
  known_default = v.known_default;
}

set_default-IsPlaced :
    (id : Uuid) (b : Body)
    → IsPlaced b
    → IsPlaced (memory_after b (apply_set_default_location id b))
unfolding apply_set_default_location
set_default-IsPlaced id b v = record {
  listed = λ l x. ground (arith, v.listed l x);
  unplaced = λ x h. ground (arith, v.unplaced x);
  unlisted = λ l h. ground (arith, v.unlisted l);
  known_actors = λ k x h. ground (arith, v.known_actors k x);
  known_locations = λ k l h. ground (arith, v.known_locations k l);
  known_default = λ l h. ground (arith, v.known_default l, v.known_locations id l);
}

mapped-IsPlaced :
    {A B : Type 0} (b : Body) (r : Outcome Body A) (f : A → B)
    → IsPlaced (memory_after b r)
    → IsPlaced (memory_after b (and_then r (λ a c. returns (f a) c)))
mapped-IsPlaced b (returns a c) f v = v
mapped-IsPlaced b (fails e c) f v = v
mapped-IsPlaced b panics f v = v

module _ (b : Body) where
  told-IsPlaced :
      (m : M Body (List Ref))
      → IsPlaced (memory_after b (m b))
      → IsPlaced (memory_after b (told m b))
  told-IsPlaced m v = mapped-IsPlaced {B = Value × List Ref} b (m b) (λ l. (nothing, l)) v

  quiet-IsPlaced :
      (m : M Body (Unit {0}))
      → IsPlaced (memory_after b (m b))
      → IsPlaced (memory_after b (quiet m b))
  quiet-IsPlaced m v = mapped-IsPlaced {B = Value × List Ref} b (m b) (λ _. (nothing, [])) v

  made-IsPlaced :
      (f : Ref → Value) (m : M Body (Ref × List Ref))
      → IsPlaced (memory_after b (m b))
      → IsPlaced (memory_after b (made f m b))
  made-IsPlaced f m v = mapped-IsPlaced {B = Value × List Ref} b (m b) (λ r. (f r.0, r.1)) v

  made_quietly-IsPlaced :
      (f : Ref → Value) (m : M Body Ref)
      → IsPlaced (memory_after b (m b))
      → IsPlaced (memory_after b (made_quietly f m b))
  made_quietly-IsPlaced f m v = mapped-IsPlaced {B = Value × List Ref} b (m b) (λ r. (f r, [])) v

-- The condition on an event: a move starts where the actor stands.
abbrev pub IsInPlace : Payload → Body → Type 0
IsInPlace (actor_move e) b = StartsHere e b
IsInPlace _ b = Unit {0}

-- Every event leaves the actors placed, also where it is refused on the way.
pub apply_payload-IsPlaced :
    (p : Payload) (b : Body)
    → IsPlaced b
    → IsInPlace p b
    → IsPlaced (memory_after b (apply_payload p b))
unfolding apply_payload
apply_payload-IsPlaced (actor_move e) b v h =
    told-IsPlaced b (apply_actor_move e) (actor_move-IsPlaced e b v h)
apply_payload-IsPlaced (actor_admin_relocate e) b v h =
    told-IsPlaced b (apply_actor_admin_relocate e) (actor_admin_relocate-IsPlaced e b v)
apply_payload-IsPlaced (actor_add_to_zone e) b v h =
    made-IsPlaced b actor_value (apply_actor_add e) (actor_add-IsPlaced e b v)
apply_payload-IsPlaced (actor_remove_from_zone id) b v h =
    told-IsPlaced b (apply_actor_remove id) (actor_remove-IsPlaced id b v)
apply_payload-IsPlaced (actor_migrate_in e) b v h =
    made-IsPlaced b actor_value (apply_actor_migrate_in e) (actor_migrate_in-IsPlaced e b v)
apply_payload-IsPlaced (actor_migrate_out e) b v h =
    told-IsPlaced b (apply_actor_migrate_out e) (actor_migrate_out-IsPlaced e b v)
apply_payload-IsPlaced (location_add_to_zone e) b v h =
    made_quietly-IsPlaced b location_value (apply_location_add e) (location_add-IsPlaced e b v)
apply_payload-IsPlaced (location_remove_from_zone id) b v h =
    quiet-IsPlaced b (apply_location_remove id) (location_remove-IsPlaced id b v)
apply_payload-IsPlaced (zone_set_default_location id) b v h =
    quiet-IsPlaced b (apply_set_default_location id) (set_default-IsPlaced id b v)
apply_payload-IsPlaced (actor_death e) b v h =
    told-IsPlaced b (apply_actor_death e) (SamePlaces-IsPlaced (actor_death-SamePlaces e b) v)
apply_payload-IsPlaced (actor_speak e) b v h =
    told-IsPlaced b (apply_actor_speak e) (SamePlaces-IsPlaced (actor_speak-SamePlaces e b) v)
apply_payload-IsPlaced (location_update e) b v h =
    quiet-IsPlaced b (apply_location_update e)
      (SamePlaces-IsPlaced (location_update-SamePlaces e b) v)
apply_payload-IsPlaced (exit_add_to_zone e) b v h =
    made_quietly-IsPlaced b exit_value (apply_exit_add e)
      (SamePlaces-IsPlaced (exit_add-SamePlaces e b) v)
apply_payload-IsPlaced (exit_update e) b v h =
    quiet-IsPlaced b (apply_exit_update e) (SamePlaces-IsPlaced (exit_update-SamePlaces e b) v)
apply_payload-IsPlaced (exit_remove_from_zone id) b v h =
    quiet-IsPlaced b (apply_exit_remove id) (SamePlaces-IsPlaced (exit_remove-SamePlaces id b) v)
apply_payload-IsPlaced (object_add_to_zone e) b v h =
    made-IsPlaced b object_value (apply_object_add e)
      (SamePlaces-IsPlaced (object_add-SamePlaces e b) v)
apply_payload-IsPlaced (object_remove_from_zone name id) b v h =
    told-IsPlaced b (apply_object_remove id) (SamePlaces-IsPlaced (object_remove-SamePlaces id b) v)
apply_payload-IsPlaced (object_move e) b v h =
    told-IsPlaced b (apply_object_move e) (SamePlaces-IsPlaced (object_move-SamePlaces e b) v)
apply_payload-IsPlaced (object_move_subcontainer e) b v h =
    told-IsPlaced b (apply_object_move_subcontainer e)
      (SamePlaces-IsPlaced (object_move_subcontainer-SamePlaces e b) v)
apply_payload-IsPlaced (object_admin_relocate e) b v h =
    told-IsPlaced b (apply_object_admin_relocate e)
      (SamePlaces-IsPlaced (object_admin_relocate-SamePlaces e b) v)
apply_payload-IsPlaced (object_migrate_in e) b v h =
    quiet-IsPlaced b (apply_object_migrate_in e)
      (SamePlaces-IsPlaced (object_migrate_in-SamePlaces e b) v)
apply_payload-IsPlaced (object_migrate_out name id zone) b v h =
    quiet-IsPlaced b (apply_object_migrate_out id)
      (SamePlaces-IsPlaced (object_migrate_out-SamePlaces id b) v)
apply_payload-IsPlaced (combat_melee_damage e) b v h =
    told-IsPlaced b (apply_combat_melee_damage e)
      (SamePlaces-IsPlaced (combat_melee_damage-SamePlaces e b) v)
apply_payload-IsPlaced (combat_dodge e) b v h =
    told-IsPlaced b (apply_combat_dodge e) (SamePlaces-IsPlaced (combat_dodge-SamePlaces e b) v)
