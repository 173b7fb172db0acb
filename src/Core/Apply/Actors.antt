-- ===== src/Core/Apply/Actors.antt =====
-- applyActor*Event and applyCombat*Event of core/zone.go.
use gomud.Base.{
  suc, Option, none, some, List, [], ◌++◌, String, put, pos, ◌-ℤ◌, lookup, insert, delete,
}
use gomud.Core.Data.{Ref, Uuid, Actor, AttributeSet, ActorInventoryConstraints}
use gomud.Core.Refs.{dedupe}
use gomud.Core.Monad.{
  returns, M, ◌>>=◌, ◌>>◌, and_then, pure, get, modify, some_or, deref, unresolved_actor_move,
  unresolved_relocate, no_default_location, cannot_find_actor, unknown_actor,
}
use gomud.Core.Body.{
  Body, id_or_new, location_remove_actor, location_add_actor, set_actor_location, set_actor_zone,
  set_actor_attributes,
}
use gomud.Core.Container.{location_observers}
use gomud.Core.Event.{
  ActorMove, ActorAdminRelocate, ActorAddToZone, ActorDeath, ActorMigrateIn, ActorMigrateOut,
  ActorSpeak, CombatMeleeDamage, CombatDodge,
}

-- NewActor and the allocation of its result; `&ActorInventory{constraints: …}` is empty.
unfoldable pub new_actor :
    Uuid → String → String → Option Ref → AttributeSet → ActorInventoryConstraints → M Body Ref
new_actor id name brain_type location attrs constraints = do
  new_id ← id_or_new id
  b ← get
  let actor : Actor = record {
    id = new_id;
    name = name;
    location = location;
    zone = some b.self;
    observers = [];
    brain_type = brain_type;
    inventory = record { constraints = constraints; back = []; belt = []; body = []; hands = [] };
    attributes = attrs;
  }
  modify (λ c. record c { actors = put c.actors c.next_ref actor; next_ref = suc c.next_ref })
  pure b.next_ref

-- `z.actorsById[actor.ID()] = actor`
abbrev pub register_actor : Ref → Body → Body
register_actor a b = record b { actors_by_id = insert (b.actors a).id a b.actors_by_id }

-- A location that is not there is replaced by the default one, if that is set.
abbrev pub starting_location : Uuid → Body → Option Ref
starting_location id b = elim (lookup id b.locations_by_id) [
  | none ↦ b.default_location
  | some l ↦ some l
]

unfoldable pub apply_actor_add : ActorAddToZone → M Body (Ref × List Ref)
unfolding new_actor
apply_actor_add e = do
  b ← get
  loc ← some_or (starting_location e.starting_location_id b) no_default_location
  actor ← new_actor e.actor_id e.name e.brain_type (some loc) e.attributes e.inventory_constraints
  modify (location_add_actor loc actor)
  modify (set_actor_location actor (some loc))
  modify (register_actor actor)
  c ← get
  pure (actor, location_observers c loc)

unfoldable pub apply_actor_move : ActorMove → M Body (List Ref)
apply_actor_move e = do
  b ← get
  from ← some_or (lookup e.from_location_id b.locations_by_id) unresolved_actor_move
  to ← some_or (lookup e.to_location_id b.locations_by_id) unresolved_actor_move
  actor ← some_or (lookup e.actor_id b.actors_by_id) unresolved_actor_move
  modify (location_remove_actor from actor)
  modify (location_add_actor to actor)
  modify (set_actor_location actor (some to))
  c ← get
  pure (dedupe ((c.actors actor).observers ++ location_observers c from ++ location_observers c to))

-- An actor without a location, an orphan, is in no location to be removed from.
abbrev leave_location : Option Ref → Ref → M Body (List Ref)
leave_location none actor b = returns [] b
leave_location (some from) actor b =
    returns (location_observers (location_remove_actor from actor b) from)
      (location_remove_actor from actor b)

unfoldable pub apply_actor_admin_relocate : ActorAdminRelocate → M Body (List Ref)
apply_actor_admin_relocate e = do
  b ← get
  actor ← some_or (lookup e.actor_id b.actors_by_id) unresolved_relocate
  to ← some_or (lookup e.to_location_id b.locations_by_id) unresolved_relocate
  told ← leave_location (b.actors actor).location actor
  modify (location_add_actor to actor)
  modify (set_actor_location actor (some to))
  c ← get
  pure (told ++ location_observers c to)

unfoldable pub apply_actor_remove : Uuid → M Body (List Ref)
apply_actor_remove id = do
  b ← get
  actor ← some_or (lookup id b.actors_by_id) cannot_find_actor
  old ← deref (b.actors actor).location
  modify (location_remove_actor old actor)
  modify (set_actor_location actor none)
  modify (set_actor_zone actor none)
  modify (λ c. record c { actors_by_id = delete id c.actors_by_id })
  modify (λ c. record c { evicted = c.evicted ++ (c.actors actor).observers })
  c ← get
  pure (location_observers c old)

-- An actor migrates in even where its location cannot be resolved.
abbrev enter_location : Option Ref → Ref → M Body (List Ref)
enter_location none actor b = returns [] b
enter_location (some l) actor b =
    returns (location_observers (location_add_actor l actor b) l) (location_add_actor l actor b)

unfoldable pub apply_actor_migrate_in : ActorMigrateIn → M Body (Ref × List Ref)
unfolding new_actor
apply_actor_migrate_in e = do
  b ← get
  let loc = lookup e.to_loc_id b.locations_by_id
  actor ← new_actor e.actor_id e.name e.brain_type loc e.attributes e.inventory_constraints
  told ← enter_location loc actor
  modify (set_actor_location actor loc)
  modify (register_actor actor)
  pure (actor, told)

unfoldable pub apply_actor_migrate_out : ActorMigrateOut → M Body (List Ref)
apply_actor_migrate_out e = do
  b ← get
  actor ← some_or (lookup e.actor_id b.actors_by_id) cannot_find_actor
  old ← deref (b.actors actor).location
  modify (location_remove_actor old actor)
  modify (set_actor_location actor none)
  modify (set_actor_zone actor none)
  modify (λ c. record c { actors_by_id = delete (c.actors actor).id c.actors_by_id })
  c ← get
  pure (location_observers c old)

unfoldable pub apply_actor_death : ActorDeath → M Body (List Ref)
apply_actor_death e = do
  b ← get
  actor ← some_or (lookup e.actor_id b.actors_by_id) cannot_find_actor
  let attrs = (b.actors actor).attributes
  modify (
      set_actor_attributes actor
        (record attrs { physical = pos 0; stamina = pos 0; focus = pos 0; zeal = pos 0 }))
  loc ← deref (b.actors actor).location
  c ← get
  pure (location_observers c loc)

unfoldable pub apply_actor_speak : ActorSpeak → M Body (List Ref)
apply_actor_speak e = do
  b ← get
  actor ← some_or (lookup e.actor_id b.actors_by_id) cannot_find_actor
  loc ← deref (b.actors actor).location
  pure (location_observers b loc)

-- The observers of a fighter and of the place where it stands, if the zone knows it.
unfoldable pub fighter_observers : Option Ref → M Body (List Ref)
fighter_observers none b = returns [] b
fighter_observers (some a) b =
    and_then (deref (b.actors a).location b)
      λ loc c. returns ((c.actors a).observers ++ location_observers c loc) c

unfoldable pub apply_combat_dodge : CombatDodge → M Body (List Ref)
unfolding fighter_observers
apply_combat_dodge e = do
  b ← get
  first ← fighter_observers (lookup e.attacker_id b.actors_by_id)
  second ← fighter_observers (lookup e.target_id b.actors_by_id)
  pure (dedupe (first ++ second))

-- Go's `int` has 64 bits; no attribute or damage comes near their bounds.
unfoldable pub apply_combat_melee_damage : CombatMeleeDamage → M Body (List Ref)
unfolding fighter_observers
apply_combat_melee_damage e = do
  b ← get
  target ← some_or (lookup e.target_id b.actors_by_id) unknown_actor
  let attrs = (b.actors target).attributes
  modify (
      set_actor_attributes target (record attrs {
        physical = attrs.physical -ℤ e.physical_dmg;
        stamina = attrs.stamina -ℤ e.stamina_dmg;
        focus = attrs.focus -ℤ e.focus_dmg;
      }))
  first ← fighter_observers (lookup e.attacker_id b.actors_by_id)
  second ← fighter_observers (some target)
  pure (dedupe (first ++ second))
