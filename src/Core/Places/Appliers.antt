-- ===== src/Core/Places/Appliers.antt =====
-- The appliers that move actors, and all appliers together.
use gomud.Base.{
  ℕ, suc, ◌<◌, none, some, List, [], ◌∷◌, ◌≡◌, arith, lookup, delete, lookup-insert, lookup-delete,
  Option-cases, inl, inr, ◌∙◌, put, ◌==◌, Bool-cases,
}
use gomud.Core.Data.{Ref, Uuid, Actor, nil_uuid}
use gomud.Core.Refs.Laws.{contains-count, count-append}
use gomud.Core.Body.{Body, location_add_actor, set_actor_location, set_actor_zone}
use gomud.Core.Event.{ActorMove, ActorAdminRelocate, ActorMigrateIn, ActorMigrateOut}
use gomud.Core.Apply.Actors.{
  apply_actor_move, apply_actor_admin_relocate, apply_actor_remove, apply_actor_migrate_in,
  apply_actor_migrate_out, register_actor,
}
use gomud.Core.Places.{IsPlaced}
use gomud.Core.Places.Steps.{walk-IsPlaced, enter-IsPlaced, leave-IsPlaced}
use gomud.Core.Places.Others.{memory_after}

-- The move starts where the actor stands.
abbrev pub StartsHere : ActorMove → Body → Type 0
StartsHere e b =
    (a : Ref)
    → lookup e.actor_id b.actors_by_id ≡ some a
    → (b.actors a).location ≡ lookup e.from_location_id b.locations_by_id

pub actor_move-IsPlaced :
    (e : ActorMove) (b : Body)
    → IsPlaced b
    → StartsHere e b
    → IsPlaced (memory_after b (apply_actor_move e b))
unfolding apply_actor_move
actor_move-IsPlaced e b v h = elim (Option-cases (lookup e.from_location_id b.locations_by_id)) [
  | inl f ↦ rw (f, apply_actor_move) v
  | inr (from, f) ↦ elim (Option-cases (lookup e.to_location_id b.locations_by_id)) [
    | inl g ↦ rw (f, g, apply_actor_move) v
    | inr (to, g) ↦ elim (Option-cases (lookup e.actor_id b.actors_by_id)) [
      | inl k ↦ rw (f, g, k, apply_actor_move) v
      | inr (a, k) ↦
          rw (f, g, k, apply_actor_move)
            (walk-IsPlaced b a from to v (v.known_actors _ a k) (v.known_locations _ to g)
              (h a k ∙ f))
    ]
  ]
]

pub actor_admin_relocate-IsPlaced :
    (e : ActorAdminRelocate) (b : Body)
    → IsPlaced b
    → IsPlaced (memory_after b (apply_actor_admin_relocate e b))
unfolding apply_actor_admin_relocate
actor_admin_relocate-IsPlaced e b v = elim (Option-cases (lookup e.actor_id b.actors_by_id)) [
  | inl k ↦ rw (k, apply_actor_admin_relocate) v
  | inr (a, k) ↦ elim (Option-cases (lookup e.to_location_id b.locations_by_id)) [
    | inl g ↦ rw (k, g, apply_actor_admin_relocate) v
    | inr (to, g) ↦ elim (Option-cases (b.actors a).location) [
      | inl n ↦
          rw (k, g, n, apply_actor_admin_relocate)
            (enter-IsPlaced b a to v (v.known_actors _ a k) (v.known_locations _ to g) n)
      | inr (from, f) ↦
          rw (k, g, f, apply_actor_admin_relocate)
            (walk-IsPlaced b a from to v (v.known_actors _ a k) (v.known_locations _ to g) f)
    ]
  ]
]

-- An actor that has left is taken out of the zone's table.
module _ (b : Body) (a : Ref) (id : Uuid) (told : List Ref) (v : IsPlaced b) where
  abbrev dismissed : Body
  dismissed = record (set_actor_zone a none b) {
    actors_by_id = delete id b.actors_by_id;
    evicted = told;
  }

  dismiss-IsPlaced : IsPlaced dismissed
  dismiss-IsPlaced = record {
    listed = λ l x. ground (arith, v.listed l x);
    unplaced = λ x h. ground (arith, v.unplaced x);
    unlisted = λ l h. ground (arith, v.unlisted l);
    known_actors = λ k x h. ground (arith, v.known_actors k x, lookup-delete id k b.actors_by_id);
    known_locations = v.known_locations;
    known_default = v.known_default;
  }

pub actor_remove-IsPlaced :
    (id : Uuid) (b : Body) → IsPlaced b → IsPlaced (memory_after b (apply_actor_remove id b))
unfolding apply_actor_remove
actor_remove-IsPlaced id b v = elim (Option-cases (lookup id b.actors_by_id)) [
  | inl k ↦ rw (k, apply_actor_remove) v
  | inr (a, k) ↦ elim (Option-cases (b.actors a).location) [
    | inl n ↦ rw (k, n, apply_actor_remove) v
    | inr (from, f) ↦
        rw (k, f, apply_actor_remove) (dismiss-IsPlaced _ a id _ (leave-IsPlaced b a from v f))
  ]
]

pub actor_migrate_out-IsPlaced :
    (e : ActorMigrateOut) (b : Body)
    → IsPlaced b
    → IsPlaced (memory_after b (apply_actor_migrate_out e b))
unfolding apply_actor_migrate_out
actor_migrate_out-IsPlaced e b v = elim (Option-cases (lookup e.actor_id b.actors_by_id)) [
  | inl k ↦ rw (k, apply_actor_migrate_out) v
  | inr (a, k) ↦ elim (Option-cases (b.actors a).location) [
    | inl n ↦ rw (k, n, apply_actor_migrate_out) v
    | inr (from, f) ↦
        rw (k, f, apply_actor_migrate_out) (dismiss-IsPlaced _ a _ _ (leave-IsPlaced b a from v f))
  ]
]

-- A new actor appears in a location, or nowhere.
module _ (b : Body) (actor : Actor) (drawn : ℕ) (v : IsPlaced b) where
  abbrev pub allocated : Body
  allocated = record b {
    actors = put b.actors b.next_ref actor;
    next_ref = suc b.next_ref;
    ids_drawn = drawn;
  }

  pub appear-IsPlaced :
      (loc : Ref)
      → loc < b.next_ref
      → IsPlaced (
          register_actor b.next_ref (
            set_actor_location b.next_ref (some loc) (location_add_actor loc b.next_ref allocated)))
  unfolding location_add_actor
  appear-IsPlaced loc known = record {
    listed = λ l x. ground (
      arith,
      v.listed l x,
      v.listed l b.next_ref,
      v.listed loc b.next_ref,
      v.unplaced b.next_ref,
      contains-count (b.locations loc).actors b.next_ref,
      count-append x (b.locations loc).actors (b.next_ref ∷ []),
    );
    unplaced = λ x h. ground (arith, v.unplaced x);
    unlisted = λ l h. ground (arith, v.unlisted l);
    known_actors = λ k x h.
        ground (arith, v.known_actors k x, lookup-insert actor.id k b.next_ref b.actors_by_id);
    known_locations = λ k l h. ground (arith, v.known_locations k l);
    known_default = λ l h. ground (arith, v.known_default l);
  }

  appear_nowhere-IsPlaced :
      IsPlaced (register_actor b.next_ref (set_actor_location b.next_ref none allocated))
  appear_nowhere-IsPlaced = record {
    listed = λ l x. ground (arith, v.listed l x, v.listed l b.next_ref, v.unplaced b.next_ref);
    unplaced = λ x h. ground (arith, v.unplaced x);
    unlisted = λ l h. ground (arith, v.unlisted l);
    known_actors = λ k x h.
        ground (arith, v.known_actors k x, lookup-insert actor.id k b.next_ref b.actors_by_id);
    known_locations = λ k l h. ground (arith, v.known_locations k l);
    known_default = λ l h. ground (arith, v.known_default l);
  }

pub actor_migrate_in-IsPlaced :
    (e : ActorMigrateIn) (b : Body)
    → IsPlaced b
    → IsPlaced (memory_after b (apply_actor_migrate_in e b))
unfolding apply_actor_migrate_in
actor_migrate_in-IsPlaced e b v = elim (Option-cases (lookup e.to_loc_id b.locations_by_id)) [
  | inl n ↦ elim (Bool-cases (e.actor_id == nil_uuid)) [
    | inl z ↦ rw (n, z, apply_actor_migrate_in) (appear_nowhere-IsPlaced b _ _ v)
    | inr z ↦ rw (n, z, apply_actor_migrate_in) (appear_nowhere-IsPlaced b _ _ v)
  ]
  | inr (loc, n) ↦ elim (Bool-cases (e.actor_id == nil_uuid)) [
    | inl z ↦
        rw (n, z, apply_actor_migrate_in) (appear-IsPlaced b _ _ v loc (v.known_locations _ loc n))
    | inr z ↦
        rw (n, z, apply_actor_migrate_in) (appear-IsPlaced b _ _ v loc (v.known_locations _ loc n))
  ]
]
