-- ===== src/Core/Places/Moves.antt =====
-- processActorMoveCommand of core/zone.go.
use gomud.Base.{◌<◌, ◌∙◌, true, refl, some, List, [], ◌∷◌, ◌≡◌, ◌≢◌, arith, lookup}
use gomud.Core.Data.{Ref}
use gomud.Core.Refs.{remove}
use gomud.Core.Refs.Laws.{count, count-remove_balance, count-append, contains-count}
use gomud.Core.Monad.{returns}
use gomud.Core.Body.{Body, location_remove_actor, location_add_actor}
use gomud.Core.Event.{Event, Payload, ActorMove, actor_move}
use gomud.Core.Apply.{Value, nothing, apply_payload}
use gomud.Core.Apply.Actors.{apply_actor_move}
use gomud.Core.Zone.{State, submit, apply_event}
use gomud.Core.Process.Common.{single}
use gomud.Core.Process.Actors.{has_exit_to, process_actor_move}
use gomud.Core.Process.Inversion.{single-Applied}
use gomud.Core.Places.{IsPlaced}

move-single :
    (e : ActorMove) (s : State) {r : Value × List Event} {t : State}
    → process_actor_move e s ≡ returns r t
    → (from to a : Ref) × (lookup e.from_location_id s.body.locations_by_id ≡ some from)
      × (lookup e.to_location_id s.body.locations_by_id ≡ some to)
      × (lookup e.actor_id s.body.actors_by_id ≡ some a)
      × (single (actor_move e) s ≡ returns r t)
unfolding process_actor_move
move-single e s q = ground arith

move-body :
    (e : ActorMove) (b c : Body) (v : Value) (os : List Ref) (from to a : Ref)
    → lookup e.from_location_id b.locations_by_id ≡ some from
    → lookup e.to_location_id b.locations_by_id ≡ some to
    → lookup e.actor_id b.actors_by_id ≡ some a
    → apply_payload (actor_move e) b ≡ returns (v, os) c
    → (l : Ref)
    → (c.locations l).actors
      ≡ ((location_add_actor to a (location_remove_actor from a b)).locations l).actors
unfolding apply_payload apply_actor_move
move-body e b c v os from to a f g k q l = ground arith

in_two_places :
    (e : ActorMove) (s t : State) (r : Value × List Event) (from to a here : Ref)
    → IsPlaced s.body
    → lookup e.from_location_id s.body.locations_by_id ≡ some from
    → lookup e.to_location_id s.body.locations_by_id ≡ some to
    → lookup e.actor_id s.body.actors_by_id ≡ some a
    → (s.body.actors a).location ≡ some here
    → here ≢ from
    → here ≢ to
    → process_actor_move e s ≡ returns r t
    → (count a (t.body.locations here).actors ≡ 1) × (count a (t.body.locations to).actors ≡ 1)
unfolding location_add_actor location_remove_actor
in_two_places e s t r from to a here v f g k h n m q =
    let (x, y, z, _, _, _, one) = move-single e s q in
    let (w, os, done) = single-Applied (actor_move e) s one in
    let lists = move-body e s.body t.body w os from to a f g k done in
    ground (
      arith,
      lists here,
      lists to,
      v.listed here a,
      v.listed from a,
      v.listed to a,
      count-remove_balance (s.body.locations from).actors a a,
      contains-count (s.body.locations from).actors a,
      contains-count (s.body.locations to).actors a,
      contains-count (remove (s.body.locations from).actors a) a,
      count-append a (s.body.locations to).actors (a ∷ []),
      count-append a (remove (s.body.locations from).actors a) (a ∷ []),
    )

exit_found :
    (b : Body) (xs : List Ref) (x to : Ref)
    → 0 < count x xs
    → (b.exits x).destination ≡ some to
    → has_exit_to b xs to ≡ true
unfolding has_exit_to
exit_found b [] x to h d = ground arith
exit_found b (y ∷ ys) x to h d = ground (arith, exit_found b ys x to)

move_applies :
    (e : ActorMove) (b : Body) (from to a : Ref)
    → lookup e.from_location_id b.locations_by_id ≡ some from
    → lookup e.to_location_id b.locations_by_id ≡ some to
    → lookup e.actor_id b.actors_by_id ≡ some a
    → (os : List Ref) × (c : Body) × (apply_payload (actor_move e) b ≡ returns (nothing, os) c)
unfolding apply_payload apply_actor_move
move_applies e b from to a f g k = rw (f, g, k) (_, _, refl)

move_guards :
    (e : ActorMove) (s : State) (from to a : Ref)
    → lookup e.from_location_id s.body.locations_by_id ≡ some from
    → lookup e.to_location_id s.body.locations_by_id ≡ some to
    → lookup e.actor_id s.body.actors_by_id ≡ some a
    → has_exit_to s.body (s.body.locations from).out_exits to ≡ true
    → process_actor_move e s ≡ single (actor_move e) s
unfolding process_actor_move
move_guards e s from to a f g k x = rw (f, g, k, x) refl

-- An event that is applied to the zone's memory is numbered and answered.
single_applied :
    (p : Payload) (s : State) (v : Value) (os : List Ref) (c : Body)
    → apply_payload p s.body ≡ returns (v, os) c
    → (r : Value × List Event) × (t : State) × (single p s ≡ returns r t)
unfolding submit apply_event
single_applied p s v os c q = rw q (_, _, refl)

-- A move from a location into another one, through an exit between the two, of an actor that stands
-- in a third location is accepted, puts the actor into the destination and leaves it in the third
-- one, if the actors are placed before it: two locations list it.
pub move_from_elsewhere :
    (e : ActorMove) (s : State) (from to a here x : Ref)
    → IsPlaced s.body
    → lookup e.from_location_id s.body.locations_by_id ≡ some from
    → lookup e.to_location_id s.body.locations_by_id ≡ some to
    → lookup e.actor_id s.body.actors_by_id ≡ some a
    → 0 < count x (s.body.locations from).out_exits
    → (s.body.exits x).destination ≡ some to
    → (s.body.actors a).location ≡ some here
    → here ≢ from
    → here ≢ to
    → (r : Value × List Event) × (t : State) × (process_actor_move e s ≡ returns r t)
      × (count a (t.body.locations here).actors ≡ 1)
      × (count a (t.body.locations to).actors ≡ 1)
move_from_elsewhere e s from to a here x v f g k leads d h n m =
    let exit = exit_found s.body (s.body.locations from).out_exits x to leads d in
    let (os, c, applied) = move_applies e s.body from to a f g k in
    let (r, t, one) = single_applied (actor_move e) s nothing os c applied in
    let q = move_guards e s from to a f g k exit ∙ one in
    let (stays, arrives) = in_two_places e s t r from to a here v f g k h n m q in
    (r, t, q, stays, arrives)
