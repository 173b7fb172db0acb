-- ===== src/Core/Places/Commands/Runs.antt =====
-- processCommand of core/zone.go, called again and again.
use gomud.Base.{
  Bool, true, false, Option, none, some, List, [], ◌∷◌, ◌++◌, ◌≡◌, refl, arith, sym, subst,
  Option-cases, inl, inr,
}
use gomud.Core.Monad.{Error, Outcome, returns, fails, M, and_then, guard, some_or}
use gomud.Core.Body.{Body}
use gomud.Core.Event.{Event, ActorMove, actor_move}
use gomud.Core.Command.{
  Command, actor_add_command, actor_move_command, actor_admin_relocate_command,
  actor_remove_command, actor_death_command, actor_migrate_in_command, actor_migrate_out_command,
  actor_speak_command, location_add_command, location_update_command, location_remove_command,
  exit_add_command, exit_update_command, exit_remove_command, object_add_command,
  object_move_command, object_move_subcontainer_command, object_admin_relocate_command,
  object_remove_command, set_default_location_command, combat_melee_command,
}
use gomud.Core.Apply.{Value}
use gomud.Core.Zone.{State, submit, persist, persist_with, persisting, answer}
use gomud.Core.Process.Actors.{process_actor_move}
use gomud.Core.Process.Dispatch.{handle, process_command}
use gomud.Core.Places.{IsPlaced}
use gomud.Core.Places.Appliers.{StartsHere}
use gomud.Core.Places.Commands.{
  Placed, returned, failed, panicked, and_then-Placed, in_place-Placed,
}
use gomud.Core.Places.Commands.Handlers.{
  actor_add-Placed, actor_admin_relocate-Placed, actor_remove-Placed, actor_speak-Placed,
  actor_migrate_out-Placed, location_add-Placed, location_update-Placed, location_remove-Placed,
  exit_add-Placed, exit_update-Placed, exit_remove-Placed, set_default-Placed, object_add-Placed,
  object_move-Placed, object_move_subcontainer-Placed, object_admin_relocate-Placed,
  object_remove-Placed,
}
use gomud.Core.Places.Commands.Fights.{
  actor_death-Placed, combat_melee-Placed, actor_migrate_in-Placed,
}

module _ {A : Type 0} (s : State) (v : IsPlaced s.body) where
  checked-Placed :
      (test : Bool) (e : Error) (f : Unit {0} → M State A)
      → Placed (f tt s)
      → Placed (and_then (guard test e s) f)
  checked-Placed true e f h = h
  checked-Placed false e f h = failed e s v

  found-Placed :
      {B : Type 0} (o : Option B) (e : Error) (f : B → M State A)
      → ((b : B) → Placed (f b s))
      → Placed (and_then (some_or o e s) f)
  found-Placed none e f h = failed e s v
  found-Placed (some b) e f h = h b

actor_move-Placed :
    (e : ActorMove) (s : State)
    → IsPlaced s.body
    → StartsHere e s.body
    → Placed (process_actor_move e s)
unfolding process_actor_move
actor_move-Placed e s v h =
    let event : Placed (submit (actor_move e) s) = in_place-Placed (actor_move e) s v h in
    search (checked-Placed, found-Placed, and_then-Placed, returned) depth 12

-- A command that moves an actor through an exit names the location where the actor stands.
abbrev pub StartsInPlace : Command → Body → Type 0
StartsInPlace (actor_move_command e) b = StartsHere e b
StartsInPlace _ b = Unit {0}

handle-Placed :
    (c : Command) (s : State) → IsPlaced s.body → StartsInPlace c s.body → Placed (handle c s)
unfolding handle
handle-Placed (actor_add_command e) s v h = actor_add-Placed e s v
handle-Placed (actor_move_command e) s v h = actor_move-Placed e s v h
handle-Placed (actor_admin_relocate_command e) s v h = actor_admin_relocate-Placed e s v
handle-Placed (actor_remove_command id) s v h = actor_remove-Placed id s v
handle-Placed (actor_death_command a) s v h = actor_death-Placed a s v
handle-Placed (actor_migrate_in_command c os) s v h = actor_migrate_in-Placed c os s v
handle-Placed (actor_migrate_out_command c) s v h = actor_migrate_out-Placed c s v
handle-Placed (actor_speak_command a speech) s v h = actor_speak-Placed a speech s v
handle-Placed (location_add_command e) s v h = location_add-Placed e s v
handle-Placed (location_update_command e) s v h = location_update-Placed e s v
handle-Placed (location_remove_command id) s v h = location_remove-Placed id s v
handle-Placed (exit_add_command e) s v h = exit_add-Placed e s v
handle-Placed (exit_update_command e) s v h = exit_update-Placed e s v
handle-Placed (exit_remove_command id) s v h = exit_remove-Placed id s v
handle-Placed (object_add_command e) s v h = object_add-Placed e s v
handle-Placed (object_move_command c) s v h = object_move-Placed c s v
handle-Placed (object_move_subcontainer_command c) s v h = object_move_subcontainer-Placed c s v
handle-Placed (object_admin_relocate_command e) s v h = object_admin_relocate-Placed e s v
handle-Placed (object_remove_command name id) s v h = object_remove-Placed name id s v
handle-Placed (set_default_location_command id) s v h = set_default-Placed id s v
handle-Placed (combat_melee_command c) s v h = combat_melee-Placed c s v

persist_with-body :
    (p : Event → Option Error) (es : List Event) (last : Option Error) (s : State)
    → (persist_with p es last s).1.body ≡ s.body
unfolding persist_with
persist_with-body p [] last s = refl
persist_with-body p (e ∷ es) last s = elim (Option-cases (p e)) [
  | inl taken ↦ ground (
    arith,
    persist_with-body p es last s,
    persist_with-body p es none (record s { persisted = s.persisted ++ e ∷ [] }),
  )
  | inr (x, refused) ↦
      ground (arith, persist_with-body p es last s, persist_with-body p es (some x) s)
]

persisted-IsPlaced :
    (o : Option (Event → Option Error)) (es : List Event) (s : State)
    → IsPlaced s.body
    → let r : Option Error × State = elim o [
      | none ↦ (none, s)
      | some p ↦ persist_with p es none s
    ] in
      IsPlaced r.1.body
persisted-IsPlaced none es s v = v
persisted-IsPlaced (some p) es s v = subst IsPlaced (sym (persist_with-body p es none s)) v

persist-IsPlaced : (es : List Event) (s : State) → IsPlaced s.body → IsPlaced (persist es s).1.body
unfolding persist
persist-IsPlaced es s v = persisted-IsPlaced s.persister es s v

answer-Placed : (x : Value) (r : Option Error × State) → IsPlaced r.1.body → Placed (answer x r)
answer-Placed x (none, s) v = returned x s v
answer-Placed x (some e, s) v = failed e s v

-- Every command leaves actors that are placed so, whether it succeeds, fails or is refused by the
-- persister, if an actor that is moved through an exit stands where the command says.
pub process_command-Placed :
    (c : Command) (s : State)
    → IsPlaced s.body
    → StartsInPlace c s.body
    → Placed (process_command c s)
unfolding process_command persisting
process_command-Placed c s v h =
    and_then-Placed (handle c s) _ (handle-Placed c s v h)
      λ r t w. answer-Placed r.0 (persist r.1 t) (persist-IsPlaced r.1 t w)

-- A run of a zone: commands one after the other, of which some fail.
pub data Reaches (s : State) : State → Type 0 where
  started : Reaches s s
  answered :
      (t u : State) (c : Command) (x : Value)
      → Reaches s t
      → StartsInPlace c t.body
      → process_command c t ≡ returns x u
      → Reaches s u
  refused :
      (t u : State) (c : Command) (e : Error)
      → Reaches s t
      → StartsInPlace c t.body
      → process_command c t ≡ fails e u
      → Reaches s u

returned-IsPlaced :
    {A : Type 0} (r : Outcome State A) (x : A) (u : State)
    → Placed r
    → r ≡ returns x u
    → IsPlaced u.body
returned-IsPlaced r x u (returned y t v) q = subst (λ (w : State). IsPlaced w.body) same_state v
  where
    same_state : t ≡ u
    same_state = cc
returned-IsPlaced r x u (failed e t v) q = cc
returned-IsPlaced r x u panicked q = cc

failed-IsPlaced :
    {A : Type 0} (r : Outcome State A) (e : Error) (u : State)
    → Placed r
    → r ≡ fails e u
    → IsPlaced u.body
failed-IsPlaced r e u (returned y t v) q = cc
failed-IsPlaced r e u (failed y t v) q = subst (λ (w : State). IsPlaced w.body) same_state v
  where
    same_state : t ≡ u
    same_state = cc
failed-IsPlaced r e u panicked q = cc

-- Whatever commands a zone has answered or refused, its actors are placed if they were at the
-- start, and if each actor that was moved through an exit stood where the command said.
pub Reaches-IsPlaced : (s t : State) → IsPlaced s.body → Reaches s t → IsPlaced t.body
Reaches-IsPlaced s t v started = v
Reaches-IsPlaced s t v (answered m u c x before h q) =
    returned-IsPlaced (process_command c m) x u
      (process_command-Placed c m (Reaches-IsPlaced s m v before) h) q
Reaches-IsPlaced s t v (refused m u c e before h q) =
    failed-IsPlaced (process_command c m) e u
      (process_command-Placed c m (Reaches-IsPlaced s m v before) h) q
