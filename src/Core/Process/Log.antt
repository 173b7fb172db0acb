-- ===== src/Core/Process/Log.antt =====
-- The events that a handler of core/zone.go returns to processCommand.
pub mod Handlers
pub mod Persisted
pub mod Restart
use mathlib.Core.List.{append-nil, append_assoc}
use gomud.Base.{
  ℕ, String, Bool, true, false, Option, none, some, List, [], ◌∷◌, ◌++◌, ◌≡◌, refl, arith, map, not,
  ap, sym, ◌∙◌, subst, All, lookup, ◌&&◌, ◌||◌, ◌==◌,
}
use gomud.Core.Data.{
  Ref, Uuid, nil_uuid, Container, nil_container, location_container, actor_container,
  object_container, Exit,
}
use gomud.Core.Monad.{
  Result, ok, err, Error, Outcome, returns, fails, panics, M, and_then, deref, some_or, guard,
}
use gomud.Core.Body.{Body}
use gomud.Core.Container.{container_check_move}
use gomud.Core.Event.{
  Event, Payload, should_persist, payload_should_persist, actor_migrate_out, ActorAddToZone,
  ActorMove, ActorAdminRelocate, LocationText, ExitText, ObjectAddToZone, ObjectAdminRelocate,
}
use gomud.Core.Command.{
  Command, actor_add_command, actor_move_command, actor_admin_relocate_command,
  actor_remove_command, actor_death_command, actor_migrate_in_command, actor_migrate_out_command,
  actor_speak_command, location_add_command, location_update_command, location_remove_command,
  exit_add_command, exit_update_command, exit_remove_command, object_add_command,
  object_move_command, object_move_subcontainer_command, object_admin_relocate_command,
  object_remove_command, set_default_location_command, combat_melee_command, MigrateCommand,
  ObjectMoveCommand, ObjectMoveSubcontainerCommand,
}
use gomud.Core.Apply.{Value, nothing}
use gomud.Core.Zone.{State, on_body, back_in, submit, submit_all, replay, persist, persisting}
use gomud.Core.Process.Common.{single, object_container_tuples}
use gomud.Core.Process.Rules.{guard-rule, some_or-rule, deref-rule}
use gomud.Core.Process.Recorded.{Records, submit-Records, submit_all-Records}
use gomud.Core.Process.Actors.{
  process_actor_add, process_actor_move, process_actor_admin_relocate, process_actor_remove,
  process_actor_speak, process_actor_migrate_out,
}
use gomud.Core.Process.Locations.{
  process_location_add, process_location_update, process_exit_add, process_exit_update,
  process_exit_remove, process_set_default_location, check_prior,
}
use gomud.Core.Process.Objects.{
  process_object_add, process_object_move, process_object_move_subcontainer,
  process_object_admin_relocate, process_object_remove,
}

abbrev pub Persistable : List Event → Type 0
Persistable = All (λ e. should_persist e ≡ true)

-- A handler that returns has recorded what it did, in events that are all persisted.
pub data Recorded (s : State) : Outcome State (Value × List Event) → Type 0 where
  recorded :
      {r : Value × List Event} {t : State}
      → Records s r.1 t
      → Persistable r.1
      → Recorded s (returns r t)
  failed : (e : Error) (t : State) → Recorded s (fails e t)
  panicked : Recorded s panics

single_outcome :
    (s : State) (p : Payload)
    → payload_should_persist p ≡ true
    → (r : Outcome State (Value × Event)) → submit p s ≡ r
    → Recorded s (and_then {B = Value × List Event} r (λ x t. returns (x.0, x.1 ∷ []) t))
single_outcome s p h (returns (v, e) t) q =
    let (done, same) = submit-Records p s q in
    recorded done (ap payload_should_persist same ∙ h, tt)
single_outcome s p h (fails e t) q = failed e t
single_outcome s p h panics q = panicked

-- A single event is recorded.
pub single-Recorded :
    (s : State) (p : Payload) → payload_should_persist p ≡ true → Recorded s (single p s)
single-Recorded s p h = single_outcome s p h (submit p s) refl

Persistable-map :
    (es : List Event)
    → All (λ p. payload_should_persist p ≡ true) (map (λ (e : Event). e.payload) es)
    → Persistable es
Persistable-map [] h = tt
Persistable-map (e ∷ es) h = (h.0, Persistable-map es h.1)

pub submit_list-Recorded :
    (s : State) (ps : List Payload)
    → All (λ p. payload_should_persist p ≡ true) ps
    → (r : Outcome State (List Event)) → submit_all ps s ≡ r
    → Recorded s (and_then {B = Value × List Event} r (λ es t. returns (nothing, es) t))
submit_list-Recorded s ps h (returns es t) q =
    let (done, same) = submit_all-Records ps s q in
    recorded done
      (Persistable-map es (subst (All (λ p. payload_should_persist p ≡ true)) (sym same) h))
submit_list-Recorded s ps h (fails e t) q = failed e t
submit_list-Recorded s ps h panics q = panicked

-- A test that changes nothing.
pub data Checks (s : State) : Outcome State (Unit {0}) → Type 0 where
  passed : Checks s (returns tt s)
  refused : (e : Error) → Checks s (fails e s)
  crashed : Checks s panics

module _ (s : State) where
  pub guard-Recorded :
      (test : Bool) (e : Error) (f : Unit {0} → M State (Value × List Event))
      → Recorded s (f tt s)
      → Recorded s (and_then (guard test e s) f)
  guard-Recorded test e f h = guard-rule (Recorded s) failed panicked test e s f h

  pub some_or-Recorded :
      {B : Type 0} (o : Option B) (e : Error) (f : B → M State (Value × List Event))
      → ((b : B) → Recorded s (f b s))
      → Recorded s (and_then (some_or o e s) f)
  some_or-Recorded o e f h = some_or-rule (Recorded s) failed panicked o e s f h

  pub deref-Recorded :
      {B : Type 0} (o : Option B) (f : B → M State (Value × List Event))
      → ((b : B) → Recorded s (f b s))
      → Recorded s (and_then (deref o s) f)
  deref-Recorded o f h = deref-rule (Recorded s) failed panicked o s f h

  pub Checks-Recorded :
      {o : Outcome State (Unit {0})}
      → Checks s o
      → (f : Unit {0} → M State (Value × List Event)) → Recorded s (f tt s)
      → Recorded s (and_then o f)
  Checks-Recorded passed f h = h
  Checks-Recorded (refused e) f h = failed e s
  Checks-Recorded crashed f h = panicked

  guard-Checks : (test : Bool) (e : Error) → Checks s (guard test e s)
  guard-Checks true e = passed
  guard-Checks false e = refused e

  and_then-Checks :
      {o : Outcome State (Unit {0})}
      → Checks s o
      → (f : Unit {0} → M State (Unit {0})) → Checks s (f tt s)
      → Checks s (and_then o f)
  and_then-Checks passed f h = h
  and_then-Checks (refused e) f h = refused e
  and_then-Checks crashed f h = crashed

  pub check_prior-Checks : (exit : Exit) → Checks s (check_prior exit s)
  unfolding check_prior
  check_prior-Checks exit = search (guard-Checks, and_then-Checks)

  move_check :
      (r : Result (Unit {0}))
      → Checks s (back_in (elim r [ ok u ↦ returns tt s.body | err e ↦ fails e s.body ]) s)
  move_check (ok tt) = passed
  move_check (err e) = refused e

  pub container_check_move-Checks :
      (c : Container) (o : Ref) (from to : String)
      → Checks s (on_body (container_check_move c o from to) s)
  unfolding container_check_move
  container_check_move-Checks nil_container o from to = crashed
  container_check_move-Checks (location_container l) o from to = refused _
  container_check_move-Checks (actor_container none) o from to = crashed
  container_check_move-Checks (actor_container (some a)) o from to = move_check _
  container_check_move-Checks (object_container p) o from to = refused _
