-- ===== src/Core/Process/ExitUpdates.antt =====
-- processExitUpdateCommand of core/zone.go, twice in a row.
use gomud.Base.{none, some, List, [], ◌≡◌, ◌≢◌, arith, lookup}
use gomud.Core.Data.{Ref, nil_uuid}
use gomud.Core.Monad.{Outcome, returns, fails, panics, and_then}
use gomud.Core.Body.{Body}
use gomud.Core.Event.{Event, ExitText, exit_update}
use gomud.Core.Apply.{Value, nothing, apply_payload}
use gomud.Core.Apply.Locations.{apply_exit_update}
use gomud.Core.Apply.ExitTargets.{apply_exit_update-destination}
use gomud.Core.Zone.{State}
use gomud.Core.Process.Common.{single}
use gomud.Core.Process.Locations.{process_exit_update, check_prior}
use gomud.Core.Process.Inversion.{single-Applied}

-- The checks that stand before the event.
exit_update-single :
    (e : ExitText) (s : State) {r : Value × List Event} {t : State} (x : Ref)
    → lookup e.exit_id s.body.exits_by_id ≡ some x
    → process_exit_update e s ≡ returns r t
    → (single (exit_update e) s ≡ returns r t)
      × ((s.body.exits x).other_zone_id ≡ nil_uuid → (s.body.exits x).other_zone_loc_id ≡ nil_uuid)
unfolding process_exit_update check_prior
exit_update-single e s x h q = ground arith

quiet-body :
    (e : ExitText) (b c : Body) (v : Value) (os : List Ref)
    → apply_payload (exit_update e) b ≡ returns (v, os) c
    → apply_exit_update e b ≡ returns tt c
unfolding apply_payload
quiet-body e b c v os q = outcome (apply_exit_update e b) q
  where
    outcome :
        (r : Outcome Body (Unit {0}))
        → and_then {B = Value × List Ref} r (λ _ d. returns (nothing, []) d) ≡ returns (v, os) c
        → r ≡ returns tt c
    outcome (returns tt d) q = cc
    outcome (fails y d) q = cc
    outcome panics q = cc

-- An exit that leads nowhere cannot be updated.
stranded-refused :
    (f : ExitText) (t : State) {r : Value × List Event} {u : State} (x : Ref)
    → lookup f.exit_id t.body.exits_by_id ≡ some x
    → (t.body.exits x).destination ≡ none
    → (t.body.exits x).other_zone_id ≡ nil_uuid
    → (t.body.exits x).other_zone_loc_id ≡ nil_uuid
    → process_exit_update f t ≢ returns r u
unfolding process_exit_update check_prior
stranded-refused f t x h d z l q = ground arith

-- Where an update is accepted and names a destination inside the zone, the exit loses its
-- destination, and no later update that names the same exit is accepted in the state after it.
pub exit_update_strands :
    (e f : ExitText) (s : State) (r : Value × List Event) (t : State) (x : Ref)
    → lookup e.exit_id s.body.exits_by_id ≡ some x
    → e.dest_zone_id ≡ nil_uuid
    → process_exit_update e s ≡ returns r t
    → lookup f.exit_id t.body.exits_by_id ≡ some x
    → ((t.body.exits x).destination ≡ none)
      × ((r' : Value × List Event) (u : State) → process_exit_update f t ≢ returns r' u)
exit_update_strands e f s r t x h k q g =
    let before = exit_update-single e s x h q in
    let applied = single-Applied (exit_update e) s before.0 in
    let after =
      apply_exit_update-destination e s.body x h k
        (quiet-body e s.body t.body applied.0 applied.1 applied.2) in
    (
      after.0,
      λ r' u l.
          stranded-refused f t x g after.0 after.1 (ground (arith, after.2, after.3, before.1)) l,
    )
