-- ===== src/Core/Process/LocationRemoval.antt =====
-- What processLocationRemoveFromZoneCommand leaves to the log.
use gomud.Base.{List, [], ◌∷◌, ◌≡◌, delete, refl, ap, sym, ◌∙◌}
use gomud.Core.Data.{Uuid}
use gomud.Core.Monad.{Error, M, Outcome, returns, fails, panics, and_then}
use gomud.Core.Event.{Event, Payload, location_remove_from_zone}
use gomud.Core.Apply.{Value, nothing, apply_payload}
use gomud.Core.Apply.Locations.{apply_location_remove}
use gomud.Core.Zone.{State, submit}
use gomud.Core.Process.Common.{single}
use gomud.Core.Process.Locations.{process_location_remove}
use gomud.Core.Process.Recorded.{submit-Records}
use gomud.Core.Process.Inversion.{returns_value, and_then-eq-returns}

single-events :
    (p : Payload) (s : State) {r : Value × List Event} {t : State}
    → single p s ≡ returns r t
    → (e : Event) × (r.1 ≡ e ∷ []) × (e.payload ≡ p)
single-events p s {r} {t} q =
    let (a, u, done, last) =
      and_then-eq-returns {B = Value × List Event} (submit p s) (λ x v. returns (x.0, x.1 ∷ []) v)
        q in
    (
      a.1,
      sym (ap (λ (x : Value × List Event). x.1) (returns_value last)),
      (submit-Records p s done).1,
    )

-- If the handler succeeds, it has returned one event with the payload.
data Ends (p : Payload) : Outcome State (Value × List Event) → Type 0 where
  ended :
      {r : Value × List Event} {t : State}
      → (e : Event) → r.1 ≡ e ∷ []
      → e.payload ≡ p
      → Ends p (returns r t)
  failed : (e : Error) (t : State) → Ends p (fails e t)
  panicked : Ends p panics

single_outcome :
    (p : Payload) (s : State) (o : Outcome State (Value × List Event)) → single p s ≡ o → Ends p o
single_outcome p s (returns r t) q = let (e, h, k) = single-events p s q in ended e h k
single_outcome p s (fails x t) q = failed x t
single_outcome p s panics q = panicked

single-Ends : (p : Payload) (s : State) → Ends p (single p s)
single-Ends p s = single_outcome p s (single p s) refl

and_then-Ends :
    {A : Type 0} (p : Payload) (o : Outcome State A) (f : A → M State (Value × List Event))
    → ((a : A) (t : State) → Ends p (f a t))
    → Ends p (and_then o f)
and_then-Ends p (returns a t) f h = h a t
and_then-Ends p (fails e t) f h = failed e t
and_then-Ends p panics f h = panicked

removal-Ends :
    (id : Uuid) (s : State) → Ends (location_remove_from_zone id) (process_location_remove id s)
unfolding process_location_remove
removal-Ends id s = search (single-Ends, and_then-Ends) depth 16

ended-events :
    (p : Payload) {o : Outcome State (Value × List Event)}
    → Ends p o
    → {r : Value × List Event} {t : State} → o ≡ returns r t
    → (e : Event) × (r.1 ≡ e ∷ []) × (e.payload ≡ p)
ended-events p (ended e h k) q =
    (e, sym (ap (λ (x : Value × List Event). x.1) (returns_value q)) ∙ h, k)
ended-events p (failed e t) q = cc
ended-events p panicked q = cc

-- Whatever exits, actors and objects the removal of a location has removed or moved, if it
-- succeeds it returns a single event, and applying that event to the zone as it was before only
-- deletes the location's identifier.
pub process_location_remove-forgets :
    (id : Uuid) (s : State) {r : Value × List Event} {t : State}
    → process_location_remove id s ≡ returns r t
    → (e : Event) × (r.1 ≡ e ∷ [])
      × (apply_payload e.payload s.body
          ≡ returns
              (nothing, [])
              (record s.body { locations_by_id = delete id s.body.locations_by_id }))
unfolding apply_payload apply_location_remove
process_location_remove-forgets id s q =
    let (e, one, same) = ended-events _ (removal-Ends id s) q in (e, one, rw same)
