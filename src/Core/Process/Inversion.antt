-- ===== src/Core/Process/Inversion.antt =====
-- From a handler that returned back to the event that it applied.
use gomud.Base.{List, [], ◌∷◌, ◌≡◌, refl, ap, ◌∙◌}
use gomud.Core.Data.{Ref}
use gomud.Core.Monad.{Outcome, returns, fails, panics, M, and_then}
use gomud.Core.Body.{Body}
use gomud.Core.Event.{Event, Payload}
use gomud.Core.Apply.{Value, apply_payload}
use gomud.Core.Zone.{State, next_number, back_in, finish, apply_event, submit}
use gomud.Core.Process.Common.{single}

pub returns_state : {S A : Type 0} {a b : A} {s t : S} → returns a s ≡ returns b t → s ≡ t
returns_state q = cc

pub returns_value : {S A : Type 0} {a b : A} {s t : S} → returns a s ≡ returns b t → a ≡ b
returns_value q = cc

pub and_then-eq-returns :
    {S A B : Type 0} (r : Outcome S A) (f : A → M S B) {b : B} {t : S}
    → and_then r f ≡ returns b t
    → (a : A) × (u : S) × (r ≡ returns a u) × (f a u ≡ returns b t)
and_then-eq-returns (returns a u) f q = (a, u, refl, q)
and_then-eq-returns (fails e u) f q = cc
and_then-eq-returns panics f q = cc

-- What an applied event has done to the zone's memory.
abbrev pub Applied : Payload → State → State → Type 0
Applied p s t = (v : Value) × (os : List Ref) × (apply_payload p s.body ≡ returns (v, os) t.body)

finished :
    (p : Payload) (s s' : State) (r : Outcome Body (Value × List Ref)) (e x : Event)
    → apply_payload p s.body ≡ r
    → {a : Value × Event} {t : State}
    → and_then {B = Value × Event} (and_then (back_in r s') (finish e)) (λ v u. returns (v, x) u)
      ≡ returns a t
    → Applied p s t
finished p s s' (returns (v, os) b) e x h q =
    (v, os, h ∙ ap (returns (v, os)) (ap (λ (u : State). u.body) (returns_state q)))
finished p s s' (fails y b) e x h q = cc
finished p s s' panics e x h q = cc

pub submit-Applied :
    (p : Payload) (s : State) {r : Value × Event} {t : State}
    → submit p s ≡ returns r t
    → Applied p s t
unfolding submit apply_event
submit-Applied p s q =
    let e : Event = record { sequence_num = s.next_sequence_id; payload = p } in
    finished p s (record s { next_sequence_id = next_number s.next_sequence_id })
      (apply_payload p s.body) e e refl q

pub single-Applied :
    (p : Payload) (s : State) {r : Value × List Event} {t : State}
    → single p s ≡ returns r t
    → Applied p s t
single-Applied p s {r} {t} q =
    let (a, u, done, last) =
      and_then-eq-returns {B = Value × List Event} (submit p s) (λ x v. returns (x.0, x.1 ∷ []) v)
        q in
    moved done (returns_state last)
  where
    moved : {a : Value × Event} {u : State} → submit p s ≡ returns a u → u ≡ t → Applied p s t
    moved {a} h k = submit-Applied p s (h ∙ ap (returns a) k)
