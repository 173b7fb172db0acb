-- ===== src/Core/Zone.antt =====
-- applyEvent, ReplayEvents and the persisting end of processCommand in core/zone.go.
use gomud.Base.{ℕ, ◌+◌, ◌%◌, ◌^◌, Option, none, some, List, [], ◌∷◌, ◌++◌, if◌then◌else◌}
use gomud.Core.Data.{Ref}
use gomud.Core.Monad.{Error, Outcome, returns, fails, panics, M, and_then}
use gomud.Core.Body.{Body}
use gomud.Core.Event.{Event, Payload, should_persist}
use gomud.Core.Apply.{Value, apply_payload}

-- A zone with its memory. `sent` logs the calls of SendEvent, `persisted` the events that the
-- persister has taken; `persister` is nil, or answers PersistEvent with an error or none.
pub record State : Type 0 where
  pub body : Body
  pub next_sequence_id : ℕ
  pub sent : List (Ref × Event)
  pub persister : Option (Event → Option Error)
  pub persisted : List Event

-- uint64
abbrev pub next_number : ℕ → ℕ
next_number n = (n + 1) % 2 ^ 64

-- sendEventToObservers
abbrev pub deliveries : Event → List Ref → List (Ref × Event)
deliveries e [] = []
deliveries e (o ∷ os) = (o, e) ∷ deliveries e os

-- Code that touches the zone's memory only.
abbrev pub back_in : {A : Type 0} → Outcome Body A → M State A
back_in (returns a b) s = returns a (record s { body = b })
back_in (fails e b) s = fails e (record s { body = b })
back_in panics s = panics

abbrev pub on_body : {A : Type 0} → M Body A → M State A
on_body m s = back_in (m s.body) s

abbrev pub finish : Event → Value × List Ref → M State Value
finish e (v, os) s =
    returns v
      (record s { next_sequence_id = next_number e.sequence_num; sent = s.sent ++ deliveries e os })

unfoldable pub apply_event : Event → M State Value
apply_event e s = and_then (on_body (apply_payload e.payload) s) (finish e)

-- Events are numbered as they are applied: `SetSequenceNumber`, `nextSequenceId`, `applyEvent`.
unfoldable pub submit : Payload → M State (Value × Event)
submit p s =
    let e : Event = record { sequence_num = s.next_sequence_id; payload = p } in
    and_then (apply_event e (record s { next_sequence_id = next_number s.next_sequence_id }))
      (λ v t. returns (v, e) t)

-- The loops that number and apply a list of events, as after a death.
unfoldable pub submit_all : List Payload → M State (List Event)
submit_all [] s = returns [] s
submit_all (p ∷ ps) s =
    let rest = submit_all ps in
    and_then (submit p s) λ r t. and_then (rest t) λ es u. returns (r.1 ∷ es) u

-- ReplayEvents, on the events that the channel yields.
unfoldable pub replay : List Event → M State (Unit {0})
replay [] s = returns tt s
replay (e ∷ es) s = let rest = replay es in and_then (apply_event e s) λ _ t. rest t

-- The loop over outEvents: the error of the last call of PersistEvent is the one that is returned.
unfoldable pub persist_with :
    (Event → Option Error) → List Event → Option Error → State → Option Error × State
persist_with p [] last s = (last, s)
persist_with p (e ∷ es) last s =
    let skipped = persist_with p es last s in
    let taken = persist_with p es none (record s { persisted = s.persisted ++ e ∷ [] }) in
    let refused = λ (x : Error). persist_with p es (some x) s in
    if should_persist e then elim (p e) [ none ↦ taken | some x ↦ refused x ] else skipped

unfoldable pub persist : List Event → State → Option Error × State
unfolding persist_with
persist es s = elim s.persister [ none ↦ (none, s) | some p ↦ persist_with p es none s ]

abbrev pub answer : Value → Option Error × State → Outcome State Value
answer v (none, s) = returns v s
answer v (some e, s) = fails e s

-- The end of processCommand: `outEvents` of a handler that returned no error are persisted.
unfoldable pub persisting : M State (Value × List Event) → M State Value
unfolding persist
persisting handler s = and_then (handler s) λ r t. answer r.0 (persist r.1 t)
