-- ===== src/Core/Process/Log/Persisted.antt =====
-- processCommand of core/zone.go with its persister.
use mathlib.Core.List.{append-nil, append_assoc}
use gomud.Base.{true, Option, none, some, List, [], ◌∷◌, ◌++◌, ◌≡◌, arith, ap, sym, ◌∙◌, subst}
use gomud.Core.Monad.{Error, Outcome, returns, fails, panics, and_then}
use gomud.Core.Event.{Event}
use gomud.Core.Command.{Command}
use gomud.Core.Apply.{Value}
use gomud.Core.Zone.{State, replay, persist, persist_with, persisting, answer}
use gomud.Core.Process.Inversion.{returns_state}
use gomud.Core.Process.Recorded.{Records, Numbered, number_after}
use gomud.Core.Process.Dispatch.{handle, process_command}
use gomud.Core.Process.Log.{Persistable, Recorded, recorded}
use gomud.Core.Process.Log.Handlers.{records_itself, handle-Recorded}

-- A persister that takes every event.
abbrev pub TakesAll : State → Type 0
TakesAll s = (p : Event → Option Error) × (s.persister ≡ some p) × ((e : Event) → p e ≡ none)

persist_with-all :
    (p : Event → Option Error) (es : List Event) (s : State)
    → ((e : Event) → p e ≡ none)
    → Persistable es
    → persist_with p es none s ≡ (none, record s { persisted = s.persisted ++ es })
unfolding persist_with
persist_with-all p [] s h k = ground (arith, append-nil {0} s.persisted)
persist_with-all p (e ∷ es) s h k =
    rw (k.0, h e)
      (persist_with-all p es (record s { persisted = s.persisted ++ e ∷ [] }) h k.1
        ∙ ap (λ l. (none, record s { persisted = l })) (append_assoc s.persisted (e ∷ []) es))

persist-all :
    (es : List Event) (s : State)
    → TakesAll s
    → Persistable es
    → persist es s ≡ (none, record s { persisted = s.persisted ++ es })
unfolding persist
persist-all es s (p, h, k) l =
    ap {B = Option Error × State}
      (λ o. elim o [ none ↦ (none, s) | some f ↦ persist_with f es none s ]) h
    ∙ persist_with-all p es s k l

-- What a zone has logged since a state, and how it got from there.
pub record Logged (s t : State) : Type 0 where
  pub events : List Event
  pub appended : t.persisted ≡ s.persisted ++ events
  pub numbered : Numbered s.next_sequence_id events
  pub counted : t.next_sequence_id ≡ number_after s.next_sequence_id events
  pub persister_kept : t.persister ≡ s.persister
  pub reproduced : replay events s ≡ returns tt (record t { persisted = s.persisted })

persisted-Logged :
    (s u : State) (es : List Event)
    → Records s es u
    → Logged s (record u { persisted = u.persisted ++ es })
persisted-Logged s u es done = record {
  events = es;
  appended = ap (λ l. l ++ es) done.persisted_kept;
  numbered = done.numbered;
  counted = done.counted;
  persister_kept = done.persister_kept;
  reproduced =
      done.replayed ∙ ap (λ l. returns tt (record u { persisted = l })) done.persisted_kept;
}

persisting-Logged :
    (s : State) (r : Outcome State (Value × List Event))
    → TakesAll s
    → Recorded s r
    → {v : Value} {t : State} → and_then r (λ x u. answer x.0 (persist x.1 u)) ≡ returns v t
    → Logged s t
persisting-Logged s (returns x u) (p, h, k) (recorded done all) q =
    let written = persist-all x.1 u (p, done.persister_kept ∙ h, k) all in
    subst (Logged s) (returns_state (sym (ap (answer x.0) written) ∙ q))
      (persisted-Logged s u x.1 done)
persisting-Logged s (fails e u) h k q = cc
persisting-Logged s panics h k q = cc

-- Every command but an actor death, a migration in, a location removal and a melee, if it succeeds
-- and the persister takes every event, appends to the log events that are numbered without gaps
-- from the zone's next number, and replaying them from the zone's state before the command gives
-- the state after it, but for the log itself.
pub process_command-Logged :
    (s : State) (c : Command) {v : Value} {t : State}
    → records_itself c ≡ true
    → TakesAll s
    → process_command c s ≡ returns v t
    → Logged s t
unfolding process_command persisting
process_command-Logged s c h k q = persisting-Logged s (handle c s) k (handle-Recorded s c h) q
