-- ===== src/Core/Process/Log/Restart.antt =====
-- A zone of core/zone.go that answers commands, and is loaded again from what it has persisted.
use mathlib.Core.List.{append-nil, append_assoc}
use gomud.Base.{true, List, [], ◌∷◌, ◌++◌, ◌≡◌, refl, sym, ◌∙◌, ap, subst, All}
use gomud.Core.Data.{Ref}
use gomud.Core.Monad.{Outcome, returns, fails, panics, M, and_then}
use gomud.Core.Body.{Body}
use gomud.Core.Event.{Event}
use gomud.Core.Command.{Command}
use gomud.Core.Apply.{Value, apply_payload}
use gomud.Core.Zone.{State, back_in, finish, apply_event, replay}
use gomud.Core.Process.Inversion.{returns_state, and_then-eq-returns}
use gomud.Core.Process.Recorded.{
  Numbered, number_after, replay-append, number_after-append, Numbered-append,
}
use gomud.Core.Process.Dispatch.{process_command}
use gomud.Core.Process.Log.Handlers.{records_itself}
use gomud.Core.Process.Log.Persisted.{TakesAll, Logged, process_command-Logged}

-- Commands that are answered one after the other, up to the first that fails.
unfoldable pub run : List Command → M State (Unit {0})
run [] s = returns tt s
run (c ∷ cs) s = let rest = run cs in and_then (process_command c s) λ _ t. rest t

finish-persisted :
    (e : Event) (s : State) (log : List Event) (r : Outcome Body (Value × List Ref)) {v : Value}
    {u : State}
    → and_then (back_in r s) (finish e) ≡ returns v u
    → and_then (back_in r (record s { persisted = log })) (finish e)
      ≡ returns v (record u { persisted = log })
finish-persisted e s log (returns (v, os) b) q = cc
finish-persisted e s log (fails x b) q = cc
finish-persisted e s log panics q = cc

apply_event-persisted :
    (e : Event) (s : State) (log : List Event) {v : Value} {u : State}
    → apply_event e s ≡ returns v u
    → apply_event e (record s { persisted = log }) ≡ returns v (record u { persisted = log })
unfolding apply_event
apply_event-persisted e s log q = finish-persisted e s log (apply_payload e.payload s.body) q

-- The log plays no part in a replay.
replay-persisted :
    (es : List Event) (s : State) (log : List Event) {u : State}
    → replay es s ≡ returns tt u
    → replay es (record s { persisted = log }) ≡ returns tt (record u { persisted = log })
unfolding replay
replay-persisted [] s log q =
    ap (λ (u : State). returns tt (record u { persisted = log })) (returns_state q)
replay-persisted (e ∷ es) s log q =
    let (v, m, first, rest) = and_then-eq-returns (apply_event e s) (λ _ t. replay es t) q in
    rw (apply_event-persisted e s log first) (replay-persisted es m log rest)

Logged-refl : (s : State) → Logged s s
unfolding replay
Logged-refl s = record {
  events = [];
  appended = sym (append-nil {0} s.persisted);
  numbered = tt;
  counted = refl;
  persister_kept = refl;
  reproduced = refl;
}

Logged-trans : (s t u : State) → Logged s t → Logged t u → Logged s u
Logged-trans s t u p q = record {
  events = p.events ++ q.events;
  appended =
      q.appended ∙ ap (λ l. l ++ q.events) p.appended ∙ append_assoc s.persisted p.events q.events;
  numbered =
      Numbered-append _ p.events q.events p.numbered
        (subst (λ n. Numbered n q.events) p.counted q.numbered);
  counted =
      q.counted
      ∙ ap (λ n. number_after n q.events) p.counted
      ∙ sym (number_after-append _ p.events q.events);
  persister_kept = q.persister_kept ∙ p.persister_kept;
  reproduced =
      replay-append p.events q.events s p.reproduced
      ∙ replay-persisted q.events t s.persisted q.reproduced;
}

-- Commands, none of which is an actor death, a migration in, a location removal or a melee, that a
-- zone whose persister takes every event answers one after the other append to the log events that
-- are numbered without gaps from the zone's next number, and replaying them from the state before
-- the first command gives the state after the last, but for the log itself.
pub run-Logged :
    (cs : List Command) (s : State) {t : State}
    → All (λ c. records_itself c ≡ true) cs
    → TakesAll s
    → run cs s ≡ returns tt t
    → Logged s t
unfolding run
run-Logged [] s h k q = subst (Logged s) (returns_state q) (Logged-refl s)
run-Logged (c ∷ cs) s h (p, taken, all) q =
    let (v, m, first, rest) = and_then-eq-returns (process_command c s) (λ _ t. run cs t) q in
    let logged = process_command-Logged s c h.0 (p, taken, all) first in
    Logged-trans s m _ logged (run-Logged cs m h.1 (p, logged.persister_kept ∙ taken, all) rest)
