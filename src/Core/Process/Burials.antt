-- ===== src/Core/Process/Burials.antt =====
-- processActorDeathCommand and processCombatMeleeCommand of core/zone.go, to their last event.
use gomud.Base.{
  Bool, true, false, Option, none, List, [], ◌∷◌, ◌++◌, ◌≡◌, refl, sym, ◌∙◌, ap, subst, lookup,
  lookup-delete, arith, ◌⊎◌, inl, inr, ℤ, pos, ◌-ℤ◌, ◌≤ℤ◌, leb_ℤ, -ℤ_parts,
}
use gomud.Core.Data.{Ref, Uuid, Container, AttributeSet}
use gomud.Core.Monad.{Error, Outcome, returns, fails, panics, M, and_then, guard, deref}
use gomud.Core.Body.{Body, location_remove_actor}
use gomud.Core.Event.{Event, Payload, actor_remove_from_zone}
use gomud.Core.Command.{CombatMeleeCommand, Roll, dodged, hit}
use gomud.Core.Apply.{Value, nothing, apply_payload}
use gomud.Core.Apply.Actors.{apply_actor_remove}
use gomud.Core.Zone.{State, back_in, submit, submit_all}
use gomud.Core.Process.Inversion.{returns_state, Applied, submit-Applied, and_then-eq-returns}
use gomud.Core.Process.Rules.{guard-rule, deref-rule}
use gomud.Core.Process.Deaths.{
  relocations, do_actor_death, process_actor_death, is_fatal, death_if, strike, melee_payloads,
  process_combat_melee,
}

-- No actor is known under the identifier, if the code succeeds.
data Gone (id : Uuid) {A : Type 0} : Outcome State A → Type 0 where
  gone : (a : A) (t : State) → lookup id t.body.actors_by_id ≡ none → Gone id (returns a t)
  failed : (e : Error) (t : State) → Gone id (fails e t)
  panicked : Gone id panics

-- The payloads end with the removal of the actor, if the code succeeds.
data Buries (id : Uuid) : Outcome Body (List Payload) → Type 0 where
  buried :
      (ps qs : List Payload) (b : Body)
      → qs ≡ ps ++ actor_remove_from_zone id ∷ []
      → Buries id (returns qs b)
  unfinished : (e : Error) (b : Body) → Buries id (fails e b)
  crashed : Buries id panics

removed :
    (id : Uuid) (b c : Body) (v : Value) (os : List Ref)
    → apply_payload (actor_remove_from_zone id) b ≡ returns (v, os) c
    → lookup id c.actors_by_id ≡ none
unfolding apply_payload apply_actor_remove location_remove_actor
removed id b c v os q = ground (arith, lookup-delete id id b.actors_by_id)

-- The last event of a list is applied last.
submit_all-last :
    (ps : List Payload) (p : Payload) (s : State) {es : List Event} {t : State}
    → submit_all (ps ++ p ∷ []) s ≡ returns es t
    → (u : State) × Applied p u t
unfolding submit_all
submit_all-last [] p s {es} {t} q =
    let (r, u, done, rest) =
      and_then-eq-returns {B = List Event} (submit p s) (λ r u. returns (r.1 ∷ []) u) q in
    (s, subst (Applied p s) (returns_state rest) (submit-Applied p s done))
submit_all-last (x ∷ ps) p s {es} {t} q =
    let (r, u, done, rest) =
      and_then-eq-returns (submit x s)
        (λ r t. and_then (submit_all (ps ++ p ∷ []) t) λ fs u. returns (r.1 ∷ fs) u) q in
    let (fs, w, later, last) =
      and_then-eq-returns (submit_all (ps ++ p ∷ []) u) (λ fs u. returns (r.1 ∷ fs) u) rest in
    let (m, applied) = submit_all-last ps p u later in
    (m, subst (Applied p m) (returns_state last) applied)

outcome-Gone :
    (id : Uuid) (qs : List Payload) (ps : List Payload) (s : State) (r : Outcome State (List Event))
    → qs ≡ ps ++ actor_remove_from_zone id ∷ []
    → submit_all qs s ≡ r
    → Gone id (and_then {B = Value × List Event} r (λ es t. returns (nothing, es) t))
outcome-Gone id qs ps s (returns es t) h q =
    let (u, (v, os, done)) =
      submit_all-last ps (actor_remove_from_zone id) s (ap (λ l. submit_all l s) (sym h) ∙ q) in
    gone _ t (removed id u.body t.body v os done)
outcome-Gone id qs ps s (fails e t) h q = failed e t
outcome-Gone id qs ps s panics h q = panicked

Buries-Gone :
    (id : Uuid) (r : Outcome Body (List Payload)) (s : State)
    → Buries id r
    → Gone id (
        and_then (back_in r s) (λ ps t.
          and_then {B = Value × List Event} (submit_all ps t) (λ es u. returns (nothing, es) u)))
Buries-Gone id r s (buried ps qs b h) = outcome-Gone id qs ps _ (submit_all qs _) h refl
Buries-Gone id r s (unfinished e b) = failed e _
Buries-Gone id r s crashed = panicked

deref-Buries :
    {A : Type 0} (id : Uuid) (o : Option A) (b : Body) (f : A → M Body (List Payload))
    → ((a : A) → Buries id (f a b))
    → Buries id (and_then (deref o b) f)
deref-Buries id o b f h = deref-rule (Buries id) unfinished crashed o b f h

guard-Buries :
    (id : Uuid) (test : Bool) (e : Error) (b : Body) (f : Unit {0} → M Body (List Payload))
    → Buries id (f tt b)
    → Buries id (and_then (guard test e b) f)
guard-Buries id test e b f h = guard-rule (Buries id) unfinished crashed test e b f h

death_list-Buries :
    (id : Uuid) (d o : Payload) (b : Body) (corpse : Uuid) (ts : List (Ref × Container)) (c : Body)
    → Buries id (returns (d ∷ o ∷ relocations b corpse ts ++ actor_remove_from_zone id ∷ []) c)
death_list-Buries id d o b corpse ts c = buried (d ∷ o ∷ relocations b corpse ts) _ c refl

do_actor_death-Buries : (a : Ref) (b : Body) → Buries (b.actors a).id (do_actor_death a b)
unfolding do_actor_death
do_actor_death-Buries a b = search (deref-Buries, death_list-Buries)

guard-Gone :
    {A : Type 0} (id : Uuid) (test : Bool) (e : Error) (s : State) (f : Unit {0} → M State A)
    → Gone id (f tt s)
    → Gone id (and_then (guard test e s) f)
guard-Gone id test e s f h = guard-rule (Gone id) failed panicked test e s f h

actor_death-Gone : (a : Ref) (s : State) → Gone (s.body.actors a).id (process_actor_death a s)
unfolding process_actor_death
actor_death-Gone a s = search (guard-Gone, Buries-Gone, do_actor_death-Buries)

known_after-Gone :
    (id : Uuid) {A : Type 0} {r : Outcome State A}
    → Gone id r
    → {a : A} {t : State} → r ≡ returns a t
    → lookup id t.body.actors_by_id ≡ none
known_after-Gone id (gone a t h) q =
    ap (λ (u : State). lookup id u.body.actors_by_id) (sym (returns_state q)) ∙ h
known_after-Gone id (failed e t) q = cc
known_after-Gone id panicked q = cc

-- After the death of an actor, if it succeeds, the zone knows no actor under its identifier.
pub process_actor_death-removes :
    (a : Ref) (s : State) {r : Value × List Event} {t : State}
    → process_actor_death a s ≡ returns r t
    → lookup (s.body.actors a).id t.body.actors_by_id ≡ none
process_actor_death-removes a s q = known_after-Gone _ (actor_death-Gone a s) q

first-Buries :
    (id : Uuid) (p : Payload) (r : Outcome Body (List Payload))
    → Buries id r
    → Buries id (and_then r (λ ps b. returns (p ∷ ps) b))
first-Buries id p r (buried ps qs b h) = buried (p ∷ ps) (p ∷ qs) b (ap (λ l. p ∷ l) h)
first-Buries id p r (unfinished e b) = unfinished e b
first-Buries id p r crashed = crashed

death_if-Buries :
    (test : Bool) (a : Ref) (b : Body) → test ≡ true → Buries (b.actors a).id (death_if test a b)
death_if-Buries true a b h = search (deref-Buries, do_actor_death-Buries)
death_if-Buries false a b h = cc

-- The hit of a melee that takes at least what is left of an attribute of its target.
abbrev pub IsFatal : CombatMeleeCommand → Body → Roll → Type 0
IsFatal c b dodged = ⊥
IsFatal c b (hit physical stamina focus) =
    let attrs = (b.actors c.target).attributes in
    (attrs.physical ≤ℤ physical) ⊎ (attrs.stamina ≤ℤ stamina) ⊎ (attrs.focus ≤ℤ focus)

used_up : (a b : ℤ) → a ≤ℤ b → leb_ℤ (a -ℤ b) (pos 0) ≡ true
used_up a b h = ground (arith, -ℤ_parts a b)

is_fatal-used_up :
    (attrs : AttributeSet) (p s f : ℤ)
    → (attrs.physical ≤ℤ p) ⊎ (attrs.stamina ≤ℤ s) ⊎ (attrs.focus ≤ℤ f)
    → is_fatal attrs p s f ≡ true
unfolding is_fatal
is_fatal-used_up attrs p s f (inl h) = rw (used_up attrs.physical p h) refl
is_fatal-used_up attrs p s f (inr (inl h)) = ground (arith, used_up attrs.stamina s h)
is_fatal-used_up attrs p s f (inr (inr h)) = ground (arith, used_up attrs.focus f h)

strike-Buries :
    (c : CombatMeleeCommand) (roll : Roll) (b : Body)
    → IsFatal c b roll
    → Buries (b.actors c.target).id (strike c roll b)
unfolding strike
strike-Buries c dodged b h = absurd h
strike-Buries c (hit physical stamina focus) b h = first-Buries _ _ _ (
    death_if-Buries _ c.target b
      (is_fatal-used_up (b.actors c.target).attributes physical stamina focus h))

melee_payloads-Buries :
    (c : CombatMeleeCommand) (b : Body)
    → IsFatal c b c.roll
    → Buries (b.actors c.target).id (melee_payloads c b)
unfolding melee_payloads
melee_payloads-Buries c b h = search (deref-Buries, guard-Buries, strike-Buries)

combat_melee-Gone :
    (c : CombatMeleeCommand) (s : State)
    → IsFatal c s.body c.roll
    → Gone (s.body.actors c.target).id (process_combat_melee c s)
unfolding process_combat_melee
combat_melee-Gone c s h =
    Buries-Gone _ (melee_payloads c s.body) s (melee_payloads-Buries c s.body h)

-- After a melee whose hit takes at least what is left of the target's physical, stamina or focus
-- attribute, if it succeeds, the zone knows no actor under the target's identifier.
pub process_combat_melee-removes :
    (c : CombatMeleeCommand) (s : State) {r : Value × List Event} {t : State}
    → IsFatal c s.body c.roll
    → process_combat_melee c s ≡ returns r t
    → lookup (s.body.actors c.target).id t.body.actors_by_id ≡ none
process_combat_melee-removes c s h q = known_after-Gone _ (combat_melee-Gone c s h) q
